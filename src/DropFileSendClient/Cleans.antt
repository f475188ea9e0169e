-- ===== src/DropFileSendClient/Cleans.antt =====
-- What a sending client leaves of the files: its constructor, its destructor and the owner of an archive
-- remove what is in the client's own directory, on every way out.
use drop_file.ArchiveManager.{create_archive, Entries}
use drop_file.Zstd.{Library}
use drop_file.Streams.{OutputStream}
use drop_file.DropFileSendClient.{pure, Readsome}
use drop_file.Utils.Hash.{Digest}
use drop_file.Json.{JsonLib}
use drop_file.Network.{Net}
use drop_file.RaiiFsEntry.{RaiiFsEntry}
use drop_file.Outcome.{◌>>◌, unfinished, bind, thrown, Leaves, done, settled, Outcome}
use drop_file.DropFileSendClient.Removes.{
  IsTree, Kept, Keeps, Owns, announce-Keeps, send_owned-Keeps, destroyed-Kept, with_file-Kept,
}
use drop_file.DropFileSendClient.Whole.{
  destroy, compress_if_necessary, send_fs_entry_metadata, guarded, write_archive, compressed_entry,
  send_path, announced, send_owned, with_file, archive_path, announce, Machine, Sender, closed,
  close_sender, open_sender, run_sending, made_directories,
}
use drop_file.Common.{
  ℕ, ◌≡◌, refl, ap, ◌∙◌, inl, inr, Bool, true, false, Option, none, some, Bool-cases, [],
  if◌then◌else◌, Bytes,
}

module _ {J : Type 0} (machine : Machine) (tree : IsTree machine) (net : Net) (json : JsonLib J)
    (evp : Digest) (z : Library) (calls : ℕ) (available : Readsome) (path : Bytes)
    (own : tree.under machine.sender_tmp_dir (archive_path machine path) ≡ true)
    (before : Bytes → Option Bytes) where
  -- The entry that compressIfNecessary returns.
  abbrev Entered : Outcome Sender (RaiiFsEntry × Bool) → Type 0
  Entered (done (e, b) s) = Owns machine tree before e × Kept machine tree before s
  Entered (thrown x s) = Kept machine tree before s
  Entered unfinished = Unit

  write_archive-Keeps :
      (entries : Entries) (s : Sender)
      → Kept machine tree before s
      → Keeps machine tree before (
          write_archive machine z calls net.format_number path entries
            (archive_path machine path)
            s)
  write_archive-Keeps entries s h =
      let new_path = archive_path machine path in
      let there = machine.exists new_path s in
      go there (
        create_archive z calls net.format_number path (machine.filename path) entries there new_path
          (record { content = []; position = 0 }))
    where
      go :
          (there : Bool) (o : Outcome OutputStream (Unit {0}))
          → Keeps machine tree before (
              settled
                (λ archive.
                  if there then s else with_file (archive_path machine path) archive.content s)
                o)
      go there (done a t) =
          with_file-Kept machine tree before there (archive_path machine path) t.content s own h
      go there (thrown x t) =
          with_file-Kept machine tree before there (archive_path machine path) t.content s own h
      go there unfinished = tt

  compressed_entry-Entered :
      (directory : Option Entries) (s : Sender)
      → Kept machine tree before s
      → Entered (compressed_entry machine z calls net.format_number path directory s)
  compressed_entry-Entered none s h = ((λ wrong. cc), h)
  compressed_entry-Entered (some entries) s h =
      go
        (write_archive machine z calls net.format_number path entries (archive_path machine path) s)
        (write_archive-Keeps entries s h)
    where
      go :
          (o : Outcome Sender (Unit {0}))
          → Keeps machine tree before o
          → Entered (
              bind o (λ _.
                destroy machine (record { path = archive_path machine path; should_remove = false })
                >> (destroy machine
                      (record { path = archive_path machine path; should_remove = false })
                    >> pure
                        (record { path = archive_path machine path; should_remove = true }, true))))
      go (done a t) k = ((λ _. own), k)
      go (thrown x t) k = k
      go unfinished k = tt

  announced-Keeps :
      (fuel : ℕ) (e : RaiiFsEntry) (b : Bool) (s : Sender)
      → Owns machine tree before e
      → Kept machine tree before s
      → Keeps machine tree before (
          bind
            (announced machine net json evp (e, b) s)
            (λ p. send_owned machine net available fuel p.0))
  announced-Keeps fuel e b s owns h =
      go (announce machine net json evp e.path b s)
        (announce-Keeps machine tree before net json evp e.path b s h)
    where
      go :
          (o : Outcome Sender Bytes)
          → Keeps machine tree before o
          → Keeps machine tree before (
              bind
                (guarded machine e (
                  bind {B = RaiiFsEntry × Bytes} o (λ receive_code.
                    destroy machine (record { path = e.path; should_remove = false })
                    >> pure (e, receive_code))))
                (λ p. send_owned machine net available fuel p.0))
      go (done code t) k = send_owned-Keeps machine tree before net available fuel e t owns k
      go (thrown x t) k = destroyed-Kept machine tree before e.should_remove e.path t owns k
      go unfinished k = tt

  send_path-Keeps :
      (fuel : ℕ) (s : Sender)
      → Kept machine tree before s
      → Keeps machine tree before (send_path machine net json evp z calls available fuel path s)
  unfolding send_path send_fs_entry_metadata compress_if_necessary
  send_path-Keeps fuel s h =
      go (compressed_entry machine z calls net.format_number path (machine.directory path s) s)
        (compressed_entry-Entered (machine.directory path s) s h)
    where
      go :
          (o : Outcome Sender (RaiiFsEntry × Bool))
          → Entered o
          → Keeps machine tree before (
              bind
                (bind o (announced machine net json evp))
                (λ p. send_owned machine net available fuel p.0))
      go (done (e, b) t) (owns, k) = announced-Keeps fuel e b t owns k
      go (thrown x t) k = k
      go unfinished k = tt

  -- Nothing is left in the client's directory, and all else is as before.
  abbrev pub IsClean : Sender → Type 0
  IsClean t =
      (q : Bytes) → t.files q ≡ (if tree.under machine.sender_tmp_dir q then none else before q)

  emptied-IsClean :
      (s : Sender)
      → Kept machine tree before s
      → (q : Bytes)
      → machine.remove_all machine.sender_tmp_dir s.files q
        ≡ (if tree.under machine.sender_tmp_dir q then none else before q)
  emptied-IsClean s h q =
      tree.removes machine.sender_tmp_dir q s.files
      ∙ elim (Bool-cases (tree.under machine.sender_tmp_dir q)) [
        | inl below ↦ rw below refl
        | inr apart ↦ rw apart (h q apart)
      ]

  closed-IsClean :
      (o : Outcome Sender (Unit {0}))
      → Keeps machine tree before o
      → Leaves IsClean (closed machine net json evp z calls available o)
  unfolding close_sender
  closed-IsClean (done a s) h = emptied-IsClean s h
  closed-IsClean (thrown x s) h = emptied-IsClean s h
  closed-IsClean unfinished h = tt

  opened-IsClean :
      (fuel : ℕ) (s : Sender) (made : Option (Bytes → Option Bytes))
      → IsClean s
      → machine.create_directories machine.sender_tmp_dir s.files ≡ made
      → Leaves IsClean (
          bind (made_directories machine made s) (λ _ t.
            closed machine net json evp z calls available
              (send_path machine net json evp z calls available fuel path t)))
  opened-IsClean fuel s none clean e = clean
  opened-IsClean fuel s (some files) clean e =
      let t : Sender = record s { files = files } in
      closed-IsClean (send_path machine net json evp z calls available fuel path t) (
        send_path-Keeps fuel t (λ q outside.
          tree.creates machine.sender_tmp_dir q s.files files e ∙ clean q ∙ rw outside refl))

  -- However a sending client ends, in its constructor, by an exception or normally: if the path of an
  -- archive that it makes lies in its own directory, no file is left there, and all other files are as
  -- before. It is given that remove_all removes what is at a path or below it, and does not fail, and
  -- that create_directories touches no file.
  pub run_sending_lem :
      (fuel : ℕ) (s : Sender)
      → s.files ≡ before
      → Leaves IsClean (run_sending machine net json evp z calls available fuel path s)
  unfolding run_sending open_sender
  run_sending_lem fuel s same =
      let t : Sender = record s { files = machine.remove_all machine.sender_tmp_dir s.files } in
      opened-IsClean fuel t (machine.create_directories machine.sender_tmp_dir t.files)
        (emptied-IsClean s (λ q outside. ap (λ f. f q) same)) refl
