-- ===== src/DropFileSendClient/Removes.antt =====
-- The parts of the sending client, and the files outside the client's own directory.
use drop_file.DropFileReceiveClient.Response.{checked}
use drop_file.InitSessionMessage.{create_send_message}
use drop_file.DropFileSendClient.{
  send_fs_entry, receive_ack, send, Readsome, get_receive_code_from_server,
}
use drop_file.Utils.Hash.{calculate_file_hash, Digest}
use drop_file.Json.{JsonLib}
use drop_file.Network.{Net, Stream}
use drop_file.Result.{err, ok, lift, Result}
use drop_file.RaiiFsEntry.{RaiiFsEntry}
use drop_file.Outcome.{
  filesystem_error, throw, Leaves-bind, unfinished, thrown, Action, Leaves, done, settled, Outcome,
}
use drop_file.DropFileSendClient.Whole.{
  send_owned, with_file, send_open_file, send_message, message_with, message_of, announce, owned,
  on_sender, destroyed, Machine, Sender,
}
use drop_file.Common.{
  ℕ, ◌≡◌, refl, sym, ap, ◌∙◌, inl, inr, Bool, true, false, Option, none, some, Bool-cases,
  if◌then◌else◌, Bytes, bytes_eq, bytes_eq→eq, [],
}

-- What std::filesystem does to the files: remove_all removes what is at a path or below it, and
-- create_directories touches no file.
pub record IsTree (machine : Machine) : Type 0 where
  pub under : Bytes → Bytes → Bool
  pub removes :
      (d q : Bytes) (files : Bytes → Option Bytes)
      → machine.remove_all d files q ≡ (if under d q then none else files q)
  pub creates :
      (d q : Bytes) (files made : Bytes → Option Bytes)
      → machine.create_directories d files ≡ some made
      → made q ≡ files q
  pub under_trans : (d p q : Bytes) → under d p ≡ true → under p q ≡ true → under d q ≡ true

module _ (machine : Machine) (tree : IsTree machine) (before : Bytes → Option Bytes) where
  -- Outside the client's directory the files are as before.
  abbrev pub Kept : Sender → Type 0
  Kept s = (q : Bytes) → tree.under machine.sender_tmp_dir q ≡ false → s.files q ≡ before q

  abbrev pub Keeps {ℓ} : {A : Type ℓ} → Outcome Sender A → Type 0
  Keeps o = Leaves Kept o

  -- What the owner removes is in the client's directory.
  abbrev pub Owns : RaiiFsEntry → Type 0
  Owns e = e.should_remove ≡ true → tree.under machine.sender_tmp_dir e.path ≡ true

  settled-Keeps {ℓ κ} :
      {T : Type κ} {A : Type ℓ} (put : T → Sender) (o : Outcome T A)
      → ((x : T) → Kept (put x))
      → Keeps (settled put o)
  settled-Keeps put (done a x) h = h x
  settled-Keeps put (thrown e x) h = h x
  settled-Keeps put unfinished h = tt

  lift-Keeps {ℓ} : {A : Type ℓ} (a : Result A) (s : Sender) → Kept s → Keeps (lift a s)
  lift-Keeps (ok a) s h = h
  lift-Keeps (err e) s h = h

  on_sender-Keeps {ℓ} :
      {A : Type ℓ} (m : Action Stream A) (s : Sender) → Kept s → Keeps (on_sender m s)
  on_sender-Keeps m s h = settled-Keeps (λ t. record s { socket = t }) (m s.socket) (λ x. h)

  removed-Kept :
      (p : Bytes) (s : Sender)
      → tree.under machine.sender_tmp_dir p ≡ true
      → Kept s
      → (q : Bytes) → tree.under machine.sender_tmp_dir q ≡ false
      → machine.remove_all p s.files q ≡ before q
  removed-Kept p s own h q outside = tree.removes p q s.files ∙ elim (Bool-cases (tree.under p q)) [
    | inl below ↦
        let k = tree.under_trans machine.sender_tmp_dir p q own below in
        let wrong : true ≡ false = sym k ∙ outside in cc
    | inr apart ↦ rw apart (h q outside)
  ]

  pub destroyed-Kept :
      (b : Bool) (p : Bytes) (s : Sender)
      → Owns (record { path = p; should_remove = b })
      → Kept s
      → Kept (destroyed machine (record { path = p; should_remove = b }) s)
  destroyed-Kept true p s own h = removed-Kept p s (own refl) h
  destroyed-Kept false p s own h = h

  owned-Keeps {ℓ} :
      {A : Type ℓ} (e : RaiiFsEntry) (o : Outcome Sender A)
      → Owns e
      → Keeps o
      → Keeps (owned machine e o)
  owned-Keeps e (done a s) own h = destroyed-Kept e.should_remove e.path s own h
  owned-Keeps e (thrown x s) own h = destroyed-Kept e.should_remove e.path s own h
  owned-Keeps e unfinished own h = tt

  pub with_file-Kept :
      (there : Bool) (path content : Bytes) (s : Sender)
      → tree.under machine.sender_tmp_dir path ≡ true
      → Kept s
      → Kept (if there then s else with_file path content s)
  with_file-Kept true path content s own h = h
  with_file-Kept false path content s own h = λ q outside. elim (Bool-cases (bytes_eq q path)) [
    | inl same ↦
        let k = ap (tree.under machine.sender_tmp_dir) (bytes_eq→eq q path same) in
        let wrong : true ≡ false = sym own ∙ sym k ∙ outside in cc
    | inr other ↦ rw other (h q outside)
  ]

  module _ {J : Type 0} (net : Net) (json : JsonLib J) (evp : Digest) where
    message_of-Keeps :
        (path : Bytes) (b there : Bool) (content : Option Bytes) (s : Sender)
        → Kept s
        → Keeps (message_of machine net json evp path b there content s)
    message_of-Keeps path b true none s h = h
    message_of-Keeps path b false none s h =
        lift-Keeps (create_send_message json path false (machine.filename path) 0 (ok []) b) s h
    message_of-Keeps path b there (some content) s h =
        go (calculate_file_hash evp path (some content) tt)
      where
        go :
            (o : Outcome (Unit {0}) Bytes)
            → Keeps (message_with machine net json evp path b there content o s)
        go (done hash u) = lift-Keeps _ s h
        go (thrown e u) = lift-Keeps _ s h
        go unfinished = tt

    pub announce-Keeps :
        (path : Bytes) (b : Bool) (s : Sender)
        → Kept s
        → Keeps (announce machine net json evp path b s)
    unfolding announce
    announce-Keeps path b s h =
        Leaves-bind Kept (send_message machine net json evp path b s) _
          (message_of-Keeps path b (machine.exists path s) (s.files path) s h)
          (λ j t _ ht.
            Leaves-bind Kept (lift (checked (json.dump j)) t) _
              (lift-Keeps (checked (json.dump j)) t ht)
              (λ message u _ hu.
                Leaves-bind Kept (on_sender (send net message) u) _
                  (on_sender-Keeps (send net message) u hu)
                  (λ _ v _ hv.
                    on_sender-Keeps (get_receive_code_from_server net json machine.what) v hv)))

  module _ (net : Net) (available : Readsome) where
    send_open_file-Keeps :
        (fuel : ℕ) (content : Option Bytes) (s : Sender)
        → Kept s
        → Keeps (send_open_file machine net available fuel content s)
    send_open_file-Keeps fuel none s h =
        Leaves-bind Kept (on_sender (receive_ack net) s) (λ _. throw filesystem_error)
          (on_sender-Keeps (receive_ack net) s h) (λ _ t _ k. k)
    send_open_file-Keeps fuel (some content) s h =
        settled-Keeps (λ t. record s { socket = t.socket })
          (send_fs_entry net available fuel (record { socket = s.socket; file = content })) (λ x. h)

    pub send_owned-Keeps :
        (fuel : ℕ) (e : RaiiFsEntry) (s : Sender)
        → Owns e
        → Kept s
        → Keeps (send_owned machine net available fuel e s)
    unfolding send_owned
    send_owned-Keeps fuel e s own h =
        owned-Keeps e (send_open_file machine net available fuel (s.files e.path) s) own
          (send_open_file-Keeps fuel (s.files e.path) s h)
