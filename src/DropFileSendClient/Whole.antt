-- ===== src/DropFileSendClient/Whole.antt =====
-- The sending client as a whole: sendFSEntryMetadata, compressIfNecessary, the constructor and the
-- destructor, and the owners of the files that it sends, which include/client/RAIIFSEntry.hpp has.
use drop_file.InitSessionMessage.{create_send_message}
use drop_file.DropFileReceiveClient.Response.{checked}
use drop_file.Utils.Hash.{calculate_file_hash, Digest}
use drop_file.Json.{JsonLib}
use drop_file.DropFileSendClient.{
  get_receive_code_from_server, err, send, ok, lift, send_fs_entry, receive_ack, Readsome,
}
use drop_file.Network.{Net, Stream}
use drop_file.Zstd.{Library}
use drop_file.RaiiFsEntry.{move_from, RaiiFsEntry}
use drop_file.Outcome.{
  pure, ◌>>=◌, ◌>>◌, unfinished, thrown, filesystem_error, done, throw, Outcome, settled, Action,
}
use drop_file.ArchiveManager.{create_archive, join_paths, Entries}
use drop_file.Common.{
  ℕ, Bool, true, false, Option, none, some, [], if◌then◌else◌, Bytes, bytes_eq, length,
}

-- The client's connection, and the files by path.
pub record Sender : Type 0 where
  pub socket : Stream
  pub files : Bytes → Option Bytes

-- The machine of the sender. remove_all is taken not to throw, which in a destructor would end the
-- program, and so are the looks at a path: `directory` and `exists`. `what` is the text of a json exception.
pub record Machine : Type 0 where
  pub sender_tmp_dir : Bytes
  pub filename : Bytes → Bytes
  pub directory : Bytes → Sender → Option Entries
  pub exists : Bytes → Sender → Bool
  pub remove_all : Bytes → (Bytes → Option Bytes) → Bytes → Option Bytes
  pub create_directories : Bytes → (Bytes → Option Bytes) → Option (Bytes → Option Bytes)
  pub what : Bytes

abbrev pub on_sender {ℓ} : {A : Type ℓ} → Action Stream A → Action Sender A
on_sender m s = settled (λ t. record s { socket = t }) (m s.socket)

abbrev pub with_file : Bytes → Bytes → Sender → Sender
with_file path content s = record s {
  files = λ q. if bytes_eq q path then some content else s.files q;
}

module _ (machine : Machine) where
  -- The destructor of RAIIFSEntry.
  abbrev pub destroyed : RaiiFsEntry → Sender → Sender
  destroyed e s =
      if e.should_remove then record s { files = machine.remove_all e.path s.files } else s

  abbrev pub destroy : RaiiFsEntry → Action Sender (Unit {0})
  destroy e s = done tt (destroyed e s)

  -- An owner that goes out of scope, and one that only an exception ends.
  abbrev pub owned {ℓ} : {A : Type ℓ} → RaiiFsEntry → Outcome Sender A → Outcome Sender A
  owned e (done a s) = done a (destroyed e s)
  owned e (thrown x s) = thrown x (destroyed e s)
  owned e unfinished = unfinished

  abbrev pub guarded {ℓ} : {A : Type ℓ} → RaiiFsEntry → Outcome Sender A → Outcome Sender A
  guarded e (done a s) = done a s
  guarded e (thrown x s) = thrown x (destroyed e s)
  guarded e unfinished = unfinished

  abbrev pub made_directories : Option (Bytes → Option Bytes) → Action Sender (Unit {0})
  made_directories none = throw filesystem_error
  made_directories (some files) = λ s. done tt (record s { files = files })

  -- The constructor and the destructor.
  unfoldable pub open_sender : Action Sender (Unit {0})
  open_sender s =
      let t : Sender = record s { files = machine.remove_all machine.sender_tmp_dir s.files } in
      made_directories (machine.create_directories machine.sender_tmp_dir t.files) t

  unfoldable pub close_sender : Sender → Sender
  close_sender s = record s { files = machine.remove_all machine.sender_tmp_dir s.files }

  abbrev pub archive_path : Bytes → Bytes
  archive_path path = join_paths machine.sender_tmp_dir (machine.filename path)

  module _ (z : Library) (calls : ℕ) (format_number : ℕ → Bytes) where
    -- createArchive; what was written before an exception stays in the file.
    abbrev pub write_archive : Bytes → Entries → Bytes → Action Sender (Unit {0})
    write_archive path entries new_path s =
        let there = machine.exists new_path s in
        settled (λ archive. if there then s else with_file new_path archive.content s)
          (create_archive z calls format_number path (machine.filename path) entries there new_path
            (record { content = []; position = 0 }))

    abbrev pub compressed_entry : Bytes → Option Entries → Action Sender (RaiiFsEntry × Bool)
    compressed_entry path none = do
      let (result, dir_entry) = move_from (record { path = path; should_remove = false })
      destroy dir_entry
      pure (result, false)
    compressed_entry path (some entries) = do
      let new_path = archive_path path
      write_archive path entries new_path
      let (dir_entry, temporary) = move_from (record { path = new_path; should_remove = true })
      destroy temporary
      let (result, left) = move_from dir_entry
      destroy left
      pure (result, true)

    unfoldable pub compress_if_necessary : Bytes → Action Sender (RaiiFsEntry × Bool)
    compress_if_necessary path s = compressed_entry path (machine.directory path s) s

  module _ {J : Type 0} (net : Net) (json : JsonLib J) (evp : Digest) where
    -- createSendMessage of a file, with what calculateFileHash returned or threw.
    abbrev pub message_with :
        Bytes → Bool → Bool → Bytes → Outcome (Unit {0}) Bytes → Action Sender J
    message_with path is_compressed there content (done hash _) = lift (
        create_send_message json path there (machine.filename path) (length content) (ok hash)
          is_compressed)
    message_with path is_compressed there content (thrown e _) = lift (
        create_send_message json path there (machine.filename path) (length content) (err e)
          is_compressed)
    message_with path is_compressed there content unfinished = λ _. unfinished

    -- file_size throws where there is no regular file; where there is nothing, it is not reached.
    abbrev pub message_of : Bytes → Bool → Bool → Option Bytes → Action Sender J
    message_of path is_compressed there none =
        if there
        then throw filesystem_error
        else lift
            (create_send_message json path false (machine.filename path) 0 (ok []) is_compressed)
    message_of path is_compressed there (some content) =
        message_with path is_compressed there content
          (calculate_file_hash evp path (some content) tt)

    abbrev pub send_message : Bytes → Bool → Action Sender J
    send_message path is_compressed s =
        message_of path is_compressed (machine.exists path s) (s.files path) s

    -- What sendFSEntryMetadata does with its entry.
    unfoldable pub announce : Bytes → Bool → Action Sender Bytes
    announce path is_compressed = do
      message_json ← send_message path is_compressed
      message ← lift (checked (json.dump message_json))
      on_sender (send net message)
      on_sender (get_receive_code_from_server net json machine.what)

    abbrev pub announced : RaiiFsEntry × Bool → Action Sender (RaiiFsEntry × Bytes)
    announced (fs_entry, is_compressed) s = guarded fs_entry (
        (announce fs_entry.path is_compressed >>= λ receive_code.
        let (result, left) = move_from fs_entry in destroy left >> pure (result, receive_code))
          s)

    module _ (z : Library) (calls : ℕ) where
      unfoldable pub send_fs_entry_metadata : Bytes → Action Sender (RaiiFsEntry × Bytes)
      send_fs_entry_metadata path =
          compress_if_necessary z calls net.format_number path >>= announced

  module _ (net : Net) (available : Readsome) where
    abbrev pub send_open_file : ℕ → Option Bytes → Action Sender (Unit {0})
    send_open_file fuel none = do on_sender (receive_ack net); throw filesystem_error
    send_open_file fuel (some content) = λ s.
        settled (λ t. record s { socket = t.socket })
          (send_fs_entry net available fuel (record { socket = s.socket; file = content }))

    -- sendFSEntry owns its argument.
    unfoldable pub send_owned : ℕ → RaiiFsEntry → Action Sender (Unit {0})
    send_owned fuel data_source s =
        owned data_source (send_open_file fuel (s.files data_source.path) s)

module _ {J : Type 0} (machine : Machine) (net : Net) (json : JsonLib J) (evp : Digest)
    (z : Library) (calls : ℕ) (available : Readsome) where
  -- The two calls that a user of the client makes; the code is shown in between.
  unfoldable pub send_path : ℕ → Bytes → Action Sender (Unit {0})
  send_path fuel path = do
    (fs_entry, receive_code) ← send_fs_entry_metadata machine net json evp z calls path
    send_owned machine net available fuel fs_entry

  -- The destructor of the client, on every way out.
  abbrev pub closed : Outcome Sender (Unit {0}) → Outcome Sender (Unit {0})
  closed (done a s) = done a (close_sender machine s)
  closed (thrown x s) = thrown x (close_sender machine s)
  closed unfinished = unfinished

  -- The life of a sending client: where its constructor throws, there is nothing to destruct.
  unfoldable pub run_sending : ℕ → Bytes → Action Sender (Unit {0})
  run_sending fuel path = open_sender machine >>= λ _ s. closed (send_path fuel path s)
