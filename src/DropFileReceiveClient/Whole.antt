-- ===== src/DropFileReceiveClient/Whole.antt =====
-- DropFileReceiveClient::receiveFile as a whole, handleCompressedFile, and the constructor and the
-- destructor, which empty the directory for archives.
use drop_file.InitSessionMessage.{
  file_hash_key, file_size_key, is_compressed_key, filename_key, create_receive_message,
}
use drop_file.DropFileReceiveClient.Response.{key_of, checked}
use drop_file.Outcome.{◌>>=◌, ◌>>◌, filesystem_error, Action}
use drop_file.Zstd.{Library}
use drop_file.DropFileReceiveClient.{
  validate_file_hash, receive_file_impl, get_user_confirmation, get_server_response, send,
  on_socket, pure, lift, done, put_file, Digest, thrown, JsonLib, Outcome, exists, Client,
}
use drop_file.ArchiveManager.{unpack_archive, FileSystem, join_paths}
use drop_file.Network.{Net}
use drop_file.Common.{ℕ, Bool, Option, none, some, [], if◌then◌else◌, Bytes}

-- The machine of the receiver: std::filesystem beyond the files of `Client`. `none` is an error.
pub record Machine : Type 0 where
  pub current_path : Bytes
  pub receiver_tmp_dir : Bytes
  pub free : Bool → Option ℕ
  pub create_directories : Bytes → Client → Option Client
  pub remove : Bytes → Client → Option Client
  pub remove_all : Bytes → Client → Option Client

-- The disk of the machine, as ArchiveManager uses it.
abbrev pub disk_of : Machine → FileSystem
disk_of machine = record {
  Disk = Client;
  exists = exists;
  content = λ path c. c.files path;
  create_directories = machine.create_directories;
  open_output = λ path c. if c.opens path then some (put_file path (some []) c) else none;
  written = λ path content c. put_file path (some content) c;
}

abbrev pub replaced : Option Client → Client → Outcome Client (Unit {0})
replaced none c = thrown filesystem_error c
replaced (some d) c = done tt d

-- A call of std::filesystem that changes the disk.
abbrev pub changes_disk : (Client → Option Client) → Action Client (Unit {0})
changes_disk f c = replaced (f c) c

module _ (machine : Machine) where
  -- The constructor.
  unfoldable pub open_client : Action Client (Unit {0})
  open_client = do
    changes_disk (machine.remove_all machine.receiver_tmp_dir)
    changes_disk (machine.create_directories machine.receiver_tmp_dir)

  -- The destructor.
  unfoldable pub close_client : Action Client (Unit {0})
  close_client = changes_disk (machine.remove_all machine.receiver_tmp_dir)

  abbrev pub receive_path : Bool → Bytes → Bytes
  receive_path is_compressed filename =
      join_paths (if is_compressed then machine.receiver_tmp_dir else machine.current_path) filename

  module _ (z : Library) (calls : ℕ) (format_number : ℕ → Bytes) where
    unfoldable pub handle_compressed_file : Bool → Bytes → Action Client (Unit {0})
    handle_compressed_file is_compressed path =
        if is_compressed
        then (unpack_archive z calls format_number (disk_of machine) machine.current_path path
            >> changes_disk (machine.remove path))
        else pure tt

module _ {J : Type 0} (net : Net) (json : JsonLib J) (evp : Digest) (machine : Machine) where
  unfoldable pub store_file : ℕ → J → Bool → Bytes → ℕ → Action Client (Bool × Bytes)
  store_file fuel server_response is_compressed path file_size = do
    receive_file_impl net fuel path file_size
    file_hash ← lift (key_of net json json.get_string file_hash_key server_response)
    validate_file_hash evp path file_hash
    pure (is_compressed, path)

  -- receiveFile behind the confirmation, up to the check of the hash: whether the file is an archive,
  -- and where it is.
  unfoldable pub store_response : ℕ → J → Action Client (Bool × Bytes)
  store_response fuel server_response = do
    filename ← lift (key_of net json json.get_string filename_key server_response)
    is_compressed ← lift (key_of net json json.get_bool is_compressed_key server_response)
    let path = receive_path machine is_compressed filename
    file_size ← lift (key_of net json json.get_size file_size_key server_response)
    store_file fuel server_response is_compressed path file_size

  unfoldable pub receive_and_validate : ℕ → Bytes → Action Client (Bool × Bytes)
  receive_and_validate fuel code_words = do
    message ← lift (checked (json.dump (create_receive_message json code_words)))
    on_socket (send net message)
    server_response ← get_server_response net json machine.free
    get_user_confirmation net
    store_response fuel server_response

  module _ (z : Library) (calls : ℕ) where
    unfoldable pub client_receive_file : ℕ → Bytes → Action Client (Unit {0})
    client_receive_file fuel code_words = do
      (is_compressed, path) ← receive_and_validate fuel code_words
      handle_compressed_file machine z calls net.format_number is_compressed path
