-- ===== src/DropFileReceiveClient/Response.antt =====
-- What the receiving client makes of the server's response.
use drop_file.Utils.{bytes_to_human_readable}
use drop_file.InitSessionMessage.{file_size_key, filename_key, is_compressed_key}
use drop_file.Outcome.{Exception, json_exception, drop_file_receive_exception, filesystem_error}
use drop_file.Common.{ℕ, Bool, not, Option, none, some, ◌++◌, ltb, Bytes, text}
use drop_file.Result.{Result, ok, err, ◌>>=◌, ◌>>◌, require}
use drop_file.Network.{Net}
use drop_file.Json.{JsonLib, read_field}

abbrev pub already_exists : Bytes → Bytes → Exception
already_exists kind path =
    drop_file_receive_exception (kind ++ (text " " ++ (path ++ text " already exists!")))

abbrev pub checked {ℓ} : {A : Type ℓ} → Option A → Result A
checked none = err json_exception
checked (some a) = ok a

-- std::filesystem::exists and std::filesystem::space throw where the file system fails.
abbrev pub or_filesystem_error {ℓ} : {A : Type ℓ} → Option A → Result A
or_filesystem_error none = err filesystem_error
or_filesystem_error (some a) = ok a

-- The catch clause of getServerResponse.
abbrev pub recovered {ℓ} : {A : Type ℓ} → Bytes → Result A → Result A
recovered received (ok a) = ok a
recovered received (err json_exception) =
    err (drop_file_receive_exception (text "Error, server response: " ++ received))
recovered received (err e) = err e

module _ {J : Type 0} (net : Net) (json : JsonLib J) where
  abbrev pub key_of {ℓ} : {A : Type ℓ} → (J → Option A) → Bytes → J → Result A
  key_of get key j = checked (read_field get (json.find key j))

  -- `found` says whether a path exists, `free` is the free space of the directory for the file; both
  -- may fail.
  unfoldable pub assert_json_properties :
      (Bytes → Option Bool) → (Bool → Option ℕ) → J → Result (Unit {0})
  assert_json_properties found free j = do
    filename ← key_of json.get_string filename_key j
    there ← or_filesystem_error (found filename)
    require (not there) (already_exists (text "Directory") filename)
    is_compressed ← key_of json.get_bool is_compressed_key j
    space ← or_filesystem_error (free is_compressed)
    file_size ← key_of json.get_size file_size_key j
    require (not (ltb space file_size))
        (drop_file_receive_exception (text "Not enough disk space to receive this file."))

  unfoldable pub parse_response : (Bytes → Option Bool) → (Bool → Option ℕ) → Bytes → Result J
  parse_response found free received = do
    j ← checked (json.parse received)
    _ ← key_of json.get_bool is_compressed_key j
    _ ← key_of json.get_string filename_key j
    file_size ← key_of json.get_size file_size_key j
    _ ← bytes_to_human_readable net.format_number file_size
    assert_json_properties found free j
    ok j

  unfoldable pub answer : (Bytes → Option Bool) → (Bool → Option ℕ) → Bytes → Result J
  answer found free received = recovered received (parse_response found free received)
