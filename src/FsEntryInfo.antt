-- ===== src/FsEntryInfo.antt =====
-- include/client/FSEntryInfo.hpp and src/client/FSEntryInfo.cpp, and getRemainingBytes of
-- src/Utils.cpp.
pub mod Reads
pub mod Format
pub mod Writes
pub mod Untrusted
use drop_file.Socket.Header.{le_value, le_bytes, header_size}
use drop_file.Result.{ok, err, Result}
use drop_file.Outcome.{
  throw, pure, ◌>>=◌, ◌>>◌, done, utils_exception, thrown, fs_entry_info_exception, Exception,
  Action,
}
use drop_file.Common.{
  ℕ, ◌+◌, ◌-◌, ◌%◌, ◌^◌, Bool, true, false, ◌++◌, ltb, ◌==◌, if◌then◌else◌, Bytes, text, length,
}
use drop_file.Streams.{InputStream, OutputStream, read, write, tellp, seekp, seekp_end}

-- `is_directory` is the byte that represents the bool: readFromStream copies it from the stream.
pub record FsEntryInfo : Type 0 where
  pub is_directory : ℕ
  pub relative_path : Bytes
  pub compressed_length : ℕ

-- PATH_MAX_LEN
abbrev pub path_max_len : ℕ
path_max_len = 4096

abbrev pub byte_of : Bool → ℕ
byte_of true = 1
byte_of false = 0

-- The position of a stream that has failed is -1; the difference of two std::size_t wraps around.
unfoldable pub get_remaining_bytes : ℕ → Action InputStream ℕ
get_remaining_bytes total_stream_length s =
    if s.failed
    then thrown (utils_exception (text "Could not retrieve stream's current position")) s
    else done ((total_stream_length + 2 ^ 64 - s.position) % 2 ^ 64) s

-- A read that must give all of its bytes.
unfoldable pub read_whole : ℕ → Bytes → Action InputStream Bytes
read_whole n message = do
  got ← read n
  if length got == n then pure got else throw (fs_entry_info_exception message)

module _ (format_number : ℕ → Bytes) where
  abbrev path_too_long : Bytes → Exception
  path_too_long path = fs_entry_info_exception (
      path
      ++ (text " path is longer than allowed ("
          ++ (format_number (length path)
              ++ (text ">" ++ (format_number path_max_len ++ text ")")))))

  unfoldable pub new_entry : Bool → Bytes → Result FsEntryInfo
  new_entry is_directory relative_path =
      if ltb path_max_len (length relative_path)
      then err (path_too_long relative_path)
      else ok (record {
        is_directory = byte_of is_directory;
        relative_path = relative_path;
        compressed_length = 0;
      })

  abbrev pub length_exceeds : ℕ → Exception
  length_exceeds path_length = fs_entry_info_exception (
      text "Path length exceeds maximum available value ("
      ++ (format_number path_length ++ (text " > " ++ (format_number path_max_len ++ text ")"))))

  abbrev size_exceeds : ℕ → ℕ → Exception
  size_exceeds compressed_length left_size = fs_entry_info_exception (
      text "Entry's size exceeds remaining data's size ("
      ++ (format_number compressed_length ++ (text " > " ++ (format_number left_size ++ text ")"))))

  unfoldable pub read_from_stream : ℕ → Action InputStream FsEntryInfo
  read_from_stream total_stream_size = do
    is_directory ← read_whole 1 (text "Could not read type of dir entry.")
    path_length ← read_whole header_size (text "Could not read path length.")
    if ltb path_max_len (le_value path_length)
        then throw (length_exceeds (le_value path_length))
        else pure tt
    relative_path ← read_whole (le_value path_length) (text "Could not read whole path.")
    compressed_length ← read_whole header_size (text "Could not read compressed length.")
    left_size ← get_remaining_bytes total_stream_size
    if ltb left_size (le_value compressed_length)
        then throw (size_exceeds (le_value compressed_length) left_size)
        else pure (record {
          is_directory = le_value is_directory;
          relative_path = relative_path;
          compressed_length = le_value compressed_length;
        })

  abbrev pub cannot_write : ℕ → Exception
  cannot_write path_len = fs_entry_info_exception (
      text "Cannot write path to stream (too long! "
      ++ (format_number path_len ++ (text " > " ++ (format_number path_max_len ++ text ")"))))

  -- The result is where the compressed length stands.
  unfoldable pub write_to_stream : FsEntryInfo → Action OutputStream ℕ
  write_to_stream entry = do
    write (le_bytes 1 entry.is_directory)
    if ltb path_max_len (length entry.relative_path)
        then throw (cannot_write (length entry.relative_path))
        else pure tt
    write (le_bytes header_size (length entry.relative_path))
    write entry.relative_path
    pos_to_write_compressed_size ← tellp
    write (le_bytes header_size entry.compressed_length)
    pure pos_to_write_compressed_size

unfoldable pub write_compressed_length : ℕ → ℕ → Action OutputStream (Unit {0})
write_compressed_length pos total_written = do
  seekp pos
  write (le_bytes header_size total_written)
  seekp_end
