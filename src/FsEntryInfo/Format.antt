-- ===== src/FsEntryInfo/Format.antt =====
-- The bytes of an archive entry: what writeToStream puts into the archive, and readFromStream takes.
use drop_file.Socket.Header.{le_value-le_bytes_one, le_value-le_bytes, length-le_bytes}
use drop_file.FsEntryInfo.{
  le_value, header_size, done, le_bytes, get_remaining_bytes, path_max_len, read_from_stream,
  FsEntryInfo,
}
use drop_file.Common.{
  ℕ, ◌+◌, ◌-◌, ◌%◌, ◌^◌, ◌≤◌, ◌<◌, ◌≡◌, refl, ap, ◌∙◌, false, ◌++◌, append_assoc, arith,
  le→ltb_false, Bytes, text, length, length-append,
}
use drop_file.Streams.{InputStream, ahead}
use drop_file.FsEntryInfo.Reads.{read_whole-front, skipped, ahead-skipped}

-- One byte, the length of the path, the path, and the length of the compressed file behind it.
unfoldable pub entry_header : FsEntryInfo → Bytes
entry_header e =
    le_bytes 1 e.is_directory
    ++ (le_bytes header_size (length e.relative_path)
        ++ (e.relative_path ++ le_bytes header_size e.compressed_length))

-- What can be written: a byte, a path of a legal length, and a std::size_t.
pub record IsEntry (e : FsEntryInfo) : Type 0 where
  pub byte : e.is_directory < 256
  pub path_fits : length e.relative_path ≤ path_max_len
  pub length_fits : e.compressed_length < 2 ^ 64

pub length-entry_header : (e : FsEntryInfo) → length (entry_header e) ≡ 17 + length e.relative_path
unfolding entry_header
length-entry_header e = omega (
  arith,
  length-append (le_bytes 1 e.is_directory) (
      le_bytes header_size (length e.relative_path)
      ++ (e.relative_path ++ le_bytes header_size e.compressed_length)),
  length-append (le_bytes header_size (length e.relative_path))
      (e.relative_path ++ le_bytes header_size e.compressed_length),
  length-append e.relative_path (le_bytes header_size e.compressed_length),
  length-le_bytes 1 e.is_directory,
  length-le_bytes 8 (length e.relative_path),
  length-le_bytes 8 e.compressed_length,
)

pub entry_header-append :
    (e : FsEntryInfo) (rest : Bytes)
    → entry_header e ++ rest
      ≡ le_bytes 1 e.is_directory
        ++ (le_bytes header_size (length e.relative_path)
            ++ (e.relative_path ++ (le_bytes header_size e.compressed_length ++ rest)))
unfolding entry_header
entry_header-append e rest =
    let d = le_bytes 1 e.is_directory in
    let n = le_bytes header_size (length e.relative_path) in
    let c = le_bytes header_size e.compressed_length in
    append_assoc d (n ++ (e.relative_path ++ c)) rest
    ∙ ap (◌++◌ d) (
        append_assoc n (e.relative_path ++ c) rest
        ∙ ap (◌++◌ n) (append_assoc e.relative_path c rest))

module _ (format_number : ℕ → Bytes) where
  -- From a good stream whose next bytes are the header of an entry, with at least its compressed
  -- length behind them, readFromStream reads that entry and stops behind its header.
  pub read_from_stream-entry_header :
      (e : FsEntryInfo) (rest : Bytes) (total : ℕ) (s : InputStream)
      → IsEntry e
      → s.failed ≡ false
      → ahead s ≡ entry_header e ++ rest
      → total < 2 ^ 64
      → s.position + length (entry_header e) + e.compressed_length ≤ total
      → read_from_stream format_number total s ≡ done e (skipped (length (entry_header e)) s)
  unfolding read_from_stream get_remaining_bytes
  read_from_stream-entry_header e rest total s w good at fits enough =
      let len = length e.relative_path in
      let path_bytes = le_bytes header_size len in
      let size_bytes = le_bytes header_size e.compressed_length in
      let tail2 = e.relative_path ++ (size_bytes ++ rest) in
      let s1 = skipped 1 s in
      let s2 = skipped 8 s1 in
      let s3 = skipped len s2 in
      let s4 = skipped 8 s3 in
      let at0 : ahead s ≡ le_bytes 1 e.is_directory ++ (path_bytes ++ tail2) =
        at ∙ entry_header-append e rest in
      let at1 : ahead s1 ≡ path_bytes ++ tail2 =
        ahead-skipped (le_bytes 1 e.is_directory) _ 1 s (length-le_bytes 1 e.is_directory) at0 in
      let at2 : ahead s2 ≡ tail2 = ahead-skipped path_bytes _ 8 s1 (length-le_bytes 8 len) at1 in
      let at3 : ahead s3 ≡ size_bytes ++ rest = ahead-skipped e.relative_path _ len s2 refl at2 in
      let len_is : le_value path_bytes ≡ len = le_value-le_bytes len (omega (arith, w.path_fits)) in
      let size_is : le_value size_bytes ≡ e.compressed_length =
        le_value-le_bytes e.compressed_length w.length_fits in
      let byte_is : le_value (le_bytes 1 e.is_directory) ≡ e.is_directory =
        le_value-le_bytes_one e.is_directory w.byte in
      let left : (total + 2 ^ 64 - s4.position) % 2 ^ 64 ≡ total - s4.position =
        omega (arith, length-entry_header e) in
      rw (read_whole-front _ _ _ 1 s good (length-le_bytes 1 e.is_directory) at0) (
        rw
          (
            read_whole-front _ _ _ 8 s1 good (length-le_bytes 8 len) at1,
            len_is,
            le→ltb_false path_max_len len w.path_fits,
            read_whole-front e.relative_path _ (text "Could not read whole path.") len s2 good refl
                at2,
            read_whole-front size_bytes _ (text "Could not read compressed length.") 8 s3 good
                (length-le_bytes 8 e.compressed_length) at3,
            good,
            size_is,
            byte_is,
            left,
          )
          (ground (arith, length-entry_header e)))
