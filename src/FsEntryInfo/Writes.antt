-- ===== src/FsEntryInfo/Writes.antt =====
-- FSEntryInfo::writeToStream and writeCompressedLength.
use drop_file.Socket.Header.{length-le_bytes}
use drop_file.Outcome.{done}
use drop_file.FsEntryInfo.{
  cannot_write, thrown, header_size, path_max_len, le_bytes, FsEntryInfo, write_compressed_length,
  write_to_stream,
}
use drop_file.Common.{
  ℕ, ◌+◌, ◌≤◌, ◌<◌, ◌≡◌, refl, sym, ap, ◌∙◌, ◌++◌, append-nil, append_assoc, arith, lt→ltb,
  le→ltb_false, Bytes, length, take, drop, length-append, take_all, drop_all, drop-drop, take_front,
  drop_front,
}
use drop_file.Streams.{OutputStream, write}
use drop_file.FsEntryInfo.Format.{entry_header, entry_header-append}

abbrev pub IsAtEnd : OutputStream → Type 0
IsAtEnd s = s.position ≡ length s.content

-- The stream after `d` was written at its end.
abbrev pub appended : Bytes → OutputStream → OutputStream
appended d s = record { content = s.content ++ d; position = s.position + length d }

pub appended-IsAtEnd : (d : Bytes) (s : OutputStream) → IsAtEnd s → IsAtEnd (appended d s)
appended-IsAtEnd d s h = omega (arith, length-append s.content d)

pub appended-appended :
    (a b : Bytes) (s : OutputStream) → appended b (appended a s) ≡ appended (a ++ b) s
appended-appended a b s = ground (arith, append_assoc s.content a b, length-append a b)

pub write-appended : (d : Bytes) (s : OutputStream) → IsAtEnd s → write d s ≡ done tt (appended d s)
unfolding write
write-appended d s h =
    rw
      (
        take_all s.position s.content (omega arith),
        drop_all (s.position + length d) s.content (omega arith),
        append-nil d,
      )
      refl

-- Writing over a part of the same length.
write-over :
    (a b c d : Bytes) (s : OutputStream)
    → s.content ≡ a ++ (b ++ c)
    → s.position ≡ length a
    → length b ≡ length d
    → write d s ≡ done tt (record { content = a ++ (d ++ c); position = s.position + length d })
unfolding write
write-over a b c d s e at len =
    let front : take s.position s.content ≡ a =
      ap (take s.position) e ∙ take_front a (b ++ c) s.position (sym at) in
    let back : drop (s.position + length d) s.content ≡ c =
      sym (drop-drop (length d) s.position s.content)
      ∙ ap (λ x. drop (length d) (drop s.position x)) e
      ∙ ap (drop (length d)) (drop_front a (b ++ c) s.position (sym at))
      ∙ drop_front b c (length d) len in
    rw (front, back) refl

module _ (format_number : ℕ → Bytes) where
  -- At the end of a stream, an entry whose path is not too long is written as its header, and the
  -- result is the place of the last 8 bytes of that.
  pub write_to_stream-entry_header :
      (e : FsEntryInfo) (s : OutputStream)
      → length e.relative_path ≤ path_max_len
      → IsAtEnd s
      → write_to_stream format_number e s
        ≡ done (s.position + 9 + length e.relative_path) (appended (entry_header e) s)
  unfolding write_to_stream entry_header
  write_to_stream-entry_header e s fits end =
      let d = le_bytes 1 e.is_directory in
      let n = le_bytes header_size (length e.relative_path) in
      let c = le_bytes header_size e.compressed_length in
      let s1 = appended d s in
      let s2 = appended n s1 in
      let s3 = appended e.relative_path s2 in
      let end1 = appended-IsAtEnd d s end in
      let end2 = appended-IsAtEnd n s1 end1 in
      let end3 = appended-IsAtEnd e.relative_path s2 end2 in
      let place : s3.position ≡ s.position + 9 + length e.relative_path =
        omega
          (arith, length-le_bytes 1 e.is_directory, length-le_bytes 8 (length e.relative_path)) in
      rw
        (
          write-appended d s end,
          le→ltb_false path_max_len (length e.relative_path) fits,
          write-appended n s1 end1,
          write-appended e.relative_path s2 end2,
          write-appended c s3 end3,
        )
        (ap (λ p. done p (appended c s3)) place
          ∙ ap (done (s.position + 9 + length e.relative_path)) (
              appended-appended e.relative_path c s2
              ∙ appended-appended n (e.relative_path ++ c) s1
              ∙ appended-appended d (n ++ (e.relative_path ++ c)) s))

  -- A path that is too long is refused, but the byte before it is written already.
  pub write_to_stream_too_long :
      (e : FsEntryInfo) (s : OutputStream)
      → path_max_len < length e.relative_path
      → IsAtEnd s
      → write_to_stream format_number e s
        ≡ thrown
            (cannot_write format_number (length e.relative_path))
            (appended (le_bytes 1 e.is_directory) s)
  unfolding write_to_stream
  write_to_stream_too_long e s long end =
      rw
        (
          write-appended (le_bytes 1 e.is_directory) s end,
          lt→ltb path_max_len (length e.relative_path) long,
        )
        refl

-- The header up to the compressed length.
abbrev header_front : FsEntryInfo → Bytes
header_front e =
    le_bytes 1 e.is_directory ++ (le_bytes header_size (length e.relative_path) ++ e.relative_path)

length-header_front : (e : FsEntryInfo) → length (header_front e) ≡ 9 + length e.relative_path
length-header_front e = omega (
  arith,
  length-append (le_bytes 1 e.is_directory)
      (le_bytes header_size (length e.relative_path) ++ e.relative_path),
  length-append (le_bytes header_size (length e.relative_path)) e.relative_path,
  length-le_bytes 1 e.is_directory,
  length-le_bytes 8 (length e.relative_path),
)

header_split :
    (e : FsEntryInfo) (before behind : Bytes)
    → before ++ (entry_header e ++ behind)
      ≡ (before ++ header_front e) ++ (le_bytes header_size e.compressed_length ++ behind)
header_split e before behind =
    let d = le_bytes 1 e.is_directory in
    let m = le_bytes header_size (length e.relative_path) in
    let end = le_bytes header_size e.compressed_length ++ behind in
    ap (◌++◌ before) (
      entry_header-append e behind
      ∙ ap (◌++◌ d) (sym (append_assoc m e.relative_path end))
      ∙ sym (append_assoc d (m ++ e.relative_path) end))
    ∙ sym (append_assoc before (header_front e) end)

-- The compressed length in the header of an entry is replaced, and nothing else changes.
pub write_compressed_length_lem :
    (e : FsEntryInfo) (n : ℕ) (before data' : Bytes) (s : OutputStream)
    → s.content ≡ before ++ (entry_header e ++ data')
    → write_compressed_length (length before + 9 + length e.relative_path) n s
      ≡ done tt (record {
        content = before ++ (entry_header (record e { compressed_length = n }) ++ data');
        position = length s.content;
      })
unfolding write_compressed_length
write_compressed_length_lem e n before data' s at =
    let patched = record e { compressed_length = n } in
    let front = before ++ header_front e in
    let old = le_bytes header_size e.compressed_length in
    let new = le_bytes header_size n in
    let pos = length before + 9 + length e.relative_path in
    let here : pos ≡ length front =
      omega (arith, length-append before (header_front e), length-header_front e) in
    let cut : s.content ≡ front ++ (old ++ data') = at ∙ header_split e before data' in
    let glue : front ++ (new ++ data') ≡ before ++ (entry_header patched ++ data') =
      sym (header_split patched before data') in
    let sizes : length old ≡ length new =
      length-le_bytes 8 e.compressed_length ∙ sym (length-le_bytes 8 n) in
    let size : length (front ++ (new ++ data')) ≡ length s.content = omega (
      arith,
      ap length cut,
      sizes,
      length-append front (old ++ data'),
      length-append front (new ++ data'),
      length-append old data',
      length-append new data',
    ) in
    rw (write-over front old data' new (record s { position = pos }) cut here sizes) (
      ap (λ k. done tt (record { content = front ++ (new ++ data'); position = k })) size
      ∙ ap (λ x. done tt (record { content = x; position = length s.content })) glue)
