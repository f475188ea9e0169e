-- ===== src/Tests/Codec/Packing.antt =====
-- The properties of zstd.cpp and of the ArchiveManager on small files and a small tree.
use drop_file.FsEntryInfo.{write_compressed_length, write_to_stream, new_entry}
use drop_file.ArchiveManager.RoundTrip.{unpack_archive-create_archive, unpack_archive_lem}
use drop_file.Tests.Wire.{wire_format}
use drop_file.Zstd.Compress.{compress_lem, compress_unended, Packed}
use drop_file.FsEntryInfo.Writes.{appended}
use drop_file.ArchiveManager.Stores.{restore, IsUnpackException}
use drop_file.Tests.Codec.{codec, codec-Laws}
use drop_file.Zstd.Laws.{IsZstdException}
use drop_file.ArchiveManager.Creates.{create_archive_lem, IsArchiveException, IsPackable}
use drop_file.ArchiveManager.Format.{items_of, header_of, made_directory, made_file, Archived, Item}
use drop_file.ArchiveManager.{
  join_paths, add_file, add_directory, no_entries, pack_entries, unpack_archive, folder,
  pack_directory, regular_file, entry, create_archive, FileSystem, Entries,
}
use drop_file.Zstd.{compress_chunk, compress_loop, decompress, compress, Pipes}
use drop_file.FsEntryInfo.Format.{entry_header}
use drop_file.Socket.Header.{le_bytes}
use drop_file.Streams.{read, write, ahead, InputStream, OutputStream}
use drop_file.Common.{
  ℕ, ◌≡◌, refl, sym, true, false, Option, none, some, List, [], ◌∷◌, ◌++◌, append-nil, arith, Bytes,
  length, take, drop,
}
use drop_file.Outcome.{Ensures, done}
use drop_file.Zstd.Decompress.{Unpacked, decompress_lem}

abbrev stream_of : Bytes → InputStream
stream_of d = record { content = d; position = 0; failed = false }

abbrev empty : OutputStream
empty = record { content = []; position = 0 }

abbrev abcde : Pipes
abcde = record { input = stream_of (97 ∷ 98 ∷ 99 ∷ 100 ∷ 101 ∷ []); output = empty }

abbrev abcd : Pipes
abcd = record { input = stream_of (97 ∷ 98 ∷ 99 ∷ 100 ∷ []); output = empty }

compress_lem_example :
    Ensures IsZstdException
      (Packed codec codec-Laws (ahead abcde.input) empty)
      (compress codec 7 5 abcde)
unfolding drop codec-Laws
compress_lem_example =
    compress_lem codec codec-Laws 7 abcde refl refl (λ h. absurd (omega (arith, h))) (omega arith)

compress_unended_example :
    Ensures IsZstdException
      (λ _ q. (zs : Bytes) × (q.output ≡ appended zs empty) × (codec-Laws.decoded zs ≡ none))
      (compress codec 7 5 abcd)
unfolding drop codec-Laws
compress_unended_example = compress_unended codec codec-Laws 7 abcd refl refl refl (omega arith)

-- The size of the packed form, with what is behind it.
abbrev packed : Pipes
packed = record { input = stream_of (1 ∷ 97 ∷ 98 ∷ 7 ∷ 7 ∷ []); output = empty }

decompress_lem_example :
    Ensures IsZstdException
      (Unpacked codec codec-Laws 3 (97 ∷ 98 ∷ []) packed)
      (decompress codec 4 5 3 packed)
unfolding drop take codec-Laws
decompress_lem_example =
    decompress_lem codec codec-Laws 4 3 (97 ∷ 98 ∷ []) packed refl refl (omega arith) refl
      (omega arith)

-- A directory d with the file a, and the directory e with the empty file b.
abbrev tree : Entries
tree =
    entry (97 ∷ []) (regular_file (some (120 ∷ 121 ∷ [])))
      (entry (101 ∷ []) (folder (entry (98 ∷ []) (regular_file (some [])) no_entries)) no_entries)

tree-IsPackable : IsPackable 4 tree
unfolding IsPackable
tree-IsPackable = (λ h. absurd (omega (arith, h)), ((λ h. refl, tt), tt))

abbrev home : Bytes
home = 47 ∷ 100 ∷ []

abbrev d_name : Bytes
d_name = 100 ∷ []

create_archive_lem_example :
    Ensures IsArchiveException
      (λ _ t. Archived codec-Laws (made_directory d_name ∷ items_of d_name tree) t.content)
      (create_archive codec 5 wire_format home d_name tree false home empty)
unfolding codec-Laws
create_archive_lem_example =
    create_archive_lem codec codec-Laws wire_format home d_name home tree tree-IsPackable

abbrev logged : List Item → Option Bytes
logged [] = none
logged (made_directory path ∷ is) = logged is
logged (made_file path content ∷ is) = some content

-- The disk is the list of what was stored, and the archive is its last file.
abbrev log : FileSystem
log = record {
  Disk = List Item;
  exists = λ path disk. some true;
  content = λ path disk. logged disk;
  create_directories = λ path disk. some (made_directory path ∷ disk);
  open_output = λ path disk. some disk;
  written = λ path content disk. made_file path content ∷ disk;
}

abbrev header : ℕ → Bytes → ℕ → Bytes
header is_directory path size =
    le_bytes 1 is_directory ++ (le_bytes 8 (length path) ++ (path ++ le_bytes 8 size))

abbrev archive : Bytes
archive =
    entry_header (header_of 1 d_name 0)
    ++ (entry_header (header_of 0 (100 ∷ 47 ∷ 97 ∷ []) 3) ++ (1 ∷ 120 ∷ 121 ∷ []))

abbrev items : List Item
items = made_directory d_name ∷ made_file (100 ∷ 47 ∷ 97 ∷ []) (120 ∷ 121 ∷ []) ∷ []

archive-Archived : Archived codec-Laws items archive
unfolding codec-Laws
archive-Archived = (
  entry_header (header_of 1 d_name 0),
  _,
  (omega arith, refl),
  (_, [], (omega arith, (1 ∷ 120 ∷ 121 ∷ [], refl, refl)), refl, sym (append-nil _)),
  refl,
)

abbrev disk : List Item
disk = made_file [] archive ∷ []

unpack_archive_lem_example :
    Ensures IsUnpackException
      (λ _ d. restore log home items disk ≡ some d)
      (unpack_archive codec 5 wire_format log home [] disk)
unfolding entry_header le_bytes codec-Laws
unpack_archive_lem_example =
    unpack_archive_lem codec codec-Laws wire_format log home [] archive disk items refl refl refl
      archive-Archived (omega arith)

abbrev ab_tree : Entries
ab_tree = entry (97 ∷ []) (regular_file (some (120 ∷ 121 ∷ []))) no_entries

ab_tree-IsPackable : IsPackable 4 ab_tree
unfolding IsPackable
ab_tree-IsPackable = (λ h. absurd (omega (arith, h)), tt)

abbrev built : OutputStream
built = record { content = archive; position = 41 }

built_by_create_archive :
    create_archive codec 5 wire_format home d_name ab_tree false home empty ≡ done tt built
unfolding entry_header le_bytes create_archive pack_directory pack_entries add_directory add_file
    new_entry write_to_stream write_compressed_length write compress compress_loop compress_chunk
    read take drop join_paths
built_by_create_archive = refl

unpack_archive-create_archive_example :
    Ensures IsUnpackException
      (λ _ d. restore log home (made_directory d_name ∷ items_of d_name ab_tree) disk ≡ some d)
      (unpack_archive codec 5 wire_format log home [] disk)
unfolding entry_header le_bytes codec-Laws
unpack_archive-create_archive_example =
    unpack_archive-create_archive codec codec-Laws wire_format log home d_name home home [] ab_tree
      built disk ab_tree-IsPackable built_by_create_archive refl refl refl (omega arith)
