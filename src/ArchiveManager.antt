-- ===== src/ArchiveManager.antt =====
-- include/client/ArchiveManager.hpp and src/client/ArchiveManager.cpp. The progress bar is left out.
pub mod Format
pub mod Creates
pub mod Stores
pub mod Unpacks
pub mod RoundTrip
use drop_file.FsEntryInfo.{
  read_from_stream, FsEntryInfo, get_remaining_bytes, write_compressed_length, write_to_stream,
  new_entry,
}
use drop_file.Streams.{InputStream, OutputStream}
use drop_file.Zstd.{decompress, compress, Library}
use drop_file.Common.{
  ℕ, zero, suc, ◌+◌, ◌-◌, ◌*◌, ◌/◌, ◌%◌, ◌^◌, ◌≤◌, ◌<◌, min, ◌≡◌, refl, sym, ap, subst, ◌∙◌, ◌≢◌,
  ◌↔◌, ◌⊎◌, inl, inr, ite, if_pos, if_neg, Bool, true, false, not, ◌&&◌, ◌||◌, Option, none, some,
  List, [], ◌∷◌, ◌++◌, map, append-nil, append_assoc, arith, dec_lt, dec_le, ltb, leb, ◌==◌,
  if◌then◌else◌, ltb→lt, lt→ltb, le→ltb_false, Bool-cases, Option-cases, Bytes, text, bytes_eq,
  bytes_eq_refl, bytes_eq→eq, bytes_eq_iff, ne→bytes_eq_false, length, take, drop, length-append,
  All, take-append-drop, length-take, length-drop, take_all, drop_all, take-append_le,
  take-append_ge, drop-append_ge, drop-drop, take_front, drop_front, take_split,
}
use drop_file.Result.{lift}
use drop_file.Outcome.{
  Action, Exception, Outcome, archive_manager_exception, filesystem_error, pure, settled, throw,
  thrown, unfinished, ◌>>=◌, ◌>>◌,
}

-- What a directory holds, in the order in which directory_iterator gives it. A file whose content
-- is `none` cannot be opened; `other` is neither a directory nor a regular file. At `unreadable` the
-- iterator, or the look at the next entry, throws.
mutual
  pub data Node : Type 0 where
    regular_file : Option Bytes → Node
    folder : Entries → Node
    other : Node

  pub data Entries : Type 0 where
    no_entries : Entries
    unreadable : Entries
    entry : Bytes → Node → Entries → Entries

-- `/` of std::filesystem::path: an absolute right side replaces the left one.
abbrev pub ends_with_separator : Bytes → Bool
ends_with_separator [] = true
ends_with_separator (b ∷ []) = b == 47
ends_with_separator (b ∷ c ∷ bs) = ends_with_separator (c ∷ bs)

abbrev pub is_absolute : Bytes → Bool
is_absolute [] = false
is_absolute (b ∷ bs) = b == 47

unfoldable pub join_paths : Bytes → Bytes → Bytes
join_paths a b =
    if is_absolute b then b else if ends_with_separator a then a ++ b else a ++ (47 ∷ b)

abbrev pub cannot_open_input : Bytes → Exception
cannot_open_input path = archive_manager_exception (text "Failed to open input file: " ++ path)

abbrev pub open_input : Bytes → Option Bytes → Action OutputStream Bytes
open_input file_path none = throw (cannot_open_input file_path)
open_input file_path (some content) = pure content

module _ (format_number : ℕ → Bytes) where
  unfoldable pub add_directory : Bytes → Action OutputStream (Unit {0})
  add_directory relative_path = do
    info ← lift (new_entry format_number true relative_path)
    _ ← write_to_stream format_number info
    pure tt

module _ (z : Library) (calls : ℕ) where
  -- zstd::compress of a file that was just opened, with a round for each of its bytes and two.
  abbrev pub compress_file : Bytes → Action OutputStream ℕ
  compress_file content archive =
      settled (λ p. p.output)
        (compress z (length content + 2) calls (record {
          input = record { content = content; position = 0; failed = false };
          output = archive;
        }))

module _ (z : Library) (calls : ℕ) (format_number : ℕ → Bytes) where
  unfoldable pub add_file : Bytes → Option Bytes → Bytes → Action OutputStream (Unit {0})
  add_file file_path input_file relative_path = do
    file_info ← lift (new_entry format_number false relative_path)
    pos_to_write_compressed_size ← write_to_stream format_number file_info
    content ← open_input file_path input_file
    bytes_written ← compress_file z calls content
    write_compressed_length pos_to_write_compressed_size bytes_written

  -- The loop of packDirectory; the clause of a directory in it is packDirectory itself.
  unfoldable mutual
    pub pack_entries : Bytes → Entries → Bytes → Action OutputStream (Unit {0})
    pack_entries dir_to_compress no_entries relative_path = pure tt
    pack_entries dir_to_compress unreadable relative_path = throw filesystem_error
    pack_entries dir_to_compress (entry filename node entries) relative_path =
        pack_node (join_paths dir_to_compress filename) node (join_paths relative_path filename)
        >> pack_entries dir_to_compress entries relative_path

    pub pack_node : Bytes → Node → Bytes → Action OutputStream (Unit {0})
    pack_node current (folder entries) new_relative =
        add_directory format_number new_relative >> pack_entries current entries new_relative
    pack_node current (regular_file content) new_relative = add_file current content new_relative
    pack_node current other new_relative = pure tt

  unfoldable pub pack_directory : Bytes → Entries → Bytes → Action OutputStream (Unit {0})
  pack_directory dir_to_compress entries relative_path =
      add_directory format_number relative_path
      >> pack_entries dir_to_compress entries relative_path

  abbrev pub exists_already : Bytes → Exception
  exists_already path =
      archive_manager_exception
        (text "File that you try to unpackArchive to (" ++ (path ++ text ") already exists!"))

  -- The state is the new archive. `path` is the directory of the manager, `filename` its last part.
  unfoldable pub create_archive :
      Bytes → Bytes → Entries → Bool → Bytes → Action OutputStream (Unit {0})
  create_archive path filename entries exists new_archive_path =
      if exists
      then throw (exists_already new_archive_path)
      else pack_directory path entries filename

-- What unpacking uses of std::filesystem and of the file streams; `Disk` is all that lies on the
-- disk.
pub record FileSystem : Type 1 where
  pub Disk : Type 0
  -- `none` is an error.
  pub exists : Bytes → Disk → Option Bool
  -- The bytes of a regular file: file_size throws for anything else.
  pub content : Bytes → Disk → Option Bytes
  -- create_directories, which may throw
  pub create_directories : Bytes → Disk → Option Disk
  -- An ofstream, if it is open, truncates its file.
  pub open_output : Bytes → Disk → Option Disk
  -- What was written to an open ofstream from its beginning on.
  pub written : Bytes → Bytes → Disk → Disk

abbrev pub cannot_open_output : Bytes → Exception
cannot_open_output path =
    archive_manager_exception (text "Failed to open output decompressed_file: " ++ path)

abbrev pub no_directory : Bytes → Exception
no_directory path =
    archive_manager_exception (
      text "Directory that you try to unpack archive into (" ++ (path ++ text ") does not exists!"))

abbrev pub no_archive : Bytes → Exception
no_archive path =
    archive_manager_exception (text "Given archive " ++ (path ++ text " does not exists!"))

module _ (fs : FileSystem) where
  pub record Unpacking : Type 0 where
    pub archive : InputStream
    pub disk : fs.Disk

  abbrev pub on_archive {ℓ} : {A : Type ℓ} → Action InputStream A → Action Unpacking A
  on_archive m u = settled (λ s. record u { archive = s }) (m u.archive)

  abbrev pub updated : Exception → Unpacking → Option fs.Disk → Outcome Unpacking (Unit {0})
  updated e u none = thrown e u
  updated e u (some disk) = pure tt (record u { disk = disk })

  abbrev pub update_disk : Exception → (fs.Disk → Option fs.Disk) → Action Unpacking (Unit {0})
  update_disk e f u = updated e u (f u.disk)

module _ (z : Library) (calls : ℕ) (fs : FileSystem) where
  -- What was written before an exception stays in the file.
  unfoldable pub decompress_file : Bytes → ℕ → Action (Unpacking fs) ℕ
  decompress_file path compressed_length u =
      settled (λ p. record { archive = p.input; disk = fs.written path p.output.content u.disk })
        (decompress z (suc compressed_length) calls compressed_length
          (record { input = u.archive; output = record { content = []; position = 0 } }))

  unfoldable pub unpack_file : Bytes → FsEntryInfo → Action (Unpacking fs) (Unit {0})
  unpack_file directory entry_info = do
    let path = join_paths directory entry_info.relative_path
    update_disk fs (cannot_open_output path) (fs.open_output path)
    _ ← decompress_file path entry_info.compressed_length
    pure tt

  unfoldable pub unpack_entry : Bytes → FsEntryInfo → Action (Unpacking fs) (Unit {0})
  unpack_entry directory entry_info =
      if not (entry_info.is_directory == 0)
      then update_disk fs filesystem_error
          (fs.create_directories (join_paths directory entry_info.relative_path))
      else unpack_file directory entry_info

module _ (z : Library) (calls : ℕ) (format_number : ℕ → Bytes) (fs : FileSystem) where
  -- Fuel: one round for each byte of the archive, and one.
  unfoldable pub unpack_loop : ℕ → Bytes → ℕ → Action (Unpacking fs) (Unit {0})
  unpack_loop zero directory archive_size = λ _. unfinished
  unpack_loop (suc fuel) directory archive_size = do
    remaining ← on_archive fs (get_remaining_bytes archive_size)
    let more = (do
      entry_info ← on_archive fs (read_from_stream format_number archive_size)
      unpack_entry z calls fs directory entry_info
      unpack_loop fuel directory archive_size)
    if ltb 0 remaining then more else pure tt

  abbrev pub unpack_content : Bytes → Option Bytes → Action fs.Disk (Unit {0})
  unpack_content directory none = throw filesystem_error
  unpack_content directory (some content) = λ disk.
      settled (λ u. u.disk)
        (unpack_loop (suc (length content)) directory (length content) (record {
          archive = record { content = content; position = 0; failed = false };
          disk = disk;
        }))

  -- `if (!exists(...)) throw ...;`, where exists may throw itself.
  abbrev pub unless_missing : Exception → Option Bool → Action fs.Disk (Unit {0})
  unless_missing e none = throw filesystem_error
  unless_missing e (some false) = throw e
  unless_missing e (some true) = pure tt

  unfoldable pub unpack_archive : Bytes → Bytes → Action fs.Disk (Unit {0})
  unpack_archive directory archive_path disk =
      (unless_missing (no_directory archive_path) (fs.exists directory disk)
          >> (unless_missing (no_archive archive_path) (fs.exists archive_path disk)
              >> unpack_content directory (fs.content archive_path disk)))
        disk
