-- ===== src/ArchiveManager/Creates.antt =====
-- createArchive: what it puts into the archive.
use drop_file.Zstd.{Pipes}
use drop_file.Zstd.Compress.{compress_lem, Packed}
use drop_file.FsEntryInfo.Format.{length-entry_header, entry_header}
use drop_file.FsEntryInfo.Writes.{
  write_compressed_length_lem, write_to_stream-entry_header, appended-appended, appended-IsAtEnd,
  appended, IsAtEnd,
}
use drop_file.ArchiveManager.Format.{
  items_of_node, items_of, made_file, Archived-one, header_of, made_directory, Archived-append,
  Archived, Item,
}
use drop_file.Zstd.Laws.{Packs, IsZstdException, Laws}
use drop_file.Common.{
  ℕ, ◌+◌, ◌%◌, ◌≤◌, ◌≡◌, refl, sym, ap, subst, ◌∙◌, false, none, some, List, [], ◌∷◌, ◌++◌,
  append-nil, append_assoc, arith, dec_le, lt→ltb, le→ltb_false, Bytes, length, drop, length-append,
}
use drop_file.FsEntryInfo.{path_max_len, new_entry}
use drop_file.Outcome.{
  bind, Ensures-map, Ensures-weaken, Ensures-settled, Ensures-bind, Ensures, zstd_exception,
  fs_entry_info_exception, archive_manager_exception, filesystem_error,
}
use drop_file.ArchiveManager.{
  pack_node, join_paths, pack_directory, Action, Outcome, pack_entries, create_archive, compress,
  write_compressed_length, compress_file, InputStream, add_file, no_entries, unreadable,
  add_directory, folder, new_entry, regular_file, OutputStream, Node, add_directory, entry,
  Exception, Library, Entries, other,
}

abbrev pub IsArchiveException : Exception → Type 0
IsArchiveException (zstd_exception t) = Unit {0}
IsArchiveException (fs_entry_info_exception t) = Unit {0}
IsArchiveException (archive_manager_exception t) = Unit {0}
IsArchiveException filesystem_error = Unit {0}
IsArchiveException _ = ⊥

IsZstdException→IsArchiveException : (e : Exception) → IsZstdException e → IsArchiveException e
IsZstdException→IsArchiveException (zstd_exception t) h = tt
IsZstdException→IsArchiveException _ h = absurd h

-- No file whose size is a positive multiple of the size of the library's buffer.
unfoldable mutual
  pub IsPackable : ℕ → Entries → Type 0
  IsPackable in_size no_entries = Unit {0}
  IsPackable in_size unreadable = Unit {0}
  IsPackable in_size (entry name node entries) =
      IsPackableNode in_size node × IsPackable in_size entries

  pub IsPackableNode : ℕ → Node → Type 0
  IsPackableNode in_size (regular_file none) = Unit {0}
  IsPackableNode in_size (regular_file (some content)) =
      length content % in_size ≡ 0 → length content ≡ 0
  IsPackableNode in_size (folder entries) = IsPackable in_size entries
  IsPackableNode in_size other = Unit {0}

module _ (z : Library) (l : Laws z) (format_number : ℕ → Bytes) where
  -- The items were put at the end of the archive.
  abbrev pub Added : List Item → OutputStream → Unit {0} → OutputStream → Type 0
  Added is s _ t = (bytes : Bytes) × (t ≡ appended bytes s) × Archived l is bytes

  Added-append :
      (is js : List Item) (s t u : OutputStream)
      → Added is s tt t
      → Added js t tt u
      → Added (is ++ js) s tt u
  Added-append is js s t u (a, ea, ha) (b, eb, hb) =
      (a ++ b, eb ∙ ap (appended b) ea ∙ appended-appended a b s, Archived-append l is js a b ha hb)

  Added-IsAtEnd : (is : List Item) (s t : OutputStream) → IsAtEnd s → Added is s tt t → IsAtEnd t
  Added-IsAtEnd is s t end (a, ea, ha) = subst IsAtEnd (sym ea) (appended-IsAtEnd a s end)

  add_directory_lem :
      (path : Bytes) (s : OutputStream)
      → IsAtEnd s
      → Ensures IsArchiveException
          (Added (made_directory path ∷ []) s)
          (add_directory format_number path s)
  unfolding add_directory new_entry
  add_directory_lem path s end = elim (dec_le (length path) path_max_len) [
    | no long ↦ rw (lt→ltb path_max_len (length path) (omega arith)) tt
    | yes fits ↦
        rw
          (
            le→ltb_false path_max_len (length path) fits,
            write_to_stream-entry_header format_number (header_of 1 path 0) s fits end,
          )
          (
            entry_header (header_of 1 path 0),
            refl,
            Archived-one l (made_directory path) _ (fits, refl),
          )
  ]

  -- A file's data was packed at the end of the archive.
  abbrev PackedBehind : Bytes → OutputStream → ℕ → OutputStream → Type 0
  PackedBehind content t n u =
      (zs : Bytes) × (u ≡ appended zs t) × (n ≡ length zs) × Packs l content zs

  compress_file_lem :
      (content : Bytes) (t : OutputStream)
      → IsAtEnd t
      → (length content % z.in_size ≡ 0 → length content ≡ 0)
      → Ensures IsArchiveException (PackedBehind content t) (compress_file z l.calls content t)
  unfolding drop
  compress_file_lem content t end part =
      let input : InputStream = record { content = content; position = 0; failed = false } in
      let p : Pipes = record { input = input; output = t } in
      let o = compress z (length content + 2) l.calls p in
      Ensures-settled IsArchiveException (Packed z l content t) (PackedBehind content t)
        (λ q. q.output) o
        (Ensures-weaken IsZstdException IsArchiveException (Packed z l content t) o
          (compress_lem z l (length content + 2) p refl end part (omega arith))
          IsZstdException→IsArchiveException)
        (λ n q m. m)

  finish_file :
      (content path : Bytes) (s : OutputStream) (n : ℕ) (u : OutputStream)
      → IsAtEnd s
      → length path ≤ path_max_len
      → PackedBehind content (appended (entry_header (header_of 0 path 0)) s) n u
      → Ensures IsArchiveException
          (Added (made_file path content ∷ []) s)
          (write_compressed_length (s.position + 9 + length path) n u)
  finish_file content path s n u end fits (zs, e, size, packed) =
      let head = header_of 0 path 0 in
      let patched = header_of 0 path n in
      let bytes = entry_header patched ++ zs in
      let laid : u.content ≡ s.content ++ (entry_header head ++ zs) =
        ap (λ o. o.content) e ∙ append_assoc s.content (entry_header head) zs in
      let long : length u.content ≡ length s.content + length bytes = omega (
        arith,
        ap length laid,
        length-append s.content (entry_header head ++ zs),
        length-append (entry_header head) zs,
        length-append (entry_header patched) zs,
        length-entry_header head,
        length-entry_header patched,
      ) in
      rw (end, write_compressed_length_lem head n s.content zs u laid)
        (
          bytes,
          ap (λ k. record { content = s.content ++ bytes; position = k }) long,
          Archived-one l (made_file path content) bytes
              (fits, (zs, packed, ap (λ k. entry_header (header_of 0 path k) ++ zs) size)),
        )

  add_file_lem :
      (file_path content path : Bytes) (s : OutputStream)
      → IsAtEnd s
      → (length content % z.in_size ≡ 0 → length content ≡ 0)
      → Ensures IsArchiveException
          (Added (made_file path content ∷ []) s)
          (add_file z l.calls format_number file_path (some content) path s)
  unfolding add_file new_entry
  add_file_lem file_path content path s end part = elim (dec_le (length path) path_max_len) [
    | no long ↦ rw (lt→ltb path_max_len (length path) (omega arith)) tt
    | yes fits ↦
        let head = header_of 0 path 0 in
        let t = appended (entry_header head) s in
        rw
          (
            le→ltb_false path_max_len (length path) fits,
            write_to_stream-entry_header format_number head s fits end,
          )
          (Ensures-bind IsArchiveException (PackedBehind content t)
            (Added (made_file path content ∷ []) s) (compress_file z l.calls content t)
            (write_compressed_length (s.position + 9 + length path))
            (compress_file_lem content t (appended-IsAtEnd (entry_header head) s end) part)
            (λ n u m. finish_file content path s n u end fits m))
  ]

  unreadable_file_lem :
      (P : Unit {0} → OutputStream → Type 0) (file_path path : Bytes) (s : OutputStream)
      → IsAtEnd s
      → Ensures IsArchiveException P (add_file z l.calls format_number file_path none path s)
  unfolding add_file new_entry
  unreadable_file_lem P file_path path s end = elim (dec_le (length path) path_max_len) [
    | no long ↦ rw (lt→ltb path_max_len (length path) (omega arith)) tt
    | yes fits ↦
        rw
          (
            le→ltb_false path_max_len (length path) fits,
            write_to_stream-entry_header format_number (header_of 0 path 0) s fits end,
          )
          tt
  ]

  Added-bind :
      (is js : List Item) (s : OutputStream) (o : Outcome OutputStream (Unit {0}))
      (f : Action OutputStream (Unit {0}))
      → IsAtEnd s
      → Ensures IsArchiveException (Added is s) o
      → ((t : OutputStream) → IsAtEnd t → Ensures IsArchiveException (Added js t) (f t))
      → Ensures IsArchiveException (Added (is ++ js) s) (bind o (λ _. f))
  Added-bind is js s o f end h k =
      Ensures-bind IsArchiveException (Added is s) (Added (is ++ js) s) o (λ _. f) h
        (λ a t m.
          Ensures-map IsArchiveException (Added js t) (Added (is ++ js) s) (f t)
            (k t (Added-IsAtEnd is s t end m)) (λ b u n. Added-append is js s t u m n))

  Added-none : (s : OutputStream) → Added [] s tt s
  Added-none s = ([], ground (arith, append-nil s.content), refl)

  mutual
    unfolding pack_entries items_of IsPackable

    pack_entries_lem :
        (dir path : Bytes) (entries : Entries) (s : OutputStream)
        → IsAtEnd s
        → IsPackable z.in_size entries
        → Ensures IsArchiveException
            (Added (items_of path entries) s)
            (pack_entries z l.calls format_number dir entries path s)
    pack_entries_lem dir path no_entries s end h = Added-none s
    pack_entries_lem dir path unreadable s end h = tt
    pack_entries_lem dir path (entry name node entries) s end h =
        Added-bind (items_of_node (join_paths path name) node) (items_of path entries) s
          (pack_node z l.calls format_number (join_paths dir name) node (join_paths path name) s)
          (pack_entries z l.calls format_number dir entries path) end
          (pack_node_lem (join_paths dir name) (join_paths path name) node s end h.0)
          (λ t end_t. pack_entries_lem dir path entries t end_t h.1)

    pack_node_lem :
        (current path : Bytes) (node : Node) (s : OutputStream)
        → IsAtEnd s
        → IsPackableNode z.in_size node
        → Ensures IsArchiveException
            (Added (items_of_node path node) s)
            (pack_node z l.calls format_number current node path s)
    pack_node_lem current path (regular_file none) s end h =
        unreadable_file_lem (Added [] s) current path s end
    pack_node_lem current path (regular_file (some content)) s end h =
        add_file_lem current content path s end h
    pack_node_lem current path (folder entries) s end h =
        Added-bind (made_directory path ∷ []) (items_of path entries) s
          (add_directory format_number path s)
          (pack_entries z l.calls format_number current entries path) end
          (add_directory_lem path s end)
          (λ t end_t. pack_entries_lem current path entries t end_t h)
    pack_node_lem current path other s end h = Added-none s

  -- If no file below the directory has a size that is a positive multiple of the size of the library's
  -- input buffer: createArchive into a path that does not exist ends, and by a ZSTDException,
  -- FSEntryInfoException, ArchiveManagerException or an error of the file system only, or the new
  -- archive holds, in this order, the directory itself and all directories and files below it, each
  -- file packed.
  pub create_archive_lem :
      (path filename new_archive_path : Bytes) (entries : Entries)
      → IsPackable z.in_size entries
      → Ensures IsArchiveException
          (λ _ t. Archived l (made_directory filename ∷ items_of filename entries) t.content)
          (create_archive z l.calls format_number path filename entries false new_archive_path
            (record { content = []; position = 0 }))
  unfolding create_archive pack_directory
  create_archive_lem path filename new_archive_path entries h =
      let s : OutputStream = record { content = []; position = 0 } in
      let items = made_directory filename ∷ items_of filename entries in
      Ensures-map IsArchiveException (Added items s) _ _
        (Added-bind (made_directory filename ∷ []) (items_of filename entries) s
          (add_directory format_number filename s)
          (pack_entries z l.calls format_number path entries filename) refl
          (add_directory_lem filename s refl)
          (λ t end_t. pack_entries_lem path filename entries t end_t h))
        (λ a t (bytes, e, archived).
          subst (Archived l items) (sym (ap (λ o. o.content) e)) archived)
