-- ===== src/ArchiveManager/Format.antt =====
-- What an archive holds: for each directory and each regular file, in the order of packDirectory,
-- its header and the packed form of its data.
use drop_file.FsEntryInfo.Format.{length-entry_header, entry_header}
use drop_file.Zstd.Laws.{Packs, Laws}
use drop_file.ArchiveManager.{
  no_entries, unreadable, other, folder, regular_file, Node, join_paths, entry, Entries,
}
use drop_file.Zstd.{Library}
use drop_file.FsEntryInfo.{path_max_len, FsEntryInfo}
use drop_file.Common.{
  ℕ, ◌≤◌, ◌<◌, ◌≡◌, refl, sym, ap, subst, ◌∙◌, none, some, List, [], ◌∷◌, ◌++◌, append-nil,
  append_assoc, arith, Bytes, length, length-append,
}

pub data Item : Type 0 where
  made_directory : Bytes → Item
  made_file : Bytes → Bytes → Item

abbrev pub header_of : ℕ → Bytes → ℕ → FsEntryInfo
header_of is_directory path packed_size = record {
  is_directory = is_directory;
  relative_path = path;
  compressed_length = packed_size;
}

module _ {z : Library} (l : Laws z) where
  -- The packed forms of an item's data.
  abbrev pub Written : Item → Bytes → Type 0
  Written (made_directory path) bytes =
      (length path ≤ path_max_len) × (bytes ≡ entry_header (header_of 1 path 0))
  Written (made_file path content) bytes =
      (length path ≤ path_max_len)
      × ((zs : Bytes) × Packs l content zs
          × (bytes ≡ entry_header (header_of 0 path (length zs)) ++ zs))

  abbrev pub Archived : List Item → Bytes → Type 0
  Archived [] bytes = bytes ≡ []
  Archived (i ∷ is) bytes =
      (front : Bytes) × (rest : Bytes) × Written i front
      × Archived is rest
      × (bytes ≡ front ++ rest)

  pub Archived-one : (i : Item) (bytes : Bytes) → Written i bytes → Archived (i ∷ []) bytes
  Archived-one i bytes w = (bytes, [], w, refl, sym (append-nil bytes))

  pub length-Written : (i : Item) (bytes : Bytes) → Written i bytes → 0 < length bytes
  length-Written (made_directory path) bytes (fits, e) =
      omega (arith, ap length e, length-entry_header (header_of 1 path 0))
  length-Written (made_file path content) bytes (fits, (zs, packed, e)) =
      let head = header_of 0 path (length zs) in
      omega (arith, ap length e, length-append (entry_header head) zs, length-entry_header head)

  -- An item takes a byte at least.
  pub length-Archived :
      (is : List Item) (bytes : Bytes) → Archived is bytes → length is ≤ length bytes
  length-Archived [] bytes h = omega arith
  length-Archived (i ∷ is) bytes (front, rest, w, h, e) = omega (
    arith,
    ap length e,
    length-append front rest,
    length-Written i front w,
    length-Archived is rest h,
  )

  pub Archived-append :
      (is js : List Item) (a b : Bytes)
      → Archived is a
      → Archived js b
      → Archived (is ++ js) (a ++ b)
  Archived-append [] js a b ha hb = subst (λ x. Archived js (x ++ b)) (sym ha) hb
  Archived-append (i ∷ is) js a b (front, rest, w, ha, e) hb = (
    front,
    rest ++ b,
    w,
    Archived-append is js rest b ha hb,
    ap (λ x. x ++ b) e ∙ append_assoc front rest b,
  )

-- What packDirectory goes through.
unfoldable mutual
  pub items_of : Bytes → Entries → List Item
  items_of path no_entries = []
  items_of path unreadable = []
  items_of path (entry name node entries) =
      items_of_node (join_paths path name) node ++ items_of path entries

  pub items_of_node : Bytes → Node → List Item
  items_of_node path (regular_file none) = []
  items_of_node path (regular_file (some content)) = made_file path content ∷ []
  items_of_node path (folder entries) = made_directory path ∷ items_of path entries
  items_of_node path other = []
