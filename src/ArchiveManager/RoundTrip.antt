-- ===== src/ArchiveManager/RoundTrip.antt =====
-- unpackArchive on the bytes of an archive, and on what createArchive makes.
use drop_file.ArchiveManager.Unpacks.{loop_lem}
use drop_file.ArchiveManager.Stores.{restore, IsUnpackException}
use drop_file.Outcome.{Ensures-settled, done, Ensures}
use drop_file.ArchiveManager.Creates.{create_archive_lem, IsArchiveException, IsPackable}
use drop_file.ArchiveManager.Format.{length-Archived, items_of, made_directory, Archived, Item}
use drop_file.ArchiveManager.{
  unpack_loop, Unpacking, create_archive, OutputStream, Entries, unpack_archive, FileSystem,
}
use drop_file.Zstd.Laws.{Laws}
use drop_file.Zstd.{Library}
use drop_file.Common.{
  ℕ, suc, ◌^◌, ◌<◌, ◌≡◌, refl, subst, true, false, some, List, [], ◌∷◌, arith, Bytes, length, drop,
}

module _ (z : Library) (l : Laws z) (format_number : ℕ → Bytes) (fs : FileSystem) where
  -- In a directory that exists, unpackArchive of an existing archive whose bytes hold some items, and
  -- are less than 2 ^ 64, ends, and by a ZSTDException, an ArchiveManagerException or an error of the
  -- file system only: else the disk is what storing these items one after the other makes of it.
  pub unpack_archive_lem :
      (target archive_path bytes : Bytes) (disk : fs.Disk) (items : List Item)
      → fs.exists target disk ≡ some true
      → fs.exists archive_path disk ≡ some true
      → fs.content archive_path disk ≡ some bytes
      → Archived l items bytes
      → length bytes < 2 ^ 64
      → Ensures IsUnpackException
          (λ _ d. restore fs target items disk ≡ some d)
          (unpack_archive z l.calls format_number fs target archive_path disk)
  unfolding unpack_archive drop
  unpack_archive_lem target archive_path bytes disk items there here read archived small =
      let u : Unpacking fs = record {
        archive = record { content = bytes; position = 0; failed = false };
        disk = disk;
      } in
      rw (there, here, read)
        (Ensures-settled IsUnpackException (λ _ v. restore fs target items disk ≡ some v.disk)
          (λ _ d. restore fs target items disk ≡ some d) (λ v. v.disk)
          (unpack_loop z l.calls format_number fs (suc (length bytes)) target (length bytes) u)
          (loop_lem z l format_number fs target items (suc (length bytes)) (length bytes) u archived
            refl (omega arith) small (omega (arith, length-Archived l items bytes archived)))
          (λ a v h. h))

  -- What createArchive makes of a directory, unpackArchive stores again in full: if the archive that
  -- it built, of less than 2 ^ 64 bytes, is unpacked elsewhere, then that ends, and by an error of the
  -- library or of the file system only: else it has made, in order, the directory, and each directory
  -- and file below it with its content. No file's size may be a positive multiple of the size of the
  -- library's input buffer.
  pub unpack_archive-create_archive :
      (path filename new_archive_path target archive_path : Bytes) (entries : Entries)
      (t : OutputStream) (disk : fs.Disk)
      → IsPackable z.in_size entries
      → create_archive z l.calls format_number path filename entries false new_archive_path
          (record { content = []; position = 0 })
        ≡ done tt t
      → fs.exists target disk ≡ some true
      → fs.exists archive_path disk ≡ some true
      → fs.content archive_path disk ≡ some t.content
      → length t.content < 2 ^ 64
      → Ensures IsUnpackException
          (λ _ d.
            restore fs target (made_directory filename ∷ items_of filename entries) disk ≡ some d)
          (unpack_archive z l.calls format_number fs target archive_path disk)
  unpack_archive-create_archive path filename new_archive_path target archive_path entries t disk h
        made there here read small =
      let items = made_directory filename ∷ items_of filename entries in
      let archived : Archived l items t.content =
        subst (Ensures IsArchiveException (λ _ o. Archived l items o.content)) made
          (create_archive_lem z l format_number path filename new_archive_path entries h) in
      unpack_archive_lem target archive_path t.content disk items there here read archived small
