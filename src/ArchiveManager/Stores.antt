-- ===== src/ArchiveManager/Stores.antt =====
-- What an entry of an archive does to the disk.
use drop_file.Zstd.Decompress.{decompress_lem, Unpacked}
use drop_file.Zstd.{Pipes}
use drop_file.Streams.{ahead}
use drop_file.Zstd.Laws.{Packs, IsZstdException, Laws}
use drop_file.ArchiveManager.Format.{header_of, made_file, made_directory, Item}
use drop_file.Common.{
  ℕ, suc, ◌≡◌, refl, sym, ap, subst, ◌∙◌, false, Option, none, some, List, [], ◌∷◌, ◌++◌, arith,
  Bytes, length, take, length-append, take_front,
}
use drop_file.Outcome.{
  Ensures-weaken, Ensures-settled, Ensures-bind, Ensures, zstd_exception, filesystem_error,
  archive_manager_exception,
}
use drop_file.FsEntryInfo.Reads.{skipped}
use drop_file.ArchiveManager.{
  decompress, cannot_open_output, updated, join_paths, Unpacking, Library, Exception, FileSystem,
  unpack_entry, unpack_file, decompress_file,
}

abbrev pub IsUnpackException : Exception → Type 0
IsUnpackException (zstd_exception t) = Unit {0}
IsUnpackException (archive_manager_exception t) = Unit {0}
IsUnpackException filesystem_error = Unit {0}
IsUnpackException _ = ⊥

IsZstdException→IsUnpackException : (e : Exception) → IsZstdException e → IsUnpackException e
IsZstdException→IsUnpackException (zstd_exception t) h = tt
IsZstdException→IsUnpackException _ h = absurd h

abbrev pub and_then : {A : Type 0} {B : Type 0} → Option A → (A → Option B) → Option B
and_then none f = none
and_then (some a) f = f a

module _ (fs : FileSystem) (target : Bytes) where
  -- What an item of an archive does to the disk.
  unfoldable pub store_item : Item → fs.Disk → Option fs.Disk
  store_item (made_directory path) disk = fs.create_directories (join_paths target path) disk
  store_item (made_file path content) disk =
      and_then (fs.open_output (join_paths target path) disk)
        (λ opened. some (fs.written (join_paths target path) content opened))

  unfoldable pub restore : List Item → fs.Disk → Option fs.Disk
  restore [] disk = some disk
  restore (i ∷ is) disk = and_then (store_item i disk) (restore is)

module _ (z : Library) (l : Laws z) (fs : FileSystem) (target : Bytes) where
  -- The archive is behind the bytes `front`, and the disk is what the item makes of it.
  abbrev pub Stored : Item → ℕ → Unpacking fs → Unit {0} → Unpacking fs → Type 0
  Stored i taken u _ v =
      (store_item fs target i u.disk ≡ some v.disk) × (v.archive ≡ skipped taken u.archive)

  updated_lem :
      (P : Unit {0} → Unpacking fs → Type 0) (e : Exception) (u : Unpacking fs) (o : Option fs.Disk)
      → IsUnpackException e
      → ((disk : fs.Disk) → o ≡ some disk → P tt (record u { disk = disk }))
      → Ensures IsUnpackException P (updated fs e u o)
  updated_lem P e u none legal k = legal
  updated_lem P e u (some disk) legal k = k disk refl

  pub directory_lem :
      (path : Bytes) (u : Unpacking fs)
      → Ensures IsUnpackException
          (Stored (made_directory path) 0 u)
          (unpack_entry z l.calls fs target (header_of 1 path 0) u)
  unfolding unpack_entry store_item
  directory_lem path u =
      updated_lem (Stored (made_directory path) 0 u) filesystem_error u
        (fs.create_directories (join_paths target path) u.disk) tt (λ disk e. (e, ground arith))

  decompress_file_lem :
      (path content zs rest : Bytes) (u : Unpacking fs)
      → u.archive.failed ≡ false
      → ahead u.archive ≡ zs ++ rest
      → Packs l content zs
      → Ensures IsUnpackException
          (λ _ v. v ≡ record {
            archive = skipped (length zs) u.archive;
            disk = fs.written path content u.disk;
          })
          (decompress_file z l.calls fs path (length zs) u)
  unfolding decompress_file
  decompress_file_lem path content zs rest u good at packed =
      let p : Pipes = record {
        input = u.archive;
        output = record { content = []; position = 0 };
      } in
      let o = decompress z (suc (length zs)) l.calls (length zs) p in
      let front : take (length zs) (ahead u.archive) ≡ zs =
        ap (take (length zs)) at ∙ take_front zs rest (length zs) refl in
      Ensures-settled IsUnpackException (Unpacked z l (length zs) content p) _
        (λ q. record { archive = q.input; disk = fs.written path q.output.content u.disk }) o
        (Ensures-weaken IsZstdException IsUnpackException (Unpacked z l (length zs) content p) o
          (decompress_lem z l (suc (length zs)) (length zs) content p good refl
            (omega (arith, ap length at, length-append zs rest))
            (subst (Packs l content) (sym front) packed) (omega arith))
          IsZstdException→IsUnpackException)
        (λ n q (size, e).
          ap
            (λ (x : Pipes). record {
              archive = x.input;
              disk = fs.written path x.output.content u.disk;
            })
            e)

  pub file_lem :
      (path content zs rest : Bytes) (u : Unpacking fs)
      → u.archive.failed ≡ false
      → ahead u.archive ≡ zs ++ rest
      → Packs l content zs
      → Ensures IsUnpackException
          (Stored (made_file path content) (length zs) u)
          (unpack_entry z l.calls fs target (header_of 0 path (length zs)) u)
  unfolding unpack_entry unpack_file store_item
  file_lem path content zs rest u good at packed =
      let full = join_paths target path in
      Ensures-bind IsUnpackException
        (λ _ v. (fs.open_output full u.disk ≡ some v.disk) × (v.archive ≡ u.archive))
        (Stored (made_file path content) (length zs) u)
        (updated fs (cannot_open_output full) u (fs.open_output full u.disk)) _
        (updated_lem _ (cannot_open_output full) u (fs.open_output full u.disk) tt
          (λ disk e. (e, refl)))
        (λ a v (opened, same).
          Ensures-bind IsUnpackException
            (λ _ w. w ≡ record {
              archive = skipped (length zs) v.archive;
              disk = fs.written full content v.disk;
            })
            (Stored (made_file path content) (length zs) u)
            (decompress_file z l.calls fs full (length zs) v) _
            (decompress_file_lem full content zs rest v (ap (λ s. s.failed) same ∙ good)
              (ap ahead same ∙ at) packed)
            (λ n w e. (
              ap (λ o. and_then o (λ d. some (fs.written full content d))) opened
                  ∙ ap (λ (x : Unpacking fs). some x.disk) (sym e),
              ap (λ (x : Unpacking fs). x.archive) e ∙ ap (skipped (length zs)) same,
            )))
