-- ===== src/ArchiveManager/Unpacks.antt =====
-- unpackArchive: what it makes of the bytes of an archive.
use drop_file.ArchiveManager.Stores.{
  and_then, file_lem, directory_lem, Stored, restore, IsUnpackException,
}
use drop_file.Streams.{ahead}
use drop_file.FsEntryInfo.Format.{
  read_from_stream-entry_header, length-entry_header, entry_header, IsEntry,
}
use drop_file.Zstd.Laws.{Laws}
use drop_file.ArchiveManager.Format.{header_of, Archived, made_file, made_directory, Item}
use drop_file.Common.{
  ℕ, zero, suc, ◌+◌, ◌-◌, ◌%◌, ◌^◌, ◌<◌, ◌≡◌, refl, sym, ap, subst, ◌∙◌, true, false, some, List,
  [], ◌∷◌, ◌++◌, append_assoc, arith, ltb, Bytes, length, length-append,
}
use drop_file.Outcome.{Ensures-map, Ensures-bind, Ensures, done}
use drop_file.FsEntryInfo.Reads.{skipped, ahead-skipped}
use drop_file.FsEntryInfo.{get_remaining_bytes}
use drop_file.ArchiveManager.{
  InputStream, FsEntryInfo, Unpacking, Library, FileSystem, unpack_loop, unpack_entry,
}

module _ (z : Library) (l : Laws z) (format_number : ℕ → Bytes) (fs : FileSystem)
    (target : Bytes) where
  get_remaining_bytes-good :
      (total : ℕ) (s : InputStream)
      → s.failed ≡ false
      → get_remaining_bytes total s ≡ done ((total + 2 ^ 64 - s.position) % 2 ^ 64) s
  unfolding get_remaining_bytes
  get_remaining_bytes-good total s good = rw good refl

  -- A round at the header of an entry.
  round_lem :
      (R Q : Unit {0} → Unpacking fs → Type 0) (fuel total : ℕ) (e : FsEntryInfo) (zs rest : Bytes)
      (u : Unpacking fs)
      → IsEntry e
      → u.archive.failed ≡ false
      → ahead u.archive ≡ entry_header e ++ (zs ++ rest)
      → e.compressed_length ≡ length zs
      → u.archive.position + length (ahead u.archive) ≡ total
      → total < 2 ^ 64
      → Ensures IsUnpackException R (
          unpack_entry z l.calls fs target e
            (record u { archive = skipped (length (entry_header e)) u.archive }))
      → ((v : Unpacking fs)
          → R tt v
          → Ensures IsUnpackException Q
              (unpack_loop z l.calls format_number fs fuel target total v))
      → Ensures IsUnpackException Q
          (unpack_loop z l.calls format_number fs (suc fuel) target total u)
  unfolding unpack_loop
  round_lem R Q fuel total e zs rest u legal good at packed size small h k =
      let long : length (ahead u.archive) ≡ 17 + length e.relative_path + length zs + length rest =
        omega (
          arith,
          ap length at,
          length-append (entry_header e) (zs ++ rest),
          length-append zs rest,
          length-entry_header e,
        ) in
      let left : ltb 0 ((total + 2 ^ 64 - u.archive.position) % 2 ^ 64) ≡ true = ground arith in
      rw
        (
          get_remaining_bytes-good total u.archive good,
          left,
          read_from_stream-entry_header format_number e (zs ++ rest) total u.archive legal good at
              small (omega (arith, length-entry_header e)),
        )
        (Ensures-bind IsUnpackException R Q
          (unpack_entry z l.calls fs target e
            (record u { archive = skipped (length (entry_header e)) u.archive }))
          (λ _. unpack_loop z l.calls format_number fs fuel target total) h (λ a v m. k v m))

  abbrev Restored : List Item → Unpacking fs → Unit {0} → Unpacking fs → Type 0
  Restored is u _ v = restore fs target is u.disk ≡ some v.disk

  -- A round for an item, whose header is `e` and whose packed form is `zs`.
  item_lem :
      (i : Item) (is : List Item) (fuel total : ℕ) (e : FsEntryInfo) (zs rest : Bytes)
      (u : Unpacking fs)
      → IsEntry e
      → u.archive.failed ≡ false
      → ahead u.archive ≡ entry_header e ++ (zs ++ rest)
      → e.compressed_length ≡ length zs
      → u.archive.position + length (ahead u.archive) ≡ total
      → total < 2 ^ 64
      → ((v : Unpacking fs)
          → v.archive.failed ≡ false
          → ahead v.archive ≡ zs ++ rest
          → Ensures IsUnpackException
              (Stored z l fs target i (length zs) v)
              (unpack_entry z l.calls fs target e v))
      → ((v : Unpacking fs)
          → v.archive.failed ≡ false
          → ahead v.archive ≡ rest
          → v.archive.position + length (ahead v.archive) ≡ total
          → Ensures IsUnpackException
              (Restored is v)
              (unpack_loop z l.calls format_number fs fuel target total v))
      → Ensures IsUnpackException
          (Restored (i ∷ is) u)
          (unpack_loop z l.calls format_number fs (suc fuel) target total u)
  unfolding restore
  item_lem i is fuel total e zs rest u legal good at packed size small h k =
      let n = length (entry_header e) in
      let behind : Unpacking fs = record u { archive = skipped n u.archive } in
      let at_data : ahead behind.archive ≡ zs ++ rest =
        ahead-skipped (entry_header e) (zs ++ rest) n u.archive refl at in
      let long : length (ahead u.archive) ≡ n + (length zs + length rest) =
        omega (
          arith,
          ap length at,
          length-append (entry_header e) (zs ++ rest),
          length-append zs rest,
        ) in
      round_lem (Stored z l fs target i (length zs) behind) (Restored (i ∷ is) u) fuel total e zs
        rest u legal good at packed size small (h behind good at_data)
        (λ v (stored, moved).
          let at_rest : ahead v.archive ≡ rest =
            ap ahead moved ∙ ahead-skipped zs rest (length zs) behind.archive refl at_data in
          Ensures-map IsUnpackException (Restored is v) (Restored (i ∷ is) u) _
            (k v (ap (λ s. s.failed) moved ∙ good) at_rest
              (omega (arith, ap length at_rest, ap (λ s. s.position) moved)))
            (λ a w r. ap (λ o. and_then o (restore fs target is)) stored ∙ r))

  loop_end :
      (fuel total : ℕ) (u : Unpacking fs)
      → u.archive.failed ≡ false
      → u.archive.position ≡ total
      → total < 2 ^ 64
      → unpack_loop z l.calls format_number fs (suc fuel) target total u ≡ done tt u
  unfolding unpack_loop
  loop_end fuel total u good at_end small =
      let left : ltb 0 ((total + 2 ^ 64 - u.archive.position) % 2 ^ 64) ≡ false = ground arith in
      rw (get_remaining_bytes-good total u.archive good, left) refl

  pub loop_lem :
      (is : List Item) (fuel total : ℕ) (u : Unpacking fs)
      → Archived l is (ahead u.archive)
      → u.archive.failed ≡ false
      → u.archive.position + length (ahead u.archive) ≡ total
      → total < 2 ^ 64
      → length is < fuel
      → Ensures IsUnpackException
          (Restored is u)
          (unpack_loop z l.calls format_number fs fuel target total u)
  unfolding restore
  loop_lem is zero total u archived good size small r = absurd (omega arith)
  loop_lem [] (suc fuel) total u archived good size small r =
      rw (loop_end fuel total u good (omega (arith, ap length archived)) small) refl
  loop_lem (made_directory path ∷ is) (suc fuel) total u (front, rest, (fits, w), archived, e) good
        size small r =
      let head = header_of 1 path 0 in
      let legal : IsEntry head = record {
        byte = omega arith;
        path_fits = fits;
        length_fits = omega arith;
      } in
      item_lem (made_directory path) is fuel total head [] rest u legal good
        (e ∙ ap (λ x. x ++ rest) w) refl size small
        (λ v good_v at. directory_lem z l fs target path v)
        (λ v good_v at at_size.
          loop_lem is fuel total v (subst (Archived l is) (sym at) archived) good_v at_size small
            (omega arith))
  loop_lem (made_file path content ∷ is) (suc fuel) total u
        (front, rest, (fits, (zs, packed, w)), archived, e) good size small r =
      let head = header_of 0 path (length zs) in
      let at : ahead u.archive ≡ entry_header head ++ (zs ++ rest) =
        e ∙ ap (λ x. x ++ rest) w ∙ append_assoc (entry_header head) zs rest in
      let legal : IsEntry head = record {
        byte = omega arith;
        path_fits = fits;
        length_fits = omega (
          arith,
          ap length at,
          length-append (entry_header head) (zs ++ rest),
          length-append zs rest,
        );
      } in
      item_lem (made_file path content) is fuel total head zs rest u legal good at refl size small
        (λ v good_v at_v. file_lem z l fs target path content zs rest v good_v at_v packed)
        (λ v good_v at_v at_size.
          loop_lem is fuel total v (subst (Archived l is) (sym at_v) archived) good_v at_size small
            (omega arith))
