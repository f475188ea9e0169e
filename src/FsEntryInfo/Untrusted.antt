-- ===== src/FsEntryInfo/Untrusted.antt =====
-- FSEntryInfo::readFromStream on an archive that anyone may have written.
use drop_file.Outcome.{>>=-eq-done}
use drop_file.Socket.Header.{le_value_one-lt, le_value-lt, le_bytes-le_value, le_bytes}
use drop_file.FsEntryInfo.{
  pure, Exception, length_exceeds, throw, path_max_len, header_size, read_whole, done,
  get_remaining_bytes, le_value, FsEntryInfo, read_from_stream,
}
use drop_file.Common.{
  ℕ, ◌+◌, ◌-◌, ◌%◌, ◌^◌, ◌≤◌, ◌<◌, ◌≡◌, refl, sym, ap, subst, ◌∙◌, Bool, true, false, [], ◌∷◌, ◌++◌,
  arith, ltb, if◌then◌else◌, Bytes, text, length, All,
}
use drop_file.Streams.{InputStream, ahead}
use drop_file.FsEntryInfo.Format.{entry_header, IsEntry, entry_header-append}
use drop_file.FsEntryInfo.Reads.{read_whole-Took, Took}

abbrev pub IsBytes : Bytes → Type 0
IsBytes d = All (λ b. b < 256) d

bytes_left : (a b : Bytes) → IsBytes (a ++ b) → IsBytes a
bytes_left [] b h = tt
bytes_left (x ∷ a) b h = (h.0, bytes_left a b h.1)

bytes_right : (a b : Bytes) → IsBytes (a ++ b) → IsBytes b
bytes_right [] b h = h
bytes_right (x ∷ a) b h = bytes_right a b h.1

-- The memory of a value that was read from `n` bytes.
same_bytes : (n : ℕ) (d : Bytes) → length d ≡ n → IsBytes d → le_bytes n (le_value d) ≡ d
same_bytes n d len h = rw (← len) (le_bytes-le_value d h)

-- A guard that let the code go on.
passed {ℓ} :
    {A : Type ℓ} (b : Bool) (x : Exception) (a v : A) (s t : InputStream)
    → (if b then throw x else pure a) s ≡ done v t
    → (b ≡ false) × (a ≡ v) × (s ≡ t)
passed true x a v s t h = cc
passed false x a v s t h = (refl, ground arith, ground arith)

remaining :
    (total left : ℕ) (s t : InputStream)
    → s.failed ≡ false
    → get_remaining_bytes total s ≡ done left t
    → ((total + 2 ^ 64 - s.position) % 2 ^ 64 ≡ left) × (s ≡ t)
unfolding get_remaining_bytes
remaining total left s t good h =
    let now : get_remaining_bytes total s ≡ done ((total + 2 ^ 64 - s.position) % 2 ^ 64) s =
      rw good in
    (ground arith, ground arith)

-- An entry was read: it is one that can be written, its header is exactly what was taken from the
-- stream, and its compressed length is within what the archive has left.
pub record Entered (total : ℕ) (e : FsEntryInfo) (s t : InputStream) : Type 0 where
  pub legal : IsEntry e
  pub taken : ahead s ≡ entry_header e ++ ahead t
  pub good : t.failed ≡ false
  pub within : e.compressed_length ≤ (total + 2 ^ 64 - t.position) % 2 ^ 64

abbrev entry_of : Bytes → Bytes → Bytes → FsEntryInfo
entry_of d p c = record {
  is_directory = le_value d;
  relative_path = p;
  compressed_length = le_value c;
}

-- The four reads of an entry.
assembled :
    (total left : ℕ) (d n p c : Bytes) (s s1 s2 s4 s5 : InputStream)
    → IsBytes (ahead s)
    → Took 1 d s s1
    → Took 8 n s1 s2
    → ltb path_max_len (le_value n) ≡ false
    → Took (le_value n) p s2 s4
    → Took 8 c s4 s5
    → (total + 2 ^ 64 - s5.position) % 2 ^ 64 ≡ left
    → ltb left (le_value c) ≡ false
    → Entered total (entry_of d p c) s s5
assembled total left d n p c s s1 s2 s4 s5 bytes t1 t2 short t4 t5 is_left small =
    let rest = ahead s5 in
    let split : ahead s ≡ d ++ (n ++ (p ++ (c ++ rest))) =
      t1.front ∙ ap (◌++◌ d) (t2.front ∙ ap (◌++◌ n) (t4.front ∙ ap (◌++◌ p) t5.front)) in
    let all : IsBytes (d ++ (n ++ (p ++ (c ++ rest)))) = subst IsBytes split bytes in
    let all_n = bytes_right d _ all in
    let all_c = bytes_right p _ (bytes_right n _ all_n) in
    let d_is = same_bytes 1 d t1.size (bytes_left d _ all) in
    let n_is = same_bytes 8 n t2.size (bytes_left n _ all_n) in
    let c_is = same_bytes 8 c t5.size (bytes_left c _ all_c) in
    let path_is : length p ≡ le_value n = t4.size in
    record {
      legal = record {
        byte = le_value_one-lt d t1.size (bytes_left d _ all);
        path_fits = ground arith;
        length_fits = le_value-lt c (bytes_left c _ all_c) t5.size;
      };
      taken =
          split ∙ sym (entry_header-append (entry_of d p c) rest ∙ rw (path_is, d_is, n_is, c_is));
      good = t5.good;
      within = ground arith;
    }

module _ (format_number : ℕ → Bytes) where
  -- Whatever bytes a good stream holds, an entry that readFromStream returns has a path of a legal
  -- length, its header is exactly what was taken from the stream, and its compressed length is not
  -- more than what getRemainingBytes says is left.
  pub read_from_stream-Entered :
      (e : FsEntryInfo) (total : ℕ) (s t : InputStream)
      → s.failed ≡ false
      → IsBytes (ahead s)
      → read_from_stream format_number total s ≡ done e t
      → Entered total e s t
  unfolding read_from_stream
  read_from_stream-Entered e total s t good bytes h =
      let (d, s1, r1, h1) =
        >>=-eq-done (read_whole 1 (text "Could not read type of dir entry.")) _ s h in
      let (n, s2, r2, h2) =
        >>=-eq-done (read_whole header_size (text "Could not read path length.")) _ s1 h1 in
      let (u, s3, r3, h3) =
        >>=-eq-done
          (if ltb path_max_len (le_value n)
            then throw (length_exceeds format_number (le_value n))
            else pure tt)
          _ s2 h2 in
      let (p, s4, r4, h4) =
        >>=-eq-done (read_whole (le_value n) (text "Could not read whole path.")) _ s3 h3 in
      let (c, s5, r5, h5) =
        >>=-eq-done (read_whole header_size (text "Could not read compressed length.")) _ s4 h4 in
      let (left, s6, r6, h6) = >>=-eq-done (get_remaining_bytes total) _ s5 h5 in
      let t1 = read_whole-Took _ 1 d s s1 good r1 in
      let t2 = read_whole-Took _ 8 n s1 s2 t1.good r2 in
      let (short, q3, e3) = passed (ltb path_max_len (le_value n)) _ tt u s2 s3 r3 in
      let t4 = read_whole-Took _ (le_value n) p s3 s4 (rw (← e3) t2.good) r4 in
      let t5 = read_whole-Took _ 8 c s4 s5 t4.good r5 in
      let (e6, q6) = remaining total left s5 s6 t5.good r6 in
      let (small, e7, q7) = passed (ltb left (le_value c)) _ _ e s6 t h6 in
      let end : s5 ≡ t = q6 ∙ q7 in
      subst (λ x. Entered total x s t) e7
        (subst (λ y. Entered total (entry_of d p c) s y) end
          (assembled total left d n p c s s1 s2 s4 s5 bytes t1 t2 short (rw e3 t4) t5 e6 small))
