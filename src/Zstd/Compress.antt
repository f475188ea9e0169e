-- ===== src/Zstd/Compress.antt =====
-- zstd::compress on any library that keeps to its manual.
use drop_file.Zstd.Chunks.{assert_ok_lem, Chunked, not_null_lem}
use drop_file.Zstd.Rounds.{loop_failed, ahead-read_on, round_lem, start_chunk, loop_none, read_on}
use drop_file.Common.{
  ℕ, zero, suc, ◌+◌, ◌-◌, ◌%◌, ◌≤◌, ◌<◌, ◌≡◌, refl, sym, ap, subst, ◌∙◌, ◌≢◌, false, none, some, [],
  ◌∷◌, ◌++◌, append-nil, append_assoc, arith, dec_lt, ltb, lt→ltb, le→ltb_false, Bytes, length,
  take, drop, length-append, take-append-drop, length-take, length-drop, take_all,
}
use native.Mathlib.Nat.{mod-eq_of_lt, zero-mod, mod-eq-sub-mod}
use drop_file.Outcome.{Ensures, Ensures-map}
use drop_file.Streams.{ahead, OutputStream}
use drop_file.FsEntryInfo.Writes.{IsAtEnd, appended, appended-appended, appended-IsAtEnd}
use drop_file.Zstd.{
  checksum_flag, compression_level, compress, compress_loop, Pipes, Library, Chunk,
}
use drop_file.Zstd.Laws.{Packs, Laws, IsZstdException}

module _ (z : Library) (l : Laws z) where
  -- After the outer loop: `zs` was written, and holds all that lay ahead.
  pub record Compressed (written : ℕ) (cctx : z.CCtx) (p : Pipes) (n : ℕ) (q : Pipes) : Type 0 where
    pub zs : Bytes
    pub wrote : q.output ≡ appended zs p.output
    pub counted : n ≡ written + length zs
    pub nothing : length (ahead p.input) ≡ 0 → zs ≡ []
    pub something :
        length (ahead p.input) % z.in_size ≢ 0
        → l.decoded (l.out cctx ++ zs) ≡ some (l.fed cctx ++ ahead p.input)
    pub unended :
        length (ahead p.input) % z.in_size ≡ 0
        → l.decoded (l.out cctx) ≡ none
        → l.decoded (l.out cctx ++ zs) ≡ none

  Compressed-none :
      (written : ℕ) (cctx : z.CCtx) (p : Pipes)
      → length (ahead p.input) ≡ 0
      → Compressed written cctx p written (record p { input = read_on z l p.input })
  Compressed-none written cctx p none_left = record {
    zs = [];
    wrote = ground (arith, append-nil p.output.content);
    counted = omega arith;
    nothing = λ h. refl;
    something = λ h. absurd (h (ap (λ n. n % z.in_size) none_left ∙ zero-mod z.in_size));
    unended = λ h o. ap l.decoded (append-nil (l.out cctx)) ∙ o;
  }

  -- The round with a short chunk is the last one that writes.
  Compressed-last :
      (written : ℕ) (cctx : z.CCtx) (p : Pipes) (r : Chunk z) (t : OutputStream)
      → 0 < length (ahead p.input)
      → length (ahead p.input) < z.in_size
      → Chunked z l
          (ltb (length (take z.in_size (ahead p.input))) z.in_size)
          (take z.in_size (ahead p.input))
          (start_chunk z l cctx written)
          p.output
          r
          t
      → Compressed written cctx p r.written (record { input = read_on z l p.input; output = t })
  unfolding drop
  Compressed-last written cctx p r t some_left last m =
      let d = ahead p.input in
      let whole : take z.in_size d ≡ d = take_all z.in_size d (omega arith) in
      record {
        zs = m.zs;
        wrote = m.wrote;
        counted = m.counted;
        nothing = λ h. absurd (omega arith);
        something = λ h.
            ap l.decoded (sym m.all_out)
            ∙ m.complete (rw whole (lt→ltb (length d) z.in_size last))
            ∙ ap some (m.all_fed ∙ ap (◌++◌ (l.fed cctx)) whole);
        unended = λ h o. absurd (omega (arith, sym (mod-eq_of_lt last) ∙ h));
      }

  -- A full chunk, and what follows it.
  Compressed-next :
      (written : ℕ) (cctx : z.CCtx) (p : Pipes) (r : Chunk z) (t : OutputStream) (n : ℕ) (q : Pipes)
      → 0 < length (ahead p.input)
      → ltb (length (take z.in_size (ahead p.input))) z.in_size ≡ false
      → length (ahead (read_on z l p.input)) % z.in_size ≡ length (ahead p.input) % z.in_size
      → Chunked z l
          (ltb (length (take z.in_size (ahead p.input))) z.in_size)
          (take z.in_size (ahead p.input))
          (start_chunk z l cctx written)
          p.output
          r
          t
      → Compressed r.written r.cctx (record { input = read_on z l p.input; output = t }) n q
      → Compressed written cctx p n q
  unfolding drop
  Compressed-next written cctx p r t n q some_left full rest m c =
      let d = ahead p.input in
      let b = take z.in_size d in
      record {
        zs = m.zs ++ c.zs;
        wrote = c.wrote ∙ ap (appended c.zs) m.wrote ∙ appended-appended m.zs c.zs p.output;
        counted = omega (arith, m.counted, c.counted, length-append m.zs c.zs);
        nothing = λ h. absurd (omega arith);
        something = λ h.
            ap l.decoded
              (sym (append_assoc (l.out cctx) m.zs c.zs) ∙ ap (λ o. o ++ c.zs) (sym m.all_out))
            ∙ c.something (λ k. h (sym rest ∙ k))
            ∙ ap some (
                ap (λ x. x ++ ahead (read_on z l p.input)) m.all_fed
                ∙ append_assoc (l.fed cctx) b (ahead (read_on z l p.input))
                ∙ ap (◌++◌ (l.fed cctx))
                    (ap (◌++◌ b) (ahead-read_on z l p.input) ∙ take-append-drop z.in_size d));
        unended = λ h o.
            ap l.decoded
              (sym (append_assoc (l.out cctx) m.zs c.zs) ∙ ap (λ x. x ++ c.zs) (sym m.all_out))
            ∙ c.unended (rest ∙ h) (m.still full o);
      }

  loop_lem :
      (rounds written : ℕ) (cctx : z.CCtx) (p : Pipes)
      → p.input.failed ≡ false
      → IsAtEnd p.output
      → length (ahead p.input) + 2 ≤ rounds
      → Ensures IsZstdException
          (Compressed written cctx p)
          (compress_loop z rounds l.calls cctx written p)
  loop_lem zero written cctx p good end r = absurd (omega arith)
  loop_lem (suc zero) written cctx p good end r = absurd (omega arith)
  loop_lem (suc (suc rounds)) written cctx p good end r =
      let d = ahead p.input in
      let size = length-take z.in_size d in
      elim (dec_lt 0 (length d)) [
        | no none_left ↦
            rw (loop_none z l (suc rounds) written cctx p good (omega arith))
              (Compressed-none written cctx p (omega arith))
        | yes some_left ↦
            round_lem z l (Compressed written cctx p) (suc rounds) written cctx p good end
              (omega (arith, l.in_size_pos))
              (λ c t m. elim (dec_lt (length d) z.in_size) [
                | yes last ↦
                    rw
                      (loop_failed z l rounds c.written c.cctx
                        (record { input = read_on z l p.input; output = t })
                        (lt→ltb (length (take z.in_size d)) z.in_size (omega arith)))
                      (Compressed-last written cctx p c t some_left last m)
                | no full ↦
                    let q : Pipes = record { input = read_on z l p.input; output = t } in
                    let left : length (ahead q.input) ≡ length d - z.in_size =
                      ap length (ahead-read_on z l p.input) ∙ length-drop z.in_size d in
                    let rest : length (ahead q.input) % z.in_size ≡ length d % z.in_size =
                      ap (λ n. n % z.in_size) left ∙ sym (mod-eq-sub-mod (omega arith)) in
                    let long : ltb (length (take z.in_size d)) z.in_size ≡ false =
                      le→ltb_false (length (take z.in_size d)) z.in_size (omega arith) in
                    Ensures-map IsZstdException _ _ _
                      (loop_lem (suc rounds) c.written c.cctx q long
                        (subst IsAtEnd (sym m.wrote) (appended-IsAtEnd m.zs p.output end))
                        (omega (arith, l.in_size_pos)))
                      (λ n u k. Compressed-next written cctx p c t n u some_left long rest m k)
              ])
      ]

  -- The data, which is all of a stream from its position on, is packed at the end of the archive.
  abbrev pub Packed : Bytes → OutputStream → ℕ → Pipes → Type 0
  Packed data' archive n q =
      (zs : Bytes) × (q.output ≡ appended zs archive) × (n ≡ length zs) × Packs l data' zs

  packs :
      (d zs : Bytes)
      → (length d ≡ 0 → zs ≡ [])
      → (0 < length d → l.decoded zs ≡ some d)
      → Packs l d zs
  packs [] zs nothing something = nothing refl
  packs (x ∷ d) zs nothing something = something (omega arith)

  -- What compress promises, from the context that it sets up.
  abbrev Result : Pipes → ℕ → Pipes → Type 0
  Result p n q = (c : z.CCtx) × (l.fed c ≡ []) × (l.out c ≡ []) × Compressed 0 c p n q

  compress_result :
      (rounds : ℕ) (p : Pipes)
      → p.input.failed ≡ false
      → IsAtEnd p.output
      → length (ahead p.input) + 2 ≤ rounds
      → Ensures IsZstdException (Result p) (compress z rounds l.calls p)
  unfolding compress
  compress_result rounds p good end r =
      let Q = Result p in
      not_null_lem Q p _ z.create_cctx _ (λ c e.
        assert_ok_lem Q p (z.set_parameter compression_level 6 c) _ (λ c1 e1.
          assert_ok_lem Q p (z.set_parameter checksum_flag 1 c1) _ (λ c2 e2.
            assert_ok_lem Q p (z.reset_session c2) _ (λ c3 e3.
              let (fed_c, out_c) = l.new_cctx c e in
              let (fed_c1, out_c1) = l.set_up compression_level 6 c c1 e1 in
              let (fed_c2, out_c2) = l.set_up checksum_flag 1 c1 c2 e2 in
              let (fed_c3, out_c3) =
                l.reset c2 c3 e3 (fed_c2 ∙ fed_c1 ∙ fed_c) (out_c2 ∙ out_c1 ∙ out_c) in
              Ensures-map IsZstdException (Compressed 0 c3 p) Q _
                (loop_lem rounds 0 c3 p good end r) (λ n q m. (c3, fed_c3, out_c3, m))))))

  Result→Packed :
      (p : Pipes) (n : ℕ) (q : Pipes)
      → (length (ahead p.input) % z.in_size ≡ 0 → length (ahead p.input) ≡ 0)
      → Result p n q
      → Packed (ahead p.input) p.output n q
  Result→Packed p n q part (cctx, fed_none, out_none, c) = (
    c.zs,
    c.wrote,
    omega (arith, c.counted),
    packs (ahead p.input) c.zs c.nothing (λ h.
        ap (λ o. l.decoded (o ++ c.zs)) (sym out_none)
        ∙ c.something (λ k. absurd (omega (arith, part k)))
        ∙ ap (λ f. some (f ++ ahead p.input)) fed_none),
  )

  -- compress ends for every input, and by a ZSTDException only: else the data is packed at the end of
  -- the output, and the result is the size of its packed form. The input's size is not a positive
  -- multiple of the size of the library's input buffer.
  pub compress_lem :
      (rounds : ℕ) (p : Pipes)
      → p.input.failed ≡ false
      → IsAtEnd p.output
      → (length (ahead p.input) % z.in_size ≡ 0 → length (ahead p.input) ≡ 0)
      → length (ahead p.input) + 2 ≤ rounds
      → Ensures IsZstdException (Packed (ahead p.input) p.output) (compress z rounds l.calls p)
  compress_lem rounds p good end part r =
      Ensures-map IsZstdException (Result p) _ _ (compress_result rounds p good end r)
        (λ n q m. Result→Packed p n q part m)

  -- If the input's size is a multiple of the size of the library's input buffer, then compress, where
  -- it ends without an exception, puts bytes at the end of the output that are no complete frame: the
  -- last call with ZSTD_e_end is not made.
  pub compress_unended :
      (rounds : ℕ) (p : Pipes)
      → p.input.failed ≡ false
      → IsAtEnd p.output
      → length (ahead p.input) % z.in_size ≡ 0
      → length (ahead p.input) + 2 ≤ rounds
      → Ensures IsZstdException
          (λ _ q. (zs : Bytes) × (q.output ≡ appended zs p.output) × (l.decoded zs ≡ none))
          (compress z rounds l.calls p)
  compress_unended rounds p good end multiple r =
      Ensures-map IsZstdException (Result p) _ _ (compress_result rounds p good end r)
        (λ n q (cctx, fed_none, out_none, c). (
          c.zs,
          c.wrote,
          ap (λ o. l.decoded (o ++ c.zs)) (sym out_none)
              ∙ c.unended multiple (ap l.decoded out_none ∙ l.nothing-decoded),
        ))
