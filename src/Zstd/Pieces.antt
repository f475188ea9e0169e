-- ===== src/Zstd/Pieces.antt =====
-- The inner loop of zstd::decompress.
use drop_file.Zstd.Chunks.{Answer-cases}
use drop_file.FsEntryInfo.Writes.{
  appended-IsAtEnd, write-appended, appended-appended, appended, IsAtEnd,
}
use drop_file.Zstd.Laws.{IsZstdException, Laws}
use drop_file.Zstd.{Step, Piece, decompress_chunk, Library}
use drop_file.Common.{
  ℕ, zero, suc, ◌+◌, ◌≤◌, ◌<◌, ◌≡◌, sym, ap, ◌∙◌, inl, inr, [], ◌++◌, append-nil, append_assoc,
  arith, dec_lt, lt→ltb, le→ltb_false, Bytes, length, take, drop, length-append, take-append-drop,
  length-drop, drop_all, drop-drop,
}
use drop_file.Outcome.{Ensures, Ensures-map}
use drop_file.Streams.{OutputStream}

module _ (z : Library) (l : Laws z) where
  -- After the inner loop: the rest of the buffer was given to the library, and `zs` written.
  pub record Opened (buffer : Bytes) (c : Piece z) (s : OutputStream) (r : Piece z)
      (t : OutputStream) : Type 0 where
    pub zs : Bytes
    pub wrote : t ≡ appended zs s
    pub counted : r.written ≡ c.written + length zs
    pub all_taken : l.taken r.dctx ≡ l.taken c.dctx ++ drop c.pos buffer
    pub all_given : l.given r.dctx ≡ l.given c.dctx ++ zs

  abbrev next : Piece z → Step z.DCtx → Piece z
  next c st = record {
    dctx = st.context;
    pos = c.pos + st.consumed;
    written = c.written + length st.produced;
  }

  Opened-next :
      (buffer : Bytes) (c : Piece z) (st : Step z.DCtx) (s : OutputStream) (r : Piece z)
      (t : OutputStream)
      → l.taken st.context ≡ l.taken c.dctx ++ take st.consumed (drop c.pos buffer)
      → l.given st.context ≡ l.given c.dctx ++ st.produced
      → Opened buffer (next c st) (appended st.produced s) r t
      → Opened buffer c s r t
  Opened-next buffer c st s r t takes gives m = record {
    zs = st.produced ++ m.zs;
    wrote = m.wrote ∙ appended-appended st.produced m.zs s;
    counted = omega (arith, m.counted, length-append st.produced m.zs);
    all_taken =
        m.all_taken
        ∙ rw takes (
            append_assoc (l.taken c.dctx) (take st.consumed (drop c.pos buffer))
              (drop (c.pos + st.consumed) buffer))
        ∙ ap (◌++◌ (l.taken c.dctx)) (
            ap (◌++◌ (take st.consumed (drop c.pos buffer)))
              (sym (drop-drop st.consumed c.pos buffer))
            ∙ take-append-drop st.consumed (drop c.pos buffer));
    all_given = m.all_given ∙ rw gives (append_assoc (l.given c.dctx) st.produced m.zs);
  }

  Opened-last :
      (buffer : Bytes) (c : Piece z) (s : OutputStream)
      → length buffer ≤ c.pos
      → Opened buffer c s c s
  Opened-last buffer c s over =
      let none_left = drop_all c.pos buffer over in
      record {
        zs = [];
        wrote = ground (arith, append-nil s.content);
        counted = omega arith;
        all_taken = sym (ap (◌++◌ (l.taken c.dctx)) none_left ∙ append-nil (l.taken c.dctx));
        all_given = sym (append-nil (l.given c.dctx));
      }

  pub chunk_lem :
      (fuel : ℕ) (buffer : Bytes) (c : Piece z) (s : OutputStream)
      → IsAtEnd s
      → c.pos ≤ length buffer
      → l.effort c.dctx (drop c.pos buffer) < fuel
      → Ensures IsZstdException (Opened buffer c s) (decompress_chunk z fuel buffer c s)
  unfolding decompress_chunk
  chunk_lem zero buffer c s end within e = absurd (omega arith)
  chunk_lem (suc fuel) buffer c s end within e =
      let input = drop c.pos buffer in
      elim (dec_lt c.pos (length buffer)) [
        | no over ↦
            rw (le→ltb_false c.pos (length buffer) (omega arith))
              (Opened-last buffer c s (omega arith))
        | yes more ↦
            rw (lt→ltb c.pos (length buffer) more)
              (elim (Answer-cases (z.decompress_stream z.out_size input c.dctx)) [
                | inr (t, x) ↦ rw x tt
                | inl (st, x) ↦
                    let (fits, takes, gives) = l.decompress_moves z.out_size input c.dctx st x in
                    let left = drop-drop st.consumed c.pos buffer in
                    let fewer =
                      l.decompress_goes_on input c.dctx st x
                        (omega (arith, length-drop c.pos buffer)) in
                    rw (x, write-appended st.produced s end)
                      (Ensures-map IsZstdException _ _ _
                        (chunk_lem fuel buffer (next c st) (appended st.produced s)
                          (appended-IsAtEnd st.produced s end)
                          (omega (arith, length-drop c.pos buffer)) (rw (← left) (omega arith)))
                        (λ r t m. Opened-next buffer c st s r t takes gives m))
              ])
      ]
