-- ===== src/Zstd/Chunks.antt =====
-- The inner loop of zstd::compress.
use drop_file.Common.{
  ℕ, zero, suc, ◌+◌, ◌≤◌, ◌<◌, ◌≡◌, refl, sym, ap, ◌∙◌, ◌⊎◌, inl, inr, Bool, true, false, Option,
  none, some, ◌++◌, append_assoc, arith, ◌==◌, Bool-cases, Bytes, length, take, drop, length-append,
  take-append-drop, length-drop, take_all, drop-drop,
}
use drop_file.Outcome.{◌>>=◌, Action, Ensures, Ensures-map}
use drop_file.Streams.{OutputStream}
use drop_file.FsEntryInfo.Writes.{
  IsAtEnd, appended, appended-appended, appended-IsAtEnd, write-appended,
}
use drop_file.Zstd.{
  assert_ok, not_null, Pipes, continue, error, Library, Step, Answer, Directive, fine, Chunk,
  compress_chunk, mode_of,
}
use drop_file.Zstd.Laws.{Laws, IsZstdException}

pub Answer-cases :
    {A : Type 0} (a : Answer A) → ((x : A) × (a ≡ fine x)) ⊎ ((t : Bytes) × (a ≡ error t))
Answer-cases (fine x) = inl (x, refl)
Answer-cases (error t) = inr (t, refl)

-- A library call that fails throws, and otherwise the rest runs.
module _ {B : Type 0} (Q : B → Pipes → Type 0) (p : Pipes) where
  pub assert_ok_lem :
      {A : Type 0} (a : Answer A) (f : A → Action Pipes B)
      → ((x : A) → a ≡ fine x → Ensures IsZstdException Q (f x p))
      → Ensures IsZstdException Q ((assert_ok a >>= f) p)
  assert_ok_lem (fine x) f k = k x refl
  assert_ok_lem (error t) f k = tt

  pub not_null_lem :
      {A : Type 0} (message : Bytes) (o : Option A) (f : A → Action Pipes B)
      → ((x : A) → o ≡ some x → Ensures IsZstdException Q (f x p))
      → Ensures IsZstdException Q ((not_null message o >>= f) p)
  not_null_lem message none f k = tt
  not_null_lem message (some x) f k = k x refl

module _ (z : Library) (l : Laws z) where
  -- After the inner loop: the rest of the buffer was given to the library, and `zs` written.
  pub record Chunked (is_last : Bool) (buffer : Bytes) (c : Chunk z) (s : OutputStream)
      (r : Chunk z) (t : OutputStream) : Type 0 where
    pub zs : Bytes
    pub wrote : t ≡ appended zs s
    pub counted : r.written ≡ c.written + length zs
    pub all_fed : l.fed r.cctx ≡ l.fed c.cctx ++ drop c.pos buffer
    pub all_out : l.out r.cctx ≡ l.out c.cctx ++ zs
    pub at_end : r.pos ≡ length buffer
    pub still : is_last ≡ false → l.decoded (l.out c.cctx) ≡ none → l.decoded (l.out r.cctx) ≡ none
    pub complete : is_last ≡ true → l.decoded (l.out r.cctx) ≡ some (l.fed r.cctx)

  abbrev next : Chunk z → Step z.CCtx → Chunk z
  next c st = record {
    cctx = st.context;
    pos = c.pos + st.consumed;
    written = c.written + length st.produced;
  }

  Chunked-next :
      (is_last : Bool) (buffer : Bytes) (c : Chunk z) (st : Step z.CCtx) (s : OutputStream)
      (r : Chunk z) (t : OutputStream)
      → l.fed st.context ≡ l.fed c.cctx ++ take st.consumed (drop c.pos buffer)
      → l.out st.context ≡ l.out c.cctx ++ st.produced
      → (is_last ≡ false → l.decoded (l.out c.cctx) ≡ none → l.decoded (l.out st.context) ≡ none)
      → Chunked is_last buffer (next c st) (appended st.produced s) r t
      → Chunked is_last buffer c s r t
  Chunked-next is_last buffer c st s r t feeds outs still m = record {
    zs = st.produced ++ m.zs;
    wrote = m.wrote ∙ appended-appended st.produced m.zs s;
    counted = omega (arith, m.counted, length-append st.produced m.zs);
    all_fed =
        m.all_fed
        ∙ rw feeds (
            append_assoc (l.fed c.cctx) (take st.consumed (drop c.pos buffer))
              (drop (c.pos + st.consumed) buffer))
        ∙ ap (◌++◌ (l.fed c.cctx)) (
            ap (◌++◌ (take st.consumed (drop c.pos buffer)))
              (sym (drop-drop st.consumed c.pos buffer))
            ∙ take-append-drop st.consumed (drop c.pos buffer));
    all_out = m.all_out ∙ rw outs (append_assoc (l.out c.cctx) st.produced m.zs);
    at_end = m.at_end;
    still = λ h o. m.still h (still h o);
    complete = m.complete;
  }

  -- The round in which the loop ends.
  Chunked-last :
      (is_last : Bool) (buffer : Bytes) (c : Chunk z) (st : Step z.CCtx) (s : OutputStream)
      → l.fed st.context ≡ l.fed c.cctx ++ take st.consumed (drop c.pos buffer)
      → l.out st.context ≡ l.out c.cctx ++ st.produced
      → c.pos ≤ length buffer
      → st.consumed ≡ length (drop c.pos buffer)
      → (is_last ≡ false → l.decoded (l.out c.cctx) ≡ none → l.decoded (l.out st.context) ≡ none)
      → (is_last ≡ true → l.decoded (l.out st.context) ≡ some (l.fed st.context))
      → Chunked is_last buffer c s (next c st) (appended st.produced s)
  Chunked-last is_last buffer c st s feeds outs within whole still complete = record {
    zs = st.produced;
    wrote = refl;
    counted = refl;
    all_fed =
        feeds ∙ ap (◌++◌ (l.fed c.cctx)) (take_all st.consumed (drop c.pos buffer) (omega arith));
    all_out = outs;
    at_end = omega (arith, length-drop c.pos buffer);
    still = still;
    complete = complete;
  }

  pub chunk_lem :
      (fuel : ℕ) (is_last : Bool) (buffer : Bytes) (c : Chunk z) (s : OutputStream)
      → IsAtEnd s
      → c.pos ≤ length buffer
      → l.work (mode_of is_last) c.cctx (drop c.pos buffer) < fuel
      → Ensures IsZstdException
          (Chunked is_last buffer c s)
          (compress_chunk z fuel is_last buffer c s)
  unfolding compress_chunk
  chunk_lem zero is_last buffer c s end within w = absurd (omega arith)
  chunk_lem (suc fuel) true buffer c s end within w =
      let input = drop c.pos buffer in
      elim (Answer-cases (z.compress_stream Directive.end z.out_size input c.cctx)) [
        | inr (t, e) ↦ rw e tt
        | inl (st, e) ↦
            let (fits, feeds, outs) = l.compress_moves Directive.end z.out_size input c.cctx st e in
            rw (e, write-appended st.produced s end)
              (elim (Bool-cases (st.remaining == 0)) [
                | inl flushed ↦
                    let (whole, complete) = l.end_done input c.cctx st e (ground arith) in
                    rw flushed (
                      Chunked-last true buffer c st s feeds outs within whole (λ h. cc)
                        (λ _. complete))
                | inr more ↦
                    let left = drop-drop st.consumed c.pos buffer in
                    let fewer = l.end_goes_on input c.cctx st e (ground arith) in
                    rw more (
                      Ensures-map IsZstdException _ _ _
                        (chunk_lem fuel true buffer (next c st) (appended st.produced s)
                          (appended-IsAtEnd st.produced s end)
                          (omega (arith, length-drop c.pos buffer)) (rw (← left) (omega arith)))
                        (λ r t m. Chunked-next true buffer c st s r t feeds outs (λ h. cc) m))
              ])
      ]
  chunk_lem (suc fuel) false buffer c s end within w =
      let input = drop c.pos buffer in
      elim (Answer-cases (z.compress_stream continue z.out_size input c.cctx)) [
        | inr (t, e) ↦ rw e tt
        | inl (st, e) ↦
            let (fits, feeds, outs) = l.compress_moves continue z.out_size input c.cctx st e in
            rw (e, write-appended st.produced s end)
              (elim (Bool-cases (c.pos + st.consumed == length buffer)) [
                | inl taken ↦
                    let whole : st.consumed ≡ length input =
                      ground (arith, length-drop c.pos buffer) in
                    rw taken (
                      Chunked-last false buffer c st s feeds outs within whole
                        (λ _. l.continue_open z.out_size input c.cctx st e) (λ h. cc))
                | inr more ↦
                    let left = drop-drop st.consumed c.pos buffer in
                    let part : st.consumed < length input =
                      ground (arith, length-drop c.pos buffer) in
                    let fewer = l.continue_goes_on input c.cctx st e part in
                    rw more (
                      Ensures-map IsZstdException _ _ _
                        (chunk_lem fuel false buffer (next c st) (appended st.produced s)
                          (appended-IsAtEnd st.produced s end)
                          (omega (arith, length-drop c.pos buffer)) (rw (← left) (omega arith)))
                        (λ r t m.
                          Chunked-next false buffer c st s r t feeds outs
                            (λ _. l.continue_open z.out_size input c.cctx st e) m))
              ])
      ]
