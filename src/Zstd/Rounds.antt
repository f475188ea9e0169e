-- ===== src/Zstd/Rounds.antt =====
-- One round of the outer loop of zstd::compress.
use drop_file.Zstd.Chunks.{chunk_lem, Chunked}
use drop_file.Common.{
  ℕ, suc, ◌+◌, ◌<◌, ◌≡◌, refl, sym, ap, subst, ◌∙◌, true, false, arith, ltb, ◌==◌, lt→ltb, length,
  take, drop, take-append-drop, length-take, drop-drop, drop_front,
}
use drop_file.Outcome.{◌>>◌, Ensures-settled, Ensures-bind, done, Ensures}
use drop_file.Streams.{ahead, InputStream, read, OutputStream}
use drop_file.FsEntryInfo.Writes.{IsAtEnd}
use drop_file.Zstd.{
  on_output, all_consumed, compress_loop, Pipes, Library, Chunk, compress_chunk, mode_of,
}
use drop_file.Zstd.Laws.{Laws, IsZstdException}

module _ (z : Library) (l : Laws z) where
  abbrev pub read_on : InputStream → InputStream
  read_on s = record s {
    position = s.position + length (take z.in_size (ahead s));
    failed = ltb (length (take z.in_size (ahead s))) z.in_size;
  }

  pub read_lem :
      (n : ℕ) (s : InputStream)
      → s.failed ≡ false
      → n ≡ z.in_size
      → read n s ≡ done (take z.in_size (ahead s)) (read_on s)
  unfolding read
  read_lem n s good e = rw (good, e) refl

  pub ahead-read_on : (s : InputStream) → ahead (read_on s) ≡ drop z.in_size (ahead s)
  ahead-read_on s =
      let b = take z.in_size (ahead s) in
      sym (drop-drop (length b) s.position s.content)
      ∙ ap (drop (length b)) (sym (take-append-drop z.in_size (ahead s)))
      ∙ drop_front b (drop z.in_size (ahead s)) (length b) refl

  pub loop_failed :
      (rounds written : ℕ) (cctx : z.CCtx) (p : Pipes)
      → p.input.failed ≡ true
      → compress_loop z (suc rounds) l.calls cctx written p ≡ done written p
  unfolding compress_loop read
  loop_failed rounds written cctx p bad = rw bad refl

  abbrev pub start_chunk : z.CCtx → ℕ → Chunk z
  start_chunk cctx written = record { cctx = cctx; pos = 0; written = written }

  pub loop_none :
      (rounds written : ℕ) (cctx : z.CCtx) (p : Pipes)
      → p.input.failed ≡ false
      → length (ahead p.input) ≡ 0
      → compress_loop z (suc rounds) l.calls cctx written p
        ≡ done written (record p { input = read_on p.input })
  unfolding compress_loop
  loop_none rounds written cctx p good none_left =
      let short : length (take z.in_size (ahead p.input)) ≡ 0 =
        omega (arith, length-take z.in_size (ahead p.input)) in
      rw (read_lem z.in_size p.input good refl, short) refl

  -- A round with data ahead.
  pub round_lem :
      (Q : ℕ → Pipes → Type 0) (rounds written : ℕ) (cctx : z.CCtx) (p : Pipes)
      → p.input.failed ≡ false
      → IsAtEnd p.output
      → 0 < length (take z.in_size (ahead p.input))
      → ((r : Chunk z) (t : OutputStream)
          → Chunked z l
              (ltb (length (take z.in_size (ahead p.input))) z.in_size)
              (take z.in_size (ahead p.input))
              (start_chunk cctx written)
              p.output
              r
              t
          → Ensures IsZstdException Q (
              compress_loop z rounds l.calls r.cctx r.written
                (record { input = read_on p.input; output = t })))
      → Ensures IsZstdException Q (compress_loop z (suc rounds) l.calls cctx written p)
  unfolding compress_loop drop
  round_lem Q rounds written cctx p good end some_left k =
      let b = take z.in_size (ahead p.input) in
      let is_last = ltb (length b) z.in_size in
      let P : Chunk z → Pipes → Type 0 = λ r q.
        Chunked z l is_last b (start_chunk cctx written) p.output r q.output
        × (q.input ≡ read_on p.input) in
      let step : (r : Chunk z) (q : Pipes)
          → P r q
          → Ensures IsZstdException Q
              ((all_consumed z b r >> compress_loop z rounds l.calls r.cctx r.written) q) =
        λ r q (m, same).
          let whole : (r.pos == length b) ≡ true = ground (arith, m.at_end) in
          rw whole (
            subst
              (λ i. Ensures IsZstdException Q (
                compress_loop z rounds l.calls r.cctx r.written
                  (record { input = i; output = q.output })))
              (sym same) (k r q.output m)) in
      rw (read_lem z.in_size p.input good refl, lt→ltb 0 (length b) some_left)
        (Ensures-bind IsZstdException P Q
          (on_output (compress_chunk z l.calls is_last b (start_chunk cctx written))
            (record { input = read_on p.input; output = p.output }))
          (λ r. all_consumed z b r >> compress_loop z rounds l.calls r.cctx r.written)
          (Ensures-settled IsZstdException
            (Chunked z l is_last b (start_chunk cctx written) p.output) P
            (λ o. record { input = read_on p.input; output = o })
            (compress_chunk z l.calls is_last b (start_chunk cctx written) p.output)
            (chunk_lem z l l.calls is_last b (start_chunk cctx written) p.output end (omega arith) (
              l.work-lt (mode_of is_last) cctx b
                (omega (arith, length-take z.in_size (ahead p.input)))))
            (λ r t m. (m, refl)))
          step)
