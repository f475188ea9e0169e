-- ===== src/Zstd/Decompress.antt =====
-- zstd::decompress on any library that keeps to its manual.
use drop_file.Zstd.Pieces.{chunk_lem, Opened}
use drop_file.Zstd.Chunks.{not_null_lem}
use drop_file.FsEntryInfo.Writes.{appended-IsAtEnd, appended-appended, appended, IsAtEnd}
use drop_file.Zstd.Laws.{Packs, IsZstdException, Laws}
use drop_file.Zstd.{decompress, on_output, decompress_loop, Pipes, Piece, decompress_chunk, Library}
use drop_file.Common.{
  ℕ, zero, suc, ◌+◌, ◌-◌, ◌≤◌, ◌<◌, min, ◌≡◌, refl, sym, ap, subst, ◌∙◌, false, [], ◌∷◌, ◌++◌,
  append-nil, append_assoc, arith, dec_lt, lt→ltb, le→ltb_false, Bytes, length, take, drop,
  length-append, length-take, length-drop, drop-drop, take_split,
}
use drop_file.Outcome.{Ensures-settled, Ensures-bind, done, Ensures, Ensures-map}
use drop_file.Streams.{read, InputStream, ahead, OutputStream}

module _ (z : Library) (l : Laws z) where
  -- After the outer loop: `zs` was written for the bytes that were left to read.
  pub record Decompressed (left written : ℕ) (dctx : z.DCtx) (p : Pipes) (n : ℕ) (q : Pipes)
      : Type 0 where
    pub zs : Bytes
    pub dctx' : z.DCtx
    pub wrote : q.output ≡ appended zs p.output
    pub counted : n ≡ written + length zs
    pub all_taken : l.taken dctx' ≡ l.taken dctx ++ take left (ahead p.input)
    pub all_given : l.given dctx' ≡ l.given dctx ++ zs
    pub nothing : left ≡ 0 → zs ≡ []
    pub moved : q.input ≡ record p.input { position = p.input.position + left }

  -- The stream behind n bytes.
  abbrev behind : ℕ → InputStream → InputStream
  behind n s = record s { position = s.position + n }

  read_whole :
      (n : ℕ) (s : InputStream)
      → s.failed ≡ false
      → n ≤ length (ahead s)
      → read n s ≡ done (take n (ahead s)) (behind n s)
  unfolding read
  read_whole n s good fits =
      let size : length (take n (ahead s)) ≡ n = omega (arith, length-take n (ahead s)) in
      rw (good, size, le→ltb_false n n (omega arith)) refl

  ahead-behind : (n : ℕ) (s : InputStream) → ahead (behind n s) ≡ drop n (ahead s)
  ahead-behind n s = sym (drop-drop n s.position s.content)

  -- A round with something left to read.
  round_lem :
      (Q : ℕ → Pipes → Type 0) (rounds cl total written : ℕ) (dctx : z.DCtx) (p : Pipes)
      → p.input.failed ≡ false
      → IsAtEnd p.output
      → 0 < cl - total
      → cl - total ≤ length (ahead p.input)
      → ((r : Piece z) (t : OutputStream)
          → Opened z l
              (take (min z.in_size (cl - total)) (ahead p.input))
              (record { dctx = dctx; pos = 0; written = written })
              p.output
              r
              t
          → Ensures IsZstdException Q (
              decompress_loop z rounds l.calls cl
                (total + min z.in_size (cl - total))
                r.dctx
                r.written
                (record { input = behind (min z.in_size (cl - total)) p.input; output = t })))
      → Ensures IsZstdException Q (decompress_loop z (suc rounds) l.calls cl total dctx written p)
  unfolding decompress_loop drop take
  round_lem Q rounds cl total written dctx p good end more fits k =
      let n = min z.in_size (cl - total) in
      let b = take n (ahead p.input) in
      let size : length b ≡ n = omega (arith, length-take n (ahead p.input)) in
      let start : Piece z = record { dctx = dctx; pos = 0; written = written } in
      let P : Piece z → Pipes → Type 0 =
        λ r q. Opened z l b start p.output r q.output × (q.input ≡ behind n p.input) in
      let step : (r : Piece z) (q : Pipes)
          → P r q
          → Ensures IsZstdException Q
              (decompress_loop z rounds l.calls cl (total + n) r.dctx r.written q) =
        λ r q (m, same).
          subst
            (λ i. Ensures IsZstdException Q (
              decompress_loop z rounds l.calls cl (total + n) r.dctx r.written
                (record { input = i; output = q.output })))
            (sym same) (k r q.output m) in
      rw (read_whole n p.input good (omega arith), size, lt→ltb 0 n (omega (arith, l.in_size_pos)))
        (Ensures-bind IsZstdException P Q
          (on_output (decompress_chunk z l.calls b start)
            (record { input = behind n p.input; output = p.output }))
          (λ r. decompress_loop z rounds l.calls cl (total + n) r.dctx r.written)
          (Ensures-settled IsZstdException (Opened z l b start p.output) P
            (λ o. record { input = behind n p.input; output = o })
            (decompress_chunk z l.calls b start p.output)
            (chunk_lem z l l.calls b start p.output end (omega arith)
              (l.effort-lt dctx b (omega arith)))
            (λ r t m. (m, refl)))
          step)

  loop_none :
      (rounds cl total written : ℕ) (dctx : z.DCtx) (p : Pipes)
      → p.input.failed ≡ false
      → cl - total ≡ 0
      → decompress_loop z (suc rounds) l.calls cl total dctx written p
        ≡ done written (record p { input = behind 0 p.input })
  unfolding decompress_loop take
  loop_none rounds cl total written dctx p good nothing =
      let size : min z.in_size (cl - total) ≡ 0 = omega arith in
      rw (size, read_whole 0 p.input good (omega arith)) refl

  Decompressed-none :
      (left written : ℕ) (dctx : z.DCtx) (p : Pipes)
      → left ≡ 0
      → Decompressed left written dctx p written (record p { input = behind 0 p.input })
  unfolding take
  Decompressed-none left written dctx p none_left = record {
    zs = [];
    dctx' = dctx;
    wrote = ground (arith, append-nil p.output.content);
    counted = omega arith;
    all_taken = rw none_left (sym (append-nil (l.taken dctx)));
    all_given = sym (append-nil (l.given dctx));
    nothing = λ h. refl;
    moved = rw none_left refl;
  }

  Decompressed-next :
      (left size written : ℕ) (dctx : z.DCtx) (p : Pipes) (r : Piece z) (t : OutputStream) (n : ℕ)
      (q : Pipes)
      → 0 < left
      → size ≤ left
      → Opened z l
          (take size (ahead p.input))
          (record { dctx = dctx; pos = 0; written = written })
          p.output
          r
          t
      → Decompressed
          (left - size)
          r.written
          r.dctx
          (record { input = behind size p.input; output = t })
          n
          q
      → Decompressed left written dctx p n q
  unfolding drop
  Decompressed-next left size written dctx p r t n q more fits m c =
      let d = ahead p.input in
      record {
        zs = m.zs ++ c.zs;
        dctx' = c.dctx';
        wrote = c.wrote ∙ ap (appended c.zs) m.wrote ∙ appended-appended m.zs c.zs p.output;
        counted = omega (arith, m.counted, c.counted, length-append m.zs c.zs);
        all_taken =
            c.all_taken
            ∙ ap (λ x. x ++ take (left - size) (ahead (behind size p.input))) m.all_taken
            ∙ append_assoc (l.taken dctx) (take size d)
                (take (left - size) (ahead (behind size p.input)))
            ∙ ap (◌++◌ (l.taken dctx)) (
                ap (λ x. take size d ++ take (left - size) x) (ahead-behind size p.input)
                ∙ take_split size left d fits);
        all_given =
            c.all_given ∙ ap (λ x. x ++ c.zs) m.all_given ∙ append_assoc (l.given dctx) m.zs c.zs;
        nothing = λ h. absurd (omega arith);
        moved = c.moved ∙ ap (λ k. record p.input { position = k }) (omega arith);
      }

  loop_lem :
      (rounds cl total written : ℕ) (dctx : z.DCtx) (p : Pipes)
      → p.input.failed ≡ false
      → IsAtEnd p.output
      → cl - total ≤ length (ahead p.input)
      → cl - total < rounds
      → Ensures IsZstdException
          (Decompressed (cl - total) written dctx p)
          (decompress_loop z rounds l.calls cl total dctx written p)
  loop_lem zero cl total written dctx p good end fits r = absurd (omega arith)
  loop_lem (suc rounds) cl total written dctx p good end fits r = elim (dec_lt 0 (cl - total)) [
    | no none_left ↦
        rw (loop_none rounds cl total written dctx p good (omega arith))
          (Decompressed-none (cl - total) written dctx p (omega arith))
    | yes more ↦
        let n = min z.in_size (cl - total) in
        let left : cl - (total + n) ≡ cl - total - n = omega arith in
        round_lem (Decompressed (cl - total) written dctx p) rounds cl total written dctx p good end
          more fits
          (λ c t m.
            let q : Pipes = record { input = behind n p.input; output = t } in
            let size : length (ahead q.input) ≡ length (ahead p.input) - n =
              ap length (ahead-behind n p.input) ∙ length-drop n (ahead p.input) in
            Ensures-map IsZstdException (Decompressed (cl - (total + n)) c.written c.dctx q) _ _
              (loop_lem rounds cl (total + n) c.written c.dctx q good
                (subst IsAtEnd (sym m.wrote) (appended-IsAtEnd m.zs p.output end)) (omega arith)
                (omega (arith, l.in_size_pos)))
              (λ k u e.
                Decompressed-next (cl - total) n written dctx p c t k u more (omega arith) m
                  (subst (λ w. Decompressed w c.written c.dctx q k u) left e)))
  ]

  Packs-given :
      (data' packed : Bytes) (d : z.DCtx) (zs : Bytes)
      → Packs l data' packed
      → l.taken d ≡ packed
      → l.given d ≡ zs
      → (length packed ≡ 0 → zs ≡ [])
      → zs ≡ data'
  Packs-given [] packed d zs h taken given nothing = nothing (ap length h)
  Packs-given (x ∷ data') packed d zs h taken given nothing =
      sym given ∙ l.given-decoded d (x ∷ data') (ap l.decoded taken ∙ h)

  -- The data is put at the end of a file, and the archive is behind its packed form.
  abbrev pub Unpacked : ℕ → Bytes → Pipes → ℕ → Pipes → Type 0
  Unpacked compressed_length data' p n q =
      (n ≡ length data')
      × (q ≡ record { input = behind compressed_length p.input; output = appended data' p.output })

  Decompressed→Unpacked :
      (cl : ℕ) (data' : Bytes) (d : z.DCtx) (p : Pipes) (n : ℕ) (q : Pipes)
      → l.taken d ≡ []
      → l.given d ≡ []
      → cl ≤ length (ahead p.input)
      → Packs l data' (take cl (ahead p.input))
      → Decompressed cl 0 d p n q
      → Unpacked cl data' p n q
  Decompressed→Unpacked cl data' d p n q taken_none given_none fits packed c =
      let same : c.zs ≡ data' =
        Packs-given data' (take cl (ahead p.input)) c.dctx' c.zs packed
          (c.all_taken ∙ ap (λ x. x ++ take cl (ahead p.input)) taken_none)
          (c.all_given ∙ ap (λ x. x ++ c.zs) given_none)
          (λ h. c.nothing (omega (arith, length-take cl (ahead p.input)))) in
      (
        omega (arith, c.counted, ap length same),
        ap (λ (i : InputStream). record { input = i; output = q.output }) c.moved
            ∙ ap (λ (o : OutputStream). record { input = behind cl p.input; output = o })
                (c.wrote ∙ ap (λ x. appended x p.output) same),
      )

  -- decompress ends for every archive that has compressed_length bytes ahead, and by an exception
  -- of its own only if the library reports an error or has no context. If those bytes are the
  -- packed form of some data, it writes that data, takes those bytes only, and leaves the archive
  -- readable behind them.
  pub decompress_lem :
      (rounds compressed_length : ℕ) (data' : Bytes) (p : Pipes)
      → p.input.failed ≡ false
      → IsAtEnd p.output
      → compressed_length ≤ length (ahead p.input)
      → Packs l data' (take compressed_length (ahead p.input))
      → compressed_length < rounds
      → Ensures IsZstdException
          (Unpacked compressed_length data' p)
          (decompress z rounds l.calls compressed_length p)
  unfolding decompress
  decompress_lem rounds cl data' p good end fits packed r =
      not_null_lem (Unpacked cl data' p) p _ z.create_dctx _ (λ d e.
        let (taken_none, given_none) = l.new_dctx d e in
        Ensures-map IsZstdException (Decompressed (cl - 0) 0 d p) _ _
          (loop_lem rounds cl 0 0 d p good end (omega arith) (omega arith))
          (λ n q c.
            Decompressed→Unpacked cl data' d p n q taken_none given_none fits packed
              (subst (λ left. Decompressed left 0 d p n q) (omega arith) c)))
