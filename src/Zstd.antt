-- ===== src/Zstd.antt =====
-- include/client/zstd.hpp and src/client/zstd.cpp. libzstd, which is not in the repository, is the
-- record `Library` of its calls; their documented behaviour is Zstd/Laws.
pub mod Laws
pub mod Chunks
pub mod Rounds
pub mod Compress
pub mod Pieces
pub mod Decompress
use drop_file.Common.{
  ℕ, zero, suc, ◌+◌, ◌-◌, ◌*◌, ◌/◌, ◌%◌, ◌^◌, ◌≤◌, ◌<◌, min, ◌≡◌, refl, sym, ap, subst, ◌∙◌, ◌≢◌,
  ◌↔◌, ◌⊎◌, inl, inr, ite, if_pos, if_neg, Bool, true, false, not, ◌&&◌, ◌||◌, Option, none, some,
  List, [], ◌∷◌, ◌++◌, map, append-nil, append_assoc, arith, dec_lt, dec_le, ltb, leb, ◌==◌,
  if◌then◌else◌, ltb→lt, lt→ltb, le→ltb_false, Bool-cases, Option-cases, Bytes, text, bytes_eq,
  bytes_eq_refl, bytes_eq→eq, bytes_eq_iff, ne→bytes_eq_false, length, take, drop, length-append,
  All, take-append-drop, length-take, length-drop, take_all, drop_all, take-append_le,
  take-append_ge, drop-append_ge, drop-drop, take_front, drop_front,
}
use drop_file.Outcome.{zstd_exception, pure, settled, throw, unfinished, Action, ◌>>=◌, ◌>>◌}
use drop_file.Streams.{InputStream, OutputStream, read, write}

-- What a call of libzstd gives: a value, or a code that ZSTD_isError accepts, by its name.
pub data Answer (A : Type 0) : Type 0 where
  fine : A → Answer A
  error : Bytes → Answer A

pub data Parameter : Type 0 where
  compression_level checksum_flag : Parameter

-- ZSTD_EndDirective
pub data Directive : Type 0 where
  continue end : Directive

-- What a streaming call does: the context after it, how much of the input it took, what it put
-- into the output buffer, and its result.
pub record Step (C : Type 0) : Type 0 where
  pub context : C
  pub consumed : ℕ
  pub produced : Bytes
  pub remaining : ℕ

pub record Library : Type 1 where
  pub CCtx : Type 0
  pub DCtx : Type 0
  -- ZSTD_DStreamInSize and ZSTD_DStreamOutSize
  pub in_size : ℕ
  pub out_size : ℕ
  -- ZSTD_createCCtx, which may return a null pointer
  pub create_cctx : Option CCtx
  pub set_parameter : Parameter → ℕ → CCtx → Answer CCtx
  pub reset_session : CCtx → Answer CCtx
  -- ZSTD_compressStream2, on an output buffer of a size and the input from its pos on
  pub compress_stream : Directive → ℕ → Bytes → CCtx → Answer (Step CCtx)
  pub create_dctx : Option DCtx
  -- ZSTD_decompressStream
  pub decompress_stream : ℕ → Bytes → DCtx → Answer (Step DCtx)

abbrev pub assert_ok {ℓ} : {S : Type ℓ} {A : Type 0} → Answer A → Action S A
assert_ok (fine a) = pure a
assert_ok (error name) = throw (zstd_exception name)

abbrev pub not_null {ℓ} : {S : Type ℓ} {A : Type 0} → Bytes → Option A → Action S A
not_null message none = throw (zstd_exception message)
not_null message (some a) = pure a

abbrev pub mode_of : Bool → Directive
mode_of is_last_chunk = if is_last_chunk then Directive.end else continue

-- The two streams of a call.
pub record Pipes : Type 0 where
  pub input : InputStream
  pub output : OutputStream

abbrev pub on_input {ℓ} : {A : Type ℓ} → Action InputStream A → Action Pipes A
on_input m p = settled (λ s. record p { input = s }) (m p.input)

abbrev pub on_output {ℓ} : {A : Type ℓ} → Action OutputStream A → Action Pipes A
on_output m p = settled (λ s. record p { output = s }) (m p.output)

module _ (z : Library) where
  open z use {CCtx, DCtx}

  -- The variables of the inner loop of compress.
  pub record Chunk : Type 0 where
    pub cctx : CCtx
    pub pos : ℕ
    pub written : ℕ

  abbrev pub is_finished : Bool → Bytes → Step CCtx → ℕ → Bool
  is_finished is_last_chunk buffer step pos =
      if is_last_chunk then step.remaining == 0 else pos == length buffer

  -- The inner loop. Fuel: one round for each call of the library.
  unfoldable pub compress_chunk : ℕ → Bool → Bytes → Chunk → Action OutputStream Chunk
  compress_chunk zero is_last_chunk buffer c = λ _. unfinished
  compress_chunk (suc fuel) is_last_chunk buffer c = do
    step ←
        assert_ok (z.compress_stream (mode_of is_last_chunk) z.out_size (drop c.pos buffer) c.cctx)
    write step.produced
    let next : Chunk = record {
      cctx = step.context;
      pos = c.pos + step.consumed;
      written = c.written + length step.produced;
    }
    let again = compress_chunk fuel is_last_chunk buffer next
    if is_finished is_last_chunk buffer step next.pos then pure next else again

  abbrev pub all_consumed : Bytes → Chunk → Action Pipes (Unit {0})
  all_consumed buffer c =
      if not (c.pos == length buffer)
      then throw (
          zstd_exception
            (text "Impossible: zstd only returns 0 when the input is completely consumed!"))
      else pure tt

  -- The outer loop. Fuel: one round for each read; `calls` is the fuel of the inner loop.
  unfoldable pub compress_loop : ℕ → ℕ → CCtx → ℕ → Action Pipes ℕ
  compress_loop zero calls cctx written = λ _. unfinished
  compress_loop (suc rounds) calls cctx written = do
    buffer ← on_input (read z.in_size)
    let more = (do
      c ← on_output (
          compress_chunk calls (ltb (length buffer) z.in_size) buffer
            (record { cctx = cctx; pos = 0; written = written }))
      all_consumed buffer c
      compress_loop rounds calls c.cctx c.written)
    if ltb 0 (length buffer) then more else pure written

  unfoldable pub compress : ℕ → ℕ → Action Pipes ℕ
  compress rounds calls = do
    c ← not_null (text "ZSTD_createCCtx() failed!") z.create_cctx
    c ← assert_ok (z.set_parameter compression_level 6 c)
    c ← assert_ok (z.set_parameter checksum_flag 1 c)
    c ← assert_ok (z.reset_session c)
    compress_loop rounds calls c 0

  -- The variables of the inner loop of decompress.
  pub record Piece : Type 0 where
    pub dctx : DCtx
    pub pos : ℕ
    pub written : ℕ

  unfoldable pub decompress_chunk : ℕ → Bytes → Piece → Action OutputStream Piece
  decompress_chunk zero buffer c = if ltb c.pos (length buffer) then (λ _. unfinished) else pure c
  decompress_chunk (suc fuel) buffer c =
      let more = (do
        step ← assert_ok (z.decompress_stream z.out_size (drop c.pos buffer) c.dctx)
        write step.produced
        decompress_chunk fuel buffer (record {
          dctx = step.context;
          pos = c.pos + step.consumed;
          written = c.written + length step.produced;
        })) in
      if ltb c.pos (length buffer) then more else pure c

  unfoldable pub decompress_loop : ℕ → ℕ → ℕ → ℕ → DCtx → ℕ → Action Pipes ℕ
  decompress_loop zero calls compressed_length total_read dctx written = λ _. unfinished
  decompress_loop (suc rounds) calls compressed_length total_read dctx written = do
    let left_to_read = compressed_length - total_read
    let this_chunk_size = min z.in_size left_to_read
    buffer ← on_input (read this_chunk_size)
    let more = (do
      c ←
          on_output
            (decompress_chunk calls buffer (record { dctx = dctx; pos = 0; written = written }))
      decompress_loop rounds calls compressed_length (total_read + length buffer) c.dctx c.written)
    if ltb 0 (length buffer) then more else pure written

  unfoldable pub decompress : ℕ → ℕ → ℕ → Action Pipes ℕ
  decompress rounds calls compressed_length = do
    d ← not_null (text "ZSTD_createDCtx() failed!") z.create_dctx
    decompress_loop rounds calls compressed_length 0 d 0
