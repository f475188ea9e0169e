-- ===== src/Zstd/Laws.antt =====
-- What the manual of libzstd says of its streaming calls, as far as zstd.cpp relies on it.
use drop_file.Outcome.{zstd_exception, Exception}
use drop_file.Common.{
  ℕ, ◌≤◌, ◌<◌, ◌≡◌, ◌≢◌, Option, none, some, [], ◌∷◌, ◌++◌, Bytes, length, take, drop,
}
use drop_file.Zstd.{continue, Parameter, Library, Step, Directive, fine}

-- A context is described by the bytes that it was given and those that it has put out, and by how
-- many calls are left at most until what was asked for is done.
pub record Laws (z : Library) : Type 0 where
  -- The data of one or more complete frames.
  pub decoded : Bytes → Option Bytes
  pub nothing-decoded : decoded [] ≡ none
  pub fed : z.CCtx → Bytes
  pub out : z.CCtx → Bytes
  pub work : Directive → z.CCtx → Bytes → ℕ
  pub taken : z.DCtx → Bytes
  pub given : z.DCtx → Bytes
  pub effort : z.DCtx → Bytes → ℕ
  -- The library's buffers are bounded, and so are the calls for one input buffer.
  pub calls : ℕ
  pub work-lt :
      (mode : Directive) (c : z.CCtx) (input : Bytes)
      → length input ≤ z.in_size
      → work mode c input < calls
  pub effort-lt : (d : z.DCtx) (input : Bytes) → length input ≤ z.in_size → effort d input < calls
  pub in_size_pos : 0 < z.in_size
  pub new_cctx : (c : z.CCtx) → z.create_cctx ≡ some c → (fed c ≡ []) × (out c ≡ [])
  pub set_up :
      (p : Parameter) (n : ℕ) (c d : z.CCtx)
      → z.set_parameter p n c ≡ fine d
      → (fed d ≡ fed c) × (out d ≡ out c)
  pub reset :
      (c d : z.CCtx)
      → z.reset_session c ≡ fine d
      → (fed c ≡ [])
      → (out c ≡ [])
      → (fed d ≡ []) × (out d ≡ [])
  -- A call takes the front of its input, and what it puts out belongs to the frame.
  pub compress_moves :
      (mode : Directive) (n : ℕ) (input : Bytes) (c : z.CCtx) (s : Step z.CCtx)
      → z.compress_stream mode n input c ≡ fine s
      → (s.consumed ≤ length input)
        × (fed s.context ≡ fed c ++ take s.consumed input)
        × (out s.context ≡ out c ++ s.produced)
  -- Every call makes progress.
  pub continue_goes_on :
      (input : Bytes) (c : z.CCtx) (s : Step z.CCtx)
      → z.compress_stream continue z.out_size input c ≡ fine s
      → s.consumed < length input
      → work continue s.context (drop s.consumed input) < work continue c input
  -- ZSTD_e_continue does not end a frame.
  pub continue_open :
      (n : ℕ) (input : Bytes) (c : z.CCtx) (s : Step z.CCtx)
      → z.compress_stream continue n input c ≡ fine s
      → decoded (out c) ≡ none
      → decoded (out s.context) ≡ none
  pub end_goes_on :
      (input : Bytes) (c : z.CCtx) (s : Step z.CCtx)
      → z.compress_stream Directive.end z.out_size input c ≡ fine s
      → s.remaining ≢ 0
      → work Directive.end s.context (drop s.consumed input) < work Directive.end c input
  -- ZSTD_e_end returns 0 when all of the input is in a complete frame that is flushed.
  pub end_done :
      (input : Bytes) (c : z.CCtx) (s : Step z.CCtx)
      → z.compress_stream Directive.end z.out_size input c ≡ fine s
      → s.remaining ≡ 0
      → (s.consumed ≡ length input) × (decoded (out s.context) ≡ some (fed s.context))
  pub new_dctx : (d : z.DCtx) → z.create_dctx ≡ some d → (taken d ≡ []) × (given d ≡ [])
  pub decompress_moves :
      (n : ℕ) (input : Bytes) (d : z.DCtx) (s : Step z.DCtx)
      → z.decompress_stream n input d ≡ fine s
      → (s.consumed ≤ length input)
        × (taken s.context ≡ taken d ++ take s.consumed input)
        × (given s.context ≡ given d ++ s.produced)
  pub decompress_goes_on :
      (input : Bytes) (d : z.DCtx) (s : Step z.DCtx)
      → z.decompress_stream z.out_size input d ≡ fine s
      → 0 < length input
      → effort s.context (drop s.consumed input) < effort d input
  -- The last byte of a frame is not taken before all of its data is put out.
  pub given-decoded :
      (d : z.DCtx) (data' : Bytes) → decoded (taken d) ≡ some data' → given d ≡ data'

-- The bytes of an archive in which a file's data is packed: nothing for an empty file.
abbrev pub Packs : {z : Library} → Laws z → Bytes → Bytes → Type 0
Packs l [] packed = packed ≡ []
Packs l (x ∷ d) packed = l.decoded packed ≡ some (x ∷ d)

abbrev pub IsZstdException : Exception → Type 0
IsZstdException (zstd_exception t) = Unit {0}
IsZstdException _ = ⊥
