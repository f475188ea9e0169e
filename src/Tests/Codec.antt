-- ===== src/Tests/Codec.antt =====
-- A library of streaming calls with which the properties of zstd.cpp are tried: a frame is a byte and
-- the data behind it, which is put out by the call that ends it.
mod Packing
use drop_file.Zstd.Laws.{Laws}
use drop_file.Common.{
  ℕ, zero, suc, ◌+◌, ◌-◌, ◌*◌, ◌/◌, ◌%◌, ◌^◌, ◌≤◌, ◌<◌, min, ◌≡◌, refl, sym, ap, subst, ◌∙◌, ◌≢◌,
  ◌↔◌, ◌⊎◌, inl, inr, ite, if_pos, if_neg, Bool, true, false, not, ◌&&◌, ◌||◌, Option, none, some,
  List, [], ◌∷◌, ◌++◌, map, append-nil, append_assoc, arith, dec_lt, dec_le, ltb, leb, ◌==◌,
  if◌then◌else◌, ltb→lt, lt→ltb, le→ltb_false, Bool-cases, Option-cases, Bytes, text, bytes_eq,
  bytes_eq_refl, bytes_eq→eq, bytes_eq_iff, ne→bytes_eq_false, length, take, drop, length-append,
  All, take-append-drop, length-take, length-drop, take_all, drop_all, take-append_le,
  take-append_ge, drop-append_ge, drop-drop, take_front, drop_front, take_split,
}
use drop_file.Zstd.{error, Library, Step, Directive, Answer, continue, fine}

pub data Context : Type 0 where
  collecting : Bytes → Context
  flushed : Bytes → Context

abbrev compressed : Directive → Bytes → Context → Step Context
compressed continue input (collecting d) = record {
  context = collecting (d ++ input);
  consumed = length input;
  produced = [];
  remaining = 0;
}
compressed Directive.end input (collecting d) = record {
  context = flushed (d ++ input);
  consumed = length input;
  produced = 1 ∷ (d ++ input);
  remaining = 0;
}
compressed mode input (flushed d) = record {
  context = flushed (d ++ input);
  consumed = length input;
  produced = input;
  remaining = 0;
}

abbrev data_of : Bytes → Bytes
data_of [] = []
data_of (b ∷ d) = d

abbrev decompressed : Bytes → Bytes → Bytes
decompressed [] input = data_of input
decompressed (b ∷ d) input = input

abbrev decoding : Bytes → Bytes → Step Bytes
decoding input d = record {
  context = d ++ input;
  consumed = length input;
  produced = decompressed d input;
  remaining = 0;
}

abbrev pub codec : Library
codec = record {
  CCtx = Context;
  DCtx = Bytes;
  in_size = 4;
  out_size = 4;
  create_cctx = some (collecting []);
  set_parameter = λ p n c. fine c;
  reset_session = λ c. fine c;
  compress_stream = λ mode n input c. fine (compressed mode input c);
  create_dctx = some [];
  decompress_stream = λ n input d. fine (decoding input d);
}

abbrev codec_decoded : Bytes → Option Bytes
codec_decoded [] = none
codec_decoded (b ∷ d) = some d

abbrev codec_fed : Context → Bytes
codec_fed (collecting d) = d
codec_fed (flushed d) = d

abbrev codec_out : Context → Bytes
codec_out (collecting d) = []
codec_out (flushed d) = 1 ∷ d

abbrev un_fine : {A : Type 0} → A → Answer A → A
un_fine a (fine x) = x
un_fine a (error t) = a

fine-eq : {A : Type 0} (a b : A) → fine a ≡ fine b → a ≡ b
fine-eq a b e = ap (un_fine a) e

some-context : (a b : Context) → some a ≡ some b → a ≡ b
some-context a b e = cc

some-eq : (a b : Bytes) → some a ≡ some b → a ≡ b
some-eq a b e = cc

-- One call of the codec, which always takes all of its input.
moves :
    (mode : Directive) (input : Bytes) (c : Context)
    → (length input ≤ length input)
      × (codec_fed (compressed mode input c).context ≡ codec_fed c ++ take (length input) input)
      × (codec_out (compressed mode input c).context
          ≡ codec_out c ++ (compressed mode input c).produced)
moves continue input (collecting d) =
    (omega arith, ap (◌++◌ d) (sym (take_all (length input) input (omega arith))), refl)
moves Directive.end input (collecting d) =
    (omega arith, ap (◌++◌ d) (sym (take_all (length input) input (omega arith))), refl)
moves mode input (flushed d) =
    (omega arith, ap (◌++◌ d) (sym (take_all (length input) input (omega arith))), refl)

takes_all :
    (mode : Directive) (input : Bytes) (c : Context)
    → (compressed mode input c).consumed ≡ length input
takes_all continue input (collecting d) = refl
takes_all Directive.end input (collecting d) = refl
takes_all mode input (flushed d) = refl

still_open :
    (input : Bytes) (c : Context)
    → codec_decoded (codec_out c) ≡ none
    → codec_decoded (codec_out (compressed continue input c).context) ≡ none
still_open input (collecting d) h = refl
still_open input (flushed d) h = cc

ends :
    (input : Bytes) (c : Context)
    → codec_decoded (codec_out (compressed Directive.end input c).context)
      ≡ some (codec_fed (compressed Directive.end input c).context)
ends input (collecting d) = refl
ends input (flushed d) = refl

leaves_nothing :
    (mode : Directive) (input : Bytes) (c : Context) → (compressed mode input c).remaining ≡ 0
leaves_nothing continue input (collecting d) = refl
leaves_nothing Directive.end input (collecting d) = refl
leaves_nothing mode input (flushed d) = refl

gives : (input d : Bytes) → data_of (d ++ input) ≡ data_of d ++ decompressed d input
gives input [] = refl
gives input (b ∷ d) = refl

given_back : (d data' : Bytes) → codec_decoded d ≡ some data' → data_of d ≡ data'
given_back [] data' e = cc
given_back (b ∷ d) data' e = some-eq d data' e

pub codec-Laws : Laws codec
codec-Laws = record {
  decoded = codec_decoded;
  nothing-decoded = refl;
  fed = codec_fed;
  out = codec_out;
  work = λ mode c input. 0;
  taken = λ d. d;
  given = data_of;
  effort = λ d input. length input;
  calls = 5;
  work-lt = λ mode c input h. omega arith;
  effort-lt = λ d input h. omega arith;
  in_size_pos = omega arith;
  new_cctx = λ c e.
      let d = some-context (collecting []) c e in (ap codec_fed (sym d), ap codec_out (sym d));
  set_up = λ p n c d e. let q = fine-eq c d e in (ap codec_fed (sym q), ap codec_out (sym q));
  reset =
      λ c d e f o. let q = fine-eq c d e in (ap codec_fed (sym q) ∙ f, ap codec_out (sym q) ∙ o);
  compress_moves = λ mode n input c s e.
      let q = fine-eq (compressed mode input c) s e in
      let n_all = takes_all mode input c in
      let (m, feeds, outs) = moves mode input c in
      (
        omega (arith, n_all, ap (λ (x : Step Context). x.consumed) q),
        ap (λ (x : Step Context). codec_fed x.context) (sym q)
            ∙ feeds
            ∙ ap (λ k. codec_fed c ++ take k input)
                (sym n_all ∙ ap (λ (x : Step Context). x.consumed) q),
        ap (λ (x : Step Context). codec_out x.context) (sym q)
            ∙ outs
            ∙ ap (λ (x : Step Context). codec_out c ++ x.produced) q,
      );
  continue_goes_on = λ input c s e h. absurd (
      omega (
        arith,
        takes_all continue input c,
        ap (λ (x : Step Context). x.consumed) (fine-eq (compressed continue input c) s e),
      ));
  continue_open = λ n input c s e h.
      ap (λ (x : Step Context). codec_decoded (codec_out x.context))
        (sym (fine-eq (compressed continue input c) s e))
      ∙ still_open input c h;
  end_goes_on = λ input c s e h. absurd (
      h (
        ap (λ (x : Step Context). x.remaining)
          (sym (fine-eq (compressed Directive.end input c) s e))
        ∙ leaves_nothing Directive.end input c));
  end_done = λ input c s e h.
      let q = fine-eq (compressed Directive.end input c) s e in
      (
        ap (λ (x : Step Context). x.consumed) (sym q) ∙ takes_all Directive.end input c,
        ap (λ (x : Step Context). codec_decoded (codec_out x.context)) (sym q)
            ∙ ends input c
            ∙ ap (λ (x : Step Context). some (codec_fed x.context)) q,
      );
  new_dctx = λ d e. let q = some-eq [] d e in (sym q, ap data_of (sym q));
  decompress_moves = λ n input d s e.
      let q = fine-eq (decoding input d) s e in
      let whole = take_all (length input) input (omega arith) in
      (
        omega (arith, ap (λ (x : Step Bytes). x.consumed) q),
        ap (λ (x : Step Bytes). x.context) (sym q)
            ∙ ap (◌++◌ d) (sym whole ∙ ap (λ (x : Step Bytes). take x.consumed input) q),
        ap (λ (x : Step Bytes). data_of x.context) (sym q)
            ∙ gives input d
            ∙ ap (λ (x : Step Bytes). data_of d ++ x.produced) q,
      );
  decompress_goes_on = λ input d s e h. omega (
    arith,
    length-drop s.consumed input,
    ap (λ (x : Step Bytes). x.consumed) (fine-eq (decoding input d) s e),
  );
  given-decoded = λ d data' e. given_back d data' e;
}
