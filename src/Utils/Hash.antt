-- ===== src/Utils/Hash.antt =====
-- calculateFileHash and binaryToHumanReadable of src/Utils.cpp. OpenSSL's digest functions, which are
-- not in the repository, are the record `Digest`.
use drop_file.Common.{
  ℕ, zero, suc, ◌+◌, ◌/◌, ◌%◌, ◌<◌, ◌≡◌, refl, sym, ap, ◌∙◌, Bool, true, false, not, Option, none,
  some, [], ◌∷◌, ◌++◌, append-nil, append_assoc, arith, dec_lt, ltb, if◌then◌else◌, lt→ltb,
  le→ltb_false, Bytes, text, length, take, drop, All, take-append-drop, length-take, length-drop,
  take_all, drop-drop, drop_front,
}
use drop_file.Streams.{InputStream, ahead, read}
use drop_file.Outcome.{
  Ensures-settled, Ensures-bind, Ensures-map, done, settled, Exception, Ensures, Action, pure,
  throw, utils_exception, unfinished, ◌>>=◌,
}

-- What EVP_DigestInit_ex, EVP_DigestUpdate and EVP_DigestFinal_ex do to a context: `none` is any
-- result but 1, and for `new_context` a null pointer. A context is described by the bytes that it
-- was given, and `digest` is the hash of those.
pub record Digest : Type 1 where
  pub Context : Type 0
  pub new_context : Option Context
  pub init : Context → Option Context
  pub update : Bytes → Context → Option Context
  pub finish : Context → Option Bytes
  pub given : Context → Bytes
  pub digest : Bytes → Bytes
  pub init_lem : (c d : Context) → init c ≡ some d → given d ≡ []
  pub update_lem :
      (bytes : Bytes) (c d : Context) → update bytes c ≡ some d → given d ≡ given c ++ bytes
  pub finish_lem : (c : Context) (hash : Bytes) → finish c ≡ some hash → hash ≡ digest (given c)

abbrev pub hash_buffer_size : ℕ
hash_buffer_size = 8192

-- One digit of std::hex.
abbrev pub hex_digit : ℕ → ℕ
hex_digit n = if ltb n 10 then 48 + n else 87 + n

-- setw(2) and setfill('0') on the value of a byte.
abbrev pub hex_byte : ℕ → Bytes
hex_byte b = hex_digit (b / 16) ∷ hex_digit (b % 16) ∷ []

unfoldable pub binary_to_human_readable : Bytes → Bytes
binary_to_human_readable [] = []
binary_to_human_readable (b ∷ bs) = hex_byte b ++ binary_to_human_readable bs

-- `if (!...) throw UtilsException(message);`
abbrev pub or_throw {ℓ} : {S : Type ℓ} {A : Type 0} → Bytes → Option A → Action S A
or_throw message none = throw (utils_exception message)
or_throw message (some a) = pure a

-- file.good()
abbrev pub good : Action InputStream Bool
good s = done (not s.failed) s

module _ (evp : Digest) where
  abbrev pub absorb {ℓ} : {S : Type ℓ} → Bytes → evp.Context → Action S evp.Context
  absorb bytes mdctx =
      if ltb 0 (length bytes)
      then or_throw (text "Error updating digest.") (evp.update bytes mdctx)
      else pure mdctx

  -- The loop on the open file. Fuel: one round for each byte, and two.
  unfoldable pub hash_rounds : ℕ → evp.Context → Action InputStream evp.Context
  hash_rounds zero mdctx = λ _. unfinished
  hash_rounds (suc fuel) mdctx = do
    more ← good
    let round = (do
      bytes ← read hash_buffer_size
      absorbed ← absorb bytes mdctx
      hash_rounds fuel absorbed)
    if more then round else pure mdctx

  -- The loop on a file that may not open.
  abbrev pub hash_file : Bytes → Option Bytes → evp.Context → Action (Unit {0}) evp.Context
  hash_file path none mdctx = throw (utils_exception (text "Error opening file: " ++ path))
  hash_file path (some content) mdctx = λ u.
      settled (λ _. u)
        (hash_rounds (length content + 2) mdctx
          (record { content = content; position = 0; failed = false }))

  unfoldable pub calculate_file_hash : Bytes → Option Bytes → Action (Unit {0}) Bytes
  calculate_file_hash path file = do
    mdctx ← or_throw (text "Error creating context for hashing.") evp.new_context
    mdctx ← or_throw (text "Error initializing digest context.") (evp.init mdctx)
    mdctx ← hash_file path file mdctx
    hash_result ← or_throw (text "Error finalizing digest.") (evp.finish mdctx)
    pure (binary_to_human_readable hash_result)

abbrev pub IsUtilsException : Exception → Type 0
IsUtilsException (utils_exception t) = Unit {0}
IsUtilsException _ = ⊥

or_throw_lem :
    {S : Type 0} {A B : Type 0} (Q : B → S → Type 0) (s : S) (message : Bytes) (o : Option A)
    (f : A → Action S B)
    → ((a : A) → o ≡ some a → Ensures IsUtilsException Q (f a s))
    → Ensures IsUtilsException Q ((or_throw message o >>= f) s)
or_throw_lem Q s message none f k = tt
or_throw_lem Q s message (some a) f k = k a refl

-- The stream behind a read of at most n bytes.
abbrev advanced : ℕ → InputStream → InputStream
advanced n s = record s {
  position = s.position + length (take n (ahead s));
  failed = ltb (length (take n (ahead s))) n;
}

read_advanced :
    (n : ℕ) (s : InputStream) → s.failed ≡ false → read n s ≡ done (take n (ahead s)) (advanced n s)
unfolding read
read_advanced n s h = rw h refl

ahead-advanced : (n : ℕ) (s : InputStream) → ahead (advanced n s) ≡ drop n (ahead s)
ahead-advanced n s =
    let b = take n (ahead s) in
    sym (drop-drop (length b) s.position s.content)
    ∙ ap (drop (length b)) (sym (take-append-drop n (ahead s)))
    ∙ drop_front b (drop n (ahead s)) (length b) refl

module _ (evp : Digest) where
  absorb_lem :
      {S B : Type 0} (Q : B → S → Type 0) (s : S) (bytes : Bytes) (c : evp.Context)
      (f : evp.Context → Action S B)
      → ((d : evp.Context)
          → evp.given d ≡ evp.given c ++ bytes
          → Ensures IsUtilsException Q (f d s))
      → Ensures IsUtilsException Q ((absorb evp bytes c >>= f) s)
  absorb_lem Q s [] c f k = k c (sym (append-nil (evp.given c)))
  absorb_lem Q s (b ∷ bytes) c f k = rw (lt→ltb 0 (length (b ∷ bytes)) (omega arith)) (
      or_throw_lem Q s (text "Error updating digest.") (evp.update (b ∷ bytes) c) f
        (λ d e. k d (evp.update_lem (b ∷ bytes) c d e)))

  abbrev Hashed : evp.Context → InputStream → evp.Context → InputStream → Type 0
  Hashed c s d t = evp.given d ≡ evp.given c ++ ahead s

  hash_rounds_bad :
      (fuel : ℕ) (c : evp.Context) (s : InputStream)
      → s.failed ≡ true
      → hash_rounds evp (suc fuel) c s ≡ done c s
  unfolding hash_rounds
  hash_rounds_bad fuel c s h = rw h refl

  hash_rounds_lem :
      (fuel : ℕ) (c : evp.Context) (s : InputStream)
      → s.failed ≡ false
      → length (ahead s) + 1 < fuel
      → Ensures IsUtilsException (Hashed c s) (hash_rounds evp fuel c s)
  unfolding hash_rounds
  hash_rounds_lem zero c s h r = absurd (omega arith)
  hash_rounds_lem (suc zero) c s h r = absurd (omega arith)
  hash_rounds_lem (suc (suc fuel)) c s h r =
      let b = take hash_buffer_size (ahead s) in
      let t = advanced hash_buffer_size s in
      let size = length-take hash_buffer_size (ahead s) in
      let still_good : not s.failed ≡ true = ap not h in
      rw (still_good, read_advanced hash_buffer_size s h)
        (absorb_lem (Hashed c s) t b c (hash_rounds evp (suc fuel)) (λ d e.
          elim (dec_lt (length b) hash_buffer_size) [
            | yes short ↦
                rw (hash_rounds_bad fuel d t (lt→ltb (length b) hash_buffer_size short))
                  (e ∙ ap (◌++◌ (evp.given c)) (take_all hash_buffer_size (ahead s) (omega arith)))
            | no full ↦
                let left = ahead-advanced hash_buffer_size s in
                let shorter = length-drop hash_buffer_size (ahead s) in
                Ensures-map IsUtilsException (Hashed d t) (Hashed c s) _
                  (hash_rounds_lem (suc fuel) d t
                    (le→ltb_false (length b) hash_buffer_size (omega arith))
                    (omega (arith, ap length left)))
                  (λ x u k.
                    k
                    ∙ ap (λ g. g ++ ahead t) e
                    ∙ append_assoc (evp.given c) b (ahead t)
                    ∙ ap (◌++◌ (evp.given c))
                        (ap (◌++◌ b) left ∙ take-append-drop hash_buffer_size (ahead s)))
          ]))

  -- calculateFileHash of a file that opens ends, and by a UtilsException only, where OpenSSL reports a
  -- failure: else its result is the hash of all of the file, whatever its size, in hexadecimal digits.
  pub calculate_file_hash_lem :
      (path content : Bytes)
      → Ensures IsUtilsException
          (λ hash _. hash ≡ binary_to_human_readable (evp.digest content))
          (calculate_file_hash evp path (some content) tt)
  unfolding calculate_file_hash drop
  calculate_file_hash_lem path content =
      let Q : Bytes → Unit {0} → Type 0 =
        λ hash _. hash ≡ binary_to_human_readable (evp.digest content) in
      let s : InputStream = record { content = content; position = 0; failed = false } in
      or_throw_lem Q tt _ evp.new_context _ (λ c0 e0. or_throw_lem Q tt _ (evp.init c0) _ (λ c e.
        Ensures-bind IsUtilsException (λ d _. evp.given d ≡ content) Q
          (settled (λ _. tt) (hash_rounds evp (length content + 2) c s)) _
          (Ensures-settled IsUtilsException (Hashed c s) _ (λ _. tt)
            (hash_rounds evp (length content + 2) c s)
            (hash_rounds_lem (length content + 2) c s refl (omega arith))
            (λ d t k. k ∙ ap (λ g. g ++ content) (evp.init_lem c0 c e)))
          (λ d u k.
            or_throw_lem Q tt _ (evp.finish d) _
              (λ hash f. ap binary_to_human_readable (evp.finish_lem d hash f ∙ ap evp.digest k)))))

  -- A file that does not open has no hash.
  pub calculate_file_hash_unopened :
      (path : Bytes) (Q : Bytes → Unit {0} → Type 0)
      → Ensures IsUtilsException Q (calculate_file_hash evp path none tt)
  unfolding calculate_file_hash
  calculate_file_hash_unopened path Q =
      or_throw_lem Q tt _ evp.new_context _
        (λ c0 e0. or_throw_lem Q tt _ (evp.init c0) _ (λ c e. tt))

hex_digit-injective : (m n : ℕ) → m < 16 → n < 16 → hex_digit m ≡ hex_digit n → m ≡ n
hex_digit-injective m n hm hn e = ground arith

-- Two hashes have the same text only if they are the same bytes.
pub binary_to_human_readable-injective :
    (a b : Bytes)
    → All (λ x. x < 256) a
    → All (λ x. x < 256) b
    → binary_to_human_readable a ≡ binary_to_human_readable b
    → a ≡ b
unfolding binary_to_human_readable
binary_to_human_readable-injective [] [] ha hb e = refl
binary_to_human_readable-injective [] (y ∷ b) ha hb e = cc
binary_to_human_readable-injective (x ∷ a) [] ha hb e = cc
binary_to_human_readable-injective (x ∷ a) (y ∷ b) ha hb e =
    let high =
      hex_digit-injective (x / 16) (y / 16) (omega (arith, ha.0)) (omega (arith, hb.0)) cc in
    let low = hex_digit-injective (x % 16) (y % 16) (omega arith) (omega arith) cc in
    let same : x ≡ y = omega arith in rw (same, binary_to_human_readable-injective a b ha.1 hb.1 cc)
