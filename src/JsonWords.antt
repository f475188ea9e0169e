-- ===== src/JsonWords.antt =====
-- extractWords of include/server/JsonWords.hpp.
use drop_file.Common.{
  ◌<◌, ◌≡◌, refl, ap, subst, ◌∙◌, ◌↔◌, inl, inr, Bool, true, false, not, ◌||◌, Option, none, some,
  List, [], ◌∷◌, ◌++◌, map, arith, Bool-cases, Bytes, text, length, All,
}
use drop_file.Result.{Result, ok, err, require, ◌>>=◌, ◌>>◌}
use drop_file.Outcome.{Exception, runtime_error}
use drop_file.DropFileReceiveClient.{is_space}

abbrev pub no_key : Bytes → Exception
no_key key = runtime_error (text "Words json does not contain '" ++ (key ++ text "' key."))

abbrev pub no_strings : Bytes → Exception
no_strings key =
    runtime_error (text "Json's '" ++ (key ++ text "' key is expected to be an array of strings."))

abbrev pub empty_list : Bytes → Exception
empty_list key = runtime_error (text "String list of " ++ (key ++ text " cannot be empty."))

-- std::ranges::any_of(word, isspace)
abbrev pub any_space : Bytes → Bool
any_space [] = false
any_space (b ∷ bs) = is_space b || any_space bs

abbrev pub is_empty {ℓ} : {A : Type ℓ} → List A → Bool
is_empty [] = true
is_empty (x ∷ xs) = false

-- An element is its string, or `none` if it is none.
unfoldable pub checked_word : Bytes → Option Bytes → Result Bytes
checked_word key none = err (no_strings key)
checked_word key (some word) = do
  require (not (is_empty word)) (runtime_error (text "Any word cannot be empty."))
  require (not (any_space word)) (runtime_error (text "Word cannot contain any whitespace."))
  ok word

unfoldable pub collect_words : Bytes → List (Option Bytes) → Result (List Bytes)
collect_words key [] = ok []
collect_words key (el ∷ els) = do
  word ← checked_word key el
  words ← collect_words key els
  ok (word ∷ words)

abbrev pub not_empty : Bytes → List Bytes → Result (List Bytes)
not_empty key words = require (not (is_empty words)) (empty_list key) >> ok words

-- What the json has at the key: nothing, no array, or an array of elements.
unfoldable pub extract_words : Bytes → Option (Option (List (Option Bytes))) → Result (List Bytes)
extract_words key none = err (no_key key)
extract_words key (some none) = err (no_strings key)
extract_words key (some (some els)) = collect_words key els >>= not_empty key

abbrev pub IsWord : Bytes → Type 0
IsWord word = (0 < length word) × All (λ b. is_space b ≡ false) word

any_space-All : (w : Bytes) → any_space w ≡ false → All (λ b. is_space b ≡ false) w
any_space-All [] h = tt
any_space-All (b ∷ bs) h = elim (Bool-cases (is_space b)) [
  | inl e ↦ (let k = rw e at h in cc)
  | inr e ↦ (e, any_space-All bs (rw e at h))
]

All-any_space : (w : Bytes) → All (λ b. is_space b ≡ false) w → any_space w ≡ false
All-any_space [] h = refl
All-any_space (b ∷ bs) h = rw (h.0, All-any_space bs h.1) refl

-- Inversion of a normal end.
>>=-eq-ok :
    {A B : Type 0} (r : Result A) (f : A → Result B) {b : B}
    → (r >>= f) ≡ ok b
    → (a : A) × (r ≡ ok a) × (f a ≡ ok b)
>>=-eq-ok (ok a) f e = (a, refl, e)
>>=-eq-ok (err x) f e = cc

checked_word-IsWord :
    (key : Bytes) (el : Option Bytes) (w : Bytes)
    → checked_word key el ≡ ok w
    → (el ≡ some w) × IsWord w
unfolding checked_word
checked_word-IsWord key none w e = cc
checked_word-IsWord key (some []) w e = cc
checked_word-IsWord key (some (b ∷ bs)) w e = elim (Bool-cases (any_space (b ∷ bs))) [
  | inl h ↦ (let k = rw h at e in cc)
  | inr h ↦
      (let k = rw h at e in
        let same : b ∷ bs ≡ w = cc in
        subst (λ v. (some (b ∷ bs) ≡ some v) × IsWord v) same
          (refl, (omega arith, any_space-All (b ∷ bs) h)))
]

IsWord-checked_word : (key w : Bytes) → IsWord w → checked_word key (some w) ≡ ok w
unfolding checked_word
IsWord-checked_word key [] h = absurd (omega (arith, h.0))
IsWord-checked_word key (b ∷ bs) h = rw (All-any_space (b ∷ bs) h.1) refl

collect_words-ok :
    (key : Bytes) (els : List (Option Bytes)) (ws : List Bytes)
    → collect_words key els ≡ ok ws
    → (els ≡ map some ws) × All IsWord ws
unfolding collect_words
collect_words-ok key [] ws e =
    let same : [] ≡ ws = cc in subst (λ v. ([] ≡ map some v) × All IsWord v) same (refl, tt)
collect_words-ok key (el ∷ els) ws e =
    let (w, checked, rest) = >>=-eq-ok (checked_word key el) _ e in
    let (vs, collected, last) = >>=-eq-ok (collect_words key els) _ rest in
    let (is_word, word) = checked_word-IsWord key el w checked in
    let (are_words, words) = collect_words-ok key els vs collected in
    let same : w ∷ vs ≡ ws = cc in
    subst (λ v. (el ∷ els ≡ map some v) × All IsWord v) same
      (ap (λ x. x ∷ els) is_word ∙ ap (◌∷◌ (some w)) are_words, (word, words))

ok-collect_words :
    (key : Bytes) (ws : List Bytes) → All IsWord ws → collect_words key (map some ws) ≡ ok ws
unfolding collect_words
ok-collect_words key [] h = refl
ok-collect_words key (w ∷ ws) h =
    rw (IsWord-checked_word key w h.0, ok-collect_words key ws h.1) refl

not_empty_lem :
    (key : Bytes) (vs ws : List Bytes) → not_empty key vs ≡ ok ws → (vs ≡ ws) × (0 < length ws)
not_empty_lem key [] ws e = cc
not_empty_lem key (v ∷ vs) ws e =
    let same : v ∷ vs ≡ ws = cc in
    subst (λ x. (v ∷ vs ≡ x) × (0 < length x)) same (refl, omega arith)

-- extractWords returns a list exactly if the json has at the key an array of the strings of that list,
-- which has a word at least, and no word of which is empty or has a space.
pub extract_words_iff :
    (key : Bytes) (found : Option (Option (List (Option Bytes)))) (words : List Bytes)
    → (extract_words key found ≡ ok words)
      ↔ ((found ≡ some (some (map some words))) × (0 < length words) × All IsWord words)
unfolding extract_words
extract_words_iff key found words = (sound found, complete words)
  where
    sound :
        (j : Option (Option (List (Option Bytes))))
        → extract_words key j ≡ ok words
        → (j ≡ some (some (map some words))) × (0 < length words) × All IsWord words
    sound none e = cc
    sound (some none) e = cc
    sound (some (some els)) e =
        let (vs, collected, last) = >>=-eq-ok (collect_words key els) (not_empty key) e in
        let (same, some_word) = not_empty_lem key vs words last in
        let (are_words, all_words) = collect_words-ok key els words (collected ∙ ap ok same) in
        (ap (λ x. some (some x)) are_words, some_word, all_words)

    complete :
        (ws : List Bytes)
        → (found ≡ some (some (map some ws))) × (0 < length ws) × All IsWord ws
        → extract_words key found ≡ ok ws
    complete [] h = absurd (omega (arith, h.1))
    complete (w ∷ ws) h = rw (h.0, ok-collect_words key (w ∷ ws) h.2) refl
