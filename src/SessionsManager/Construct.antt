-- ===== src/SessionsManager/Construct.antt =====
-- The constructor of SessionsManager: its words, and the thread that removes timed-out senders.
use drop_file.SessionsManager.Register.{Result-cases}
use drop_file.JsonWords.{extract_words_iff, extract_words, IsWord}
use drop_file.SessionsManager.{terminate_timeout_clients, SessionsManager}
use drop_file.Common.{
  ℕ, ◌<◌, ◌≡◌, refl, subst, inl, inr, Option, List, [], ◌∷◌, Bytes, text, length, All,
}
use drop_file.Result.{ok, Result, ◌>>=◌}

abbrev pub nouns_key : Bytes
nouns_key = text "nouns"

abbrev pub adjectives_key : Bytes
adjectives_key = text "adjectives"

-- What the table of words has at the two keys is given.
unfoldable pub make_manager :
    {J : Type 0}
    → Option (Option (List (Option Bytes)))
    → Option (Option (List (Option Bytes)))
    → Result (SessionsManager J)
make_manager json_nouns json_adjectives = do
  nouns ← extract_words nouns_key json_nouns
  adjectives ← extract_words adjectives_key json_adjectives
  ok (record { nouns = nouns; adjectives = adjectives; senders_sessions = [] })

-- The loop of the thread, as often as no stop is requested: what the clock shows in each sweep.
unfoldable pub sweeps : {J : Type 0} → ℕ → List (ℕ → ℕ) → SessionsManager J → SessionsManager J
sweeps client_timeout [] m = m
sweeps client_timeout (clock ∷ clocks) m =
    sweeps client_timeout clocks (terminate_timeout_clients client_timeout clock m)

module _ {J : Type 0} where
  -- A manager that the constructor makes has words to pick from, none of them empty or with a space
  -- in it, and no senders.
  pub record Made (m : SessionsManager J) : Type 0 where
    pub some_noun : 0 < length m.nouns
    pub some_adjective : 0 < length m.adjectives
    pub are_nouns : All IsWord m.nouns
    pub are_adjectives : All IsWord m.adjectives
    pub none_waits : m.senders_sessions ≡ []

  pub make_manager-Made :
      (json_nouns json_adjectives : Option (Option (List (Option Bytes)))) (m : SessionsManager J)
      → make_manager json_nouns json_adjectives ≡ ok m
      → Made m
  unfolding make_manager
  make_manager-Made json_nouns json_adjectives m h =
      elim (Result-cases (extract_words nouns_key json_nouns)) [
        | inr (x, e) ↦ (let k = rw e at h in cc)
        | inl (nouns, e) ↦ elim (Result-cases (extract_words adjectives_key json_adjectives)) [
          | inr (x, f) ↦ (let k = rw (e, f) at h in cc)
          | inl (adjectives, f) ↦
              let (n, some_n, are_n) = (extract_words_iff nouns_key json_nouns nouns).0 e in
              let (a, some_a, are_a) =
                (extract_words_iff adjectives_key json_adjectives adjectives).0 f in
              let k = rw (e, f) at h in
              let made : record { nouns = nouns; adjectives = adjectives; senders_sessions = [] }
                  ≡ m =
                cc in
              subst Made made (record {
                some_noun = some_n;
                some_adjective = some_a;
                are_nouns = are_n;
                are_adjectives = are_a;
                none_waits = refl;
              })
        ]
      ]
