-- ===== src/SessionsManager/Register.antt =====
-- SessionsManager::registerSender: the code that it hands out, and when its loop ends.
use drop_file.Common.{
  ℕ, zero, suc, ◌+◌, ◌-◌, ◌%◌, ◌^◌, ◌≤◌, ◌<◌, ◌≡◌, refl, ap, ◌≢◌, ◌⊎◌, inl, inr, none, some, List,
  [], ◌∷◌, ◌++◌, arith, Option-cases, Bytes, text, bytes_eq_refl, bytes_eq_iff, length, All,
}
use drop_file.Common.{get_elem?}
use drop_file.Outcome.{Exception, done}
use drop_file.Result.{Result, ok, err}
use drop_file.SessionsManager.Registry.{IsDistinct}
use drop_file.SessionsManager.{
  SessionsManager, TimedClientSession, Draws, find, erase, current_sessions,
  get_sender_with_metadata, generate_session_id, register_sender, get_random, pick_random,
}

pub Result-cases {ℓ} :
    {A : Type ℓ} (r : Result A) → ((a : A) × (r ≡ ok a)) ⊎ ((x : Exception) × (r ≡ err x))
Result-cases (ok a) = inl (a, refl)
Result-cases (err x) = inr (x, refl)

get_elem?-lt {ℓ} :
    {A : Type ℓ} (xs : List A) (i : ℕ) → i < length xs → (a : A) × (get_elem? xs i ≡ some a)
get_elem?-lt [] i h = elim h [ ]
get_elem?-lt (x ∷ xs) zero h = (x, refl)
get_elem?-lt (x ∷ xs) (suc i) h = get_elem?-lt xs i (omega arith)

get_random-lt : (n output : ℕ) → (i : ℕ) × (get_random 0 n output ≡ ok i) × (i ≤ n)
unfolding get_random
get_random-lt n output = (output % (n + 1), ground arith, omega arith)

picked :
    (xs : List Bytes) (output i : ℕ) (w : Bytes)
    → get_random 0 ((length xs + 2 ^ 64 - 1) % 2 ^ 64) output ≡ ok i
    → get_elem? xs i ≡ some w
    → pick_random xs output ≡ ok w
unfolding pick_random
picked xs output i w e at = rw (e, at)

pick_random-ok :
    (xs : List Bytes) (output : ℕ)
    → 1 ≤ length xs
    → length xs < 2 ^ 64
    → (w : Bytes) × (pick_random xs output ≡ ok w)
pick_random-ok xs output lo hi =
    let last : (length xs + 2 ^ 64 - 1) % 2 ^ 64 ≡ length xs - 1 = omega arith in
    let (i, e, le) = get_random-lt (length xs - 1) output in
    let (w, at) = get_elem?-lt xs i (omega arith) in (w, picked xs output i w (rw last e) at)

-- What the constructor makes sure of by extractWords: there are words to pick from.
pub record HasWords {J : Type 0} (m : SessionsManager J) : Type 0 where
  pub some_adjective : 1 ≤ length m.adjectives
  pub adjectives_fit : length m.adjectives < 2 ^ 64
  pub some_noun : 1 ≤ length m.nouns
  pub nouns_fit : length m.nouns < 2 ^ 64

module _ {J : Type 0} (format_number : ℕ → Bytes) where
  -- With words to pick from, every round has a session id.
  pub generate_session_id-ok :
      (m : SessionsManager J) (d : Draws)
      → HasWords m
      → (id : Bytes) × (generate_session_id format_number m d ≡ ok id)
  unfolding generate_session_id get_random
  generate_session_id-ok m d h =
      let (a, ea) = pick_random-ok m.adjectives d.adjective h.some_adjective h.adjectives_fit in
      let zero_add : 0 + d.number % 101 ≡ d.number % 101 = omega arith in
      let (n, en) = pick_random-ok m.nouns d.noun h.some_noun h.nouns_fit in
      (
        a ++ (text "-" ++ (n ++ (text "-" ++ format_number (d.number % 101)))),
        rw (ea, en)
            (ap (λ k. ok (a ++ (text "-" ++ (n ++ (text "-" ++ format_number k))))) zero_add),
      )

  -- The id of a round is not in use, or is.
  abbrev pub IsFresh : SessionsManager J → Draws → Type 0
  IsFresh m d =
      (id : Bytes) × (generate_session_id format_number m d ≡ ok id)
      × (find id m.senders_sessions ≡ none)

  abbrev pub IsUsed : SessionsManager J → Draws → Type 0
  IsUsed m d =
      (id : Bytes) × (e : TimedClientSession J) × (generate_session_id format_number m d ≡ ok id)
      × (find id m.senders_sessions ≡ some e)

  module _ (sender : ℕ) (json : J) (now : ℕ) where
    abbrev pub entry : TimedClientSession J
    entry = record { client_session = sender; session_data = json; time_point = now }

    -- A new sender: its code was free, now leads to it, and taking it back undoes the registration.
    pub record Registered (m m' : SessionsManager J) (code : Bytes) : Type 0 where
      pub was_free : find code m.senders_sessions ≡ none
      pub stored : find code m'.senders_sessions ≡ some entry
      pub others_kept :
          (k : Bytes) → k ≢ code → find k m'.senders_sessions ≡ find k m.senders_sessions
      pub taken_back : get_sender_with_metadata code m' ≡ done (sender, json) m
      pub one_more : current_sessions m' ≡ current_sessions m + 1
      pub keeps_distinct : IsDistinct m.senders_sessions → IsDistinct m'.senders_sessions

    abbrev pub after : Bytes → SessionsManager J → SessionsManager J
    after id m = record m { senders_sessions = (id, entry) ∷ m.senders_sessions }

    after-Registered :
        (id : Bytes) (m : SessionsManager J)
        → find id m.senders_sessions ≡ none
        → Registered m (after id m) id
    unfolding find erase get_sender_with_metadata current_sessions
    after-Registered id m e = record {
      was_free = e;
      stored = rw (bytes_eq_refl id);
      others_kept = λ k ne. ground (arith, bytes_eq_iff id k);
      taken_back = ground (arith, bytes_eq_refl id);
      one_more = omega arith;
      keeps_distinct = λ d. (e, d);
    }

    -- Whatever the engine draws, a code that registerSender returns was free and now leads to the
    -- sender; no other code is touched, and taking the sender back restores the map.
    pub register_sender_lem :
        (draws : List Draws) (m m' : SessionsManager J) (code : Bytes)
        → register_sender format_number sender json now draws m ≡ done code m'
        → Registered m m' code
    unfolding register_sender
    register_sender_lem [] m m' code h = cc
    register_sender_lem (d ∷ draws) m m' code h =
        elim (Result-cases (generate_session_id format_number m d)) [
          | inr (x, e) ↦ ground arith
          | inl (id, e) ↦ elim (Option-cases (find id m.senders_sessions)) [
            | inl free ↦ ground (arith, after-Registered id m free)
            | inr (x, used) ↦ register_sender_lem draws m m' code (ground arith)
          ]
        ]

    -- When the ids of some rounds are in use and that of the next one is free, registerSender ends
    -- in that round with its id.
    pub register_sender_ends :
        (before : List Draws) (d : Draws) (more : List Draws) (m : SessionsManager J)
        → All (IsUsed m) before
        → (f : IsFresh m d)
        → register_sender format_number sender json now (before ++ (d ∷ more)) m
          ≡ done f.0 (after f.0 m)
    unfolding register_sender
    register_sender_ends [] d more m used (id, made, free) = rw made (ground arith)
    register_sender_ends (b ∷ before) d more m ((id, e, made, there), used) f =
        rw made (ground (arith, register_sender_ends before d more m used f))

    -- The code is the id of one of the rounds.
    pub register_sender-code :
        (draws : List Draws) (m m' : SessionsManager J) (code : Bytes)
        → register_sender format_number sender json now draws m ≡ done code m'
        → (d : Draws) × (generate_session_id format_number m d ≡ ok code)
    unfolding register_sender
    register_sender-code [] m m' code h = cc
    register_sender-code (d ∷ draws) m m' code h =
        elim (Result-cases (generate_session_id format_number m d)) [
          | inr (x, e) ↦ (d, ground arith)
          | inl (id, e) ↦ elim (Option-cases (find id m.senders_sessions)) [
            | inl free ↦ (d, ground arith)
            | inr (x, used) ↦ register_sender-code draws m m' code (ground arith)
          ]
        ]
