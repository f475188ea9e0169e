-- ===== src/SessionsManager/Runs.antt =====
-- Any interleaving of the operations of SessionsManager by sessions and by the thread that removes
-- timed-out senders: each holds the mutex, so a run is a sequence of them.
use drop_file.SessionsManager.Expiry.{find-expire-none, expire-IsDistinct}
use drop_file.Outcome.{thrown, Exception}
use drop_file.SessionsManager.Register.{register_sender_lem}
use drop_file.Common.{
  ℕ, ◌+◌, ◌≤◌, ◌≡◌, refl, ap, subst, ◌≢◌, inl, inr, Bool, true, false, none, List, [], ◌∷◌, arith,
  Bool-cases, Option-cases, Bytes, bytes_eq, bytes_eq→eq, bytes_eq_iff,
}
use drop_file.SessionsManager.{
  expire, is_found, find, erase, done, contains, Draws, SessionsManager, register_sender,
  get_sender_with_metadata, terminate_timeout_clients,
}
use drop_file.SessionsManager.Registry.{
  find-erase_other, find-erase_self, erase-IsDistinct, IsDistinct,
}

-- What an operation did, and with which code.
pub data Event : Type 0 where
  registered : Bytes → Event
  taken : Bytes → Event
  refused : Bytes → Event
  swept : Event

abbrev pub one_if : Bool → ℕ
one_if true = 1
one_if false = 0

-- How often a code was handed out, and how often it was registered.
unfoldable pub count_taken : Bytes → List Event → ℕ
count_taken code [] = 0
count_taken code (taken c ∷ es) = one_if (bytes_eq c code) + count_taken code es
count_taken code (_ ∷ es) = count_taken code es

unfoldable pub count_registered : Bytes → List Event → ℕ
count_registered code [] = 0
count_registered code (registered c ∷ es) = one_if (bytes_eq c code) + count_registered code es
count_registered code (_ ∷ es) = count_registered code es

one_if_le : (b : Bool) → one_if b ≤ 1
one_if_le true = omega arith
one_if_le false = omega arith

apart : (c code : Bytes) → bytes_eq c code ≡ false → code ≢ c
apart c code h e = ground (arith, bytes_eq_iff c code)

module _ {J : Type 0} (format_number : ℕ → Bytes) where
  pub data Step : SessionsManager J → Event → SessionsManager J → Type 0 where
    register :
        (sender : ℕ) (json : J) (now : ℕ) (draws : List Draws) (code : Bytes)
        {m n : SessionsManager J}
        → register_sender format_number sender json now draws m ≡ done code n
        → Step m (registered code) n
    take_sender :
        (code : Bytes) (sender : ℕ) (json : J) {m n : SessionsManager J}
        → get_sender_with_metadata code m ≡ done (sender, json) n
        → Step m (taken code) n
    refuse :
        (code : Bytes) (e : Exception) {m n : SessionsManager J}
        → get_sender_with_metadata code m ≡ thrown e n
        → Step m (refused code) n
    sweep :
        (client_timeout : ℕ) (clock : ℕ → ℕ) (m : SessionsManager J)
        → Step m swept (terminate_timeout_clients client_timeout clock m)

  -- The events of a run, the last one first.
  pub data Run (m : SessionsManager J) : List Event → SessionsManager J → Type 0 where
    here : Run m [] m
    next :
        {es : List Event} {e : Event} {n o : SessionsManager J}
        → Run m es n
        → Step n e o
        → Run m (e ∷ es) o

  abbrev waiting : Bytes → SessionsManager J → ℕ
  waiting code m = one_if (contains code m.senders_sessions)

  pub taken-erase :
      (code : Bytes) (sender : ℕ) (json : J) (m n : SessionsManager J)
      → get_sender_with_metadata code m ≡ done (sender, json) n
      → (contains code m.senders_sessions ≡ true)
        × (n.senders_sessions ≡ erase code m.senders_sessions)
  unfolding get_sender_with_metadata
  taken-erase code sender json m n h = elim (Option-cases (find code m.senders_sessions)) [
    | inl e ↦ ground arith
    | inr (x, e) ↦ (rw e refl, ground arith)
  ]

  pub refused-same :
      (code : Bytes) (x : Exception) (m n : SessionsManager J)
      → get_sender_with_metadata code m ≡ thrown x n
      → m ≡ n
  unfolding get_sender_with_metadata
  refused-same code x m n h = elim (Option-cases (find code m.senders_sessions)) [
    | inl e ↦ ground arith
    | inr (y, e) ↦ ground arith
  ]

  Step-IsDistinct :
      {m n : SessionsManager J} {e : Event}
      → Step m e n
      → IsDistinct m.senders_sessions
      → IsDistinct n.senders_sessions
  unfolding terminate_timeout_clients
  Step-IsDistinct {m} {n} (register sender json now draws code h) d =
      let r = register_sender_lem format_number sender json now draws m n code h in
      r.keeps_distinct d
  Step-IsDistinct {m} {n} (take_sender code sender json h) d =
      rw ((taken-erase code sender json m n h).1) (erase-IsDistinct code m.senders_sessions d)
  Step-IsDistinct {m} {n} (refuse code x h) d =
      subst (λ o. IsDistinct o.senders_sessions) (refused-same code x m n h) d
  Step-IsDistinct (sweep t clock m) d = expire-IsDistinct t clock 0 m.senders_sessions d

  -- From a map without two entries of one code, every run leads to such a map.
  pub Run-IsDistinct :
      {m n : SessionsManager J} {es : List Event}
      → Run m es n
      → IsDistinct m.senders_sessions
      → IsDistinct n.senders_sessions
  Run-IsDistinct here d = d
  Run-IsDistinct (next r s) d = Step-IsDistinct s (Run-IsDistinct r d)

  Step-waiting :
      {m n : SessionsManager J} {e : Event} (code : Bytes) (es : List Event)
      → Step m e n
      → IsDistinct m.senders_sessions
      → count_taken code es + waiting code m ≤ count_registered code es
      → count_taken code (e ∷ es) + waiting code n ≤ count_registered code (e ∷ es)
  unfolding count_taken count_registered terminate_timeout_clients
  Step-waiting {m} {n} code es (register sender json now draws c h) d le =
      let r = register_sender_lem format_number sender json now draws m n c h in
      elim (Bool-cases (bytes_eq c code)) [
        | inl same ↦
            let free : find code m.senders_sessions ≡ none =
              subst (λ k. find k m.senders_sessions ≡ none) (bytes_eq→eq c code same) r.was_free in
            let was : waiting code m ≡ 0 = rw free refl in
            rw same (omega (arith, one_if_le (contains code n.senders_sessions)))
        | inr other ↦
            let kept : waiting code n ≡ waiting code m =
              ap (λ o. one_if (is_found o)) (r.others_kept code (apart c code other)) in
            rw other (omega arith)
      ]
  Step-waiting {m} {n} code es (take_sender c sender json h) d le =
      let (there, rest) = taken-erase c sender json m n h in
      elim (Bool-cases (bytes_eq c code)) [
        | inl same ↦
            let eq = bytes_eq→eq c code same in
            let was : waiting code m ≡ 1 =
              ap one_if (subst (λ k. contains k m.senders_sessions ≡ true) eq there) in
            let gone : find code n.senders_sessions ≡ none =
              rw (rest, ← eq) (find-erase_self c m.senders_sessions d) in
            let now : waiting code n ≡ 0 = rw gone refl in rw same (omega arith)
        | inr other ↦
            let found : find code n.senders_sessions ≡ find code m.senders_sessions =
              rw rest (find-erase_other code c m.senders_sessions (apart c code other)) in
            let kept : waiting code n ≡ waiting code m = ap (λ o. one_if (is_found o)) found in
            rw other (omega arith)
      ]
  Step-waiting {m} {n} code es (refuse c x h) d le =
      subst (λ o. count_taken code es + waiting code o ≤ count_registered code es)
        (refused-same c x m n h) le
  Step-waiting code es (sweep t clock m) d le = elim (Option-cases (find code m.senders_sessions)) [
    | inl e ↦
        let gone = find-expire-none t clock code 0 m.senders_sessions e in
        let now : waiting code (terminate_timeout_clients t clock m) ≡ 0 = rw gone refl in
        omega arith
    | inr (x, e) ↦
        let was : waiting code m ≡ 1 = rw e refl in
        omega (arith, one_if_le (contains code (expire t clock 0 m.senders_sessions)))
  ]

  Run-waiting :
      {m n : SessionsManager J} {es : List Event} (code : Bytes)
      → m.senders_sessions ≡ []
      → Run m es n
      → count_taken code es + waiting code n ≤ count_registered code es
  unfolding count_taken count_registered find
  Run-waiting code empty here = rw empty (omega arith)
  Run-waiting {m} code empty (next {es} r s) =
      Step-waiting code es s (Run-IsDistinct r (rw empty tt)) (Run-waiting code empty r)

  -- In every run from an empty map, a code is not handed out more often than it was registered:
  -- a registered sender reaches at most one receiver.
  pub count_taken_le :
      {m n : SessionsManager J} {es : List Event} (code : Bytes)
      → m.senders_sessions ≡ []
      → Run m es n
      → count_taken code es ≤ count_registered code es
  count_taken_le code empty r = omega (arith, Run-waiting code empty r)
