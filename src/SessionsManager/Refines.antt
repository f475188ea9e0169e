-- ===== src/SessionsManager/Refines.antt =====
-- SessionsManager as what it promises to its sessions: a partial map from codes to senders, in which
-- a code is free before it is registered and again after it was taken. The order in which the
-- unordered map holds its entries is forgotten.
use drop_file.SessionsManager.Expiry.{find-expire-none}
use drop_file.Outcome.{thrown, Exception}
use drop_file.SessionsManager.Register.{entry, register_sender_lem}
use drop_file.SessionsManager.Registry.{find-erase_self, get_sender_with_metadata_lem, IsDistinct}
use drop_file.SessionsManager.Runs.{
  refused-same, here, taken-erase, swept, Event, sweep, refuse, take_sender, Run-IsDistinct,
  register, refused, next, Step, taken, registered, Run,
}
use drop_file.SessionsManager.{
  nanoseconds, Sessions, expire, terminate_timeout_clients, find, get_sender_with_metadata,
  SessionsManager, TimedClientSession,
}
use mathlib.Core.Path.{fun_ext}
use drop_file.Common.{
  ℕ, suc, ◌+◌, ◌*◌, ◌≡◌, refl, sym, subst, ◌≢◌, ◌⊎◌, inl, inr, Option, none, some, List, [], ◌∷◌,
  arith, ltb, if◌then◌else◌, Bool-cases, Option-cases, Bytes, bytes_eq, bytes_eq→eq, bytes_eq_iff,
}

abbrev pub Registry : Type 0 → Type 0
Registry J = Bytes → Option (TimedClientSession J)

module _ {J : Type 0} where
  abbrev pub view : SessionsManager J → Registry J
  view m code = find code m.senders_sessions

  abbrev pub put : Bytes → Option (TimedClientSession J) → Registry J → Registry J
  put code e r = λ k. if bytes_eq code k then e else r k

  -- The specification: what each event does to the map.
  pub data Move (r : Registry J) : Event → Registry J → Type 0 where
    adds :
        (code : Bytes) (e : TimedClientSession J)
        → r code ≡ none
        → Move r (registered code) (put code (some e) r)
    takes :
        (code : Bytes) (e : TimedClientSession J)
        → r code ≡ some e
        → Move r (taken code) (put code none r)
    refuses : (code : Bytes) → r code ≡ none → Move r (refused code) r
    expires : (q : Registry J) → ((k : Bytes) → (q k ≡ r k) ⊎ (q k ≡ none)) → Move r swept q

  pub data Moves (r : Registry J) : List Event → Registry J → Type 0 where
    stays : Moves r [] r
    moves :
        {es : List Event} {e : Event} {q p : Registry J}
        → Moves r es q
        → Move q e p
        → Moves r (e ∷ es) p

  put_self :
      (code : Bytes) (e : Option (TimedClientSession J)) (m n : SessionsManager J)
      → view n code ≡ e
      → ((k : Bytes) → k ≢ code → view n k ≡ view m k)
      → put code e (view m) ≡ view n
  put_self code e m n at others = fun_ext (λ k. elim (Bool-cases (bytes_eq code k)) [
    | inl same ↦ rw (same, ← bytes_eq→eq code k same) (sym at)
    | inr differs ↦ rw differs (sym (others k (λ same. ground (arith, bytes_eq_iff code k))))
  ])

  swept-cases :
      (client_timeout : ℕ) (clock : ℕ → ℕ) (k : Bytes) (i : ℕ) (es : Sessions J)
      → IsDistinct es
      → (find k (expire client_timeout clock i es) ≡ find k es)
        ⊎ (find k (expire client_timeout clock i es) ≡ none)
  unfolding find expire
  swept-cases t clock k i [] d = inl refl
  swept-cases t clock k i ((c, e) ∷ es) (new, d) =
      elim (Bool-cases (ltb (e.time_point + t * nanoseconds) (clock i))) [
        | inl late ↦ elim (Bool-cases (bytes_eq c k)) [
          | inl same ↦
              let gone : find k es ≡ none =
                subst (λ x. find x es ≡ none) (bytes_eq→eq c k same) new in
              rw late (inr (find-expire-none t clock k (suc i) es gone))
          | inr differs ↦ rw (late, differs) (swept-cases t clock k (suc i) es d)
        ]
        | inr early ↦ elim (Bool-cases (bytes_eq c k)) [
          | inl same ↦ rw (early, same) (inl refl)
          | inr differs ↦ rw (early, differs) (swept-cases t clock k (suc i) es d)
        ]
      ]

  refused-none :
      (code : Bytes) (x : Exception) (m n : SessionsManager J)
      → get_sender_with_metadata code m ≡ thrown x n
      → view m code ≡ none
  unfolding get_sender_with_metadata
  refused-none code x m n h = elim (Option-cases (find code m.senders_sessions)) [
    | inl e ↦ e
    | inr (y, e) ↦ ground arith
  ]

  module _ (format_number : ℕ → Bytes) where
    Step-Move :
        {m n : SessionsManager J} {e : Event}
        → Step format_number m e n
        → IsDistinct m.senders_sessions
        → Move (view m) e (view n)
    unfolding get_sender_with_metadata terminate_timeout_clients
    Step-Move {m} {n} (register sender json now draws code h) d =
        let r = register_sender_lem format_number sender json now draws m n code h in
        subst (Move (view m) (registered code))
          (put_self code (some (entry format_number sender json now)) m n r.stored r.others_kept)
          (adds code (entry format_number sender json now) r.was_free)
    Step-Move {m} {n} (take_sender code sender json h) d =
        let t = get_sender_with_metadata_lem code m n sender json d h in
        let gone : view n code ≡ none =
          rw ((taken-erase format_number code sender json m n h).1)
            (find-erase_self code m.senders_sessions d) in
        subst (Move (view m) (taken code)) (put_self code none m n gone t.others_kept) (
          takes code
            (record { client_session = sender; session_data = json; time_point = t.was_there.0 })
            t.was_there.1)
    Step-Move {m} {n} (refuse code x h) d =
        subst (λ o. Move (view m) (refused code) (view o)) (refused-same format_number code x m n h)
          (refuses code (refused-none code x m n h))
    Step-Move (sweep t clock m) d =
        expires (view (terminate_timeout_clients t clock m))
          (λ k. swept-cases t clock k 0 m.senders_sessions d)

    -- From a map without two entries of one code, every run of SessionsManager, in any interleaving,
    -- is one of the partial map: a code is free when it is registered, leads to a sender when it is
    -- taken, is free from then on, and other codes are touched by a sweep only.
    pub Run-Moves :
        {m n : SessionsManager J} {es : List Event}
        → Run format_number m es n
        → IsDistinct m.senders_sessions
        → Moves (view m) es (view n)
    Run-Moves here d = stays
    Run-Moves (next r s) d = moves (Run-Moves r d) (Step-Move s (Run-IsDistinct format_number r d))
