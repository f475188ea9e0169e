-- ===== src/SessionsManager/Registry.antt =====
-- The map of waiting senders: what registering adds, and what taking a sender removes.
use drop_file.Common.{
  ℕ, ◌+◌, ◌≡◌, refl, ◌≢◌, inl, inr, none, some, [], ◌∷◌, arith, Option-cases, Bytes, bytes_eq_iff,
  length,
}
use drop_file.Outcome.{done, thrown, sessions_manager_exception}
use drop_file.SessionsManager.{
  SessionsManager, TimedClientSession, Sessions, find, erase, current_sessions, unknown_code,
  get_sender_with_metadata,
}

module _ {J : Type 0} where
  -- No two entries have one code.
  abbrev pub IsDistinct : Sessions J → Type 0
  IsDistinct [] = Unit {0}
  IsDistinct ((c, e) ∷ es) = (find c es ≡ none) × IsDistinct es

  pub find-erase_other :
      (k code : Bytes) (es : Sessions J) → k ≢ code → find k (erase code es) ≡ find k es
  unfolding find erase
  find-erase_other k code [] h = refl
  find-erase_other k code ((c, e) ∷ es) h =
      ground (arith, bytes_eq_iff c code, bytes_eq_iff c k, find-erase_other k code es h)

  pub find-erase_self :
      (code : Bytes) (es : Sessions J) → IsDistinct es → find code (erase code es) ≡ none
  unfolding find erase
  find-erase_self code [] h = refl
  find-erase_self code ((c, e) ∷ es) h =
      ground (arith, bytes_eq_iff c code, find-erase_self code es h.1)

  find-erase-none :
      (k code : Bytes) (es : Sessions J) → find k es ≡ none → find k (erase code es) ≡ none
  unfolding find erase
  find-erase-none k code [] h = refl
  find-erase-none k code ((c, e) ∷ es) h = ground (arith, find-erase-none k code es)

  pub erase-IsDistinct :
      (code : Bytes) (es : Sessions J) → IsDistinct es → IsDistinct (erase code es)
  unfolding find erase
  erase-IsDistinct code [] h = tt
  erase-IsDistinct code ((c, e) ∷ es) h =
      ground (arith, find-erase-none c code es, erase-IsDistinct code es h.1)

  length-erase :
      (code : Bytes) (es : Sessions J) (e : TimedClientSession J)
      → find code es ≡ some e
      → length (erase code es) + 1 ≡ length es
  unfolding find erase
  length-erase code [] e h = cc
  length-erase code ((c, x) ∷ es) e h = ground (arith, length-erase code es e)

  -- A sender was taken: its entry is returned and removed, every other code keeps its entry, and the
  -- same code is unknown from then on.
  pub record Taken (code : Bytes) (m m' : SessionsManager J) (sender : ℕ) (data' : J) : Type 0 where
    pub was_there :
        (at : ℕ) × (find code m.senders_sessions
          ≡ some (record { client_session = sender; session_data = data'; time_point = at }))
    pub others_kept :
        (k : Bytes) → k ≢ code → find k m'.senders_sessions ≡ find k m.senders_sessions
    pub unknown_now :
        get_sender_with_metadata code m' ≡ thrown (sessions_manager_exception unknown_code) m'
    pub one_less : current_sessions m' + 1 ≡ current_sessions m

  -- On a map without two entries of one code, a code that getSenderWithMetadata answers led to that
  -- very sender, works no more afterwards, and no other code is touched.
  pub get_sender_with_metadata_lem :
      (code : Bytes) (m m' : SessionsManager J) (sender : ℕ) (data' : J)
      → IsDistinct m.senders_sessions
      → get_sender_with_metadata code m ≡ done (sender, data') m'
      → Taken code m m' sender data'
  unfolding get_sender_with_metadata current_sessions
  get_sender_with_metadata_lem code m m' sender data' d h =
      elim (Option-cases (find code m.senders_sessions)) [
        | inl e ↦ ground arith
        | inr (x, e) ↦ record {
          was_there = (x.time_point, ground arith);
          others_kept = λ k ne. ground (arith, find-erase_other k code m.senders_sessions ne);
          unknown_now = ground (arith, find-erase_self code m.senders_sessions d);
          one_less = ground (arith, length-erase code m.senders_sessions x e);
        }
      ]
