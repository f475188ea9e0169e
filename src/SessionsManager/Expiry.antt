-- ===== src/SessionsManager/Expiry.antt =====
-- SessionsManager::terminateTimeoutClients: which senders a sweep removes.
use drop_file.Common.{
  ℕ, suc, ◌+◌, ◌*◌, ◌≤◌, ◌<◌, ◌≡◌, refl, none, some, [], ◌∷◌, arith, Bytes, bytes_eq_iff,
}
use drop_file.SessionsManager.{
  SessionsManager, terminate_timeout_clients, TimedClientSession, Sessions, find, expire,
  nanoseconds,
}
use drop_file.SessionsManager.Registry.{IsDistinct}

module _ {J : Type 0} (client_timeout : ℕ) (clock : ℕ → ℕ) where
  -- The time of the last moment at which an entry stays.
  abbrev pub deadline : TimedClientSession J → ℕ
  deadline e = e.time_point + client_timeout * nanoseconds

  pub find-expire-none :
      (code : Bytes) (i : ℕ) (es : Sessions J)
      → find code es ≡ none
      → find code (expire client_timeout clock i es) ≡ none
  unfolding expire find
  find-expire-none code i [] h = refl
  find-expire-none code i ((c, e) ∷ es) h = ground (arith, find-expire-none code (suc i) es)

  pub expire-IsDistinct :
      (i : ℕ) (es : Sessions J) → IsDistinct es → IsDistinct (expire client_timeout clock i es)
  unfolding expire
  expire-IsDistinct i [] h = tt
  expire-IsDistinct i ((c, e) ∷ es) h =
      ground (arith, find-expire-none c (suc i) es, expire-IsDistinct (suc i) es h.1)

  expire_kept :
      (end : ℕ) (code : Bytes) (i : ℕ) (es : Sessions J) (e : TimedClientSession J)
      → ((k : ℕ) → clock k ≤ end)
      → find code es ≡ some e
      → end ≤ deadline e
      → find code (expire client_timeout clock i es) ≡ some e
  unfolding expire find
  expire_kept end code i [] e all h le = cc
  expire_kept end code i ((c, x) ∷ es) e all h le =
      ground (arith, all i, expire_kept end code (suc i) es e all)

  expire_dropped :
      (start : ℕ) (code : Bytes) (i : ℕ) (es : Sessions J) (e : TimedClientSession J)
      → ((k : ℕ) → start ≤ clock k)
      → IsDistinct es
      → find code es ≡ some e
      → deadline e < start
      → find code (expire client_timeout clock i es) ≡ none
  unfolding expire find
  expire_dropped start code i [] e all d h lt = cc
  expire_dropped start code i ((c, x) ∷ es) e all d h lt = ground (
    arith,
    all i,
    bytes_eq_iff c code,
    find-expire-none code (suc i) es,
    expire_dropped start code (suc i) es e all d.1,
  )

  -- A sweep during which the clock shows times from `start` to `end`: a sender past its deadline at
  -- the start is gone, one within it at the end stays as it was, no other appears.
  pub record Swept (start end : ℕ) (m m' : SessionsManager J) : Type 0 where
    pub kept :
        (code : Bytes) (e : TimedClientSession J)
        → find code m.senders_sessions ≡ some e
        → end ≤ deadline e
        → find code m'.senders_sessions ≡ some e
    pub dropped :
        (code : Bytes) (e : TimedClientSession J)
        → find code m.senders_sessions ≡ some e
        → deadline e < start
        → find code m'.senders_sessions ≡ none
    pub none_added :
        (code : Bytes) → find code m.senders_sessions ≡ none → find code m'.senders_sessions ≡ none
    pub keeps_distinct : IsDistinct m'.senders_sessions

  -- On a map without two entries of one code, a sweep during which the clock shows times from `start`
  -- to `end` removes every sender past its deadline at the start, keeps every one within it at the
  -- end as it was, and adds none.
  pub terminate_timeout_clients_lem :
      (start end : ℕ) (m : SessionsManager J)
      → ((k : ℕ) → (start ≤ clock k) × (clock k ≤ end))
      → IsDistinct m.senders_sessions
      → Swept start end m (terminate_timeout_clients client_timeout clock m)
  unfolding terminate_timeout_clients
  terminate_timeout_clients_lem start end m times d = record {
    kept = λ code e h le. expire_kept end code 0 m.senders_sessions e (λ k. (times k).1) h le;
    dropped =
        λ code e h lt. expire_dropped start code 0 m.senders_sessions e (λ k. (times k).0) d h lt;
    none_added = λ code h. find-expire-none code 0 m.senders_sessions h;
    keeps_distinct = expire-IsDistinct 0 m.senders_sessions d;
  }
