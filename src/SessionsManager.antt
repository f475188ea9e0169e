-- ===== src/SessionsManager.antt =====
-- include/server/SessionsManager.hpp and src/server/SessionsManager.cpp. Each public method holds
-- the mutex over its accesses to `senders_sessions`, so it is one step on the manager's state.
pub mod Registry
pub mod Register
pub mod Expiry
pub mod Runs
pub mod Construct
pub mod Refines
use drop_file.Common.{
  ℕ, suc, ◌+◌, ◌-◌, ◌*◌, ◌%◌, ◌^◌, Bool, true, false, Option, none, some, List, [], ◌∷◌, ◌++◌, ltb,
  if◌then◌else◌, Bytes, text, bytes_eq, length,
}
use drop_file.Common.{get_elem?}
use drop_file.Outcome.{
  Action, done, thrown, unfinished, sessions_manager_exception, out_of_range, undefined,
}
use drop_file.Result.{Result, ok, err, ◌>>=◌}

-- A session object is named by its identity, the pointer that std::shared_ptr holds. Times are in
-- nanoseconds, the unit of the system clock.
pub record TimedClientSession (J : Type 0) : Type 0 where
  pub client_session : ℕ
  pub session_data : J
  pub time_point : ℕ

abbrev pub Sessions : Type 0 → Type 0
Sessions J = List (Bytes × TimedClientSession J)

-- The order of an unordered_map is unspecified: here it is the order of insertion, newest first.
pub record SessionsManager (J : Type 0) : Type 0 where
  pub nouns : List Bytes
  pub adjectives : List Bytes
  pub senders_sessions : Sessions J

-- What the random engine gives for one session id.
pub record Draws : Type 0 where
  pub adjective : ℕ
  pub noun : ℕ
  pub number : ℕ

abbrev pub nanoseconds : ℕ
nanoseconds = 1_000_000_000

abbrev pub unknown_code : Bytes
unknown_code = text "Unknown session code."

-- src/Utils.cpp: uniform_int_distribution(a, b) on the engine's output; b < a is undefined.
unfoldable pub get_random : ℕ → ℕ → ℕ → Result ℕ
get_random a b output = if ltb b a then err undefined else ok (a + output % (b - a + 1))

abbrev or_out_of_range {ℓ} : {A : Type ℓ} → Option A → Result A
or_out_of_range none = err out_of_range
or_out_of_range (some a) = ok a

-- elements.size() - 1 wraps around on an empty vector.
unfoldable pub pick_random : List Bytes → ℕ → Result Bytes
unfolding get_random
pick_random elements output = do
  i ← get_random 0 ((length elements + 2 ^ 64 - 1) % 2 ^ 64) output
  or_out_of_range (get_elem? elements i)

module _ {J : Type 0} where
  unfoldable pub find : Bytes → Sessions J → Option (TimedClientSession J)
  find code [] = none
  find code ((c, e) ∷ es) = if bytes_eq c code then some e else find code es

  unfoldable pub erase : Bytes → Sessions J → Sessions J
  erase code [] = []
  erase code ((c, e) ∷ es) = if bytes_eq c code then es else (c, e) ∷ erase code es

  abbrev is_found : Option (TimedClientSession J) → Bool
  is_found none = false
  is_found (some _) = true

  abbrev pub contains : Bytes → Sessions J → Bool
  contains code es = is_found (find code es)

  unfoldable pub current_sessions : SessionsManager J → ℕ
  current_sessions m = length m.senders_sessions

  abbrev extracted : Bytes → Option (TimedClientSession J) → Action (SessionsManager J) (ℕ × J)
  extracted code none m = thrown (sessions_manager_exception unknown_code) m
  extracted code (some e) m =
      done (e.client_session, e.session_data)
        (record m { senders_sessions = erase code m.senders_sessions })

  unfoldable pub get_sender_with_metadata : Bytes → Action (SessionsManager J) (ℕ × J)
  get_sender_with_metadata session_code m =
      extracted session_code (find session_code m.senders_sessions) m

  -- The loop over the map; `clock i` is what the clock shows in round `i`.
  unfoldable pub expire : ℕ → (ℕ → ℕ) → ℕ → Sessions J → Sessions J
  expire client_timeout clock i [] = []
  expire client_timeout clock i ((c, e) ∷ es) =
      let rest = expire client_timeout clock (suc i) es in
      if ltb (e.time_point + client_timeout * nanoseconds) (clock i) then rest else (c, e) ∷ rest

  unfoldable pub terminate_timeout_clients : ℕ → (ℕ → ℕ) → SessionsManager J → SessionsManager J
  terminate_timeout_clients client_timeout clock m = record m {
    senders_sessions = expire client_timeout clock 0 m.senders_sessions;
  }

module _ {J : Type 0} (format_number : ℕ → Bytes) where
  unfoldable pub generate_session_id : SessionsManager J → Draws → Result Bytes
  generate_session_id m draws = do
    adjective ← pick_random m.adjectives draws.adjective
    noun ← pick_random m.nouns draws.noun
    number ← get_random 0 100 draws.number
    ok (adjective ++ (text "-" ++ (noun ++ (text "-" ++ format_number number))))

  -- `try_id` is what one round of the loop does with its session id; `again` is the next round.
  abbrev pub try_id :
      ℕ → J → ℕ → Result Bytes → Action (SessionsManager J) Bytes → Action (SessionsManager J) Bytes
  try_id sender json now (err x) again m = thrown x m
  try_id sender json now (ok session_id) again m =
      if contains session_id m.senders_sessions
      then again m
      else done session_id (record m {
        senders_sessions =
            (session_id, record { client_session = sender; session_data = json; time_point = now })
            ∷ m.senders_sessions;
      })

  -- `while (true)`: the list holds what the engine gives in each round.
  unfoldable pub register_sender : ℕ → J → ℕ → List Draws → Action (SessionsManager J) Bytes
  register_sender sender json now [] m = unfinished
  register_sender sender json now (draws ∷ more) m =
      try_id sender json now (generate_session_id m draws) (register_sender sender json now more) m
