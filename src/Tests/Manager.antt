-- ===== src/Tests/Manager.antt =====
-- The properties of SessionsManager on a manager with one adjective and one noun.
use drop_file.SessionsManager.Refines.{Run-Moves, view, Moves}
use drop_file.SessionsManager.Runs.{
  refuse, take_sender, register, here, count_taken_le, next, count_registered, registered, taken,
  refused, count_taken, Run,
}
use drop_file.Result.{ok}
use drop_file.SessionsManager.Expiry.{terminate_timeout_clients_lem, Swept}
use drop_file.SessionsManager.Register.{
  register_sender_lem, entry, Registered, IsUsed, register_sender_ends, after,
}
use drop_file.Outcome.{sessions_manager_exception, thrown, done}
use drop_file.SessionsManager.{
  unknown_code, terminate_timeout_clients, get_random, erase, find, pick_random, Draws,
  SessionsManager, register_sender, generate_session_id, get_sender_with_metadata,
}
use drop_file.Common.{ℕ, ◌≤◌, ◌≡◌, refl, [], ◌∷◌, ◌++◌, arith, Bytes, text, bytes_eq}
use drop_file.Tests.Wire.{wire_format}

abbrev word : Bytes
word = 97 ∷ []

abbrev empty : SessionsManager ℕ
empty = record { nouns = word ∷ []; adjectives = word ∷ []; senders_sessions = [] }

abbrev draw : ℕ → Draws
draw n = record { adjective = 0; noun = 0; number = n }

abbrev code : ℕ → Bytes
code n = word ++ (text "-" ++ (word ++ (text "-" ++ (n ∷ []))))

abbrev full : SessionsManager ℕ
full = after wire_format 3 42 10 (code 5) empty

draw_5 : generate_session_id wire_format empty (draw 5) ≡ ok (code 5)
unfolding generate_session_id pick_random get_random wire_format
draw_5 = refl

draw_6 : generate_session_id wire_format full (draw 6) ≡ ok (code 6)
unfolding generate_session_id pick_random get_random wire_format
draw_6 = refl

in_use : IsUsed wire_format full (draw 5)
unfolding find bytes_eq generate_session_id pick_random get_random wire_format
in_use = (code 5, entry wire_format 3 42 10, refl, refl)

register_sender_lem_example : Registered wire_format 3 42 10 empty full (code 5)
unfolding register_sender generate_session_id pick_random get_random wire_format find
register_sender_lem_example =
    register_sender_lem wire_format 3 42 10 (draw 5 ∷ []) empty full (code 5) refl

register_sender_ends_example :
    register_sender wire_format 4 43 11 (draw 5 ∷ (draw 6 ∷ [])) full
    ≡ done (code 6) (after wire_format 4 43 11 (code 6) full)
unfolding find bytes_eq
register_sender_ends_example =
    register_sender_ends wire_format 4 43 11 (draw 5 ∷ []) (draw 6) [] full (in_use, tt)
      (code 6, draw_6, refl)

terminate_timeout_clients_lem_example :
    Swept 1
      (λ k. 2_000_000_000)
      2_000_000_000
      2_000_000_000
      full
      (terminate_timeout_clients 1 (λ k. 2_000_000_000) full)
unfolding find
terminate_timeout_clients_lem_example =
    terminate_timeout_clients_lem 1 (λ k. 2_000_000_000) 2_000_000_000 2_000_000_000 full
      (λ k. (omega arith, omega arith)) (refl, tt)

-- The run: a sender is registered and taken, and the code is refused then.
refused_5 :
    get_sender_with_metadata (code 5) empty ≡ thrown (sessions_manager_exception unknown_code) empty
unfolding get_sender_with_metadata find
refused_5 = refl

taken_5 : get_sender_with_metadata (code 5) full ≡ done (3, 42) empty
unfolding get_sender_with_metadata find erase bytes_eq
taken_5 = refl

registered_5 : register_sender wire_format 3 42 10 (draw 5 ∷ []) empty ≡ done (code 5) full
unfolding register_sender generate_session_id pick_random get_random wire_format find
registered_5 = refl

run : Run wire_format empty (refused (code 5) ∷ (taken (code 5) ∷ (registered (code 5) ∷ []))) empty
run =
    next
      (next (next here (register 3 42 10 (draw 5 ∷ []) (code 5) registered_5))
        (take_sender (code 5) 3 42 taken_5))
      (refuse (code 5) (sessions_manager_exception unknown_code) refused_5)

count_taken_le_example :
    count_taken (code 5) (refused (code 5) ∷ (taken (code 5) ∷ (registered (code 5) ∷ [])))
    ≤ count_registered (code 5) (refused (code 5) ∷ (taken (code 5) ∷ (registered (code 5) ∷ [])))
count_taken_le_example = count_taken_le wire_format (code 5) refl run

Run-Moves_example :
    Moves
      (view empty)
      (refused (code 5) ∷ (taken (code 5) ∷ (registered (code 5) ∷ [])))
      (view empty)
Run-Moves_example = Run-Moves wire_format run tt
