-- ===== src/Tests/Sessions.antt =====
-- The properties of ServerSideClientSession on a sender, session 0, and a receiver, session 1.
use drop_file.InitSessionMessage.Valid.{IsSendMessage}
use drop_file.Json.{Scalar, assigned}
use drop_file.InitSessionMessage.{receive_fields, code_words_key, send_fields}
use drop_file.Network.{Stream}
use drop_file.Socket.Framing.{frame, frames}
use drop_file.SessionsManager.{TimedClientSession, find, SessionsManager}
use drop_file.ServerSideClientSession.Contained.{
  handle_first_read-IsContained, IsServable, IsReady, IsServing, IsContained,
}
use drop_file.ServerSideClientSession.{handle_first_read, World}
use drop_file.SessionsManager.Register.{HasWords}
use drop_file.Common.{
  ℕ, ◌≡◌, refl, ◌≢◌, false, some, List, [], ◌∷◌, ◌++◌, arith, ◌==◌, if◌then◌else◌, Bytes, bytes_eq,
}
use drop_file.Tests.Wire.{wire}
use drop_file.Tests.Values.{
  number_value, bool_value, encode_fields, string_value, size_value, find_value, dump_value, table,
  Value, values,
}

abbrev messages : List Bytes
messages = (7 ∷ 9 ∷ []) ∷ ([] ∷ ((4 ∷ 5 ∷ 6 ∷ []) ∷ []))

abbrev name : Bytes
name = 97 ∷ []

abbrev session_json : Value
session_json = table (send_fields values name 3 name false)

abbrev manager : SessionsManager Value
manager = record {
  nouns = name ∷ [];
  adjectives = name ∷ [];
  senders_sessions =
      (name, record { client_session = 0; session_data = session_json; time_point = 10 }) ∷ [];
}

abbrev connections : ℕ → Stream
connections i = record {
  incoming = if i == 0 then frames messages ++ name else frame name;
  outgoing = [];
  room = 100;
}

abbrev world : World Value
world = record { manager = some manager; sockets = connections }

abbrev session : ℕ → ℕ
session i = i

apart : session 1 ≢ session 0
apart e = absurd (omega arith)

words : HasWords manager
words = record {
  some_adjective = omega arith;
  adjectives_fit = omega arith;
  some_noun = omega arith;
  nouns_fit = omega arith;
}

is_send_message : IsSendMessage values session_json
unfolding find_value string_value bool_value number_value assigned bytes_eq
is_send_message = record {
  action_is = refl;
  has_filename = refl;
  has_file_size = refl;
  has_file_hash = refl;
  has_is_compressed = refl;
}

servable : IsServable wire values session_json
unfolding dump_value find_value size_value assigned bytes_eq
servable = record {
  valid = is_send_message;
  dumps = (5 ∷ encode_fields (send_fields values name 3 name false), refl);
  sized = (3, refl, omega arith, omega arith);
}

one-IsServable :
    (code : Bytes) (e : TimedClientSession Value)
    → find code manager.senders_sessions ≡ some e
    → IsServable wire values e.session_data
unfolding find
one-IsServable code e h = ground (arith, servable)

ready : IsReady wire values manager
unfolding dump_value
ready = record {
  words = words;
  codes_dump = λ d id h. (1 ∷ encode_fields ((code_words_key, Scalar.string id) ∷ []), refl);
  servable = one-IsServable;
}

serving : IsServing wire values world
serving m e = ground (arith, ready)

handle_first_read-IsContained_example : IsContained (
    handle_first_read wire values
      (record { now = 20; draws = [] })
      5
      1
      (2 ∷ encode_fields (receive_fields values name))
      world)
handle_first_read-IsContained_example =
    handle_first_read-IsContained wire values (record { now = 20; draws = [] }) 5 1
      (2 ∷ encode_fields (receive_fields values name)) world serving
