-- ===== src/Tests/Session.antt =====
-- A file of three bytes on its way through a whole session.
use drop_file.Delivery.{Route}
use drop_file.Delivery.Metadata.{metadata}
use drop_file.Delivery.Session.{deliver_session, deliver_session_lem, IsAgreed, IsDelivered}
use drop_file.DropFileReceiveClient.{next_char}
use drop_file.DropFileReceiveClient.Whole.{receive_path}
use drop_file.InitSessionMessage.{
  create_receive_message, receive_action, send_fields, receive_fields, code_words_key, action_key,
}
use drop_file.InitSessionMessage.Valid.{string_at}
use drop_file.InitSessionMessage.RoundTrip.{create-create_receive_message}
use drop_file.Network.{Stream}
use drop_file.Outcome.{Ensures}
use drop_file.ServerSideClientSession.{Env, World, handle_first_read}
use drop_file.ServerSideClientSession.Relays.{
  Announces, IsProtocol, Relayed, handle_first_read_lem, without,
}
use drop_file.SessionsManager.{SessionsManager, TimedClientSession, find}
use drop_file.Socket.{ack, buffer_size}
use drop_file.Socket.Framing.{frame, frames, length-frames-chunks_le, length-frame, join}
use drop_file.Tests.Delivering.{two_at_hand}
use drop_file.Tests.Hashing.{copies}
use drop_file.Tests.Programs.{machine}
use drop_file.Tests.Values.{
  Value, values, dump_value, encode_fields, encode_scalar, find_value, string_value, size_value,
}
use drop_file.Tests.Wire.{wire}
use drop_file.Utils.Hash.{IsUtilsException, binary_to_human_readable}
use drop_file.Json.{assigned}
use drop_file.Common.{
  ℕ, ◌≡◌, refl, ◌≢◌, true, false, none, some, [], ◌∷◌, ◌++◌, arith, ◌==◌, if◌then◌else◌, Bytes,
  text, bytes_eq,
}

abbrev content : Bytes
content = 7 ∷ 8 ∷ 9 ∷ []

abbrev name : Bytes
name = 97 ∷ []

abbrev said : Value
said = metadata wire values copies machine name content false

abbrev offer : Bytes
offer = 5 ∷ encode_fields (send_fields values name 3 (text "070809") false)

abbrev request : Bytes
request = 2 ∷ encode_fields (receive_fields values name)

abbrev waiting_sender : TimedClientSession Value
waiting_sender = record { client_session = 0; session_data = said; time_point = 10 }

abbrev manager : SessionsManager Value
manager = record {
  nouns = name ∷ [];
  adjectives = name ∷ [];
  senders_sessions = (name, waiting_sender) ∷ [];
}

abbrev acknowledged : Stream
acknowledged = record { incoming = frame ack ++ (frame ack ++ []); outgoing = []; room = 500 }

abbrev route : Route Value
route = record {
  sending = record { socket = acknowledged; file = content };
  world = record { manager = some manager; sockets = λ i. acknowledged };
  receiving = record {
    socket = acknowledged;
    files = λ q. none;
    interaction = 121 ∷ [];
    status = λ _. some false;
    opens = λ _. true;
  };
}

abbrev first_session : ℕ
first_session = 0

abbrev second_session : ℕ
second_session = 1

apart : second_session ≢ first_session
apart e = absurd (omega arith)

abbrev env : Env
env = record { now = 20; draws = [] }

said_dump : values.dump said ≡ some offer
unfolding dump_value binary_to_human_readable
said_dump = refl

request_dump : values.dump (create_receive_message values name) ≡ some request
unfolding dump_value create_receive_message
request_dump = refl

agreed :
    IsAgreed wire values copies machine two_at_hand 1 0 name request name offer false manager 10
      route
unfolding find bytes_eq buffer_size encode_fields encode_scalar next_char
agreed = record {
  apart = apart;
  manager = refl;
  waiting = refl;
  dumped = said_dump;
  one_message = (omega arith, omega arith);
  small = omega arith;
  not_empty = omega arith;
  space = 100;
  known = refl;
  free = omega arith;
  new_name = refl;
  new_path = refl;
  opens = refl;
  requested = request_dump;
  agrees = refl;
  server_acks = refl;
  client_acks = refl;
  room_sending = omega arith;
  room_sender = omega (arith, length-frame ack);
  room_receiver = omega (arith, length-frames-chunks_le offer (omega arith));
  room_receiving = omega (
    arith,
    length-frame ack,
    length-frames-chunks_le request (omega arith),
    length-frames-chunks_le (text "abort") (omega arith),
  );
}

deliver_session_lem_example :
    Ensures IsUtilsException
      (λ p q.
        (p ≡ (false, receive_path machine false name))
        × IsDelivered wire values copies machine two_at_hand 1 0 name request
            (receive_path machine false name)
            manager
            route
            q)
      (deliver_session wire values copies machine two_at_hand 1 0 env name request route)
deliver_session_lem_example =
    deliver_session_lem wire values copies machine two_at_hand 1 0 env name request name offer false
      manager 10 route agreed

abbrev arrived : World Value
arrived = record {
  manager = some manager;
  sockets = λ i. record {
    incoming = if i == 0 then frames (content ∷ []) ++ [] else frame ack ++ (frame ack ++ []);
    outgoing = [];
    room = 500;
  };
}

asks : string_at values code_words_key (create_receive_message values name) ≡ some name
unfolding create_receive_message find_value string_value assigned bytes_eq
asks = refl

receives : string_at values action_key (create_receive_message values name) ≡ some receive_action
unfolding create_receive_message find_value string_value assigned bytes_eq
receives = refl

announced : Announces wire values said offer 3
unfolding find_value string_value size_value assigned bytes_eq
announced = record {
  dumped = said_dump;
  named = (name, refl);
  sized = refl;
  not_empty = omega arith;
}

protocol : IsProtocol wire values 3 1 0 offer 3 (content ∷ []) [] [] arrived
unfolding join buffer_size encode_fields encode_scalar
protocol = record {
  acknowledged = refl;
  messages = refl;
  legal = omega arith;
  enough = omega arith;
  rounds = omega arith;
  room_receiver = omega (arith, length-frames-chunks_le offer (omega arith));
  room_sender = omega (arith, length-frame ack);
}

handle_first_read_lem_example :
    Relayed wire values 1 0 offer 3
      (content ∷ [])
      []
      []
      (record arrived { manager = some (without wire values name manager) })
      (handle_first_read wire values env 3 1 request arrived)
unfolding find bytes_eq
handle_first_read_lem_example =
    handle_first_read_lem wire values env 3 1 request name (create_receive_message values name)
      manager waiting_sender offer 3 (content ∷ []) [] [] arrived
      (create-create_receive_message values name request request_dump) receives asks refl refl apart
      announced protocol
