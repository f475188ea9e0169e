-- ===== src/Tests/EndToEnd.antt =====
-- A file of three bytes on its way from end to end.
use drop_file.Delivery.{Route}
use drop_file.Delivery.EndToEnd.{
  deliver_file, deliver_file_lem, IsCompleted, IsPrepared, announcement,
}
use drop_file.DropFileReceiveClient.{next_char}
use drop_file.DropFileReceiveClient.Whole.{receive_path}
use drop_file.DropFileSendClient.Whole.{Machine}
use drop_file.InitSessionMessage.{
  code_words_key, create_receive_message, receive_fields, send_fields,
}
use drop_file.Json.{Scalar}
use drop_file.Network.{Stream}
use drop_file.Outcome.{Ensures, done}
use drop_file.ServerSideClientSession.{Env}
use drop_file.SessionsManager.{
  SessionsManager, find, generate_session_id, get_random, pick_random, register_sender,
}
use drop_file.SessionsManager.Register.{after}
use drop_file.Socket.{ack, buffer_size}
use drop_file.Socket.Framing.{frame, length-frame, length-frames-chunks_le}
use drop_file.Tests.Codec.{codec}
use drop_file.Tests.Delivering.{two_at_hand}
use drop_file.Tests.Hashing.{copies}
use drop_file.Tests.Programs.{machine}
use drop_file.Tests.Values.{Value, dump_value, encode_fields, encode_scalar, values}
use drop_file.Tests.Wire.{wire, wire_format}
use drop_file.Utils.Hash.{IsUtilsException, binary_to_human_readable}
use drop_file.Common.{
  ℕ, ◌≡◌, refl, ◌≢◌, true, false, Option, none, [], ◌∷◌, ◌++◌, arith, if◌then◌else◌, Bytes, text,
  bytes_eq,
}

abbrev content : Bytes
content = 7 ∷ 8 ∷ 9 ∷ []

abbrev name : Bytes
name = 97 ∷ []

abbrev code : Bytes
code = 97 ∷ 45 ∷ 97 ∷ 45 ∷ 7 ∷ []

abbrev sending_machine : Machine
sending_machine = record {
  sender_tmp_dir = 116 ∷ [];
  filename = λ path. path;
  directory = λ _ _. none;
  exists = λ _ _. true;
  remove_all = λ path files q. if bytes_eq q path then none else files q;
  create_directories = λ _ files. Option.some files;
  what = [];
}

abbrev message : Bytes
message = 5 ∷ encode_fields (send_fields values name 3 (text "070809") false)

abbrev request : Bytes
request = 2 ∷ encode_fields (receive_fields values code)

abbrev response : Bytes
response = 1 ∷ encode_fields ((code_words_key, Scalar.string code) ∷ [])

abbrev manager : SessionsManager Value
manager = record { nouns = name ∷ []; adjectives = name ∷ []; senders_sessions = [] }

abbrev server_side : Stream
server_side = record { incoming = frame ack ++ (frame ack ++ []); outgoing = []; room = 500 }

abbrev nothing_stored : Bytes → Option Bytes
nothing_stored q = none

abbrev route : Route Value
route = record {
  sending = record {
    socket = record {
      incoming = frame response ++ (frame ack ++ (frame ack ++ []));
      outgoing = [];
      room = 500;
    };
    file = content;
  };
  world = record { manager = Option.some manager; sockets = λ i. server_side };
  receiving = record {
    socket = server_side;
    files = nothing_stored;
    interaction = 121 ∷ [];
    status = λ _. Option.some false;
    opens = λ _. true;
  };
}

abbrev first_session : ℕ
first_session = 0

abbrev second_session : ℕ
second_session = 1

apart : second_session ≢ first_session
apart e = absurd (omega arith)

abbrev env : Env
env = record { now = 20; draws = record { adjective = 0; noun = 0; number = 7 } ∷ [] }

abbrev said : Value
said =
    announcement wire values copies machine sending_machine codec 4 two_at_hand 1 0 nothing_stored
      name route

abbrev registered : SessionsManager Value
registered = after wire.format_number 0 said 20 code manager

registers : register_sender wire.format_number 0 said 20 env.draws manager ≡ done code registered
unfolding register_sender generate_session_id pick_random get_random find wire_format
registers = refl

said_dump : values.dump said ≡ Option.some message
unfolding dump_value binary_to_human_readable
said_dump = refl

request_dump : values.dump (create_receive_message values code) ≡ Option.some request
unfolding dump_value create_receive_message
request_dump = refl

prepared :
    IsPrepared wire values copies machine sending_machine codec 4 two_at_hand 1 0 nothing_stored
      name env code request message response manager registered route
unfolding buffer_size dump_value encode_fields encode_scalar next_char
prepared = record {
  apart = apart;
  manager = refl;
  plain = refl;
  there = refl;
  dumped = said_dump;
  one_message = omega arith;
  short = omega arith;
  registers = registers;
  answers = refl;
  one_answer = (omega arith, omega arith);
  requested = request_dump;
  small = omega arith;
  not_empty = omega arith;
  space = 100;
  known = refl;
  free = omega arith;
  new_name = refl;
  new_path = refl;
  opens = refl;
  agrees = refl;
  server_writes = refl;
  client_acks = refl;
  room_sending = omega (arith, length-frames-chunks_le message (omega arith));
  room_sender = omega (arith, length-frame ack, length-frames-chunks_le response (omega arith));
  room_receiver = omega (arith, length-frames-chunks_le message (omega arith));
  room_receiving = omega (
    arith,
    length-frame ack,
    length-frames-chunks_le request (omega arith),
    length-frames-chunks_le (text "abort") (omega arith),
  );
}

deliver_file_lem_example :
    Ensures IsUtilsException
      (λ p q.
        (p ≡ (false, receive_path machine false name))
        × IsCompleted wire values copies machine sending_machine codec 4 two_at_hand 1 0
            nothing_stored name request response
            (receive_path machine false name)
            manager
            route
            q)
      (deliver_file wire values copies machine sending_machine codec 4 two_at_hand 1 0
        nothing_stored name env env request route)
deliver_file_lem_example =
    deliver_file_lem wire values copies machine sending_machine codec 4 two_at_hand 1 0
      nothing_stored name env code request message response manager registered route prepared env
