-- ===== src/Tests/Delivering.antt =====
-- A file of three bytes on its way from a sending to a receiving client.
use drop_file.Socket.{ack}
use drop_file.Socket.Framing.{frame}
use drop_file.Network.{Stream}
use drop_file.Common.{ℕ, min, ◌≢◌, true, false, none, some, [], ◌∷◌, ◌++◌, arith, Bytes, length}
use drop_file.Tests.Values.{Value}
use drop_file.Delivery.{Route}
use drop_file.DropFileSendClient.{Readsome, Sending}

-- Two bytes are at hand at most.
abbrev pub two_at_hand : Readsome
two_at_hand = record {
  at_hand = λ n d. min (min n 2) (length d);
  at_hand-le = λ n d. (omega arith, omega arith);
  at_hand_pos = λ n d h more. omega arith;
}

abbrev content : Bytes
content = 7 ∷ 8 ∷ 9 ∷ []

abbrev acknowledged : Stream
acknowledged = record { incoming = frame ack ++ (frame ack ++ []); outgoing = []; room = 100 }

abbrev sending_client : Sending
sending_client = record { socket = acknowledged; file = content }

abbrev route : Route Value
route = record {
  sending = sending_client;
  world = record {
    manager = none;
    sockets = λ i. record { incoming = []; outgoing = []; room = 100 };
  };
  receiving = record {
    socket = record { incoming = []; outgoing = []; room = 100 };
    files = λ q. none;
    interaction = [];
    status = λ _. some false;
    opens = λ _. true;
  };
}

abbrev first_session : ℕ
first_session = 0

abbrev second_session : ℕ
second_session = 1

apart : second_session ≢ first_session
apart e = absurd (omega arith)
