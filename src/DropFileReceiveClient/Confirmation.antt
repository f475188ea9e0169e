-- ===== src/DropFileReceiveClient/Confirmation.antt =====
-- DropFileReceiveClient::getUserConfirmation.
use drop_file.Socket.Framing.{send_lem, chunks, frames, written}
use drop_file.Socket.{ack, send_ack}
use drop_file.Common.{
  ◌≤◌, ◌≡◌, refl, inl, inr, Bool, ◌==◌, if◌then◌else◌, Bool-cases, Bytes, length,
}
use drop_file.Network.{Net}
use drop_file.DropFileReceiveClient.{
  entered, thrown, done, abort, send_ack, Client, get_user_confirmation, next_char,
}

abbrev pub is_yes : Bytes → Bool
is_yes typed = (next_char typed).0 == 121

-- The client after it answered the server by one message.
abbrev pub replied : Bytes → Client → Client
replied d c = record c {
  socket = written (frames (chunks d)) c.socket;
  interaction = (next_char c.interaction).1;
}

-- On a connection with room for either answer: if the first character typed is y, an ACK is sent;
-- otherwise, also when nothing is typed, "abort" is sent and an exception ends the client.
pub get_user_confirmation_lem :
    (net : Net) (c : Client)
    → length (frames (chunks ack)) ≤ c.socket.room
    → length (frames (chunks abort)) ≤ c.socket.room
    → get_user_confirmation net c ≡ (
        if is_yes c.interaction
        then done tt (replied ack c)
        else thrown (entered (next_char c.interaction).0) (replied abort c))
unfolding get_user_confirmation send_ack
get_user_confirmation_lem net c room_ack room_abort = elim (Bool-cases (is_yes c.interaction)) [
  | inl agreed ↦ rw (agreed, send_lem net ack c.socket room_ack) refl
  | inr refused ↦ rw (refused, send_lem net abort c.socket room_abort) refl
]
