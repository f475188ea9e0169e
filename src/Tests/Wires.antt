-- ===== src/Tests/Wires.antt =====
-- The properties of SocketBase on small connections.
use drop_file.Socket.RoundTrip.{receive_each-send}
use drop_file.Socket.Hostile.{async_read_message_refused, receive_over, receive_to_buffer-le}
use drop_file.Result.{ok, err}
use drop_file.Outcome.{socket_exception, undefined, done, thrown}
use drop_file.Socket.Framing.{
  send_lem, join, written, length-frames-chunks_le, chunks, frame, frames,
}
use drop_file.Socket.Disconnect.{safe_disconnect_lem}
use drop_file.Socket.Receive.{receive_to_buffer_lem, left, receive_each}
use drop_file.Socket.Header.{le_bytes, le_value}
use drop_file.Utils.{bytes_to_human_readable_lem, bytes_to_human_readable}
use drop_file.Socket.{
  too_big_text, schedule_text, receive, send, buffer_size, async_read_message, safe_disconnect,
}
use drop_file.Common.{
  ◌+◌, ◌/◌, ◌^◌, ◌≤◌, ◌≡◌, refl, some, [], ◌∷◌, ◌++◌, arith, ltb, ◌==◌, if◌then◌else◌, Bytes, text,
  length,
}
use drop_file.Network.{Stream}
use drop_file.Tests.Wire.{wire}

abbrev two : Bytes
two = 7 ∷ 9 ∷ []

abbrev fresh : Stream
fresh = record { incoming = []; outgoing = []; room = 100 }

-- A peer that is sent `b`.
abbrev sees : Bytes → Stream
sees b = record { incoming = b; outgoing = []; room = 100 }

two-fits : length (frames (chunks two)) ≤ 100
unfolding buffer_size
two-fits = omega (arith, length-frames-chunks_le two (omega arith))

sent : send wire two fresh ≡ done tt (written (frames (chunks two)) fresh)
sent = send_lem wire two fresh two-fits

receive_each-send_example :
    (receive_each wire (chunks two) (sees (frames (chunks two) ++ two))
      ≡ done (chunks two) (left two (sees (frames (chunks two) ++ two))))
    × (join (chunks two) ≡ two)
receive_each-send_example =
    receive_each-send wire two two fresh (written (frames (chunks two)) fresh)
      (sees (frames (chunks two) ++ two)) refl two-fits sent refl

abbrev huge : Bytes
huge = 0 ∷ 0 ∷ 0 ∷ 0 ∷ 0 ∷ 0 ∷ 0 ∷ 1 ∷ []

receive_over_example :
    (t : Stream) × (receive wire (sees (huge ++ two))
      ≡ thrown (socket_exception (too_big_text wire (le_value huge))) t)
    × (t.room ≡ 0)
    × (t.incoming ≡ two)
unfolding buffer_size le_value
receive_over_example = receive_over wire huge two (sees (huge ++ two)) refl refl (omega arith)

receive_to_buffer-le_example : length two ≤ buffer_size
unfolding buffer_size frame le_bytes
receive_to_buffer-le_example =
    receive_to_buffer-le wire (sees (frame two)) (left [] (sees (frame two))) two
      (receive_to_buffer_lem wire two [] (sees (frame two)) (omega arith) refl)

async_read_message_refused_example :
    async_read_message wire (buffer_size + 1) fresh
    ≡ thrown (socket_exception (schedule_text wire (buffer_size + 1))) fresh
async_read_message_refused_example =
    async_read_message_refused wire (buffer_size + 1) fresh (omega arith)

safe_disconnect_lem_example :
    (t : Stream) × (safe_disconnect wire (some two) fresh ≡ done tt t)
    × (t.room ≡ 0)
    × (t.incoming ≡ [])
safe_disconnect_lem_example = safe_disconnect_lem wire (some two) fresh

bytes_to_human_readable_lem_example : bytes_to_human_readable wire.format_number 5000 ≡ (
    if 5000 == 0
    then err undefined
    else if ltb 5000 (2 ^ 10)
    then ok (wire.format_number 5000 ++ text " B")
    else if ltb 5000 (2 ^ 20)
    then ok (wire.format_number (5000 / 2 ^ 10) ++ text " kiB")
    else if ltb 5000 (2 ^ 30)
    then ok (wire.format_number (5000 / 2 ^ 20) ++ text " MiB")
    else ok (wire.format_number (5000 / 2 ^ 30) ++ text " GiB"))
bytes_to_human_readable_lem_example =
    bytes_to_human_readable_lem wire.format_number 5000 (omega arith)
