-- ===== src/Socket.antt =====
-- include/SocketBase.hpp and src/SocketBase.cpp.
pub mod Header
pub mod Framing
pub mod Receive
pub mod Disconnect
pub mod Hostile
pub mod FirstMessage
pub mod Consumes
pub mod RoundTrip
use mathlib.Core.WellFounded.{Acc}
use drop_file.Common.{
  ℕ, ◌+◌, ◌-◌, ◌*◌, ◌≤◌, ◌<◌, ◌≡◌, Bytes, text, bytes_eq, ◌++◌, length, take, drop, ltb, not,
  dec_le, dite, if◌then◌else◌, Option, none, some, arith, true, false,
}
use drop_file.Common.Order.{lt_wf}
use drop_file.Outcome.{
  Outcome, Action, done, thrown, unfinished, pure, throw, ◌>>=◌, ◌>>◌, socket_exception,
}
use drop_file.Network.{Net, Stream}
use Header.{le_bytes, le_value, header_size}

-- SocketBase::BUFFER_SIZE, 1 MiB.
unfoldable pub buffer_size : ℕ
buffer_size = 1024 * 1024 * 1

pub sub_smaller : (n : ℕ) → buffer_size ≤ n → n - buffer_size < n
unfolding buffer_size
sub_smaller n h = omega arith

-- SocketBase::ACK
abbrev pub ack : Bytes
ack = text "ACK"

-- MAX_PRINTABLE_STR_LENGTH
abbrev pub max_printable_str_length : ℕ
max_printable_str_length = 100

abbrev pub too_big_reply : Bytes
too_big_reply = text "Cannot receive message of this size."

-- `try { ... } catch (const std::exception&) { log }`
abbrev pub catch_all : Outcome Stream (Unit {0}) → Outcome Stream (Unit {0})
catch_all (done _ s) = done tt s
catch_all (thrown _ s) = done tt s
catch_all unfinished = unfinished

-- The completion handler of an asynchronous transfer gets an error code in place of an exception.
abbrev pub error_code : Outcome Stream Bytes → Outcome Stream (Option Bytes)
error_code (done message s) = done (some message) s
error_code (thrown _ s) = done none s
error_code unfinished = unfinished

module _ (net : Net) where
  -- The header and the data go out in one write.
  unfoldable pub send_chunk : Bytes → Action Stream (Unit {0})
  send_chunk d =
      let message_length = length d in net.write (le_bytes header_size message_length ++ d)

  unfoldable pub send_loop :
      Bytes → (message_length : ℕ) → ℕ → Acc ◌<◌ message_length → Action Stream (Unit {0})
  send_loop d message_length ptr_cursor (Acc.intro _ smaller) =
      dite (dec_le buffer_size message_length)
        (λ h.
          send_chunk (take buffer_size (drop ptr_cursor d))
          >> send_loop d (message_length - buffer_size) (ptr_cursor + buffer_size)
              (smaller (message_length - buffer_size) (sub_smaller message_length h)))
        (λ _.
          if ltb 0 message_length
          then send_chunk (take message_length (drop ptr_cursor d))
          else pure tt)

  unfoldable pub send : Bytes → Action Stream (Unit {0})
  unfolding lt_wf
  send d = send_loop d (length d) 0 (lt_wf.apply (length d))

  pub disconnect : Option Bytes → Action Stream (Unit {0})
  disconnect none = net.shutdown_send
  disconnect (some disconnect_msg) = send disconnect_msg >> net.shutdown_send

  -- The caught std::exception is logged.
  unfoldable pub safe_disconnect : Option Bytes → Action Stream (Unit {0})
  unfolding disconnect
  safe_disconnect disconnect_msg s = catch_all (disconnect disconnect_msg s)

  pub too_big_text : ℕ → Bytes
  too_big_text message_length =
      text "Somebody is trying to send "
      ++ (net.format_number message_length
          ++ (text " bytes in single message, which is more than allowed ("
              ++ (net.format_number buffer_size ++ text ")")))

  unfoldable pub get_message_length : Action Stream ℕ
  get_message_length = do
    header ← net.read header_size
    let message_length = le_value header
    if ltb buffer_size message_length
        then (safe_disconnect (some too_big_reply)
            >> throw (socket_exception (too_big_text message_length)))
        else pure message_length

  unfoldable pub receive : Action Stream Bytes
  receive = do message_length ← get_message_length; net.read message_length

  -- The view into data_buffer is read before the next transfer, so its content is the result.
  unfoldable pub receive_to_buffer : Action Stream Bytes
  receive_to_buffer = do message_length ← get_message_length; net.read message_length

  -- The handler of an asynchronous read runs on the message, if one comes: `none` is an abort.
  pub try_read : ℕ → Action Stream (Option Bytes)
  try_read n s = error_code (net.read n s)

  pub over_limit_text : ℕ → ℕ → Bytes
  over_limit_text message_size max_msg_size =
      text "Tried to send "
      ++ (net.format_number message_size
          ++ (text " bytes, which is more than allowed ("
              ++ (net.format_number max_msg_size ++ text ").")))

  pub async_read_message_impl : ℕ → Action Stream (Option Bytes)
  async_read_message_impl message_size = try_read message_size

  pub read_after_header : ℕ → Option Bytes → Action Stream (Option Bytes)
  read_after_header max_msg_size none = pure none
  read_after_header max_msg_size (some header) =
      let message_size = le_value header in
      if ltb max_msg_size message_size
      then (safe_disconnect (some (over_limit_text message_size max_msg_size)) >> pure none)
      else async_read_message_impl message_size

  pub async_read_header : ℕ → Action Stream (Option Bytes)
  async_read_header max_msg_size = try_read header_size >>= read_after_header max_msg_size

  pub schedule_text : ℕ → Bytes
  schedule_text max_msg_size =
      text "Tried to schedule receiving message with max size of "
      ++ (net.format_number max_msg_size
          ++ (text " bytes, where buffer size is " ++ (net.format_number buffer_size ++ text ".")))

  unfoldable pub async_read_message : ℕ → Action Stream (Option Bytes)
  unfolding async_read_header read_after_header async_read_message_impl try_read
  async_read_message max_msg_size =
      if ltb buffer_size max_msg_size
      then throw (socket_exception (schedule_text max_msg_size))
      else async_read_header max_msg_size

  pub not_ok_text : Bytes → Bytes
  not_ok_text response =
      text "Response not ok. Response size: "
      ++ (net.format_number (length response)
          ++ (text ". "
              ++ (if ltb (length response) max_printable_str_length
                  then response
                  else text "Too large to print.")))

  unfoldable pub receive_ack : Action Stream (Unit {0})
  receive_ack = do
    response ← receive_to_buffer
    if not (bytes_eq response ack) then throw (socket_exception (not_ok_text response)) else pure tt

  unfoldable pub send_ack : Action Stream (Unit {0})
  send_ack = send ack
