-- ===== src/Socket/Receive.antt =====
-- SocketBase::receive, receiveToBuffer and receiveACK on well-formed and hostile input.
use drop_file.Common.{
  if◌then◌else◌, ℕ, ◌≤◌, ◌≡◌, refl, ap, ◌∙◌, Bytes, List, [], ◌∷◌, ◌++◌, append_assoc, length, All,
  length-append, take_front, drop_front, le→ltb_false, bytes_eq_refl, bytes_eq, arith,
}
use drop_file.Outcome.{Action, done, thrown, socket_exception, pure, ◌>>=◌, >>=-done}
use drop_file.Network.{Net, Stream}
use drop_file.Socket.Header.{le_bytes, header_size, length-le_bytes, le_value-le_bytes}
use drop_file.Socket.Framing.{frame, frames}
use drop_file.Socket.{
  buffer_size, ack, not_ok_text, get_message_length, receive, receive_to_buffer, receive_ack,
}

-- The connection with `rest` still to be read.
abbrev pub left : Bytes → Stream → Stream
left rest s = record s { incoming = rest }

module _ (net : Net) where
  -- A block of known length at the front of the input is read whole.
  pub read_front :
      (d rest : Bytes) (n : ℕ) (s : Stream)
      → length d ≡ n
      → s.incoming ≡ d ++ rest
      → net.read n s ≡ done d (left rest s)
  read_front d rest n s len e =
      net.read_enough n s (omega (arith, ap length e, length-append d rest))
      ∙ rw (e, take_front d rest n len, drop_front d rest n len)

  get_message_length_lem :
      (d rest : Bytes) (s : Stream)
      → length d ≤ buffer_size
      → s.incoming ≡ frame d ++ rest
      → get_message_length net s ≡ done (length d) (left (d ++ rest) s)
  unfolding get_message_length frame
  get_message_length_lem d rest s h e =
      let header = le_bytes header_size (length d) in
      >>=-done (net.read header_size) _ (
        read_front header (d ++ rest) header_size s (length-le_bytes header_size (length d))
          (e ∙ append_assoc header d rest))
      ∙ rw (
        le_value-le_bytes (length d) (unfold buffer_size in omega arith),
        le→ltb_false buffer_size (length d) h,
      )

  -- A frame at the front of the input is received as the message that was sent.
  pub receive_lem :
      (d rest : Bytes) (s : Stream)
      → length d ≤ buffer_size
      → s.incoming ≡ frame d ++ rest
      → receive net s ≡ done d (left rest s)
  unfolding receive
  receive_lem d rest s h e =
      >>=-done (get_message_length net) net.read (get_message_length_lem d rest s h e)
      ∙ read_front d rest (length d) (left (d ++ rest) s) refl refl

  pub receive_to_buffer_lem :
      (d rest : Bytes) (s : Stream)
      → length d ≤ buffer_size
      → s.incoming ≡ frame d ++ rest
      → receive_to_buffer net s ≡ done d (left rest s)
  unfolding receive_to_buffer
  receive_to_buffer_lem d rest s h e =
      >>=-done (get_message_length net) net.read (get_message_length_lem d rest s h e)
      ∙ read_front d rest (length d) (left (d ++ rest) s) refl refl

  -- On a message of at most a buffer, receiveACK ends normally if it is ACK, and otherwise throws
  -- with the size of the reply and the reply itself if that is short; the message is consumed.
  pub receive_ack_lem :
      (d rest : Bytes) (s : Stream)
      → length d ≤ buffer_size
      → s.incoming ≡ frame d ++ rest
      → receive_ack net s ≡ (
          if bytes_eq d ack
          then done tt (left rest s)
          else thrown (socket_exception (not_ok_text net d)) (left rest s))
  unfolding receive_ack
  receive_ack_lem d rest s h e =
      >>=-done (receive_to_buffer net) _ (receive_to_buffer_lem d rest s h e) ∙ ground arith

  pub receive_ack_ok :
      (rest : Bytes) (s : Stream)
      → s.incoming ≡ frame ack ++ rest
      → receive_ack net s ≡ done tt (left rest s)
  receive_ack_ok rest s e =
      receive_ack_lem ack rest s (unfold buffer_size in omega arith) e ∙ rw (bytes_eq_refl ack)

  -- Messages received one after the other.
  pub receive_each : List Bytes → Action Stream (List Bytes)
  receive_each [] = pure []
  receive_each (_ ∷ ds) = receive net >>= λ d. receive_each ds >>= λ more. pure (d ∷ more)

  -- Frames of messages of at most a buffer come out as the messages that went in, in order, and what
  -- follows them stays.
  pub receive_each-frames :
      (ds : List Bytes) (rest : Bytes) (s : Stream)
      → All (λ d. length d ≤ buffer_size) ds
      → s.incoming ≡ frames ds ++ rest
      → receive_each ds s ≡ done ds (left rest s)
  unfolding receive_each frames
  receive_each-frames [] rest s h e = ground arith
  receive_each-frames (d ∷ ds) rest s h e =
      >>=-done (receive net) _
        (receive_lem d (frames ds ++ rest) s h.0 (e ∙ append_assoc (frame d) (frames ds) rest))
      ∙ >>=-done (receive_each ds) _
          (receive_each-frames ds rest (left (frames ds ++ rest) s) h.1 refl)
