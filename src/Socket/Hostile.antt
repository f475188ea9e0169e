-- ===== src/Socket/Hostile.antt =====
-- Input that no honest peer sends: headers past the limit, and the asynchronous first read.
use drop_file.Common.{
  ℕ, ◌≤◌, ◌<◌, ◌≡◌, refl, ◌∙◌, Bytes, ◌++◌, append_assoc, length, lt→ltb, le→ltb_false, length-take,
  dec_le, none, some, arith, [],
}
use drop_file.Outcome.{done, thrown, socket_exception, ◌>>=◌, >>=-done, >>=-thrown, >>=-eq-done}
use drop_file.Network.{Net, Stream}
use drop_file.Socket.Header.{le_bytes, le_value, header_size, length-le_bytes, le_value-le_bytes}
use drop_file.Socket.Framing.{frame}
use drop_file.Socket.Receive.{left, read_front}
use drop_file.Socket.Disconnect.{safe_disconnect_lem}
use drop_file.Socket.{
  buffer_size, too_big_reply, too_big_text, over_limit_text, schedule_text, get_message_length,
  receive, receive_to_buffer, safe_disconnect, async_read_message, try_read,
}

module _ (net : Net) where
  -- A header that announces more than a buffer is answered by a disconnect and an exception.
  pub get_message_length_over :
      (header rest : Bytes) (s : Stream)
      → length header ≡ header_size
      → s.incoming ≡ header ++ rest
      → buffer_size < le_value header
      → (t : Stream) × (get_message_length net s
          ≡ thrown (socket_exception (too_big_text net (le_value header))) t)
        × (t.room ≡ 0)
        × (t.incoming ≡ rest)
  unfolding get_message_length
  get_message_length_over header rest s len e over =
      let (t, ends, shut, kept) = safe_disconnect_lem net (some too_big_reply) (left rest s) in
      (
        t,
        >>=-done (net.read header_size) _ (read_front net header rest header_size s len e)
            ∙ rw (lt→ltb buffer_size (le_value header) over)
                (>>=-done (safe_disconnect net (some too_big_reply)) _ ends),
        shut,
        kept,
      )

  -- A header that announces more than a buffer makes `receive` throw, on a connection that is shut.
  pub receive_over :
      (header rest : Bytes) (s : Stream)
      → length header ≡ header_size
      → s.incoming ≡ header ++ rest
      → buffer_size < le_value header
      → (t : Stream) × (receive net s
          ≡ thrown (socket_exception (too_big_text net (le_value header))) t)
        × (t.room ≡ 0)
        × (t.incoming ≡ rest)
  unfolding receive
  receive_over header rest s len e over =
      let (t, ends, shut, kept) = get_message_length_over header rest s len e over in
      (t, >>=-thrown (get_message_length net) net.read ends, shut, kept)

  get_message_length-le :
      (s t : Stream) (n : ℕ) → get_message_length net s ≡ done n t → n ≤ buffer_size
  unfolding get_message_length
  get_message_length-le s t n h =
      let (header, u, e, f) = >>=-eq-done (net.read header_size) _ s h in
      ground (arith, safe_disconnect_lem net (some too_big_reply) u)

  read-length : (n : ℕ) (s t : Stream) (d : Bytes) → net.read n s ≡ done d t → length d ≡ n
  read-length n s t d h = elim (dec_le n (length s.incoming)) [
    | yes fits ↦ ground (arith, net.read_enough n s, length-take n s.incoming)
    | no short ↦ ground (arith, net.read_short n s)
  ]

  -- Whatever arrives, no message that is received is longer than the buffer it is read into.
  pub receive_to_buffer-le :
      (s t : Stream) (d : Bytes) → receive_to_buffer net s ≡ done d t → length d ≤ buffer_size
  unfolding receive_to_buffer
  receive_to_buffer-le s t d h =
      let (n, u, e, f) = >>=-eq-done (get_message_length net) net.read s h in
      omega (arith, get_message_length-le s u n e, read-length n u t d f)

  -- A first read with a limit above the buffer is refused by an exception, and reads nothing.
  pub async_read_message_refused :
      (limit : ℕ) (s : Stream)
      → buffer_size < limit
      → async_read_message net limit s ≡ thrown (socket_exception (schedule_text net limit)) s
  unfolding async_read_message
  async_read_message_refused limit s h = rw (lt→ltb buffer_size limit h)

  try_read_front :
      (d rest : Bytes) (n : ℕ) (s : Stream)
      → length d ≡ n
      → s.incoming ≡ d ++ rest
      → try_read net n s ≡ done (some d) (left rest s)
  unfolding try_read
  try_read_front d rest n s len e = rw (read_front net d rest n s len e)

  module _ (limit : ℕ) (s : Stream) (legal : limit ≤ buffer_size) where
    -- A first message within a legal limit reaches the handler whole.
    pub async_read_message_within :
        (d rest : Bytes)
        → length d ≤ limit
        → s.incoming ≡ frame d ++ rest
        → async_read_message net limit s ≡ done (some d) (left rest s)
    unfolding async_read_message frame
    async_read_message_within d rest h e =
        let header = le_bytes header_size (length d) in
        rw (le→ltb_false buffer_size limit legal) (
          >>=-done (try_read net header_size) _ (
            try_read_front header (d ++ rest) header_size s (length-le_bytes header_size (length d))
              (e ∙ append_assoc header d rest))
          ∙ rw
              (
                le_value-le_bytes (length d) (unfold buffer_size in omega arith),
                le→ltb_false limit (length d) h,
              )
              (try_read_front d rest (length d) (left (d ++ rest) s) refl refl))

    -- A header that announces more than a legal limit reaches no handler: the connection is shut, and
    -- nothing behind the header is read.
    pub async_read_message_over :
        (header rest : Bytes)
        → length header ≡ header_size
        → s.incoming ≡ header ++ rest
        → limit < le_value header
        → (t : Stream) × (async_read_message net limit s ≡ done none t)
          × (t.room ≡ 0)
          × (t.incoming ≡ rest)
    unfolding async_read_message
    async_read_message_over header rest len e over =
        let reply = over_limit_text net (le_value header) limit in
        let (t, ends, shut, kept) = safe_disconnect_lem net (some reply) (left rest s) in
        (
          t,
          rw (le→ltb_false buffer_size limit legal) (
              >>=-done (try_read net header_size) _ (try_read_front header rest header_size s len e)
              ∙ rw (lt→ltb limit (le_value header) over)
                  (>>=-done (safe_disconnect net (some reply)) _ ends)),
          shut,
          kept,
        )

    -- A connection that closes before its header is complete reaches no handler.
    pub async_read_message_short :
        length s.incoming < header_size → async_read_message net limit s ≡ done none (left [] s)
    unfolding async_read_message
    async_read_message_short h =
        rw (le→ltb_false buffer_size limit legal, ◌>>=◌, net.read_short header_size s h)
