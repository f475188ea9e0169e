-- ===== src/Socket/Consumes.antt =====
-- Each message that SocketBase::receive returns leaves less to read.
use drop_file.Socket.Header.{le_value, header_size}
use drop_file.Socket.{receive_to_buffer, too_big_reply, buffer_size, get_message_length, receive}
use drop_file.Socket.Disconnect.{safe_disconnect_lem}
use drop_file.Network.{Stream, Net}
use drop_file.Outcome.{unfinished, thrown, done, Outcome}
use drop_file.Common.{
  ℕ, ◌≤◌, ◌<◌, inl, inr, some, arith, dec_le, ltb, Bool-cases, Bytes, length, take, drop,
  length-drop,
}

-- A message takes its header at least.
unfoldable pub Shorter : Stream → Outcome Stream Bytes → Type 0
Shorter s (done d t) = length t.incoming < length s.incoming
Shorter s (thrown e t) = length t.incoming ≤ length s.incoming
Shorter s unfinished = ⊥

module _ (net : Net) where
  pub receive-Shorter : (s : Stream) → Shorter s (receive net s)
  unfolding receive get_message_length Shorter
  receive-Shorter s = elim (dec_le header_size (length s.incoming)) [
    | no short ↦ rw (net.read_short header_size s (omega arith)) (omega arith)
    | yes enough ↦
        let left = length-drop header_size s.incoming in
        let header = take header_size s.incoming in
        let t : Stream = record s { incoming = drop header_size s.incoming } in
        rw (net.read_enough header_size s enough)
          (elim (Bool-cases (ltb buffer_size (le_value header))) [
            | inl over ↦
                let (u, ends, shut, kept) = safe_disconnect_lem net (some too_big_reply) t in
                rw (over, ends, kept) (omega arith)
            | inr legal ↦ rw legal (content (le_value header) t (omega arith))
          ])
  ]
    where
      content :
          (k : ℕ) (t : Stream) → length t.incoming < length s.incoming → Shorter s (net.read k t)
      content k t lt = elim (dec_le k (length t.incoming)) [
        | yes enough ↦ rw (net.read_enough k t enough) (omega (arith, length-drop k t.incoming))
        | no short ↦ rw (net.read_short k t (omega arith)) (omega arith)
      ]

  pub receive_to_buffer-Shorter : (s : Stream) → Shorter s (receive_to_buffer net s)
  unfolding receive_to_buffer receive
  receive_to_buffer-Shorter s = receive-Shorter s
