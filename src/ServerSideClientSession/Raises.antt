-- ===== src/ServerSideClientSession/Raises.antt =====
-- Which exceptions the methods of SocketBase throw on a session's socket.
use drop_file.Common.{
  ℕ, zero, suc, ◌+◌, ◌-◌, min, inl, inr, some, arith, dec_le, ltb, Bool-cases, Bytes, bytes_eq,
  length, take,
}
use drop_file.Outcome.{
  Outcome, Exception, done, thrown, unfinished, Raises, Raises-bind, system_error, socket_exception,
  sessions_manager_exception, init_session_message_exception,
}
use drop_file.Network.{Net, Stream}
use drop_file.Socket.Disconnect.{Wrote, send-Wrote, safe_disconnect_lem}
use drop_file.Socket.Header.{header_size, le_value}
use drop_file.Socket.{
  buffer_size, ack, send, send_ack, receive, receive_to_buffer, receive_ack, get_message_length,
  too_big_reply,
}
use drop_file.ServerSideClientSession.{World, on, settle, transfer}
use drop_file.Json.{JsonLib}

-- What handleFirstRead catches.
abbrev pub IsCaught : Exception → Type 0
IsCaught (socket_exception t) = Unit
IsCaught (init_session_message_exception t) = Unit
IsCaught (sessions_manager_exception t) = Unit
IsCaught system_error = Unit
IsCaught _ = ⊥

Raises-Wrote : (s : Stream) (o : Outcome Stream (Unit {0})) → Wrote s o → Raises IsCaught o
Raises-Wrote s (done a t) h = tt
Raises-Wrote s (thrown e t) h = rw h.0 tt
Raises-Wrote s unfinished h = tt

Raises-settle {ℓ} :
    {J : Type 0} {A : Type ℓ} (i : ℕ) (w : World J) (o : Outcome Stream A)
    → Raises IsCaught o
    → Raises IsCaught (settle i w o)
Raises-settle i w (done a s) h = h
Raises-settle i w (thrown e s) h = h
Raises-settle i w unfinished h = h

module _ (net : Net) where
  send-Raises : (d : Bytes) (s : Stream) → Raises IsCaught (send net d s)
  send-Raises d s = Raises-Wrote s (send net d s) (send-Wrote net d s)

  read-Raises : (n : ℕ) (s : Stream) → Raises IsCaught (net.read n s)
  read-Raises n s = elim (dec_le n (length s.incoming)) [
    | yes h ↦ rw (net.read_enough n s h) tt
    | no h ↦ rw (net.read_short n s (omega arith)) tt
  ]

  get_message_length-Raises : (s : Stream) → Raises IsCaught (get_message_length net s)
  unfolding get_message_length
  get_message_length-Raises s =
      Raises-bind IsCaught (net.read header_size s) _ (read-Raises header_size s) (λ header t e.
        elim (Bool-cases (ltb buffer_size (le_value header))) [
          | inl over ↦
              let (u, ends, shut, kept) = safe_disconnect_lem net (some too_big_reply) t in
              rw (over, ends) tt
          | inr legal ↦ rw legal tt
        ])

  receive-Raises : (s : Stream) → Raises IsCaught (receive net s)
  unfolding receive
  receive-Raises s =
      Raises-bind IsCaught (get_message_length net s) net.read (get_message_length-Raises s)
        (λ n t e. read-Raises n t)

  receive_ack-Raises : (s : Stream) → Raises IsCaught (receive_ack net s)
  unfolding receive_ack receive_to_buffer
  receive_ack-Raises s =
      Raises-bind IsCaught (receive_to_buffer net s) _
        (Raises-bind IsCaught (get_message_length net s) net.read (get_message_length-Raises s)
          (λ n t e. read-Raises n t))
        (λ d t e. elim (Bool-cases (bytes_eq d ack)) [
          | inl same ↦ rw same tt
          | inr other ↦ rw other tt
        ])

  module _ {J : Type 0} where
    pub on_send-Raises : (i : ℕ) (d : Bytes) (w : World J) → Raises IsCaught (on i (send net d) w)
    on_send-Raises i d w = Raises-settle i w _ (send-Raises d (w.sockets i))

    pub on_send_ack-Raises : (i : ℕ) (w : World J) → Raises IsCaught (on i (send_ack net) w)
    unfolding send_ack
    on_send_ack-Raises i w = Raises-settle i w _ (send-Raises ack (w.sockets i))

    pub on_receive-Raises : (i : ℕ) (w : World J) → Raises IsCaught (on i (receive net) w)
    on_receive-Raises i w = Raises-settle i w _ (receive-Raises (w.sockets i))

    pub on_receive_ack-Raises : (i : ℕ) (w : World J) → Raises IsCaught (on i (receive_ack net) w)
    on_receive_ack-Raises i w = Raises-settle i w _ (receive_ack-Raises (w.sockets i))

    pub transfer-Raises :
        (json : JsonLib J) (fuel receiver sender expected total : ℕ) (w : World J)
        → Raises IsCaught (transfer net json fuel receiver sender expected total w)
    unfolding transfer
    transfer-Raises json zero receiver sender expected total w =
        elim (Bool-cases (ltb total expected)) [ inl more ↦ rw more tt | inr full ↦ rw full tt ]
    transfer-Raises json (suc fuel) receiver sender expected total w =
        elim (Bool-cases (ltb total expected)) [
          | inr full ↦ rw full tt
          | inl more ↦ rw more (
              Raises-bind IsCaught (on sender (receive net) w) _ (on_receive-Raises sender w)
                (λ d u e.
                  Raises-bind IsCaught
                    (on receiver (send net (take (min (expected - total) (length d)) d)) u) _
                    (on_send-Raises receiver (take (min (expected - total) (length d)) d) u)
                    (λ _ v f.
                      transfer-Raises json fuel receiver sender expected
                        (total + min (expected - total) (length d)) v)))
        ]
