-- ===== src/ServerSideClientSession/Registers.antt =====
-- The session of a sender: its first message is read, and it is given a code.
use drop_file.InitSessionMessage.{action_key, code_words_key, create, send_action}
use drop_file.Json.{JsonLib, Scalar}
use drop_file.Network.{Net}
use drop_file.Outcome.{done}
use drop_file.Result.{ok}
use drop_file.ServerSideClientSession.{
  Env, World, caught, field, first_read, handle_first_read, max_first_message_size, on_message,
  put_socket, register_as_sender, register_session, start,
}
use drop_file.ServerSideClientSession.Sockets.{on-then, sockets-put_self}
use drop_file.SessionsManager.{SessionsManager, register_sender}
use drop_file.Socket.{async_read_message, buffer_size}
use drop_file.Socket.Framing.{chunks, frame, frames, send_lem, written}
use drop_file.Socket.Hostile.{async_read_message_within}
use drop_file.Socket.Receive.{left}
use drop_file.Common.{
  ◌≤◌, ◌≡◌, refl, ap, ◌∙◌, some, [], ◌∷◌, ◌++◌, arith, Bytes, bytes_eq, ℕ, length,
}

module _ {J : Type 0} (net : Net) (json : JsonLib J) (env : Env) (fuel this : ℕ)
    (content code response : Bytes) (j : J) (m n : SessionsManager J)
    (made : create json content ≡ ok j)
    (sends : field net json json.get_string action_key j ≡ some send_action)
    (registers : register_sender net.format_number this j env.now env.draws m ≡ done code n)
    (dumped : json.dump (json.object ((code_words_key, Scalar.string code) ∷ []))
      ≡ some response) where
  -- The world in which the sender has its code.
  abbrev pub coded : World J → World J
  coded w =
      put_socket this (written (frames (chunks response)) (w.sockets this))
        (record w { manager = some n })

  handle_first_read-coded :
      (w : World J)
      → w.manager ≡ some m
      → length (frames (chunks response)) ≤ (w.sockets this).room
      → handle_first_read net json env fuel this content w ≡ done tt (coded w)
  unfolding handle_first_read first_read register_session register_as_sender caught bytes_eq
  handle_first_read-coded w there room =
      rw (made, sends, there, sends, registers, dumped, send_lem net response (w.sockets this) room)
        refl

  -- A first message that is on the wire is read, its sender registered, and the code sent.
  pub start-coded :
      (rest : Bytes) (w : World J)
      → (w.sockets this).incoming ≡ frame content ++ rest
      → length content ≤ max_first_message_size
      → w.manager ≡ some m
      → length (frames (chunks response)) ≤ (w.sockets this).room
      → start net json env fuel this w
        ≡ done tt (coded (put_socket this (left rest (w.sockets this)) w))
  unfolding start buffer_size
  start-coded rest w at short there room =
      let s = left rest (w.sockets this) in
      on-then this (async_read_message net max_first_message_size)
        (on_message net json env fuel this) w
        (async_read_message_within net max_first_message_size (w.sockets this) (omega arith) content
          rest short at)
      ∙ handle_first_read-coded (put_socket this s w) there
          (omega (arith, ap (λ x. x.room) (sockets-put_self this s w)))
