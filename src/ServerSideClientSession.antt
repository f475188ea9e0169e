-- ===== src/ServerSideClientSession.antt =====
-- include/server/ServerSideClientSession.hpp and src/server/ServerSideClientSession.cpp, on the
-- server's sessions manager and the sockets of all of its sessions.
pub mod Sockets
pub mod Transfer
pub mod Raises
pub mod Contained
pub mod Sound
pub mod Keeps
pub mod Waiting
pub mod Ends
pub mod Relays
pub mod Registers
use drop_file.Common.{
  ℕ, zero, suc, ◌+◌, ◌-◌, ◌*◌, ◌/◌, ◌%◌, ◌^◌, ◌≤◌, ◌<◌, min, ◌≡◌, refl, sym, ap, subst, ◌∙◌, ◌≢◌,
  ◌↔◌, ◌⊎◌, inl, inr, ite, if_pos, if_neg, Bool, true, false, not, ◌&&◌, ◌||◌, Option, none, some,
  List, [], ◌∷◌, ◌++◌, map, append-nil, append_assoc, arith, dec_lt, dec_le, ltb, leb, ◌==◌,
  if◌then◌else◌, ltb→lt, lt→ltb, le→ltb_false, Bool-cases, Option-cases, Bytes, text, bytes_eq,
  bytes_eq_refl, bytes_eq→eq, bytes_eq_iff, ne→bytes_eq_false, length, take, drop, length-append,
  All, take-append-drop, length-take, length-drop, take_all, drop_all, take-append_le,
  take-append_ge, drop-append_ge, drop-drop, take_front, drop_front, take_split,
}
use drop_file.Outcome.{
  archive_manager_exception, client_arg_parser_exception, zstd_exception, drop_file_send_exception,
  drop_file_receive_exception, fs_entry_info_exception, utils_exception, Outcome, Action, done,
  thrown, unfinished, pure, throw, ◌>>=◌, ◌>>◌, socket_exception, init_session_message_exception,
  sessions_manager_exception, system_error, json_exception,
}
use drop_file.Result.{lift}
use drop_file.Network.{Net, Stream}
use drop_file.Socket.{send, receive, receive_ack, send_ack, safe_disconnect, async_read_message}
use drop_file.Json.{JsonLib, Scalar, read_field}
use drop_file.InitSessionMessage.{
  create, is_text, action_key, filename_key, file_size_key, code_words_key, send_action,
}
use drop_file.SessionsManager.{SessionsManager, Draws, register_sender, get_sender_with_metadata}
use drop_file.Utils.{bytes_to_human_readable}

-- A session is named by the identity of its object: `sockets` is the SocketBase part of each. The
-- sessions hold a std::weak_ptr to the manager: `none` when it has expired.
pub record World (J : Type 0) : Type 0 where
  pub manager : Option (SessionsManager J)
  pub sockets : ℕ → Stream

-- What the environment gives to one handler: the clock, and the random engine's output.
pub record Env : Type 0 where
  pub now : ℕ
  pub draws : List Draws

abbrev pub max_first_message_size : ℕ
max_first_message_size = 1000

abbrev pub internal_error : Bytes
internal_error = text "Internal error"

module _ {J : Type 0} where
  abbrev pub put_socket : ℕ → Stream → World J → World J
  put_socket i s w = record w { sockets = λ j. if j == i then s else w.sockets j }

  abbrev pub settle {ℓ} : {A : Type ℓ} → ℕ → World J → Outcome Stream A → Outcome (World J) A
  settle i w (done a s) = done a (put_socket i s w)
  settle i w (thrown e s) = thrown e (put_socket i s w)
  settle i w unfinished = unfinished

  -- A method of SocketBase on session `i`.
  abbrev pub on {ℓ} : {A : Type ℓ} → ℕ → Action Stream A → Action (World J) A
  on i m w = settle i w (m (w.sockets i))

  abbrev pub keep_manager {ℓ} :
      {A : Type ℓ} → World J → Outcome (SessionsManager J) A → Outcome (World J) A
  keep_manager w (done a m) = done a (record w { manager = some m })
  keep_manager w (thrown e m) = thrown e (record w { manager = some m })
  keep_manager w unfinished = unfinished

  -- A method of the manager that a session has locked.
  abbrev pub locked {ℓ} :
      {A : Type ℓ} → SessionsManager J → Action (SessionsManager J) A → Action (World J) A
  locked m a w = keep_manager w (a m)

  -- A json conversion throws where the value has another type or the key is not there.
  abbrev pub converted {ℓ} : {A : Type ℓ} → Option A → Action (World J) A
  converted none = throw json_exception
  converted (some a) = pure a

module _ {J : Type 0} (net : Net) (json : JsonLib J) where
  abbrev pub field {ℓ} : {A : Type ℓ} → (J → Option A) → Bytes → J → Option A
  field get key j = read_field get (json.find key j)

  -- The body of the transfer loop of receiveFile, behind the read: `again` is the next round, and
  -- `receiver` is `this`.
  abbrev pub pass_on :
      (ℕ → Action (World J) (Unit {0})) → ℕ → ℕ → ℕ → Bytes → Action (World J) (Unit {0})
  pass_on again receiver expected_bytes total_received_bytes received =
      let left_to_transfer = expected_bytes - total_received_bytes in
      let write_size = min left_to_transfer (length received) in
      on receiver (send net (take write_size received)) >> again (total_received_bytes + write_size)

  -- The transfer loop.
  unfoldable pub transfer : ℕ → ℕ → ℕ → ℕ → ℕ → Action (World J) (Unit {0})
  transfer zero receiver sender expected_bytes total_received_bytes =
      if ltb total_received_bytes expected_bytes then (λ _. unfinished) else pure tt
  transfer (suc fuel) receiver sender expected_bytes total_received_bytes =
      let again = transfer fuel receiver sender expected_bytes in
      if ltb total_received_bytes expected_bytes
      then (on sender (receive net) >>= pass_on again receiver expected_bytes total_received_bytes)
      else pure tt

  unfoldable pub receive_file : ℕ → ℕ → ℕ → J → Action (World J) (Unit {0})
  receive_file fuel receiver sender session_metadata = do
    message ← converted (json.dump session_metadata)
    on receiver (send net message)
    on receiver (receive_ack net)
    on sender (send_ack net)
    _ ← converted (field json.get_string filename_key session_metadata)
    expected_bytes ← converted (field json.get_size file_size_key session_metadata)
    _ ← lift (bytes_to_human_readable net.format_number expected_bytes)
    transfer fuel receiver sender expected_bytes 0
    on receiver (receive_ack net)
    on sender (send_ack net)

  -- The two uses of the manager, locked in `m`.
  unfoldable pub register_as_sender : Env → ℕ → J → SessionsManager J → Action (World J) (Unit {0})
  register_as_sender env this j m = do
    session_code ← locked m (register_sender net.format_number this j env.now env.draws)
    response ←
        converted (json.dump (json.object ((code_words_key, Scalar.string session_code) ∷ [])))
    on this (send net response)

  unfoldable pub serve_receiver : ℕ → ℕ → J → SessionsManager J → Action (World J) (Unit {0})
  serve_receiver fuel this j m = do
    code_words ← converted (field json.get_string code_words_key j)
    (sender, session_metadata) ← locked m (get_sender_with_metadata code_words)
    receive_file fuel this sender session_metadata

  abbrev pub with_manager :
      Env → ℕ → ℕ → J → Option (SessionsManager J) → Action (World J) (Unit {0})
  with_manager env fuel this j none = on this (safe_disconnect net (some internal_error))
  with_manager env fuel this j (some m) =
      if is_text (field json.get_string action_key j) send_action
      then register_as_sender env this j m
      else serve_receiver fuel this j m

  unfoldable pub register_session : Env → ℕ → ℕ → J → Action (World J) (Unit {0})
  register_session env fuel this j w = with_manager env fuel this j w.manager w

  -- The catch clauses of handleFirstRead, in order. The first one sleeps before it answers.
  unfoldable pub caught : ℕ → Outcome (World J) (Unit {0}) → Outcome (World J) (Unit {0})
  caught this (done _ w) = done tt w
  caught this (thrown (sessions_manager_exception t) w) = on this (safe_disconnect net (some t)) w
  caught this (thrown (socket_exception t) w) = on this (safe_disconnect net (some t)) w
  caught this (thrown (init_session_message_exception t) w) =
      on this (safe_disconnect net (some t)) w
  caught this (thrown (utils_exception t) w) = on this (safe_disconnect net (some t)) w
  caught this (thrown (fs_entry_info_exception t) w) = on this (safe_disconnect net (some t)) w
  caught this (thrown (drop_file_receive_exception t) w) = on this (safe_disconnect net (some t)) w
  caught this (thrown (drop_file_send_exception t) w) = on this (safe_disconnect net (some t)) w
  caught this (thrown (zstd_exception t) w) = on this (safe_disconnect net (some t)) w
  caught this (thrown (archive_manager_exception t) w) = on this (safe_disconnect net (some t)) w
  caught this (thrown (client_arg_parser_exception t) w) = on this (safe_disconnect net (some t)) w
  caught this (thrown system_error w) = done tt w
  caught this (thrown e w) = thrown e w
  caught this unfinished = unfinished

  -- The body of the try block.
  unfoldable pub first_read : Env → ℕ → ℕ → Bytes → Action (World J) (Unit {0})
  first_read env fuel this content = do
    j ← lift (create json content)
    _ ← converted (field json.get_string action_key j)
    register_session env fuel this j

  unfoldable pub handle_first_read : Env → ℕ → ℕ → Bytes → Action (World J) (Unit {0})
  handle_first_read env fuel this content w = caught this (first_read env fuel this content w)

  abbrev pub on_message : Env → ℕ → ℕ → Option Bytes → Action (World J) (Unit {0})
  on_message env fuel this none = pure tt
  on_message env fuel this (some content) = handle_first_read env fuel this content

  -- After the TLS handshake: the first message, then its handler.
  unfoldable pub start : Env → ℕ → ℕ → Action (World J) (Unit {0})
  start env fuel this = do
    message ← on this (async_read_message net max_first_message_size)
    on_message env fuel this message
