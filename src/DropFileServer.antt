-- ===== src/DropFileServer.antt =====
-- include/server/DropFileServer.hpp: the server's event loop on its sessions. boost::asio runs one
-- completion handler after the other; which one is next is left open.
pub mod Runs
pub mod Starts
pub mod Serves
use drop_file.Result.{lift, err, Result}
use drop_file.Json.{JsonLib}
use drop_file.ServerSideClientSession.{put_socket, on, start, Env, World}
use drop_file.Network.{Stream, Net}
use drop_file.SessionsManager.{terminate_timeout_clients, SessionsManager}
use drop_file.Outcome.{
  unfinished, undefined, ◌>>=◌, ◌>>◌, Raises, system_error, thrown, Exception, done, settled,
  Action, Outcome,
}
use drop_file.Common.{
  ℕ, zero, suc, ◌+◌, ◌-◌, ◌*◌, ◌/◌, ◌%◌, ◌^◌, ◌≤◌, ◌<◌, min, ◌≡◌, refl, sym, ap, subst, ◌∙◌, ◌≢◌,
  ◌↔◌, ◌⊎◌, inl, inr, ite, if_pos, if_neg, Bool, true, false, not, ◌&&◌, ◌||◌, Option, none, some,
  List, [], ◌∷◌, ◌++◌, map, append-nil, append_assoc, arith, dec_lt, dec_le, ltb, leb, ◌==◌,
  if◌then◌else◌, ltb→lt, lt→ltb, le→ltb_false, Bool-cases, Option-cases, Bytes, text, bytes_eq,
  bytes_eq_refl, bytes_eq→eq, bytes_eq_iff, ne→bytes_eq_false, length, take, drop, length-append,
  All, take-append-drop, length-take, length-drop, take_all, drop_all, take-append_le,
  take-append_ge, drop-append_ge, drop-drop, take_front, drop_front, take_split,
}

-- What the server calls of boost::asio for a new connection. Both throw a system_error only.
pub record Tcp : Type 0 where
  pub remote_endpoint : Stream → Result Bytes
  pub handshake : Action Stream (Unit {0})
  pub remote_endpoint-error :
      (s : Stream) (e : Exception) → remote_endpoint s ≡ err e → e ≡ system_error
  pub handshake-error : (s : Stream) → Raises (λ e. e ≡ system_error) (handshake s)

-- `reading`: the sessions whose first message is awaited. `accepting`: async_accept is pending.
-- `sessions`: how many session objects were made, the identity of the next one. `stopped`: the
-- io_context was stopped.
pub record Server (J : Type 0) : Type 0 where
  pub world : World J
  pub reading : List ℕ
  pub accepting : Bool
  pub sessions : ℕ
  pub stopped : Bool

-- What the io_context completes, and the sweeps of the manager's thread.
pub data Event : Type 0 where
  accepted : Option Stream → Event
  arrived : Env → ℕ → ℕ → Event
  swept : ℕ → (ℕ → ℕ) → Event

abbrev pub closed : Stream
closed = record { incoming = []; outgoing = []; room = 0 }

abbrev pub awaits : ℕ → List ℕ → Bool
awaits i [] = false
awaits i (j ∷ js) = (j == i) || awaits i js

abbrev pub served : ℕ → List ℕ → List ℕ
served i [] = []
served i (j ∷ js) = let rest = served i js in if j == i then js else j ∷ rest

module _ {J : Type 0} where
  unfoldable pub accept_new_connection : Server J → Server J
  accept_new_connection s = record s { accepting = true }

  unfoldable pub stop : Server J → Server J
  stop s = record s { stopped = true }

  -- The constructor, behind the set-up of TLS, with the manager that it is given.
  unfoldable pub new_server : SessionsManager J → Server J
  unfolding accept_new_connection
  new_server m = accept_new_connection (record {
    world = record { manager = some m; sockets = λ _. closed };
    reading = [];
    accepting = false;
    sessions = 0;
    stopped = false;
  })

  -- catch (const std::exception&), which logs it. Undefined behaviour is no exception.
  abbrev pub log_exception : Outcome (Server J) (Unit {0}) → Outcome (Server J) (Unit {0})
  log_exception (done _ s) = done tt s
  log_exception (thrown undefined s) = thrown undefined s
  log_exception (thrown e s) = done tt s
  log_exception unfinished = unfinished

  -- A method of SocketBase or of boost::asio on the connection of a session.
  abbrev pub on_session {ℓ} : {A : Type ℓ} → ℕ → Action Stream A → Action (Server J) A
  on_session this m s = settled (λ w. record s { world = w }) (on this m s.world)

  -- The session object takes the connection.
  abbrev pub make_session : Stream → Action (Server J) ℕ
  make_session socket s =
      done s.sessions
        (record s { world = put_socket s.sessions socket s.world; sessions = suc s.sessions })

  abbrev pub read_first_message : ℕ → Action (Server J) (Unit {0})
  read_first_message this s = done tt (record s { reading = this ∷ s.reading })

  module _ (tcp : Tcp) where
    -- The constructor of ServerSideClientSession.
    unfoldable pub create_session : Stream → Action (Server J) ℕ
    create_session socket = do _ ← lift (tcp.remote_endpoint socket); make_session socket

    -- ServerSideClientSession::start up to the read that it starts.
    unfoldable pub start_session : ℕ → Action (Server J) (Unit {0})
    start_session this = do on_session this tcp.handshake; read_first_message this

    -- The body of the try block.
    unfoldable pub open_session : Stream → Action (Server J) (Unit {0})
    open_session socket = do
      _ ← lift (tcp.remote_endpoint socket)
      this ← create_session socket
      start_session this

    abbrev pub opened : Option Stream → Action (Server J) (Unit {0})
    opened none s = done tt s
    opened (some socket) s = log_exception (open_session socket s)

    -- The handler of async_accept: `none` is an error.
    unfoldable pub on_accept : Option Stream → Action (Server J) (Unit {0})
    on_accept connection = do opened connection; λ s. done tt (accept_new_connection s)

    abbrev pub sweep : ℕ → (ℕ → ℕ) → Option (SessionsManager J) → Option (SessionsManager J)
    sweep client_timeout clock none = none
    sweep client_timeout clock (some m) = some (terminate_timeout_clients client_timeout clock m)

    module _ (net : Net) (json : JsonLib J) where
      -- The read that a session has started, and its handler.
      unfoldable pub first_message : Env → ℕ → ℕ → Action (Server J) (Unit {0})
      first_message env fuel this s =
          settled (λ w. record s { world = w; reading = served this s.reading })
            (start net json env fuel this s.world)

      -- One completion. What is not pending does not complete.
      unfoldable pub handle : Event → Action (Server J) (Unit {0})
      handle (accepted connection) s =
          if s.accepting then on_accept connection (record s { accepting = false }) else done tt s
      handle (arrived env fuel this) s =
          if awaits this s.reading then first_message env fuel this s else done tt s
      handle (swept client_timeout clock) s =
          let w = s.world in
          done tt (record s { world = record w { manager = sweep client_timeout clock w.manager } })

      -- The handlers that io_context.run() calls for some completions, one after the other. While the
      -- server accepts, io_context.run() waits for the next one after these.
      unfoldable pub run : List Event → Action (Server J) (Unit {0})
      run [] s = done tt s
      run (e ∷ es) s = if s.stopped then done tt s else (handle e >> run es) s
