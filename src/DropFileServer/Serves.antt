-- ===== src/DropFileServer/Serves.antt =====
-- The handlers that DropFileServer::run calls return, and it serves on: no loop of a handler goes on for
-- ever.
use drop_file.Socket.FirstMessage.{async_read_message-Shrinks, Shrinks}
use drop_file.ServerSideClientSession.Ends.{handle_first_read-ends, HasFresh}
use drop_file.ServerSideClientSession.Waiting.{
  put-AllWait, Total-bind, settle-Total, Waits, AllWait, Total,
}
use drop_file.ServerSideClientSession.Keeps.{managed-IsServing, IsManaged}
use drop_file.ServerSideClientSession.{
  on_message, settle, max_first_message_size, World, Env, start, put_socket,
}
use drop_file.Socket.{buffer_size, async_read_message}
use drop_file.SessionsManager.Register.{Result-cases}
use drop_file.DropFileServer.Starts.{new_server-IsServer, CodesDump}
use drop_file.DropFileServer.Runs.{handle-Keeps, IsServer, Throughout, IsHarmlessRun, Keeps}
use drop_file.Json.{JsonLib}
use drop_file.Network.{Stream, Net}
use drop_file.Result.{ok}
use drop_file.SessionsManager.{SessionsManager}
use drop_file.SessionsManager.Construct.{make_manager}
use drop_file.DropFileServer.{
  Server, Tcp, Event, accepted, arrived, swept, handle, run, on_accept, opened, open_session,
  create_session, start_session, on_session, log_exception, first_message, awaits, served,
  read_first_message, accept_new_connection, new_server,
}
use drop_file.Outcome.{◌>>◌, bind, settled, undefined, done, thrown, unfinished, Outcome}
use drop_file.Common.{
  ℕ, suc, ◌^◌, ◌≤◌, ◌<◌, ◌≡◌, refl, inl, inr, Bool, true, false, Option, none, some, List, [], ◌∷◌,
  arith, if◌then◌else◌, Bool-cases, Bytes, length,
}

module _ {J : Type 0} (net : Net) (json : JsonLib J) (n : ℕ) where
  -- At most `n` bytes wait on each connection of the server.
  abbrev pub Bounded : Server J → Type 0
  Bounded s = AllWait net n s.world

  abbrev pub Few : Option Stream → Type 0
  Few none = Unit
  Few (some c) = length c.incoming ≤ n

  -- What an event brings is enough: at most `n` bytes on a connection; a round for each of them and
  -- one, and a free code among those that are drawn.
  abbrev pub IsSupplied : Event → Server J → Type 0
  IsSupplied (accepted o) s = Few o
  IsSupplied (arrived env fuel this) s =
      (n < fuel)
      × ((m : SessionsManager J) → s.world.manager ≡ some m → HasFresh net json m env.draws)
  IsSupplied (swept timeout clock) s = Unit

  settled-Bounded :
      (put : World J → Server J) (o : Outcome (World J) (Unit {0}))
      → Total (AllWait net n) o
      → ((w : World J) → AllWait net n w → Bounded (put w))
      → Total Bounded (settled put o)
  settled-Bounded put (done a w) h k = k w h
  settled-Bounded put (thrown e w) h k = k w h
  settled-Bounded put unfinished h k = h

  log_exception-Bounded :
      (o : Outcome (Server J) (Unit {0})) → Total Bounded o → Total Bounded (log_exception o)
  log_exception-Bounded (done a s) h = h
  log_exception-Bounded (thrown undefined s) h = h
  log_exception-Bounded (thrown e s) h = h
  log_exception-Bounded unfinished h = h

  Shrinks-Waits {ℓ} :
      {A : Type ℓ} (s : Stream) (o : Outcome Stream A)
      → Shrinks s o
      → length s.incoming ≤ n
      → Total (Waits n) o
  Shrinks-Waits s (done a t) h k = omega arith
  Shrinks-Waits s (thrown e t) h k = omega arith
  Shrinks-Waits s unfinished h k = h

  module _ (tcp : Tcp) (handshake_ends : (s : Stream) → Shrinks s (tcp.handshake s)) where
    open_session-Bounded :
        (c : Stream) (s : Server J)
        → length c.incoming ≤ n
        → Bounded s
        → Total Bounded (open_session tcp c s)
    unfolding open_session create_session start_session
    open_session-Bounded c s few h = elim (Result-cases (tcp.remote_endpoint c)) [
      | inr (x, e) ↦ rw e h
      | inl (t, e) ↦
          let w = put_socket s.sessions c s.world in
          let u : Server J = record s { world = w; sessions = suc s.sessions } in
          let all = put-AllWait net n s.sessions c s.world few h in
          let greeted =
            Shrinks-Waits (w.sockets s.sessions) (tcp.handshake (w.sockets s.sessions))
              (handshake_ends (w.sockets s.sessions)) (all s.sessions) in
          rw e (
            Total-bind Bounded Bounded (on_session s.sessions tcp.handshake u)
              (λ _. read_first_message s.sessions)
              (settled-Bounded _ _
                (settle-Total net n s.sessions w (tcp.handshake (w.sockets s.sessions)) all greeted)
                (λ v k. k))
              (λ v k. k) (λ _ v k. k))
    ]

    on_accept-Bounded :
        (o : Option Stream) (s : Server J) → Few o → Bounded s → Total Bounded (on_accept tcp o s)
    unfolding on_accept accept_new_connection
    on_accept-Bounded none s few h = h
    on_accept-Bounded (some c) s few h =
        Total-bind Bounded Bounded (opened tcp (some c) s) _
          (log_exception-Bounded (open_session tcp c s) (open_session-Bounded c s few h)) (λ v k. k)
          (λ _ v k. k)

    start-Bounded :
        (env : Env) (fuel this : ℕ) (w : World J)
        → IsManaged net json w
        → n < fuel
        → ((m : SessionsManager J) → w.manager ≡ some m → HasFresh net json m env.draws)
        → AllWait net n w
        → Total (AllWait net n) (start net json env fuel this w)
    unfolding start buffer_size
    start-Bounded env fuel this w managed lt fresh all =
        let read = async_read_message net max_first_message_size (w.sockets this) in
        let ends =
          async_read_message-Shrinks net max_first_message_size (w.sockets this) (omega arith) in
        go read (Shrinks-Waits (w.sockets this) read ends (all this))
      where
        go :
            (o : Outcome Stream (Option Bytes))
            → Total (Waits n) o
            → Total (AllWait net n) (bind (settle this w o) (on_message net json env fuel this))
        go (done none t) k = put-AllWait net n this t w k all
        go (done (some content) t) k =
            let u : World J = put_socket this t w in
            let (v, ends, some_wait) =
              handle_first_read-ends net json n env fuel this content u
                (managed-IsServing net json u managed) lt (put-AllWait net n this t w k all)
                fresh in
            rw ends some_wait
        go (thrown e t) k = put-AllWait net n this t w k all
        go unfinished k = k

    handle-Bounded :
        (e : Event) (s : Server J)
        → IsServer net json s
        → IsSupplied e s
        → Bounded s
        → Total Bounded (handle tcp net json e s)
    unfolding handle first_message
    handle-Bounded (accepted o) s (h, accepts) few all =
        rw accepts (on_accept-Bounded o (record s { accepting = false }) few all)
    handle-Bounded (arrived env fuel this) s (h, accepts) (lt, fresh) all =
        elim (Bool-cases (awaits this s.reading)) [
          | inr idle ↦ rw idle all
          | inl waits ↦ rw waits (
              settled-Bounded (λ w. record s { world = w; reading = served this s.reading })
                (start net json env fuel this s.world)
                (start-Bounded env fuel this s.world h.managed lt fresh all) (λ w k. k))
        ]
    handle-Bounded (swept timeout clock) s h supplied all = all

    -- It ends normally, and the server accepts on.
    abbrev pub Serves : Outcome (Server J) (Unit {0}) → Type 0
    Serves o = (t : Server J) × (o ≡ done tt t) × IsServer net json t × Bounded t

    both :
        (o : Outcome (Server J) (Unit {0}))
        → Keeps (IsServer net json) o
        → Total Bounded o
        → Serves o
    both (done tt s) h k = (s, refl, h, k)
    both (thrown e s) h k = absurd h.0
    both unfinished h k = absurd k

    unless :
        (b : Bool) (s : Server J) (o : Outcome (Server J) (Unit {0}))
        → Serves (done tt s)
        → Serves o
        → Serves (if b then done tt s else o)
    unless true s o h k = h
    unless false s o h k = k

    run-Serves :
        (es : List Event) (s : Server J)
        → IsServer net json s
        → Bounded s
        → IsHarmlessRun net json tcp es s
        → Throughout net json tcp IsSupplied es s
        → Serves (run tcp net json es s)
    unfolding run
    run-Serves [] s h all harmless supplied = (s, refl, h, all)
    run-Serves (e ∷ es) s h all (now, later) (enough, more) =
        unless s.stopped s ((handle tcp net json e >> run tcp net json es) s) (s, refl, h, all)
          (let (t, ends, serving, few) =
              both (handle tcp net json e s) (handle-Keeps net json tcp e s h now)
                (handle-Bounded e s h enough all) in
            rw ends (run-Serves es t serving few (later t ends) (more t ends)))

    -- A server that is made with a manager that the constructor of SessionsManager returned, whose
    -- codes are UTF-8 texts: whatever finite sequence of completions there is, the handler of each
    -- returns, and the server still accepts. Each peer closes its side behind what it wrote, and a
    -- connection that does not take what is written breaks: a peer that stays silent, or stops
    -- reading, blocks the server. It is given that handshakes end, that no connection brings more than
    -- some number of bytes, that there is a round for each of these and one, that not all codes that
    -- are drawn for a session are in use, and that no first message that is read announces an empty
    -- file.
    pub run-new_server_ends :
        (json_nouns json_adjectives : Option (Option (List (Option Bytes)))) (m : SessionsManager J)
        (es : List Event)
        → make_manager json_nouns json_adjectives ≡ ok m
        → length m.nouns < 2 ^ 64
        → length m.adjectives < 2 ^ 64
        → CodesDump net json m
        → IsHarmlessRun net json tcp es (new_server m)
        → Throughout net json tcp IsSupplied es (new_server m)
        → Serves (run tcp net json es (new_server m))
    unfolding new_server accept_new_connection
    run-new_server_ends json_nouns json_adjectives m es e nouns_fit adjectives_fit codes_dump
          harmless supplied =
        run-Serves es (new_server m)
          (new_server-IsServer net json json_nouns json_adjectives m e nouns_fit adjectives_fit
            codes_dump)
          (λ i. omega arith) harmless supplied
