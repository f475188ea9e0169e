-- ===== src/DropFileServer/Runs.antt =====
-- DropFileServer::run on any sequence of completions: what stays true of the server, and that no
-- exception ends it.
use drop_file.Socket.FirstMessage.{async_read_message-Raises}
use drop_file.ServerSideClientSession.Contained.{handle_first_read-IsContained}
use drop_file.Socket.{buffer_size, async_read_message}
use drop_file.ServerSideClientSession.{
  start, handle_first_read, on_message, max_first_message_size, settle,
}
use drop_file.SessionsManager.Register.{Result-cases}
use drop_file.ServerSideClientSession.Keeps.{
  handle_first_read-Leaves, managed-IsServing, IsHarmless, on-Leaves, IsManaged,
}
use drop_file.ServerSideClientSession.Sound.{terminate_timeout_clients-IsSound}
use drop_file.Network.{Net}
use drop_file.DropFileServer.{
  terminate_timeout_clients, swept, awaits, accepted, start, Env, arrived, first_message, run,
  Event, handle, opened, read_first_message, accept_new_connection, put_socket, on_accept,
  start_session, create_session, open_session, on, Raises, World, log_exception, thrown, on_session,
  Stream, system_error, done, Tcp, Server, settled, JsonLib, served,
}
use drop_file.Outcome.{◌>>◌, bind, Raises-Leaves-Goes, unfinished, Goes, Exception, Outcome}
use drop_file.Common.{
  ℕ, suc, ◌≤◌, ◌<◌, ◌≡◌, refl, inl, inr, Bool, true, false, Option, none, some, List, [], ◌∷◌,
  arith, ◌==◌, if◌then◌else◌, Bool-cases, Bytes, All,
}

-- Steps of the server that change its world only.
settled-Goes {ℓ κ μ} :
    {S : Type ℓ} {T : Type κ} {A : Type μ} (E : Exception → Type 0) (P : S → Type 0)
    (Q : T → Type 0) (put : S → T) (o : Outcome S A)
    → Goes E P o
    → ((s : S) → P s → Q (put s))
    → Goes E Q (settled put o)
settled-Goes E P Q put (done a s) h k = k s h
settled-Goes E P Q put (thrown e s) h k = (h.0, k s h.1)
settled-Goes E P Q put unfinished h k = tt

All-suc : (n : ℕ) (is : List ℕ) → All (λ i. i < n) is → All (λ i. i < suc n) is
All-suc n [] h = tt
All-suc n (i ∷ is) h = (omega (arith, h.0), All-suc n is h.1)

All-served : (n k : ℕ) (is : List ℕ) → All (λ i. i < n) is → All (λ i. i < n) (served k is)
All-served n k [] h = tt
All-served n k (i ∷ is) h = elim (Bool-cases (i == k)) [
  | inl e ↦ rw e h.1
  | inr e ↦ rw e (h.0, All-served n k is h.1)
]

-- Nothing is thrown, and the state that is left meets `P`.
abbrev pub Keeps {ℓ κ} : {S : Type ℓ} {A : Type κ} → (S → Type 0) → Outcome S A → Type 0
Keeps P o = Goes (λ _. ⊥) P o

module _ {J : Type 0} (net : Net) (json : JsonLib J) where
  -- The manager is sound, and a session that waits for its first message has an object.
  pub record IsRunning (s : Server J) : Type 0 where
    pub managed : IsManaged net json s.world
    pub known : All (λ i. i < s.sessions) s.reading

  -- It also accepts.
  abbrev pub IsServer : Server J → Type 0
  IsServer s = IsRunning s × (s.accepting ≡ true)

  -- The first message that a session is about to read announces no empty file.
  abbrev pub ReadsHarmless : ℕ → World J → Type 0
  ReadsHarmless this w =
      (content : Bytes) (t : Stream)
      → async_read_message net max_first_message_size (w.sockets this) ≡ done (some content) t
      → IsHarmless net json content

  abbrev pub IsHarmlessEvent : Event → Server J → Type 0
  IsHarmlessEvent (arrived env fuel this) s = ReadsHarmless this s.world
  IsHarmlessEvent _ s = Unit

  log_exception-Keeps :
      (o : Outcome (Server J) (Unit {0}))
      → Goes (λ e. e ≡ system_error) IsRunning o
      → Keeps IsRunning (log_exception o)
  log_exception-Keeps (done a s) h = h
  log_exception-Keeps (thrown e s) h = rw h.0 h.1
  log_exception-Keeps unfinished h = tt

  module _ (tcp : Tcp) where
    handshake-Goes :
        (this : ℕ) (s : Server J)
        → IsRunning s
        → this < s.sessions
        → Goes
            (λ e. e ≡ system_error)
            (λ t. IsRunning t × (this < t.sessions))
            (on_session this tcp.handshake s)
    handshake-Goes this s h made =
        settled-Goes (λ e. e ≡ system_error) (IsManaged net json)
          (λ t. IsRunning t × (this < t.sessions)) _ _
          (Raises-Leaves-Goes (λ e. e ≡ system_error) (IsManaged net json)
            (on this tcp.handshake s.world)
            (settle-Raises this s.world _ (tcp.handshake-error (s.world.sockets this)))
            (on-Leaves net json this tcp.handshake s.world h.managed))
          (λ w m. (record { managed = m; known = h.known }, made))
      where
        settle-Raises :
            (i : ℕ) (w : World J) (o : Outcome Stream (Unit {0}))
            → Raises (λ e. e ≡ system_error) o
            → Raises (λ e. e ≡ system_error) (settle i w o)
        settle-Raises i w (done a s) h = h
        settle-Raises i w (thrown e s) h = h
        settle-Raises i w unfinished h = h

    start_session-Goes :
        (this : ℕ) (s : Server J)
        → IsRunning s
        → this < s.sessions
        → Goes (λ e. e ≡ system_error) IsRunning (start_session tcp this s)
    unfolding start_session
    start_session-Goes this s h made =
        ready (on_session this tcp.handshake s) (handshake-Goes this s h made)
      where
        ready :
            (o : Outcome (Server J) (Unit {0}))
            → Goes (λ e. e ≡ system_error) (λ t. IsRunning t × (this < t.sessions)) o
            → Goes (λ e. e ≡ system_error) IsRunning (bind o (λ _. read_first_message this))
        ready (done a t) h = record { managed = (h.0).managed; known = (h.1, (h.0).known) }
        ready (thrown e t) h = (h.0, (h.1).0)
        ready unfinished h = tt

    open_session-Goes :
        (c : Stream) (s : Server J)
        → IsRunning s
        → Goes (λ e. e ≡ system_error) IsRunning (open_session tcp c s)
    unfolding open_session create_session
    open_session-Goes c s h = elim (Result-cases (tcp.remote_endpoint c)) [
      | inr (x, e) ↦ rw e (tcp.remote_endpoint-error c x e, h)
      | inl (t, e) ↦
          let u : Server J = record s {
            world = put_socket s.sessions c s.world;
            sessions = suc s.sessions;
          } in
          rw e (
            start_session-Goes s.sessions u
              (record { managed = h.managed; known = All-suc s.sessions s.reading h.known })
              (omega arith))
    ]

    accepts_again :
        (o : Outcome (Server J) (Unit {0}))
        → Keeps IsRunning o
        → Keeps {0, 0} {A = Unit {0}} IsServer
            (bind {B = Unit {0}} o (λ _ t. done tt (accept_new_connection t)))
    unfolding accept_new_connection
    accepts_again (done a t) h = (record { managed = h.managed; known = h.known }, refl)
    accepts_again (thrown e t) h = absurd h.0
    accepts_again unfinished h = tt

    on_accept-Keeps :
        (o : Option Stream) (s : Server J) → IsRunning s → Keeps IsServer (on_accept tcp o s)
    unfolding on_accept
    on_accept-Keeps none s h = accepts_again (opened tcp none s) h
    on_accept-Keeps (some c) s h =
        accepts_again (opened tcp (some c) s)
          (log_exception-Keeps (open_session tcp c s) (open_session-Goes c s h))

    start-Goes :
        (env : Env) (fuel this : ℕ) (w : World J)
        → IsManaged net json w
        → ReadsHarmless this w
        → Keeps (IsManaged net json) (start net json env fuel this w)
    unfolding buffer_size start async_read_message
    start-Goes env fuel this w h harmless =
        go (async_read_message net max_first_message_size (w.sockets this)) refl
          (async_read_message-Raises net max_first_message_size (w.sockets this) fits)
      where
        fits : max_first_message_size ≤ buffer_size
        fits = omega arith

        go :
            (o : Outcome Stream (Option Bytes))
            → async_read_message net max_first_message_size (w.sockets this) ≡ o
            → Raises (λ _. ⊥) o
            → Keeps
                (IsManaged net json)
                (bind (settle this w o) (on_message net json env fuel this))
        go (done none t) e r = h
        go (done (some content) t) e r =
            let u : World J = put_socket this t w in
            Raises-Leaves-Goes (λ _. ⊥) (IsManaged net json)
              (handle_first_read net json env fuel this content u)
              (handle_first_read-IsContained net json env fuel this content u
                (managed-IsServing net json u h))
              (handle_first_read-Leaves net json env fuel this content u h (harmless content t e))
        go (thrown x t) e r = absurd r
        go unfinished e r = tt

    pub handle-Keeps :
        (e : Event) (s : Server J)
        → IsServer s
        → IsHarmlessEvent e s
        → Keeps IsServer (handle tcp net json e s)
    unfolding handle first_message
    handle-Keeps (accepted o) s (h, accepts) harmless = rw accepts (
        on_accept-Keeps o (record s { accepting = false })
          (record { managed = h.managed; known = h.known }))
    handle-Keeps (arrived env fuel this) s (h, accepts) harmless =
        elim (Bool-cases (awaits this s.reading)) [
          | inr idle ↦ rw idle (h, accepts)
          | inl waits ↦ rw waits (
              settled-Goes (λ _. ⊥) (IsManaged net json) IsServer
                (λ w. record s { world = w; reading = served this s.reading })
                (start net json env fuel this s.world)
                (start-Goes env fuel this s.world h.managed harmless)
                (λ w m. (
                  record { managed = m; known = All-served s.sessions this s.reading h.known },
                  accepts,
                )))
        ]
    handle-Keeps (swept timeout clock) s (h, accepts) harmless =
        let (m, there, sound) = h.managed in
        (
          record {
            managed = (
              terminate_timeout_clients timeout clock m,
              rw there refl,
              terminate_timeout_clients-IsSound net json timeout clock m sound,
            );
            known = h.known;
          },
          accepts,
        )

    -- Each event of a run meets `P` at the server that it finds.
    abbrev pub Throughout : (Event → Server J → Type 0) → List Event → Server J → Type 0
    Throughout P [] s = Unit
    Throughout P (e ∷ es) s =
        P e s × ((t : Server J) → handle tcp net json e s ≡ done tt t → Throughout P es t)

    -- Each first message that is read announces no empty file.
    abbrev pub IsHarmlessRun : List Event → Server J → Type 0
    IsHarmlessRun = Throughout IsHarmlessEvent

    unless :
        (b : Bool) (s : Server J) (o : Outcome (Server J) (Unit {0}))
        → IsServer s
        → Keeps IsServer o
        → Keeps IsServer (if b then done tt s else o)
    unless true s o h k = h
    unless false s o h k = k

    next-Keeps :
        (e : Event) (es : List Event) (s : Server J)
        → Keeps IsServer (handle tcp net json e s)
        → ((t : Server J)
            → IsServer t
            → handle tcp net json e s ≡ done tt t
            → Keeps IsServer (run tcp net json es t))
        → Keeps IsServer ((handle tcp net json e >> run tcp net json es) s)
    next-Keeps e es s h k = go (handle tcp net json e s) refl h
      where
        go :
            (o : Outcome (Server J) (Unit {0}))
            → handle tcp net json e s ≡ o
            → Keeps IsServer o
            → Keeps IsServer (bind o (λ _. run tcp net json es))
        go (done a t) eq h = k t h eq
        go (thrown x t) eq h = absurd h.0
        go unfinished eq h = tt

    -- From a server that accepts, with a sound manager: whatever completes and in which order, if no
    -- first message that is read announces an empty file, no exception leaves io_context.run(), and
    -- the server still accepts, with a sound manager.
    pub run-Keeps :
        (es : List Event) (s : Server J)
        → IsServer s
        → IsHarmlessRun es s
        → Keeps IsServer (run tcp net json es s)
    unfolding run
    run-Keeps [] s h harmless = h
    run-Keeps (e ∷ es) s h (now, later) =
        unless s.stopped s ((handle tcp net json e >> run tcp net json es) s) h
          (next-Keeps e es s (handle-Keeps e s h now) (λ t k eq. run-Keeps es t k (later t eq)))
