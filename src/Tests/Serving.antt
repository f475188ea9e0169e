-- ===== src/Tests/Serving.antt =====
-- The properties of DropFileServer and of the handlers that keep it running: a receiver connects,
-- asks for a code that nobody has registered, and is swept past.
use drop_file.Socket.Hostile.{async_read_message_within}
use drop_file.DropFileServer.Starts.{run-new_server}
use drop_file.Socket.Receive.{left}
use drop_file.ServerSideClientSession.Ends.{handle_first_read-ends, HasFresh}
use drop_file.ServerSideClientSession.Waiting.{AllWait}
use drop_file.ServerSideClientSession.Contained.{IsReady, IsServing}
use drop_file.ServerSideClientSession.{
  max_first_message_size, handle_first_read, put_socket, Env, World,
}
use drop_file.DropFileServer.Serves.{run-new_server_ends, Serves, IsSupplied}
use drop_file.DropFileServer.Runs.{Throughout, IsServer, IsHarmlessRun, ReadsHarmless, Keeps}
use drop_file.Socket.{async_read_message, buffer_size}
use drop_file.InitSessionMessage.Valid.{string_at, create_iff}
use drop_file.Tests.Wire.{wire_format, wire}
use drop_file.ServerSideClientSession.Keeps.{IsHarmless}
use drop_file.Json.{Scalar, assigned}
use drop_file.Outcome.{system_error, Exception, done}
use drop_file.JsonWords.{checked_word, collect_words, extract_words}
use drop_file.InitSessionMessage.{
  receive_action, send_action, action_key, code_words_key, receive_fields,
}
use drop_file.Result.{err, ok}
use drop_file.Socket.Framing.{frame}
use drop_file.SessionsManager.Construct.{make_manager-Made, Made, make_manager}
use drop_file.Network.{Stream}
use drop_file.SessionsManager.{generate_session_id, Draws, SessionsManager}
use drop_file.Tests.Values.{
  table, values, string_value, Value, find_value, dump_value, encode_fields,
}
use drop_file.DropFileServer.{run, closed, Server, Tcp}
use drop_file.DropFileServer.{
  handle, on_accept, open_session, create_session, start_session, new_server, accept_new_connection,
  Event, accepted, arrived, swept,
}
use drop_file.Tests.Values.{encode_scalar}
use drop_file.SessionsManager.{find, generate_session_id, pick_random, get_random}
use drop_file.Socket.Header.{le_bytes}
use drop_file.Socket.Framing.{frame}
use drop_file.SessionsManager.{get_random}
use drop_file.Common.{
  ◌≡◌, refl, sym, subst, ◌∙◌, ◌≢◌, inl, inr, true, false, Option, none, some, List, [], ◌∷◌, arith,
  ◌==◌, Bool-cases, Bytes, bytes_eq,
}

abbrev name : Bytes
name = 97 ∷ []

abbrev request : Bytes
request = 2 ∷ encode_fields (receive_fields values name)

abbrev connection : Stream
connection = record { incoming = frame request; outgoing = []; room = 200 }

never_refused : (e : Exception) → ok name ≡ err e → e ≡ system_error
never_refused e h = cc

abbrev tcp : Tcp
tcp = record {
  remote_endpoint = λ s. ok name;
  handshake = λ s. done tt s;
  remote_endpoint-error = λ s. never_refused;
  handshake-error = λ s. tt;
}

abbrev words : Option (Option (List (Option Bytes)))
words = some (some (some name ∷ []))

abbrev manager : SessionsManager Value
manager = record { nouns = name ∷ []; adjectives = name ∷ []; senders_sessions = [] }

make_manager-Made_example : Made manager
unfolding make_manager extract_words collect_words checked_word
make_manager-Made_example = make_manager-Made words words manager refl

codes_dump :
    (d : Draws) (id : Bytes)
    → generate_session_id wire.format_number manager d ≡ ok id
    → (t : Bytes) × (values.dump (values.object ((code_words_key, Scalar.string id) ∷ [])) ≡ some t)
unfolding dump_value
codes_dump d id e = (1 ∷ encode_fields ((code_words_key, Scalar.string id) ∷ []), refl)

other_action : some receive_action ≢ some send_action
other_action e = cc

parsed : values.parse request ≡ some (table (receive_fields values name))
unfolding dump_value
parsed = values.parse-dump (receive_fields values name) request refl

-- A receiver's message announces no file.
request-IsHarmless : IsHarmless wire values request
unfolding find_value string_value assigned bytes_eq
request-IsHarmless j e sends =
    let (there, valid) = (create_iff values request j).0 e in
    let eq : some (table (receive_fields values name)) ≡ some j = sym parsed ∙ there in
    let same : table (receive_fields values name) ≡ j = cc in
    absurd (
      other_action
        (subst (λ v. string_at values action_key v ≡ some send_action) (sym same) sends.action_is))

abbrev env : Env
env = record { now = 20; draws = record { adjective = 0; noun = 0; number = 7 } ∷ [] }

abbrev events : List Event
events = accepted (some connection) ∷ arrived env 101 0 ∷ swept 10 (λ i. i) ∷ []

abbrev connected : Server Value
connected = record {
  world =
      put_socket 0 connection
        (put_socket 0 connection (record { manager = some manager; sockets = λ _. closed }));
  reading = 0 ∷ [];
  accepting = true;
  sessions = 1;
  stopped = false;
}

accepted_first :
    handle tcp wire values (accepted (some connection)) (new_server manager) ≡ done tt connected
unfolding handle on_accept open_session create_session start_session new_server
    accept_new_connection
accepted_first = refl

read_first :
    async_read_message wire max_first_message_size connection
    ≡ done (some request) (left [] connection)
unfolding buffer_size encode_fields encode_scalar frame le_bytes
read_first =
    async_read_message_within wire max_first_message_size connection (omega arith) request []
      (omega arith) refl

reads_harmless : ReadsHarmless wire values 0 connected.world
reads_harmless content t e =
    let same : request ≡ content = (let k = sym read_first ∙ e in cc) in
    subst (IsHarmless wire values) same request-IsHarmless

after_first : IsHarmlessRun wire values tcp (arrived env 101 0 ∷ swept 10 (λ i. i) ∷ []) connected
after_first = (reads_harmless, λ t e. (tt, λ u k. tt))

harmless : IsHarmlessRun wire values tcp events (new_server manager)
harmless = (
  tt,
  λ t e.
      let same : connected ≡ t = (let k = sym accepted_first ∙ e in cc) in
      subst (IsHarmlessRun wire values tcp (arrived env 101 0 ∷ swept 10 (λ i. i) ∷ [])) same
        after_first,
)

run-new_server_example :
    Keeps (IsServer wire values) (run tcp wire values events (new_server manager))
unfolding make_manager extract_words collect_words checked_word
run-new_server_example =
    run-new_server wire values words words manager refl (omega arith) (omega arith) codes_dump tcp
      events harmless

ready : IsReady wire values manager
unfolding find
ready = record {
  words = record {
    some_adjective = omega arith;
    adjectives_fit = omega arith;
    some_noun = omega arith;
    nouns_fit = omega arith;
  };
  codes_dump = codes_dump;
  servable = λ code e h. absurd (none_found code h);
}
  where
    none_found : {A : Type 0} {a : A} → Bytes → none ≡ some a → ⊥
    none_found code h = cc

serving : IsServing wire values connected.world
serving m e = ground (arith, ready)

waits : AllWait wire 100 connected.world
unfolding frame encode_fields encode_scalar le_bytes
waits i = elim (Bool-cases (i == 0)) [ inl e ↦ rw e (omega arith) | inr e ↦ rw e (omega arith) ]

fresh :
    (m : SessionsManager Value)
    → connected.world.manager ≡ some m
    → HasFresh wire values m env.draws
unfolding generate_session_id pick_random get_random find wire_format
fresh m e =
    let same : manager ≡ m = cc in
    subst (λ k. HasFresh wire values k env.draws) same
      (inl (97 ∷ 45 ∷ 97 ∷ 45 ∷ 7 ∷ [], refl, refl))

supplied : Throughout wire values tcp (IsSupplied wire values 100) events (new_server manager)
unfolding frame encode_fields encode_scalar le_bytes
supplied = (
  omega arith,
  λ t e.
      let same : connected ≡ t = (let k = sym accepted_first ∙ e in cc) in
      subst
        (Throughout wire values tcp (IsSupplied wire values 100)
          (arrived env 101 0 ∷ swept 10 (λ i. i) ∷ []))
        same ((omega arith, fresh), λ t e. (tt, λ u k. tt)),
)

run-new_server_ends_example :
    Serves wire values 100 tcp (λ s. omega arith) (run tcp wire values events (new_server manager))
unfolding make_manager extract_words collect_words checked_word
run-new_server_ends_example =
    run-new_server_ends wire values 100 tcp (λ s. omega arith) words words manager events refl
      (omega arith) (omega arith) codes_dump harmless supplied

handle_first_read-ends_example :
    (u : World Value) × (handle_first_read wire values env 101 0 request connected.world
      ≡ done tt u)
    × AllWait wire 100 u
handle_first_read-ends_example =
    handle_first_read-ends wire values 100 env 101 0 request connected.world serving (omega arith)
      waits fresh
