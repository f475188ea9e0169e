-- ===== src/ServerSideClientSession/Contained.antt =====
-- The exceptions of ServerSideClientSession::handleFirstRead: one that it let out of the completion
-- handler would end the server's event loop.
use drop_file.Common.{
  ℕ, ◌^◌, ◌<◌, ◌≡◌, refl, subst, ◌⊎◌, inl, inr, true, Option, none, some, List, [], ◌∷◌, arith,
  Bool-cases, Option-cases, Bytes, bytes_eq,
}
use drop_file.Outcome.{
  Exception, ◌>>◌, Outcome, done, thrown, unfinished, Raises, Raises-bind, system_error,
  socket_exception, sessions_manager_exception, init_session_message_exception,
}
use drop_file.Result.{ok}
use drop_file.Network.{Net}
use drop_file.Json.{JsonLib, Scalar}
use drop_file.InitSessionMessage.{
  receive_action, create, send_action, action_key, is_some, file_size_key, code_words_key,
}
use drop_file.InitSessionMessage.Valid.{
  create_iff, create_error, is_init_session_message_exception, IsSendMessage, IsReceiveMessage,
}
use drop_file.SessionsManager.{
  contains, SessionsManager, TimedClientSession, Draws, find, get_sender_with_metadata,
  register_sender, generate_session_id,
}
use drop_file.SessionsManager.Register.{
  Result-cases, register_sender-code, HasWords, generate_session_id-ok,
}
use drop_file.Socket.Disconnect.{safe_disconnect_lem}
use drop_file.Utils.{bytes_to_human_readable-ok}
use drop_file.ServerSideClientSession.Raises.{
  IsCaught, on_send-Raises, on_send_ack-Raises, on_receive_ack-Raises, transfer-Raises,
}
use drop_file.ServerSideClientSession.{
  with_manager, internal_error, register_session, first_read, safe_disconnect, handle_first_read,
  send_ack, keep_manager, receive_ack, World, Env, on, field, receive_file, register_as_sender,
  serve_receiver, caught,
}

is_some→some {ℓ} : {A : Type ℓ} (o : Option A) → is_some o ≡ true → (a : A) × (o ≡ some a)
is_some→some none h = cc
is_some→some (some a) h = (a, refl)

-- Nothing is thrown.
abbrev pub IsContained {ℓ κ} : {S : Type ℓ} {A : Type κ} → Outcome S A → Type 0
IsContained o = Raises (λ _. ⊥) o

module _ {J : Type 0} (net : Net) (json : JsonLib J) where
  -- What the server can serve: a sender's message, of a file that is not empty.
  pub record IsServable (j : J) : Type 0 where
    pub valid : IsSendMessage json j
    pub dumps : (t : Bytes) × (json.dump j ≡ some t)
    pub sized :
        (n : ℕ) × (field net json json.get_size file_size_key j ≡ some n) × (0 < n) × (n < 2 ^ 64)

  -- A manager with words to pick from, whose codes are UTF-8 texts and whose senders can be served.
  pub record IsReady (m : SessionsManager J) : Type 0 where
    pub words : HasWords m
    pub codes_dump :
        (d : Draws) (id : Bytes)
        → generate_session_id net.format_number m d ≡ ok id
        → (t : Bytes) × (json.dump (json.object ((code_words_key, Scalar.string id) ∷ [])) ≡ some t)
    pub servable :
        (code : Bytes) (e : TimedClientSession J)
        → find code m.senders_sessions ≡ some e
        → IsServable e.session_data

  receive_file-Raises :
      (fuel receiver sender : ℕ) (j : J) (w : World J)
      → IsServable j
      → Raises IsCaught (receive_file net json fuel receiver sender j w)
  unfolding receive_file
  receive_file-Raises fuel receiver sender j w s =
      let (t, td) = s.dumps in
      let (f, fd) = is_some→some _ s.valid.has_filename in
      let (n, nd, pos, fits) = s.sized in
      let (text_of, shown) = bytes_to_human_readable-ok net.format_number n pos in
      let after_metadata = λ (w3 : World J).
        Raises-bind IsCaught _ (λ _. on receiver (receive_ack net) >> on sender (send_ack net))
          (transfer-Raises net json fuel receiver sender n 0 w3)
          (λ _ w4 _.
            Raises-bind IsCaught _ (λ _. on sender (send_ack net))
              (on_receive_ack-Raises net receiver w4)
              (λ _ w5 _. on_send_ack-Raises net sender w5)) in
      rw td (
        Raises-bind IsCaught _ _ (on_send-Raises net receiver t w) (λ _ w1 _.
          Raises-bind IsCaught _ _ (on_receive_ack-Raises net receiver w1) (λ _ w2 _.
            Raises-bind IsCaught _ _ (on_send_ack-Raises net sender w2)
              (λ _ w3 _. rw (fd, nd, shown) (after_metadata w3)))))

  caught-IsContained :
      (this : ℕ) (o : Outcome (World J) (Unit {0}))
      → Raises IsCaught o
      → IsContained (caught net json this o)
  unfolding caught
  caught-IsContained this (done a w) h = tt
  caught-IsContained this (thrown (socket_exception t) w) h =
      let (u, ends, shut, kept) = safe_disconnect_lem net (some t) (w.sockets this) in rw ends tt
  caught-IsContained this (thrown (init_session_message_exception t) w) h =
      let (u, ends, shut, kept) = safe_disconnect_lem net (some t) (w.sockets this) in rw ends tt
  caught-IsContained this (thrown (sessions_manager_exception t) w) h =
      let (u, ends, shut, kept) = safe_disconnect_lem net (some t) (w.sockets this) in rw ends tt
  caught-IsContained this (thrown system_error w) h = tt
  caught-IsContained this (thrown e w) h = absurd h
  caught-IsContained this unfinished h = tt

  locked-Raises {ℓ} :
      {A : Type ℓ} (w : World J) (o : Outcome (SessionsManager J) A)
      → Raises IsCaught o
      → Raises IsCaught (keep_manager w o)
  locked-Raises w (done a m) h = h
  locked-Raises w (thrown e m) h = h
  locked-Raises w unfinished h = h

  kept-done {ℓ} :
      {A : Type ℓ} (o : Outcome (SessionsManager J) A) (w u : World J) (a : A)
      → keep_manager w o ≡ done a u
      → (m : SessionsManager J) × (o ≡ done a m)
  kept-done (done a m) w u b e = (m, ground arith)
  kept-done (thrown x m) w u b e = ground arith
  kept-done unfinished w u b e = ground arith

  register_sender-Raises :
      (this now : ℕ) (j : J) (draws : List Draws) (m : SessionsManager J)
      → HasWords m
      → Raises IsCaught (register_sender net.format_number this j now draws m)
  unfolding register_sender
  register_sender-Raises this now j [] m h = tt
  register_sender-Raises this now j (d ∷ draws) m h =
      let (id, made) = generate_session_id-ok net.format_number m d h in
      rw made (elim (Bool-cases (contains id m.senders_sessions)) [
        | inl used ↦ rw used (register_sender-Raises this now j draws m h)
        | inr free ↦ rw free tt
      ])

  get_sender-Raises :
      (code : Bytes) (m : SessionsManager J) → Raises IsCaught (get_sender_with_metadata code m)
  unfolding get_sender_with_metadata
  get_sender-Raises code m = elim (Option-cases (find code m.senders_sessions)) [
    | inl e ↦ rw e tt
    | inr (x, e) ↦ rw e tt
  ]

  -- The metadata that is handed out stood in the map.
  get_sender-IsServable :
      (code : Bytes) (m m' : SessionsManager J) (sender : ℕ) (data' : J)
      → IsReady m
      → get_sender_with_metadata code m ≡ done (sender, data') m'
      → IsServable data'
  unfolding get_sender_with_metadata
  get_sender-IsServable code m m' sender data' r h =
      elim (Option-cases (find code m.senders_sessions)) [
        | inl e ↦ ground arith
        | inr (x, e) ↦
            let same : x.session_data ≡ data' = ground arith in
            subst IsServable same (r.servable code x e)
      ]

  register_as_sender-Raises :
      (env : Env) (this : ℕ) (j : J) (m : SessionsManager J) (w : World J)
      → IsReady m
      → Raises IsCaught (register_as_sender net json env this j m w)
  unfolding register_as_sender
  register_as_sender-Raises env this j m w r =
      Raises-bind IsCaught _ _
        (locked-Raises w _ (register_sender-Raises this env.now j env.draws m r.words))
        (λ code u e.
          let (m', made) = kept-done _ w u code e in
          let (d, id) =
            register_sender-code net.format_number this j env.now env.draws m m' code made in
          let (t, dumped) = r.codes_dump d code id in rw dumped (on_send-Raises net this t u))

  serve_receiver-Raises :
      (fuel this : ℕ) (j : J) (m : SessionsManager J) (w : World J)
      → IsReady m
      → IsReceiveMessage json j
      → Raises IsCaught (serve_receiver net json fuel this j m w)
  unfolding serve_receiver
  serve_receiver-Raises fuel this j m w r v =
      let (code, there) = is_some→some _ v.has_code_words in
      rw there (
        Raises-bind IsCaught _ _ (locked-Raises w _ (get_sender-Raises code m)) (λ p u e.
          let (m', made) = kept-done _ w u p e in
          receive_file-Raises fuel this p.0 p.1 u (get_sender-IsServable code m m' p.0 p.1 r made)))

  internal_error-Raises :
      (this : ℕ) (w : World J)
      → Raises IsCaught (on this (safe_disconnect net (some internal_error)) w)
  internal_error-Raises this w =
      let (u, ends, shut, kept) = safe_disconnect_lem net (some internal_error) (w.sockets this) in
      rw ends tt

  -- Where the manager is there, it is ready.
  abbrev pub IsServing : World J → Type 0
  IsServing w = (m : SessionsManager J) → w.manager ≡ some m → IsReady m

  with_manager-Raises :
      (env : Env) (fuel this : ℕ) (j : J) (o : Option (SessionsManager J)) (w : World J)
      → ((m : SessionsManager J) → o ≡ some m → IsReady m)
      → IsSendMessage json j ⊎ IsReceiveMessage json j
      → Raises IsCaught (with_manager net json env fuel this j o w)
  unfolding bytes_eq
  with_manager-Raises env fuel this j none w ready valid = internal_error-Raises this w
  with_manager-Raises env fuel this j (some m) w ready (inl s) =
      rw s.action_is (register_as_sender-Raises env this j m w (ready m refl))
  with_manager-Raises env fuel this j (some m) w ready (inr v) =
      rw v.action_is (serve_receiver-Raises fuel this j m w (ready m refl) v)

  has_action :
      (j : J)
      → IsSendMessage json j ⊎ IsReceiveMessage json j
      → (a : Bytes) × (field net json json.get_string action_key j ≡ some a)
  has_action j (inl s) = (send_action, s.action_is)
  has_action j (inr v) = (receive_action, v.action_is)

  refused-IsCaught : (x : Exception) → is_init_session_message_exception x ≡ true → IsCaught x
  unfolding is_init_session_message_exception
  refused-IsCaught (init_session_message_exception t) h = tt
  refused-IsCaught _ h = cc

  first_read-Raises :
      (env : Env) (fuel this : ℕ) (content : Bytes) (w : World J)
      → IsServing w
      → Raises IsCaught (first_read net json env fuel this content w)
  unfolding first_read register_session
  first_read-Raises env fuel this content w ready = elim (Result-cases (create json content)) [
    | inr (x, e) ↦ rw e (refused-IsCaught x (create_error json content x e))
    | inl (j, e) ↦
        let valid = ((create_iff json content j).0 e).1 in
        let (a, there) = has_action j valid in
        rw (e, there) (with_manager-Raises env fuel this j w.manager w ready valid)
  ]

  -- Whatever the first message is, no exception leaves its handler, if the manager has words to pick
  -- from, its codes are UTF-8 texts, and its senders have well-formed messages that can be written
  -- out, for files that are not empty.
  pub handle_first_read-IsContained :
      (env : Env) (fuel this : ℕ) (content : Bytes) (w : World J)
      → IsServing w
      → IsContained (handle_first_read net json env fuel this content w)
  unfolding handle_first_read
  handle_first_read-IsContained env fuel this content w ready =
      caught-IsContained this _ (first_read-Raises env fuel this content w ready)
