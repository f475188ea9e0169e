-- ===== src/ServerSideClientSession/Keeps.antt =====
-- What the handlers of a session leave of the server's sessions manager, also when they throw.
use drop_file.ServerSideClientSession.Sound.{get_sender-Leaves, register_sender-Leaves, IsSound}
use drop_file.SessionsManager.Register.{Result-cases}
use drop_file.InitSessionMessage.Valid.{create_iff, IsReceiveMessage, IsSendMessage, unsigned_flag}
use drop_file.ServerSideClientSession.Contained.{IsServable, IsReady, IsServing}
use drop_file.Result.{err, ok, lift, Result}
use drop_file.SessionsManager.{register_sender, get_sender_with_metadata, SessionsManager}
use drop_file.ServerSideClientSession.{
  safe_disconnect, action_key, with_manager, file_size_key, register_session, locked,
  code_words_key, filename_key, register_as_sender, Env, handle_first_read, caught, first_read,
  serve_receiver, create, field, keep_manager, register_sender, get_sender_with_metadata,
  bytes_to_human_readable, send_ack, receive_ack, receive, converted, settle, on, send, transfer,
  World, receive_file,
}
use drop_file.Json.{Scalar, read_field, JsonLib}
use drop_file.Network.{Stream, Net}
use drop_file.Outcome.{
  system_error, socket_exception, init_session_message_exception, sessions_manager_exception,
  sessions_manager_exception, init_session_message_exception, socket_exception, done, thrown,
  unfinished, utils_exception, fs_entry_info_exception, drop_file_receive_exception,
  drop_file_send_exception, zstd_exception, archive_manager_exception, client_arg_parser_exception,
  Leaves-bind, Leaves, thrown, Action, done, Outcome,
}
use drop_file.Common.{
  ℕ, zero, suc, ◌+◌, ◌-◌, ◌^◌, ◌<◌, min, ◌≡◌, refl, sym, ap, subst, ◌∙◌, ◌≢◌, ◌⊎◌, inl, inr, true,
  Option, none, some, [], ◌∷◌, arith, dec_lt, ltb, Bool-cases, Option-cases, Bytes, bytes_eq,
  length, take,
}

positive : (n : ℕ) → n ≢ 0 → 0 < n
positive n h = elim (dec_lt 0 n) [ yes lt ↦ lt | no ge ↦ absurd (h (omega arith)) ]

-- An unsigned number is a std::size_t.
file_size_of :
    {J : Type 0} (json : JsonLib J) (j : J)
    → read_field (unsigned_flag json) (json.find file_size_key j) ≡ some true
    → (n : ℕ) × (read_field json.get_size (json.find file_size_key j) ≡ some n) × (n < 2 ^ 64)
file_size_of json j h = elim (Option-cases (json.find file_size_key j)) [
  | inl e ↦ (let k = rw e at h in cc)
  | inr (v, e) ↦
      let flag : json.is_number_unsigned v ≡ true = (let k = rw e at h in cc) in
      let (n, size, fits) = json.get_size-number v flag in (n, rw e size, fits)
]

module _ {J : Type 0} (net : Net) (json : JsonLib J) where
  -- The manager is there, and is sound.
  abbrev pub IsManaged : World J → Type 0
  IsManaged w = (m : SessionsManager J) × (w.manager ≡ some m) × IsSound net json m

  pub managed-IsServing : (w : World J) → IsManaged w → IsServing net json w
  managed-IsServing w (m, there, s) n e =
      let same : m ≡ n = cc in subst (λ o. IsReady net json o) same s.ready

  settle-Leaves {ℓ} :
      {A : Type ℓ} (i : ℕ) (w : World J) (o : Outcome Stream A)
      → IsManaged w
      → Leaves IsManaged (settle i w o)
  settle-Leaves i w (done a s) h = h
  settle-Leaves i w (thrown e s) h = h
  settle-Leaves i w unfinished h = tt

  -- A transfer on a socket touches no manager.
  pub on-Leaves {ℓ} :
      {A : Type ℓ} (i : ℕ) (a : Action Stream A) (w : World J)
      → IsManaged w
      → Leaves IsManaged (on i a w)
  on-Leaves i a w h = settle-Leaves i w (a (w.sockets i)) h

  converted-Leaves {ℓ} :
      {A : Type ℓ} (o : Option A) (w : World J) → IsManaged w → Leaves IsManaged (converted o w)
  converted-Leaves none w h = h
  converted-Leaves (some a) w h = h

  lift-Leaves {ℓ} :
      {A : Type ℓ} (r : Result A) (w : World J) → IsManaged w → Leaves IsManaged (lift r w)
  lift-Leaves (ok a) w h = h
  lift-Leaves (err e) w h = h

  transfer-Leaves :
      (fuel receiver sender expected total : ℕ) (w : World J)
      → IsManaged w
      → Leaves IsManaged (transfer net json fuel receiver sender expected total w)
  unfolding transfer
  transfer-Leaves zero receiver sender expected total w h = elim (Bool-cases (ltb total expected)) [
    | inl more ↦ rw more tt
    | inr full ↦ rw full h
  ]
  transfer-Leaves (suc fuel) receiver sender expected total w h =
      elim (Bool-cases (ltb total expected)) [
        | inr full ↦ rw full h
        | inl more ↦ rw more (
            Leaves-bind IsManaged (on sender (receive net) w) _ (on-Leaves sender (receive net) w h)
              (λ d u _ hu.
                let size = min (expected - total) (length d) in
                Leaves-bind IsManaged (on receiver (send net (take size d)) u) _
                  (on-Leaves receiver (send net (take size d)) u hu)
                  (λ _ v _ hv. transfer-Leaves fuel receiver sender expected (total + size) v hv)))
      ]

  receive_file-Leaves :
      (fuel receiver sender : ℕ) (j : J) (w : World J)
      → IsManaged w
      → Leaves IsManaged (receive_file net json fuel receiver sender j w)
  unfolding receive_file
  receive_file-Leaves fuel receiver sender j w h =
      Leaves-bind IsManaged _ _ (converted-Leaves (json.dump j) w h) (λ t w0 _ h0.
        Leaves-bind IsManaged _ _ (on-Leaves receiver (send net t) w0 h0) (λ _ w1 _ h1.
          Leaves-bind IsManaged _ _ (on-Leaves receiver (receive_ack net) w1 h1) (λ _ w2 _ h2.
            Leaves-bind IsManaged _ _ (on-Leaves sender (send_ack net) w2 h2) (λ _ w3 _ h3.
              Leaves-bind IsManaged (converted (field net json json.get_string filename_key j) w3) _
                (converted-Leaves _ w3 h3)
                (λ _ w4 _ h4.
                  Leaves-bind IsManaged
                    (converted (field net json json.get_size file_size_key j) w4) _
                    (converted-Leaves _ w4 h4)
                    (λ n w5 _ h5.
                      Leaves-bind IsManaged _ _
                        (lift-Leaves (bytes_to_human_readable net.format_number n) w5 h5)
                        (λ _ w6 _ h6.
                          Leaves-bind IsManaged _ _ (transfer-Leaves fuel receiver sender n 0 w6 h6)
                            (λ _ w7 _ h7.
                              Leaves-bind IsManaged _ _ (on-Leaves receiver (receive_ack net) w7 h7)
                                (λ _ w8 _ h8. on-Leaves sender (send_ack net) w8 h8)))))))))

  locked-Leaves {ℓ} :
      {A : Type ℓ} (w : World J) (o : Outcome (SessionsManager J) A)
      → Leaves (IsSound net json) o
      → Leaves IsManaged (keep_manager w o)
  locked-Leaves w (done a m) h = (m, refl, h)
  locked-Leaves w (thrown e m) h = (m, refl, h)
  locked-Leaves w unfinished h = tt

  register_as_sender-Leaves :
      (env : Env) (this : ℕ) (j : J) (m : SessionsManager J) (w : World J)
      → IsSound net json m
      → IsServable net json j
      → Leaves IsManaged (register_as_sender net json env this j m w)
  unfolding register_as_sender
  register_as_sender-Leaves env this j m w s good =
      Leaves-bind IsManaged
        (locked m (register_sender net.format_number this j env.now env.draws) w) _
        (locked-Leaves w _ (register_sender-Leaves net json this env.now j env.draws m s good))
        (λ code u _ hu.
          let response = json.object ((code_words_key, Scalar.string code) ∷ []) in
          Leaves-bind IsManaged (converted (json.dump response) u) _
            (converted-Leaves (json.dump response) u hu)
            (λ t v _ hv. on-Leaves this (send net t) v hv))

  serve_receiver-Leaves :
      (fuel this : ℕ) (j : J) (m : SessionsManager J) (w : World J)
      → w.manager ≡ some m
      → IsSound net json m
      → Leaves IsManaged (serve_receiver net json fuel this j m w)
  unfolding serve_receiver
  serve_receiver-Leaves fuel this j m w there s =
      let code = field net json json.get_string code_words_key j in
      Leaves-bind IsManaged (converted code w) _ (converted-Leaves code w (m, there, s))
        (λ c u _ hu.
          Leaves-bind IsManaged (locked m (get_sender_with_metadata c) u) _
            (locked-Leaves u _ (get_sender-Leaves net json c m s))
            (λ p v _ hv. receive_file-Leaves fuel this p.0 p.1 v hv))

  -- No sender's message announces an empty file.
  abbrev pub IsHarmless : Bytes → Type 0
  IsHarmless content =
      (j : J)
      → create json content ≡ ok j
      → IsSendMessage json j
      → field net json json.get_size file_size_key j ≢ some 0

  -- What the server accepts of a sender, it can serve.
  accepted-IsServable :
      (content : Bytes) (j : J)
      → create json content ≡ ok j
      → IsSendMessage json j
      → IsHarmless content
      → IsServable net json j
  accepted-IsServable content j e s harmless =
      let (n, size, fits) = file_size_of json j s.has_file_size in
      record {
        valid = s;
        dumps = json.dump-parsed content j (((create_iff json content j).0 e).0);
        sized = (n, size, positive n (λ z. harmless j e s (size ∙ ap some z)), fits);
      }

  with_manager-Leaves :
      (env : Env) (fuel this : ℕ) (j : J) (m : SessionsManager J) (w : World J)
      → w.manager ≡ some m
      → IsSound net json m
      → (IsSendMessage json j → IsServable net json j)
      → IsSendMessage json j ⊎ IsReceiveMessage json j
      → Leaves IsManaged (with_manager net json env fuel this j (some m) w)
  unfolding bytes_eq
  with_manager-Leaves env fuel this j m w there s good (inl v) =
      rw v.action_is (register_as_sender-Leaves env this j m w s (good v))
  with_manager-Leaves env fuel this j m w there s good (inr v) =
      rw v.action_is (serve_receiver-Leaves fuel this j m w there s)

  first_read-Leaves :
      (env : Env) (fuel this : ℕ) (content : Bytes) (w : World J)
      → IsManaged w
      → IsHarmless content
      → Leaves IsManaged (first_read net json env fuel this content w)
  unfolding first_read register_session
  first_read-Leaves env fuel this content w h harmless = elim (Result-cases (create json content)) [
    | inr (x, e) ↦ rw e h
    | inl (j, e) ↦
        let valid = ((create_iff json content j).0 e).1 in
        let (m, there, s) = h in
        let good = λ (v : IsSendMessage json j). accepted-IsServable content j e v harmless in
        let action = field net json json.get_string action_key j in
        rw e (
          Leaves-bind IsManaged (converted action w) _ (converted-Leaves action w h)
            (λ _ u _ (n, here, t).
              subst (λ o. Leaves IsManaged (with_manager net json env fuel this j o u)) (sym here)
                (with_manager-Leaves env fuel this j n u here t good valid)))
  ]

  disconnect-Leaves :
      (this : ℕ) (t : Bytes) (w : World J)
      → IsManaged w
      → Leaves IsManaged (on this (safe_disconnect net (some t)) w)
  disconnect-Leaves this t w h = on-Leaves this (safe_disconnect net (some t)) w h

  caught-Leaves :
      (this : ℕ) (o : Outcome (World J) (Unit {0}))
      → Leaves IsManaged o
      → Leaves IsManaged (caught net json this o)
  unfolding caught
  caught-Leaves this (done a w) h = h
  caught-Leaves this (thrown (socket_exception t) w) h = disconnect-Leaves this t w h
  caught-Leaves this (thrown (init_session_message_exception t) w) h = disconnect-Leaves this t w h
  caught-Leaves this (thrown (sessions_manager_exception t) w) h = disconnect-Leaves this t w h
  caught-Leaves this (thrown (utils_exception t) w) h = disconnect-Leaves this t w h
  caught-Leaves this (thrown (fs_entry_info_exception t) w) h = disconnect-Leaves this t w h
  caught-Leaves this (thrown (drop_file_receive_exception t) w) h = disconnect-Leaves this t w h
  caught-Leaves this (thrown (drop_file_send_exception t) w) h = disconnect-Leaves this t w h
  caught-Leaves this (thrown (zstd_exception t) w) h = disconnect-Leaves this t w h
  caught-Leaves this (thrown (archive_manager_exception t) w) h = disconnect-Leaves this t w h
  caught-Leaves this (thrown (client_arg_parser_exception t) w) h = disconnect-Leaves this t w h
  caught-Leaves this (thrown system_error w) h = h
  caught-Leaves this (thrown e w) h = h
  caught-Leaves this unfinished h = tt

  -- From a world with a sound manager, the handler of a first message that announces no empty file
  -- leaves a sound manager.
  pub handle_first_read-Leaves :
      (env : Env) (fuel this : ℕ) (content : Bytes) (w : World J)
      → IsManaged w
      → IsHarmless content
      → Leaves IsManaged (handle_first_read net json env fuel this content w)
  unfolding handle_first_read
  handle_first_read-Leaves env fuel this content w h harmless =
      caught-Leaves this _ (first_read-Leaves env fuel this content w h harmless)
