-- ===== src/ServerSideClientSession/Ends.antt =====
-- ServerSideClientSession::handleFirstRead ends: no loop of it goes on for ever, whatever the clients
-- have written before they closed their sides.
use drop_file.ServerSideClientSession.Waiting.{
  on_receive_ack-Total, Total-bind, put-AllWait, on_send-Total, transfer-Total, AllWait, Ahead,
  Total,
}
use drop_file.ServerSideClientSession.Contained.{
  handle_first_read-IsContained, IsContained, IsServing,
}
use drop_file.SessionsManager.Register.{generate_session_id-ok, Result-cases, IsFresh, HasWords}
use drop_file.Result.{err, ok, lift, Result}
use drop_file.SessionsManager.{contains, find, register_sender, get_sender_with_metadata}
use drop_file.Json.{Scalar, JsonLib}
use drop_file.ServerSideClientSession.{
  file_size_key, filename_key, bytes_to_human_readable, handle_first_read, send_action, is_text,
  create, internal_error, code_words_key, with_manager, locked, action_key, keep_manager, Draws,
  send_ack, register_session, field, SessionsManager, serve_receiver, register_as_sender,
  register_sender, converted, Env, safe_disconnect, first_read, caught, receive_file,
  get_sender_with_metadata, on, transfer, World,
}
use drop_file.Socket.{send_ack, ack, receive_ack, send}
use drop_file.Socket.Disconnect.{safe_disconnect_lem}
use drop_file.Network.{Net}
use drop_file.Outcome.{
  ◌>>=◌, ◌>>◌, system_error, socket_exception, init_session_message_exception,
  sessions_manager_exception, utils_exception, fs_entry_info_exception, drop_file_receive_exception,
  drop_file_send_exception, zstd_exception, archive_manager_exception, client_arg_parser_exception,
  unfinished, bind, thrown, Action, done, Outcome,
}
use drop_file.Common.{
  ℕ, ◌<◌, ◌≡◌, refl, ◌⊎◌, inl, inr, Option, none, some, List, [], ◌∷◌, arith, Bool-cases,
  Option-cases, Bytes,
}

module _ {J : Type 0} (net : Net) (json : JsonLib J) where
  converted-Total {ℓ} :
      {A : Type ℓ} (n : ℕ) (o : Option A) (w : World J)
      → AllWait net n w
      → Total (AllWait net n) (converted o w)
  converted-Total n none w h = h
  converted-Total n (some a) w h = h

  lift-Total {ℓ} :
      {A : Type ℓ} (n : ℕ) (r : Result A) (w : World J)
      → AllWait net n w
      → Total (AllWait net n) (lift r w)
  lift-Total n (ok a) w h = h
  lift-Total n (err e) w h = h

  then_Total {ℓ κ} :
      {A : Type ℓ} {B : Type κ} (n : ℕ) (o : Outcome (World J) A) (f : A → Action (World J) B)
      → Total (AllWait net n) o
      → ((a : A) (u : World J) → AllWait net n u → Total (AllWait net n) (f a u))
      → Total (AllWait net n) (bind o f)
  then_Total n o f h k = Total-bind (AllWait net n) (AllWait net n) o f h (λ s a. a) k

  receive_file-Total :
      (n fuel receiver sender : ℕ) (j : J) (w : World J)
      → n < fuel
      → AllWait net n w
      → Total (AllWait net n) (receive_file net json fuel receiver sender j w)
  unfolding receive_file Ahead send_ack
  receive_file-Total n fuel receiver sender j w lt h =
      let filename = field net json json.get_string filename_key j in
      let size = field net json json.get_size file_size_key j in
      then_Total n (converted (json.dump j) w) _ (converted-Total n (json.dump j) w h) (λ t w0 h0.
        then_Total n (on receiver (send net t) w0) _ (on_send-Total net n receiver t w0 h0)
          (λ _ w1 h1.
            then_Total n (on receiver (receive_ack net) w1) _
              (on_receive_ack-Total net n receiver w1 h1)
              (λ _ w2 h2.
                then_Total n (on sender (send_ack net) w2) _ (on_send-Total net n sender ack w2 h2)
                  (λ _ w3 h3.
                    then_Total n (converted filename w3) _ (converted-Total n filename w3 h3)
                      (λ _ w4 h4.
                        then_Total n (converted size w4) _ (converted-Total n size w4 h4)
                          (λ k w5 h5. shown k w5 h5))))))
    where
      shown :
          (k : ℕ) (u : World J)
          → AllWait net n u
          → Total (AllWait net n) (
              (lift (bytes_to_human_readable net.format_number k) >>= λ _.
              transfer net json fuel receiver sender k 0
              >> (on receiver (receive_ack net) >> on sender (send_ack net)))
                u)
      shown k u hu =
          let text_of = bytes_to_human_readable net.format_number k in
          then_Total n (lift text_of u) _ (lift-Total n text_of u hu) (λ _ v hv.
            then_Total n (transfer net json fuel receiver sender k 0 v) _
              (transfer-Total net json n fuel receiver sender k 0 v (hv, omega (arith, hv sender)))
              (λ _ x hx.
                then_Total n (on receiver (receive_ack net) x) _
                  (on_receive_ack-Total net n receiver x hx)
                  (λ _ y hy. on_send-Total net n sender ack y hy)))

  keep-Total {ℓ} :
      {A : Type ℓ} (n : ℕ) (w : World J) (o : Outcome (SessionsManager J) A)
      → AllWait net n w
      → Total (λ _. Unit {0}) o
      → Total (AllWait net n) (keep_manager w o)
  keep-Total n w (done a m) h k = h
  keep-Total n w (thrown e m) h k = h
  keep-Total n w unfinished h k = k

  -- One of the codes that are drawn is free.
  abbrev pub HasFresh : SessionsManager J → List Draws → Type 0
  HasFresh m [] = ⊥
  HasFresh m (d ∷ draws) = IsFresh net.format_number m d ⊎ HasFresh m draws

  register_sender-Total :
      (this now : ℕ) (j : J) (draws : List Draws) (m : SessionsManager J)
      → HasWords m
      → HasFresh m draws
      → Total (λ _. Unit {0}) (register_sender net.format_number this j now draws m)
  unfolding register_sender
  register_sender-Total this now j [] m words fresh = absurd fresh
  register_sender-Total this now j (d ∷ draws) m words (inl (id, made, free)) = rw (made, free) tt
  register_sender-Total this now j (d ∷ draws) m words (inr later) =
      let (id, made) = generate_session_id-ok net.format_number m d words in
      rw made (elim (Bool-cases (contains id m.senders_sessions)) [
        | inl used ↦ rw used (register_sender-Total this now j draws m words later)
        | inr free ↦ rw free tt
      ])

  get_sender-Total :
      (code : Bytes) (m : SessionsManager J)
      → Total (λ _. Unit {0}) (get_sender_with_metadata code m)
  unfolding get_sender_with_metadata
  get_sender-Total code m = elim (Option-cases (find code m.senders_sessions)) [
    | inl e ↦ rw e tt
    | inr (x, e) ↦ rw e tt
  ]

  register_as_sender-Total :
      (n : ℕ) (env : Env) (this : ℕ) (j : J) (m : SessionsManager J) (w : World J)
      → HasWords m
      → HasFresh m env.draws
      → AllWait net n w
      → Total (AllWait net n) (register_as_sender net json env this j m w)
  unfolding register_as_sender
  register_as_sender-Total n env this j m w words fresh h =
      then_Total n (locked m (register_sender net.format_number this j env.now env.draws) w) _
        (keep-Total n w _ h (register_sender-Total this env.now j env.draws m words fresh))
        (λ code u hu.
          let response = json.dump (json.object ((code_words_key, Scalar.string code) ∷ [])) in
          then_Total n (converted response u) _ (converted-Total n response u hu)
            (λ t v hv. on_send-Total net n this t v hv))

  serve_receiver-Total :
      (n fuel this : ℕ) (j : J) (m : SessionsManager J) (w : World J)
      → n < fuel
      → AllWait net n w
      → Total (AllWait net n) (serve_receiver net json fuel this j m w)
  unfolding serve_receiver
  serve_receiver-Total n fuel this j m w lt h =
      let code = field net json json.get_string code_words_key j in
      then_Total n (converted code w) _ (converted-Total n code w h) (λ c u hu.
        then_Total n (locked m (get_sender_with_metadata c) u) _
          (keep-Total n u _ hu (get_sender-Total c m))
          (λ p v hv. receive_file-Total n fuel this p.0 p.1 v lt hv))

  disconnect-Total :
      (n this : ℕ) (t : Bytes) (w : World J)
      → AllWait net n w
      → Total (AllWait net n) (on this (safe_disconnect net (some t)) w)
  disconnect-Total n this t w h =
      let (u, ends, shut, kept) = safe_disconnect_lem net (some t) (w.sockets this) in
      rw ends (put-AllWait net n this u w (rw kept (h this)) h)

  with_manager-Total :
      (n : ℕ) (env : Env) (fuel this : ℕ) (j : J) (o : Option (SessionsManager J)) (w : World J)
      → n < fuel
      → ((m : SessionsManager J) → o ≡ some m → HasWords m × HasFresh m env.draws)
      → AllWait net n w
      → Total (AllWait net n) (with_manager net json env fuel this j o w)
  with_manager-Total n env fuel this j none w lt ready h =
      disconnect-Total n this internal_error w h
  with_manager-Total n env fuel this j (some m) w lt ready h =
      let action = is_text (field net json json.get_string action_key j) send_action in
      elim (Bool-cases action) [
        | inl sends ↦
            rw sends
              (register_as_sender-Total n env this j m w ((ready m refl).0) ((ready m refl).1) h)
        | inr receives ↦ rw receives (serve_receiver-Total n fuel this j m w lt h)
      ]

  caught-Total :
      (n this : ℕ) (o : Outcome (World J) (Unit {0}))
      → Total (AllWait net n) o
      → Total (AllWait net n) (caught net json this o)
  unfolding caught
  caught-Total n this (done a w) h = h
  caught-Total n this (thrown (socket_exception t) w) h = disconnect-Total n this t w h
  caught-Total n this (thrown (init_session_message_exception t) w) h =
      disconnect-Total n this t w h
  caught-Total n this (thrown (sessions_manager_exception t) w) h = disconnect-Total n this t w h
  caught-Total n this (thrown (utils_exception t) w) h = disconnect-Total n this t w h
  caught-Total n this (thrown (fs_entry_info_exception t) w) h = disconnect-Total n this t w h
  caught-Total n this (thrown (drop_file_receive_exception t) w) h = disconnect-Total n this t w h
  caught-Total n this (thrown (drop_file_send_exception t) w) h = disconnect-Total n this t w h
  caught-Total n this (thrown (zstd_exception t) w) h = disconnect-Total n this t w h
  caught-Total n this (thrown (archive_manager_exception t) w) h = disconnect-Total n this t w h
  caught-Total n this (thrown (client_arg_parser_exception t) w) h = disconnect-Total n this t w h
  caught-Total n this (thrown system_error w) h = h
  caught-Total n this (thrown e w) h = h
  caught-Total n this unfinished h = h

  first_read-Total :
      (n : ℕ) (env : Env) (fuel this : ℕ) (content : Bytes) (w : World J)
      → n < fuel
      → ((m : SessionsManager J) → w.manager ≡ some m → HasWords m × HasFresh m env.draws)
      → AllWait net n w
      → Total (AllWait net n) (first_read net json env fuel this content w)
  unfolding first_read register_session
  first_read-Total n env fuel this content w lt ready h =
      elim (Result-cases (create json content)) [
        | inr (x, e) ↦ rw e h
        | inl (j, e) ↦ rw e (action j)
      ]
    where
      action :
          (j : J)
          → Total (AllWait net n) (
              (converted (field net json json.get_string action_key j) >>= λ _.
              register_session net json env fuel this j)
                w)
      action j = elim (Option-cases (field net json json.get_string action_key j)) [
        | inl e ↦ rw e h
        | inr (a, e) ↦ rw e (with_manager-Total n env fuel this j w.manager w lt ready h)
      ]

  -- Where the codes that are drawn are not all in use, and a round is given for each byte that
  -- waits on a connection and one, the handler of a first message ends normally, whatever the clients
  -- have written before they closed their sides, on connections that break where they take no more,
  -- if the manager has words to pick from, its codes are UTF-8 texts, and its senders can be served. A
  -- client that stays silent, or stops reading, blocks it.
  pub handle_first_read-ends :
      (n : ℕ) (env : Env) (fuel this : ℕ) (content : Bytes) (w : World J)
      → IsServing net json w
      → n < fuel
      → AllWait net n w
      → ((m : SessionsManager J) → w.manager ≡ some m → HasFresh m env.draws)
      → (u : World J) × (handle_first_read net json env fuel this content w ≡ done tt u)
        × AllWait net n u
  unfolding handle_first_read
  handle_first_read-ends n env fuel this content w serving lt h fresh =
      go (handle_first_read net json env fuel this content w) refl
        (handle_first_read-IsContained net json env fuel this content w serving)
        (caught-Total n this _ (first_read-Total n env fuel this content w lt ready h))
    where
      ready : (m : SessionsManager J) → w.manager ≡ some m → HasWords m × HasFresh m env.draws
      ready m e = ((serving m e).words, fresh m e)

      go :
          (o : Outcome (World J) (Unit {0}))
          → handle_first_read net json env fuel this content w ≡ o
          → IsContained o
          → Total (AllWait net n) o
          → (u : World J) × (handle_first_read net json env fuel this content w ≡ done tt u)
            × AllWait net n u
      go (done a u) e c k = (u, e, k)
      go (thrown x u) e c k = absurd c
      go unfinished e c k = absurd k
