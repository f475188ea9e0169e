-- ===== src/DropFileReceiveClient/Steps.antt =====
-- The steps of DropFileReceiveClient::receiveFile end, whatever the server sends, by an exception or with
-- what the next one relies on.
use drop_file.DropFileReceiveClient.Confirmation.{is_yes}
use drop_file.Socket.Consumes.{receive_to_buffer-Shorter, Shorter}
use drop_file.Result.{err, ok, Result}
use drop_file.ServerSideClientSession.Waiting.{send-Total, Total, Waits}
use drop_file.DropFileReceiveClient.{
  entered, throw, abort, next_char, exists, answer, receive, get_server_response,
  get_user_confirmation, JsonLib, extended, put_file, send_ack, send, on_socket, receive_file_impl,
  receive_new, looked_at-new, Action, receive_to_buffer, thrown, store, done, bind, settle_client,
  lift, Stream, receive_loop, Outcome, Client,
}
use drop_file.Network.{Net}
use drop_file.Outcome.{Ensures-bind, Ensures-map, unfinished, Ensures, Exception}
use drop_file.Socket.{ack, send_ack}
use drop_file.ServerSideClientSession.Waiting.{receive-Total}
use drop_file.DropFileReceiveClient.{receive_file_impl}
use drop_file.Common.{
  ℕ, zero, suc, ◌+◌, ◌-◌, ◌≤◌, ◌<◌, min, ◌≡◌, refl, ap, ◌∙◌, ◌⊎◌, inl, inr, if◌then◌else◌, Option,
  none, Option-cases, Bool, true, false, some, [], ◌++◌, arith, ltb, ◌==◌, Bool-cases, Bytes,
  bytes_eq_refl, length, take, length-append, length-take,
}

-- Any exception may end it.
abbrev pub AnyException : Exception → Type 0
AnyException e = Unit

-- It ends, and a normal end meets `P`.
abbrev pub Ends {ℓ} : {A : Type ℓ} → (A → Client → Type 0) → Outcome Client A → Type 0
Ends P o = Ensures AnyException P o

-- The file system and what is typed are the same, and no more than `n` bytes wait.
pub record Kept (n : ℕ) (c d : Client) : Type 0 where
  pub files : d.files ≡ c.files
  pub status : d.status ≡ c.status
  pub interaction : d.interaction ≡ c.interaction
  pub waits : Waits n d.socket

pub on_socket-Ends {ℓ} :
    {A : Type ℓ} (n : ℕ) (c : Client) (o : Outcome Stream A)
    → Total (Waits n) o
    → Ends (λ _ d. Kept n c d) (settle_client c o)
on_socket-Ends n c (done a s) h = record {
  files = refl;
  status = refl;
  interaction = refl;
  waits = h;
}
on_socket-Ends n c (thrown e s) h = tt
on_socket-Ends n c unfinished h = h

pub lift-Ends {ℓ} :
    {A : Type ℓ} (P : A → Client → Type 0) (r : Result A) (c : Client)
    → ((a : A) → r ≡ ok a → P a c)
    → Ends P (lift r c)
lift-Ends P (ok a) c h = h a refl
lift-Ends P (err e) c h = tt

module _ (net : Net) where
  -- The file at the path holds `total` bytes, or there is none, for it could not be opened.
  abbrev pub HoldsSize : Bytes → ℕ → Client → Type 0
  HoldsSize path total c =
      (c.files path ≡ none) ⊎ ((x : Bytes) × (c.files path ≡ some x) × (length x ≡ total))

  stores-Ends :
      (path : Bytes) (expected total : ℕ) (c : Client) (again : ℕ → Action Client (Unit {0}))
      (o : Outcome Stream Bytes)
      → HoldsSize path total c
      → total ≤ expected
      → Shorter c.socket o
      → ((k : ℕ) (d : Client)
          → HoldsSize path k d
          → k ≤ expected
          → length d.socket.incoming < length c.socket.incoming
          → Ends (λ _ e. HoldsSize path expected e) (again k d))
      → Ends
          (λ _ e. HoldsSize path expected e)
          (bind (settle_client c o) (store net again path expected total))
  unfolding Shorter
  stores-Ends path expected total c again (done d s) (inl lost) le shorter next =
      let k = min (expected - total) (length d) in
      next (total + k)
        (put_file path (extended (take k d) (c.files path)) (record c { socket = s }))
        (inl (rw (lost, bytes_eq_refl path) refl)) (omega arith) shorter
  stores-Ends path expected total c again (done d s) (inr (got, file, size)) le shorter next =
      let k = min (expected - total) (length d) in
      next (total + k)
        (put_file path (extended (take k d) (c.files path)) (record c { socket = s }))
        (inr (
          got ++ take k d,
          rw (file, bytes_eq_refl path) refl,
          omega (arith, length-append got (take k d), length-take k d),
        ))
        (omega arith) shorter
  stores-Ends path expected total c again (thrown e s) h le shorter next = tt
  stores-Ends path expected total c again unfinished h le shorter next = shorter

  resized : (path : Bytes) (m n : ℕ) (c : Client) → m ≡ n → HoldsSize path m c → HoldsSize path n c
  resized path m n c e (inl lost) = inl lost
  resized path m n c e (inr (x, file, size)) = inr (x, file, size ∙ e)

  unchanged :
      (path : Bytes) (n : ℕ) (c d : Client)
      → d.files ≡ c.files
      → HoldsSize path n c
      → HoldsSize path n d
  unchanged path n c d e (inl lost) = inl (ap (λ f. f path) e ∙ lost)
  unchanged path n c d e (inr (x, file, size)) = inr (x, ap (λ f. f path) e ∙ file, size)

  truncated :
      (path : Bytes) (b : Bool) (c : Client)
      → c.files path ≡ none
      → HoldsSize path 0 (if b then put_file path (some []) c else c)
  truncated path true c new = inr ([], rw (bytes_eq_refl path) refl, refl)
  truncated path false c new = inl new

  -- The loop stores exactly what is expected.
  pub loop-Ends :
      (path : Bytes) (fuel expected total : ℕ) (c : Client)
      → length c.socket.incoming < fuel
      → HoldsSize path total c
      → total ≤ expected
      → Ends (λ _ d. HoldsSize path expected d) (receive_loop net fuel path expected total c)
  unfolding receive_loop
  loop-Ends path zero expected total c lt holds le = absurd (omega arith)
  loop-Ends path (suc fuel) expected total c lt holds le = elim (Bool-cases (ltb total expected)) [
    | inr full ↦ rw full (resized path total expected c (ground arith) holds)
    | inl more ↦ rw more (
        stores-Ends path expected total c (receive_loop net fuel path expected)
          (receive_to_buffer net c.socket) holds le (receive_to_buffer-Shorter net c.socket)
          (λ k d held small less. loop-Ends path fuel expected k d (omega arith) held small))
  ]

  pub sent-Ends :
      (d : Bytes) (c : Client)
      → Ends (λ _ e. Kept (length c.socket.incoming) c e) (on_socket (send net d) c)
  sent-Ends d c =
      on_socket-Ends (length c.socket.incoming) c (send net d c.socket)
        (send-Total net (length c.socket.incoming) d c.socket (omega arith))

  impl-Ends :
      (path : Bytes) (b : Bool) (fuel expected : ℕ) (c : Client)
      → length c.socket.incoming < fuel
      → c.files path ≡ none
      → Ends
          (λ _ d. HoldsSize path expected d)
          (bind
            (receive_loop net fuel path expected 0 (if b then put_file path (some []) c else c))
            (λ _. on_socket (send net ack)))
  impl-Ends path b fuel expected c lt new =
      let opened = if b then put_file path (some []) c else c in
      Ensures-bind AnyException (λ _ d. HoldsSize path expected d) _
        (receive_loop net fuel path expected 0 opened) (λ _. on_socket (send net ack))
        (loop-Ends path fuel expected 0 opened (opened_lt b) (truncated path b c new) (omega arith))
        (λ _ d holds.
          Ensures-map AnyException (λ _ e. Kept (length d.socket.incoming) d e) _
            (on_socket (send net ack) d) (sent-Ends ack d)
            (λ _ e k. unchanged path expected d e k.files holds))
    where
      opened_lt :
          (o : Bool) → length ((if o then put_file path (some []) c else c).socket.incoming) < fuel
      opened_lt true = lt
      opened_lt false = lt

  pub receive_file_impl-Ends :
      (path : Bytes) (fuel expected : ℕ) (c : Client)
      → length c.socket.incoming < fuel
      → Ends
          (λ _ d. (exists path c ≡ some false) × HoldsSize path expected d)
          (receive_file_impl net fuel path expected c)
  unfolding receive_file_impl send_ack
  receive_file_impl-Ends path fuel expected c lt = elim (Option-cases (exists path c)) [
    | inl failed ↦ rw failed tt
    | inr (true, there) ↦ rw there tt
    | inr (false, new) ↦ rw new (
        Ensures-map AnyException (λ _ d. HoldsSize path expected d) _
          (receive_new net fuel path expected c)
          (impl-Ends path (c.opens path) fuel expected c lt
            (looked_at-new (c.files path) (c.status path) new))
          (λ _ e holds. (refl, holds)))
  ]

  -- A transfer on the socket, behind others.
  after-Ends {ℓ} :
      {A : Type ℓ} (n : ℕ) (c d : Client) (m : Action Stream A)
      → Kept n c d
      → ((s : Stream) → Waits n s → Total (Waits n) (m s))
      → Ends (λ _ e. Kept n c e) (on_socket m d)
  after-Ends n c d m k total =
      Ensures-map AnyException (λ _ e. Kept n d e) _ (on_socket m d)
        (on_socket-Ends n d (m d.socket) (total d.socket k.waits))
        (λ _ e l. record {
          files = l.files ∙ k.files;
          status = l.status ∙ k.status;
          interaction = l.interaction ∙ k.interaction;
          waits = l.waits;
        })

  pub confirmed-Ends :
      (n : ℕ) (c : Client)
      → Waits n c.socket
      → Ends
          (λ _ d.
            (is_yes c.interaction ≡ true)
            × (d.files ≡ c.files)
            × (d.status ≡ c.status)
            × Waits n d.socket)
          (get_user_confirmation net c)
  unfolding get_user_confirmation send_ack
  confirmed-Ends n c h =
      let d : Client = record c { interaction = (next_char c.interaction).1 } in
      elim (Bool-cases ((next_char c.interaction).0 == 121)) [
        | inl agreed ↦ rw agreed (
            Ensures-map AnyException (λ _ e. Kept n d e) _ (on_socket (send net ack) d)
              (on_socket-Ends n d (send net ack d.socket) (send-Total net n ack d.socket h))
              (λ _ e k. (refl, k.files, k.status, k.waits)))
        | inr refused ↦ rw refused (
            Ensures-bind AnyException (λ _ e. Kept n d e) _ (on_socket (send net abort) d)
              (λ _. throw (entered ((next_char c.interaction).0)))
              (on_socket-Ends n d (send net abort d.socket) (send-Total net n abort d.socket h))
              (λ _ e k. tt))
      ]

  module _ {J : Type 0} (json : JsonLib J) where
    pub response-Ends :
        (free : Bool → Option ℕ) (n : ℕ) (c d : Client)
        → Kept n c d
        → Ends (λ _ e. Kept n c e) (get_server_response net json free d)
    unfolding get_server_response
    response-Ends free n c d k =
        Ensures-bind AnyException (λ _ e. Kept n c e) _ (on_socket (receive net) d)
          (λ received. lift (answer net json (λ p. exists p d) free received))
          (after-Ends n c d (receive net) k (receive-Total net n))
          (λ received e l.
            lift-Ends (λ _ x. Kept n c x) (answer net json (λ p. exists p d) free received) e
              (λ j h. l))
