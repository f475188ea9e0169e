-- ===== src/ServerSideClientSession/Waiting.antt =====
-- The transfer loop of ServerSideClientSession::receiveFile ends, whatever the sender has written: each
-- message takes its header at least of what waits on the connection.
use drop_file.Json.{JsonLib}
use drop_file.ServerSideClientSession.{on, transfer, put_socket, settle, World}
use drop_file.Socket.{ack, receive_to_buffer, receive_ack, send, receive}
use drop_file.Socket.Disconnect.{send-Wrote, Wrote}
use drop_file.Network.{Stream, Net}
use drop_file.Outcome.{unfinished, bind, thrown, Action, done, Outcome}
use drop_file.Socket.Consumes.{Shorter, receive-Shorter}
use drop_file.Common.{
  ℕ, zero, suc, ◌+◌, ◌-◌, ◌≤◌, ◌<◌, min, ◌≡◌, inl, inr, arith, ltb, ◌==◌, Bool-cases, Bytes,
  bytes_eq, length, take,
}

-- It ends, and leaves a state that meets `P`.
abbrev pub Total {ℓ κ} : {S : Type ℓ} {A : Type κ} → (S → Type 0) → Outcome S A → Type 0
Total P (done a s) = P s
Total P (thrown e s) = P s
Total P unfinished = ⊥

pub Total-bind {ℓ κ μ} :
    {S : Type ℓ} {A : Type κ} {B : Type μ} (P : S → Type 0) (Q : S → Type 0) (o : Outcome S A)
    (f : A → Action S B)
    → Total P o
    → ((s : S) → P s → Q s)
    → ((a : A) (s : S) → P s → Total Q (f a s))
    → Total Q (bind o f)
Total-bind P Q (done a s) f h q k = k a s h
Total-bind P Q (thrown e s) f h q k = q s h
Total-bind P Q unfinished f h q k = absurd h

-- At most `n` bytes wait to be read.
abbrev pub Waits : ℕ → Stream → Type 0
Waits n s = length s.incoming ≤ n

module _ (net : Net) where
  Wrote-Total :
      (n : ℕ) (s : Stream) (o : Outcome Stream (Unit {0}))
      → Waits n s
      → Wrote s o
      → Total (Waits n) o
  Wrote-Total n s (done a t) h w = rw w h
  Wrote-Total n s (thrown e t) h w = rw w.2 h
  Wrote-Total n s unfinished h w = w

  pub send-Total : (n : ℕ) (d : Bytes) (s : Stream) → Waits n s → Total (Waits n) (send net d s)
  send-Total n d s h = Wrote-Total n s (send net d s) h (send-Wrote net d s)

  pub receive-Total : (n : ℕ) (s : Stream) → Waits n s → Total (Waits n) (receive net s)
  unfolding Shorter
  receive-Total n s h = go (receive net s) (receive-Shorter net s)
    where
      go : (o : Outcome Stream Bytes) → Shorter s o → Total (Waits n) o
      go (done d t) k = omega arith
      go (thrown e t) k = omega arith
      go unfinished k = k

  receive_ack-Total : (n : ℕ) (s : Stream) → Waits n s → Total (Waits n) (receive_ack net s)
  unfolding receive_ack receive_to_buffer receive
  receive_ack-Total n s h =
      Total-bind (Waits n) (Waits n) (receive net s) _ (receive-Total n s h) (λ t k. k)
        (λ d t k. elim (Bool-cases (bytes_eq d ack)) [
          | inl same ↦ rw same k
          | inr differs ↦ rw differs k
        ])

  module _ {J : Type 0} where
    -- At most `n` bytes wait on each connection.
    abbrev pub AllWait : ℕ → World J → Type 0
    AllWait n w = (i : ℕ) → Waits n (w.sockets i)

    pub put-AllWait :
        (n i : ℕ) (s : Stream) (w : World J)
        → Waits n s
        → AllWait n w
        → AllWait n (put_socket i s w)
    put-AllWait n i s w h all j = elim (Bool-cases (j == i)) [
      | inl e ↦ rw e h
      | inr e ↦ rw e (all j)
    ]

    pub settle-Total {ℓ} :
        {A : Type ℓ} (n i : ℕ) (w : World J) (o : Outcome Stream A)
        → AllWait n w
        → Total (Waits n) o
        → Total (AllWait n) (settle i w o)
    settle-Total n i w (done a s) all h = put-AllWait n i s w h all
    settle-Total n i w (thrown e s) all h = put-AllWait n i s w h all
    settle-Total n i w unfinished all h = h

    pub on_send-Total :
        (n i : ℕ) (d : Bytes) (w : World J) → AllWait n w → Total (AllWait n) (on i (send net d) w)
    on_send-Total n i d w h = settle-Total n i w _ h (send-Total n d (w.sockets i) (h i))

    pub on_receive_ack-Total :
        (n i : ℕ) (w : World J) → AllWait n w → Total (AllWait n) (on i (receive_ack net) w)
    on_receive_ack-Total n i w h = settle-Total n i w _ h (receive_ack-Total n (w.sockets i) (h i))

    module _ (json : JsonLib J) where
      -- What the sender has ahead of it is less than the fuel.
      unfoldable pub Ahead : ℕ → ℕ → ℕ → World J → Type 0
      Ahead n fuel sender w = AllWait n w × (length ((w.sockets sender).incoming) < fuel)

      sent-Ahead :
          (n fuel receiver sender : ℕ) (d : Bytes) (w : World J)
          → Ahead n fuel sender w
          → Total (Ahead n fuel sender) (on receiver (send net d) w)
      unfolding Ahead
      sent-Ahead n fuel receiver sender d w (all, lt) =
          go (send net d (w.sockets receiver)) (send-Wrote net d (w.sockets receiver))
        where
          same :
              (t : Stream)
              → t.incoming ≡ (w.sockets receiver).incoming
              → Ahead n fuel sender (put_socket receiver t w)
          same t e = (
            put-AllWait n receiver t w (rw e (all receiver)) all,
            elim (Bool-cases (sender == receiver)) [
              | inl i ↦ let eq : sender ≡ receiver = ground (arith, i) in rw (i, e, ← eq) lt
              | inr i ↦ rw i lt
            ],
          )

          go :
              (o : Outcome Stream (Unit {0}))
              → Wrote (w.sockets receiver) o
              → Total (Ahead n fuel sender) (settle receiver w o)
          go (done a t) e = same t e
          go (thrown x t) e = same t e.2
          go unfinished e = e

      received {ℓ} :
          {A : Type ℓ} (n fuel sender : ℕ) (w : World J) (f : Bytes → Action (World J) A)
          (o : Outcome Stream Bytes)
          → Ahead n (suc fuel) sender w
          → Shorter (w.sockets sender) o
          → ((d : Bytes) (u : World J) → Ahead n fuel sender u → Total (AllWait n) (f d u))
          → Total (AllWait n) (bind (settle sender w o) f)
      unfolding Ahead Shorter
      received n fuel sender w f (done d t) (all, lt) less k =
          k d (put_socket sender t w)
            (put-AllWait n sender t w (omega (arith, all sender)) all, ground arith)
      received n fuel sender w f (thrown e t) (all, lt) less k =
          put-AllWait n sender t w (omega (arith, all sender)) all
      received n fuel sender w f unfinished h less k = less

      pub transfer-Total :
          (n fuel receiver sender expected total : ℕ) (w : World J)
          → Ahead n fuel sender w
          → Total (AllWait n) (transfer net json fuel receiver sender expected total w)
      unfolding transfer Ahead
      transfer-Total n zero receiver sender expected total w h = absurd (omega (arith, h.1))
      transfer-Total n (suc fuel) receiver sender expected total w h =
          elim (Bool-cases (ltb total expected)) [
            | inr full ↦ rw full h.0
            | inl more ↦ rw more (
                received n fuel sender w _ (receive net (w.sockets sender)) h
                  (receive-Shorter net (w.sockets sender))
                  (λ d u k.
                    let size = min (expected - total) (length d) in
                    Total-bind (Ahead n fuel sender) (AllWait n)
                      (on receiver (send net (take size d)) u) _
                      (sent-Ahead n fuel receiver sender (take size d) u k) (λ v k. k.0)
                      (λ _ v k. transfer-Total n fuel receiver sender expected (total + size) v k)))
          ]
