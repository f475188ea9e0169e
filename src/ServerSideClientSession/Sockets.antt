-- ===== src/ServerSideClientSession/Sockets.antt =====
-- Steps of a handler on one session's socket.
use drop_file.Common.{
  ℕ, ◌-◌, min, ◌≡◌, refl, sym, ap, ◌∙◌, ◌≢◌, List, [], ◌∷◌, ◌++◌, append-nil, append_assoc, arith,
  dec_le, Bytes, length, take, All, take_all, take-append_le, take-append_ge,
}
use drop_file.Outcome.{bind, ◌>>=◌, Exception, Action, done, thrown}
use drop_file.Network.{Stream}
use drop_file.Socket.Framing.{frames, frame, join, written}
use drop_file.ServerSideClientSession.{World, put_socket, on, settle}

module _ {J : Type 0} where
  pub sockets-put_self : (i : ℕ) (s : Stream) (w : World J) → (put_socket i s w).sockets i ≡ s
  sockets-put_self i s w = ground arith

  pub sockets-put_other :
      (i j : ℕ) (s : Stream) (w : World J) → j ≢ i → (put_socket i s w).sockets j ≡ w.sockets j
  sockets-put_other i j s w h = ground arith

  pub on-done {ℓ} :
      {A : Type ℓ} (i : ℕ) (m : Action Stream A) (w : World J) {a : A} {s : Stream}
      → m (w.sockets i) ≡ done a s
      → on i m w ≡ done a (put_socket i s w)
  on-done i m w e = ap (settle i w) e

  pub on-thrown {ℓ} :
      {A : Type ℓ} (i : ℕ) (m : Action Stream A) (w : World J) {e : Exception} {s : Stream}
      → m (w.sockets i) ≡ thrown e s
      → on i m w ≡ thrown e (put_socket i s w)
  on-thrown i m w e = ap (settle i w) e

-- A handler goes on behind a method that ends.
pub on-then {ℓ κ} :
    {J : Type 0} {A : Type ℓ} {B : Type κ} (i : ℕ) (m : Action Stream A)
    (k : A → Action (World J) B) (w : World J) {a : A} {s : Stream}
    → m (w.sockets i) ≡ done a s
    → (on i m >>= k) w ≡ k a (put_socket i s w)
on-then i m k w e = ap (λ o. bind (settle i w o) k) e

pub on-then_thrown {ℓ κ} :
    {J : Type 0} {A : Type ℓ} {B : Type κ} (i : ℕ) (m : Action Stream A)
    (k : A → Action (World J) B) (w : World J) {e : Exception} {s : Stream}
    → m (w.sockets i) ≡ thrown e s
    → (on i m >>= k) w ≡ thrown e (put_socket i s w)
on-then_thrown i m k w e = ap (λ o. bind (settle i w o) k) e

pub frames-append : (xs bs : List Bytes) → frames (xs ++ bs) ≡ frames xs ++ frames bs
unfolding frames
frames-append [] bs = refl
frames-append (a ∷ xs) bs =
    ap (◌++◌ (frame a)) (frames-append xs bs) ∙ sym (append_assoc (frame a) (frames xs) (frames bs))

pub join-append : (xs bs : List Bytes) → join (xs ++ bs) ≡ join xs ++ join bs
unfolding join
join-append [] bs = refl
join-append (a ∷ xs) bs = ap (◌++◌ a) (join-append xs bs) ∙ sym (append_assoc a (join xs) (join bs))

pub All-append : (P : Bytes → Type 0) (xs bs : List Bytes) → All P xs → All P bs → All P (xs ++ bs)
All-append P [] bs ha hb = hb
All-append P (a ∷ xs) bs ha hb = (ha.0, All-append P xs bs ha.1 hb)

pub written-nil : (s : Stream) → written [] s ≡ s
written-nil s = ground (arith, append-nil s.outgoing)

-- The first `n` bytes of two blocks.
pub take_split {ℓ} :
    {A : Type ℓ} (n k : ℕ) (d r : List A)
    → k ≡ min n (length d)
    → take k d ++ take (n - k) r ≡ take n (d ++ r)
unfolding take
take_split n k d r e = elim (dec_le n (length d)) [
  | yes short ↦
      let all : k ≡ n = omega arith in
      let none_left : n - k ≡ 0 = omega arith in
      rw (none_left, all, take-append_le n d r short) (append-nil (take n d))
  | no long ↦
      let all : k ≡ length d = omega arith in
      rw (all, take_all (length d) d (omega arith)) (sym (take-append_ge n d r (omega arith)))
]
