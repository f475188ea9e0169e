-- ===== src/Socket/Disconnect.antt =====
-- How SocketBase::send and safeDisconnect end, whatever the connection does.
use mathlib.Core.WellFounded.{Acc}
use mathlib.Core.Logic.{dif_pos, dif_neg}
use native.Mathlib.Bridge.{le_prop}
use drop_file.Common.{
  ℕ, ◌-◌, ◌+◌, ◌<◌, ◌≡◌, refl, ◌∙◌, Bytes, ◌++◌, length, take, drop, ltb, dec_le, Option, none,
  some, arith, Bool-cases, inl, inr,
}
use drop_file.Common.Order.{lt_wf}
use drop_file.Outcome.{Outcome, Action, done, thrown, unfinished, system_error, bind}
use drop_file.Network.{Net, Stream}
use drop_file.Socket.Header.{le_bytes, header_size}
use drop_file.Socket.{
  sub_smaller, buffer_size, send_chunk, send_loop, send, disconnect, safe_disconnect,
}

-- A write from `s` ends normally or, with the connection broken, by a system_error. It reads nothing.
abbrev pub Wrote : Stream → Outcome Stream (Unit {0}) → Type 0
Wrote s (done _ t) = t.incoming ≡ s.incoming
Wrote s (thrown e t) = (e ≡ system_error) × (t.room ≡ 0) × (t.incoming ≡ s.incoming)
Wrote s unfinished = ⊥

Wrote-bind :
    (s : Stream) (o : Outcome Stream (Unit {0})) (k : Action Stream (Unit {0}))
    → Wrote s o
    → ((t : Stream) → t.incoming ≡ s.incoming → Wrote s (k t))
    → Wrote s (bind o (λ _. k))
Wrote-bind s (done _ t) k h f = f t h
Wrote-bind s (thrown e t) k h f = h
Wrote-bind s unfinished k h f = h

Wrote-from :
    (s t : Stream) (o : Outcome Stream (Unit {0})) → t.incoming ≡ s.incoming → Wrote t o → Wrote s o
Wrote-from s t (done _ u) e h = h ∙ e
Wrote-from s t (thrown x u) e h = (h.0, h.1, h.2 ∙ e)
Wrote-from s t unfinished e h = h

module _ (net : Net) where
  send_chunk-Wrote : (d : Bytes) (s : Stream) → Wrote s (send_chunk net d s)
  unfolding send_chunk
  send_chunk-Wrote d s =
      let block = le_bytes header_size (length d) ++ d in
      elim (dec_le (length block) s.room) [
        | yes h ↦ rw (net.write_fits block s h) refl
        | no h ↦ rw (net.write_breaks block s (omega arith)) (refl, refl, refl)
      ]

  send_loop-Wrote :
      (d : Bytes) (len cur : ℕ) (w : Acc ◌<◌ len) (s : Stream)
      → Wrote s (send_loop net d len cur w s)
  unfolding send_loop
  send_loop-Wrote d len cur (Acc.intro _ smaller) s = elim (dec_le buffer_size len) [
    | yes h ↦ rw (dif_pos (dec_le buffer_size len) le_prop h _ _) (
        Wrote-bind s (send_chunk net (take buffer_size (drop cur d)) s) _
          (send_chunk-Wrote (take buffer_size (drop cur d)) s)
          (λ t e. Wrote-from s t _ e (
            send_loop-Wrote d (len - buffer_size) (cur + buffer_size)
              (smaller (len - buffer_size) (sub_smaller len h)) t)))
    | no h ↦ rw (dif_neg (dec_le buffer_size len) h _ _) (elim (Bool-cases (ltb 0 len)) [
      | inl e ↦ rw e (send_chunk-Wrote (take len (drop cur d)) s)
      | inr e ↦ rw e refl
    ])
  ]

  -- On a connection that breaks where it takes no more, `send` ends; it reads nothing and throws only
  -- a system_error.
  pub send-Wrote : (d : Bytes) (s : Stream) → Wrote s (send net d s)
  unfolding send
  send-Wrote d s = send_loop-Wrote d (length d) 0 (lt_wf.apply (length d)) s

  -- safeDisconnect ends without an exception on a connection that takes nothing more.
  pub safe_disconnect_lem :
      (m : Option Bytes) (s : Stream)
      → (t : Stream) × (safe_disconnect net m s ≡ done tt t)
        × (t.room ≡ 0)
        × (t.incoming ≡ s.incoming)
  unfolding safe_disconnect disconnect
  safe_disconnect_lem none s = elim (net.shutdown_cases s) [
    | inl e ↦ (record s { room = 0 }, rw e, refl, refl)
    | inr e ↦ (record s { room = 0 }, rw e, refl, refl)
  ]
  safe_disconnect_lem (some d) s = go (send net d s) refl (send-Wrote d s)
    where
      go :
          (o : Outcome Stream (Unit {0}))
          → send net d s ≡ o
          → Wrote s o
          → (t : Stream) × (safe_disconnect net (some d) s ≡ done tt t)
            × (t.room ≡ 0)
            × (t.incoming ≡ s.incoming)
      go (done _ t) e h = elim (net.shutdown_cases t) [
        | inl c ↦ (record t { room = 0 }, rw (e, c), refl, h)
        | inr c ↦ (record t { room = 0 }, rw (e, c), refl, h)
      ]
      go (thrown x t) e h = (t, rw e, h.1, h.2)
      go unfinished e h = absurd h
