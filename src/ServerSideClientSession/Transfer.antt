-- ===== src/ServerSideClientSession/Transfer.antt =====
-- The transfer loop of ServerSideClientSession::receiveFile, for any sender.
use drop_file.Common.{
  ℕ, zero, suc, ◌+◌, ◌-◌, ◌*◌, ◌≤◌, ◌<◌, min, ◌≡◌, refl, sym, ap, ◌∙◌, ◌≢◌, List, [], ◌∷◌, ◌++◌,
  append_assoc, arith, dec_le, lt→ltb, le→ltb_false, Bytes, length, take, length-append, All,
  length-take,
}
use drop_file.Outcome.{done}
use drop_file.Network.{Net}
use drop_file.Socket.Framing.{
  join-chunks, chunks-IsChunk, IsChunk, length-frames-chunks_le, join, frames, frame, chunks,
  written, send_lem, written-written,
}
use drop_file.Socket.Receive.{left, receive_lem}
use drop_file.Socket.{buffer_size, send, receive}
use drop_file.ServerSideClientSession.Sockets.{
  All-append, take_split, join-append, written-nil, on-then, sockets-put_self, sockets-put_other,
  frames-append,
}
use drop_file.ServerSideClientSession.{pass_on, World, put_socket, transfer}
use drop_file.Json.{JsonLib}

abbrev pub IsLegal : Bytes → Type 0
IsLegal d = length d ≤ buffer_size

-- `sent` went out to the receiver, `unread` of the sender's messages were not taken, and nothing
-- else in the world changed.
pub record Moved {J : Type 0} (receiver sender : ℕ) (sent unread : List Bytes) (rest : Bytes)
    (w w' : World J) : Type 0 where
  pub manager_kept : w'.manager ≡ w.manager
  pub others_kept : (i : ℕ) → i ≢ receiver → i ≢ sender → w'.sockets i ≡ w.sockets i
  pub receiver_side : w'.sockets receiver ≡ written (frames sent) (w.sockets receiver)
  pub sender_side : w'.sockets sender ≡ left (frames unread ++ rest) (w.sockets sender)

module _ {J : Type 0} (net : Net) (json : JsonLib J) (receiver sender : ℕ)
    (apart : receiver ≢ sender) where
  transfer_stop :
      (fuel expected total : ℕ) (w : World J)
      → expected ≤ total
      → transfer net json fuel receiver sender expected total w ≡ done tt w
  unfolding transfer
  transfer_stop zero expected total w h = rw (le→ltb_false total expected h)
  transfer_stop (suc fuel) expected total w h = rw (le→ltb_false total expected h)

  abbrev received : Bytes → World J → World J
  received rest w = put_socket sender (left rest (w.sockets sender)) w

  abbrev forwarded : Bytes → Bytes → World J → World J
  forwarded c rest w =
      put_socket receiver (written (frames (chunks c)) (w.sockets receiver)) (received rest w)

  -- One round: a message is received, and the part of it that is still expected is sent on.
  transfer_round :
      (fuel expected total k : ℕ) (d rest : Bytes) (w : World J)
      → total < expected
      → (w.sockets sender).incoming ≡ frame d ++ rest
      → IsLegal d
      → k ≡ min (expected - total) (length d)
      → length (frames (chunks (take k d))) ≤ (w.sockets receiver).room
      → transfer net json (suc fuel) receiver sender expected total w
        ≡ transfer net json fuel receiver sender expected (total + k) (forwarded (take k d) rest w)
  unfolding transfer
  transfer_round fuel expected total k d rest w more e legal ke room =
      let heard : (received rest w).sockets receiver ≡ w.sockets receiver =
        sockets-put_other sender receiver (left rest (w.sockets sender)) w apart in
      let again = transfer net json fuel receiver sender expected in
      rw (lt→ltb total expected more) (
        on-then sender (receive net) (pass_on net json again receiver expected total) w
          (receive_lem net d rest (w.sockets sender) legal e)
        ∙ rw (← ke) (
            on-then receiver (send net (take k d)) (λ _. again (total + k)) (received rest w)
              (rw heard (send_lem net (take k d) (w.sockets receiver) room))))

  forwarded_sender :
      (c rest : Bytes) (w : World J)
      → (forwarded c rest w).sockets sender ≡ left rest (w.sockets sender)
  forwarded_sender c rest w =
      sockets-put_other receiver sender _ (received rest w) (λ e. apart (sym e))
      ∙ sockets-put_self sender (left rest (w.sockets sender)) w

  forwarded-Moved :
      (c rest : Bytes) (sent unread : List Bytes) (tail : Bytes) (w w' : World J)
      → Moved receiver sender sent unread tail (forwarded c rest w) w'
      → Moved receiver sender (chunks c ++ sent) unread tail w w'
  forwarded-Moved c rest sent unread tail w w' m = record {
    manager_kept = m.manager_kept;
    others_kept = λ i nr ns. m.others_kept i nr ns ∙ ground arith;
    receiver_side =
        m.receiver_side
        ∙ ap (written (frames sent)) (sockets-put_self receiver _ (received rest w))
        ∙ written-written (frames (chunks c)) (frames sent) (w.sockets receiver)
        ∙ ap (λ x. written x (w.sockets receiver)) (sym (frames-append (chunks c) sent));
    sender_side =
        m.sender_side
        ∙ ap (left (frames unread ++ tail)) (
            sockets-put_other receiver sender _ (received rest w) (λ e. apart (sym e))
            ∙ sockets-put_self sender (left rest (w.sockets sender)) w);
  }

  stopped-Moved :
      (ds : List Bytes) (rest : Bytes) (w : World J)
      → (w.sockets sender).incoming ≡ frames ds ++ rest
      → Moved receiver sender [] ds rest w w
  unfolding frames
  stopped-Moved ds rest w e = record {
    manager_kept = refl;
    others_kept = λ i nr ns. refl;
    receiver_side = sym (written-nil (w.sockets receiver));
    sender_side = ap (λ x. left x (w.sockets sender)) e;
  }

  -- The loop ended in `world`: of the messages `ds` it took `used`, and of their bytes it sent the
  -- first `wanted` on.
  pub record Transferred (fuel expected total : ℕ) (ds : List Bytes) (rest : Bytes) (w : World J)
      : Type 0 where
    pub world : World J
    pub sent : List Bytes
    pub used : List Bytes
    pub unread : List Bytes
    pub ends : transfer net json fuel receiver sender expected total w ≡ done tt world
    pub payload : join sent ≡ take (expected - total) (join ds)
    pub sent_legal : All IsChunk sent
    pub split : ds ≡ used ++ unread
    pub surplus : length (join unread) + (expected - total) ≤ length (join ds)
    pub moved : Moved receiver sender sent unread rest w world

  stopped :
      (ds : List Bytes) (fuel expected total : ℕ) (rest : Bytes) (w : World J)
      → (w.sockets sender).incoming ≡ frames ds ++ rest
      → expected ≤ total
      → Transferred fuel expected total ds rest w
  unfolding join take
  stopped ds fuel expected total rest w e full =
      let none_left : expected - total ≡ 0 = omega arith in
      record {
        world = w;
        sent = [];
        used = [];
        unread = ds;
        ends = transfer_stop fuel expected total w full;
        payload = rw none_left;
        sent_legal = tt;
        split = refl;
        surplus = omega arith;
        moved = stopped-Moved ds rest w e;
      }

  transfer_next :
      (fuel expected total k : ℕ) (d : Bytes) (ds : List Bytes) (rest : Bytes) (w : World J)
      → total < expected
      → (w.sockets sender).incoming ≡ frames (d ∷ ds) ++ rest
      → IsLegal d
      → k ≡ min (expected - total) (length d)
      → k + 8 ≤ (w.sockets receiver).room
      → Transferred fuel expected (total + k) ds rest (forwarded (take k d) (frames ds ++ rest) w)
      → Transferred (suc fuel) expected total (d ∷ ds) rest w
  unfolding frames join
  transfer_next fuel expected total k d ds rest w more e legal ke room r =
      let c = take k d in
      let len : length c ≡ k = omega (arith, length-take k d) in
      let small : IsLegal c = omega arith in
      record {
        world = r.world;
        sent = chunks c ++ r.sent;
        used = d ∷ r.used;
        unread = r.unread;
        ends =
            transfer_round fuel expected total k d (frames ds ++ rest) w more
              (e ∙ append_assoc (frame d) (frames ds) rest) legal ke
              (omega (arith, length-frames-chunks_le c small))
            ∙ r.ends;
        payload =
            join-append (chunks c) r.sent
            ∙ rw (join-chunks c, r.payload, sub_sub)
                (take_split (expected - total) k d (join ds) ke);
        sent_legal = All-append IsChunk (chunks c) r.sent (chunks-IsChunk c) r.sent_legal;
        split = ap (◌∷◌ d) r.split;
        surplus = omega (arith, r.surplus, length-append d (join ds));
        moved = forwarded-Moved c (frames ds ++ rest) r.sent r.unread rest w r.world r.moved;
      }
    where
      sub_sub : expected - (total + k) ≡ expected - total - k
      sub_sub = omega arith

  -- Whatever messages of at most a buffer the sender writes, empty ones and ones too many included:
  -- as long as they hold the bytes that are still expected and the receiver's connection takes them,
  -- the loop ends within one round for each message, the receiver is sent exactly the first expected
  -- bytes of them, and nothing else in the world changes.
  pub transfer_lem :
      (ds : List Bytes) (fuel expected total : ℕ) (rest : Bytes) (w : World J)
      → All IsLegal ds
      → (w.sockets sender).incoming ≡ frames ds ++ rest
      → expected ≤ total + length (join ds)
      → length ds ≤ fuel
      → expected - total + 8 * length ds ≤ (w.sockets receiver).room
      → Transferred fuel expected total ds rest w
  unfolding join frames
  transfer_lem [] fuel expected total rest w legal e enough rounds room =
      stopped [] fuel expected total rest w e (omega arith)
  transfer_lem (d ∷ ds) zero expected total rest w legal e enough rounds room = absurd (omega arith)
  transfer_lem (d ∷ ds) (suc fuel) expected total rest w legal e enough rounds room =
      elim (dec_le expected total) [
        | yes full ↦ stopped (d ∷ ds) (suc fuel) expected total rest w e full
        | no more ↦
            let k = min (expected - total) (length d) in
            let w1 = forwarded (take k d) (frames ds ++ rest) w in
            let len : length (take k d) ≡ k = omega (arith, length-take k d) in
            let sender_is : w1.sockets sender ≡ left (frames ds ++ rest) (w.sockets sender) =
              forwarded_sender (take k d) (frames ds ++ rest) w in
            let receiver_is : w1.sockets receiver
                ≡ written (frames (chunks (take k d))) (w.sockets receiver) =
              sockets-put_self receiver _ (received (frames ds ++ rest) w) in
            transfer_next fuel expected total k d ds rest w (omega arith) e legal.0 refl
              (omega arith)
              (transfer_lem ds fuel expected (total + k) rest w1 legal.1
                (ap (λ x. x.incoming) sender_is) (omega (arith, length-append d (join ds)))
                (omega arith)
                (omega (
                  arith,
                  ap (λ x. x.room) receiver_is,
                  length-frames-chunks_le (take k d) (omega arith),
                )))
      ]
