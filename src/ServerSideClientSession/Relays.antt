-- ===== src/ServerSideClientSession/Relays.antt =====
-- ServerSideClientSession::receiveFile and the session of a receiver around it, when both clients keep
-- to the protocol: what each of them is sent.
use drop_file.Utils.{bytes_to_human_readable-ok}
use drop_file.ServerSideClientSession.Transfer.{IsLegal, Moved, transfer_lem}
use drop_file.ServerSideClientSession.Sockets.{frames-append, sockets-put_self, on-then, on-done}
use drop_file.ServerSideClientSession.{
  Env, handle_first_read, first_read, register_session, serve_receiver, caught, World, put_socket,
  receive_file, field, on, filename_key, file_size_key,
}
use drop_file.Socket.Receive.{left, receive_ack_ok}
use drop_file.Socket.Framing.{
  frames-chunks-ack, written, frames, frame, chunks, join, IsChunk, send_lem, written-written,
}
use drop_file.Socket.{ack, send, send_ack, receive_ack}
use drop_file.Json.{JsonLib}
use drop_file.Network.{Stream, Net}
use drop_file.Outcome.{◌>>◌, done, Action, Outcome}
use drop_file.Result.{ok}
use drop_file.InitSessionMessage.{create, receive_action, action_key, code_words_key}
use drop_file.SessionsManager.{
  find, erase, get_sender_with_metadata, SessionsManager, TimedClientSession,
}
use drop_file.Common.{
  ℕ, ◌+◌, ◌-◌, ◌*◌, ◌≤◌, ◌<◌, ◌≡◌, refl, sym, ap, ◌∙◌, ◌≢◌, some, List, ◌++◌, arith, Bytes,
  bytes_eq, length, take, All,
}

send_ack_lem :
    (net : Net) (s : Stream)
    → length (frame ack) ≤ s.room
    → send_ack net s ≡ done tt (written (frame ack) s)
unfolding send_ack
send_ack_lem net s room =
    send_lem net ack s (omega (arith, ap length frames-chunks-ack))
    ∙ ap (λ d. done tt (written d s)) frames-chunks-ack

-- `sent` went out to the receiver behind the message `t`, both were acknowledged, and `unread` of the
-- sender's messages were not taken.
pub record IsRelay {J : Type 0} (receiver sender : ℕ) (t : Bytes) (sent unread : List Bytes)
    (rest rest_r : Bytes) (w w' : World J) : Type 0 where
  pub manager_kept : w'.manager ≡ w.manager
  pub others_kept : (i : ℕ) → i ≢ receiver → i ≢ sender → w'.sockets i ≡ w.sockets i
  pub receiver_side :
      w'.sockets receiver ≡ left rest_r (written (frames (chunks t ++ sent)) (w.sockets receiver))
  pub sender_side :
      w'.sockets sender
      ≡ left (frames unread ++ rest) (written (frame ack ++ frame ack) (w.sockets sender))

module _ {J : Type 0} (net : Net) (json : JsonLib J) (receiver sender : ℕ)
    (apart : receiver ≢ sender) (t rest_r : Bytes) where
  -- The world in which the transfer starts.
  abbrev greeted : World J → World J
  greeted w =
      let r = written (frames (chunks t)) (w.sockets receiver) in
      put_socket sender (written (frame ack) (w.sockets sender))
        (put_socket receiver (left (frame ack ++ rest_r) r) (put_socket receiver r w))

  sockets-greeted_receiver :
      (w : World J)
      → (greeted w).sockets receiver
        ≡ left (frame ack ++ rest_r) (written (frames (chunks t)) (w.sockets receiver))
  sockets-greeted_receiver w = ground (arith, apart)

  sockets-greeted_sender :
      (w : World J) → (greeted w).sockets sender ≡ written (frame ack) (w.sockets sender)
  sockets-greeted_sender w = ground arith

  sockets-greeted_other :
      (w : World J) (i : ℕ) → i ≢ receiver → i ≢ sender → (greeted w).sockets i ≡ w.sockets i
  sockets-greeted_other w i nr ns = ground arith

  -- The world in which it is over.
  abbrev parted : World J → World J
  parted w =
      put_socket sender (written (frame ack) (w.sockets sender))
        (put_socket receiver (left rest_r (w.sockets receiver)) w)

  sockets-parted_receiver :
      (w : World J) → (parted w).sockets receiver ≡ left rest_r (w.sockets receiver)
  sockets-parted_receiver w = ground (arith, apart)

  sockets-parted_sender :
      (w : World J) → (parted w).sockets sender ≡ written (frame ack) (w.sockets sender)
  sockets-parted_sender w = ground arith

  sockets-parted_other :
      (w : World J) (i : ℕ) → i ≢ receiver → i ≢ sender → (parted w).sockets i ≡ w.sockets i
  sockets-parted_other w i nr ns = ground arith

  -- The whole of receiveFile up to the transfer, and behind it.
  greets :
      {A : Type 0} (k : Action (World J) A) (w : World J)
      → (w.sockets receiver).incoming ≡ frame ack ++ (frame ack ++ rest_r)
      → length (frames (chunks t)) ≤ (w.sockets receiver).room
      → length (frame ack) ≤ (w.sockets sender).room
      → (on receiver (send net t)
            >> (on receiver (receive_ack net) >> (on sender (send_ack net) >> k)))
          w
        ≡ k (greeted w)
  greets k w acks room room_s =
      let r = written (frames (chunks t)) (w.sockets receiver) in
      let w1 = put_socket receiver r w in
      let w2 = put_socket receiver (left (frame ack ++ rest_r) r) w1 in
      let at1 : w1.sockets receiver ≡ r = sockets-put_self receiver r w in
      let at2 : w2.sockets sender ≡ w.sockets sender = ground (arith, apart) in
      on-then receiver (send net t) _ w (send_lem net t (w.sockets receiver) room)
      ∙ on-then receiver (receive_ack net) _ w1
          (rw at1 (receive_ack_ok net (frame ack ++ rest_r) r acks))
      ∙ on-then sender (send_ack net) _ w2 (rw at2 (send_ack_lem net (w.sockets sender) room_s))

  parts :
      (w : World J)
      → (w.sockets receiver).incoming ≡ frame ack ++ rest_r
      → length (frame ack) ≤ (w.sockets sender).room
      → (on receiver (receive_ack net) >> on sender (send_ack net)) w ≡ done tt (parted w)
  parts w acks room_s =
      let w1 = put_socket receiver (left rest_r (w.sockets receiver)) w in
      let at1 : w1.sockets sender ≡ w.sockets sender = ground (arith, apart) in
      on-then receiver (receive_ack net) _ w (receive_ack_ok net rest_r (w.sockets receiver) acks)
      ∙ on-done sender (send_ack net) w1 (rw at1 (send_ack_lem net (w.sockets sender) room_s))

  Moved-IsRelay :
      (sent unread : List Bytes) (rest : Bytes) (w w' : World J)
      → Moved receiver sender sent unread rest (greeted w) w'
      → IsRelay receiver sender t sent unread rest rest_r w (parted w')
  Moved-IsRelay sent unread rest w w' m = record {
    manager_kept = m.manager_kept;
    others_kept = λ i nr ns.
        sockets-parted_other w' i nr ns ∙ m.others_kept i nr ns ∙ sockets-greeted_other w i nr ns;
    receiver_side =
        sockets-parted_receiver w'
        ∙ ap (left rest_r)
            (m.receiver_side ∙ ap (written (frames sent)) (sockets-greeted_receiver w))
        ∙ ap (left rest_r) (
            written-written (frames (chunks t)) (frames sent) (w.sockets receiver)
            ∙ ap (λ d. written d (w.sockets receiver)) (sym (frames-append (chunks t) sent)));
    sender_side =
        sockets-parted_sender w'
        ∙ ap (written (frame ack))
            (m.sender_side ∙ ap (left (frames unread ++ rest)) (sockets-greeted_sender w))
        ∙ ap (left (frames unread ++ rest))
            (written-written (frame ack) (frame ack) (w.sockets sender));
  }

module _ {J : Type 0} (net : Net) (json : JsonLib J) where
  -- The sender's metadata can be shown to a receiver: they are the text `t`, and announce `size`.
  pub record Announces (j : J) (t : Bytes) (size : ℕ) : Type 0 where
    pub dumped : json.dump j ≡ some t
    pub named : (name : Bytes) × (field net json json.get_string filename_key j ≡ some name)
    pub sized : field net json json.get_size file_size_key j ≡ some size
    pub not_empty : 0 < size

  -- Both clients keep to the protocol: the receiver acknowledges twice, and the sender writes messages
  -- of at most a buffer that hold the announced bytes, and their connections take what goes over them.
  pub record IsProtocol (fuel receiver sender : ℕ) (t : Bytes) (size : ℕ) (ds : List Bytes)
      (rest rest_r : Bytes) (w : World J) : Type 0 where
    pub acknowledged : (w.sockets receiver).incoming ≡ frame ack ++ (frame ack ++ rest_r)
    pub messages : (w.sockets sender).incoming ≡ frames ds ++ rest
    pub legal : All IsLegal ds
    pub enough : size ≤ length (join ds)
    pub rounds : length ds ≤ fuel
    pub room_receiver :
        length (frames (chunks t)) + size + 8 * length ds ≤ (w.sockets receiver).room
    pub room_sender : length (frame ack) + length (frame ack) ≤ (w.sockets sender).room

  -- A computation ends normally, with the first `size` bytes of the sender's messages relayed.
  abbrev pub Relayed :
      ℕ
      → ℕ
      → Bytes
      → ℕ
      → List Bytes
      → Bytes
      → Bytes
      → World J
      → Outcome (World J) (Unit {0})
      → Type 0
  Relayed receiver sender t size ds rest rest_r w o =
      (w' : World J) × (sent : List Bytes) × (used : List Bytes) × (unread : List Bytes) × (o
        ≡ done tt w')
      × IsRelay receiver sender t sent unread rest rest_r w w'
      × (join sent ≡ take size (join ds))
      × All IsChunk sent
      × (ds ≡ used ++ unread)

  pub receive_file_lem :
      (fuel receiver sender : ℕ) (j : J) (t : Bytes) (size : ℕ) (ds : List Bytes)
      (rest rest_r : Bytes) (w : World J)
      → receiver ≢ sender
      → Announces j t size
      → IsProtocol fuel receiver sender t size ds rest rest_r w
      → Relayed receiver sender t size ds rest rest_r w
          (receive_file net json fuel receiver sender j w)
  unfolding receive_file
  receive_file_lem fuel receiver sender j t size ds rest rest_r w apart a p =
      let g = greeted net json receiver sender apart t rest_r w in
      let at_receiver = sockets-greeted_receiver net json receiver sender apart t rest_r w in
      let at_sender = sockets-greeted_sender net json receiver sender apart t rest_r w in
      let (text_of, shown) = bytes_to_human_readable-ok net.format_number size a.not_empty in
      let (name, name_is) = a.named in
      let whole : size - 0 ≡ size = omega arith in
      let r =
        transfer_lem net json receiver sender apart ds fuel size 0 rest g p.legal
          (ap (λ s. s.incoming) at_sender ∙ p.messages) (omega (arith, p.enough)) p.rounds
          (omega (arith, p.room_receiver, ap (λ s. s.room) at_receiver)) in
      (
        parted net json receiver sender apart t rest_r r.world,
        r.sent,
        r.used,
        r.unread,
        rw a.dumped (
            greets net json receiver sender apart t rest_r _ w p.acknowledged
              (omega (arith, p.room_receiver)) (omega (arith, p.room_sender))
            ∙ rw (name_is, a.sized, shown, r.ends)
                (parts net json receiver sender apart t rest_r r.world
                  (ap (λ s. s.incoming) (r.moved.receiver_side) ∙ ap (λ s. s.incoming) at_receiver)
                  (omega (
                    arith,
                    p.room_sender,
                    ap (λ s. s.room) r.moved.sender_side,
                    ap (λ s. s.room) at_sender,
                  )))),
        Moved-IsRelay net json receiver sender apart t rest_r r.sent r.unread rest w r.world
            r.moved,
        r.payload ∙ ap (λ k. take k (join ds)) whole,
        r.sent_legal,
        r.split,
      )

  -- What a session manager is without a code.
  abbrev pub without : Bytes → SessionsManager J → SessionsManager J
  without code m = record m { senders_sessions = erase code m.senders_sessions }

  -- A first message with the code of a waiting sender: its handler ends normally, the code is taken,
  -- the receiver is sent the sender's metadata and then the first announced bytes of what the sender
  -- writes, both are acknowledged to the sender, and nothing else changes, if both clients keep to the
  -- protocol.
  pub handle_first_read_lem :
      (env : Env) (fuel this : ℕ) (content code : Bytes) (q : J) (m : SessionsManager J)
      (e : TimedClientSession J) (t : Bytes) (size : ℕ) (ds : List Bytes) (rest rest_r : Bytes)
      (w : World J)
      → create json content ≡ ok q
      → field net json json.get_string action_key q ≡ some receive_action
      → field net json json.get_string code_words_key q ≡ some code
      → w.manager ≡ some m
      → find code m.senders_sessions ≡ some e
      → this ≢ e.client_session
      → Announces e.session_data t size
      → IsProtocol fuel this e.client_session t size ds rest rest_r w
      → Relayed this e.client_session t size ds rest rest_r
          (record w { manager = some (without code m) })
          (handle_first_read net json env fuel this content w)
  unfolding handle_first_read first_read register_session serve_receiver get_sender_with_metadata
      caught bytes_eq
  handle_first_read_lem env fuel this content code q m e t size ds rest rest_r w made is_receive
        has_code there waits apart a p =
      let w1 : World J = record w { manager = some (without code m) } in
      let at : IsProtocol fuel this e.client_session t size ds rest rest_r w1 = record {
        acknowledged = p.acknowledged;
        messages = p.messages;
        legal = p.legal;
        enough = p.enough;
        rounds = p.rounds;
        room_receiver = p.room_receiver;
        room_sender = p.room_sender;
      } in
      let (w', sent, used, unread, ends, relay, payload, legal, split) =
        receive_file_lem fuel this e.client_session e.session_data t size ds rest rest_r w1 apart a
          at in
      (
        w',
        sent,
        used,
        unread,
        rw (made, is_receive, there, is_receive, has_code, waits, ends) refl,
        relay,
        payload,
        legal,
        split,
      )
