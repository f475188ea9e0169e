-- ===== src/Delivery.antt =====
-- A file on its way: sendFSEntry of src/client/DropFileSendClient.cpp, the transfer loop of
-- src/server/ServerSideClientSession.cpp and receiveFileImpl of src/client/DropFileReceiveClient.cpp,
-- each on what the one before it has written.
pub mod Metadata
pub mod Session
pub mod EndToEnd
use drop_file.Socket.{ack}
use drop_file.Socket.Framing.{frames, IsChunk, frame, join}
use drop_file.Json.{JsonLib}
use drop_file.Network.{Net, Stream}
use drop_file.Common.{
  ℕ, suc, ◌-◌, ◌*◌, ◌≤◌, ◌≡◌, refl, sym, ap, ◌∙◌, ◌≢◌, true, false, none, some, List, [], ◌∷◌, ◌++◌,
  append-nil, arith, Bytes, length, drop, length-append, All, take_all, drop_front,
}
use drop_file.Outcome.{◌>>◌, settled, Action, done}
use drop_file.ServerSideClientSession.Transfer.{IsLegal, transfer_lem}
use drop_file.DropFileSendClient.Sends.{send_fs_entry_lem}
use drop_file.DropFileReceiveClient.{receive_file_impl, Client, exists}
use drop_file.DropFileReceiveClient.Stores.{receive_file_impl_lem}
use drop_file.ServerSideClientSession.{transfer, World, put_socket}
use drop_file.DropFileSendClient.{send_fs_entry, Sending, Readsome}
use drop_file.ServerSideClientSession.Sockets.{sockets-put_self, sockets-put_other}

-- What was written since.
abbrev pub since : Stream → Stream → Bytes
since before after = drop (length before.outgoing) after.outgoing

abbrev pub hears : Bytes → Stream → Stream
hears d s = record s { incoming = d }

-- The sending client, the server and the receiving client.
pub record Route (J : Type 0) : Type 0 where
  pub sending : Sending
  pub world : World J
  pub receiving : Client

module _ {J : Type 0} where
  abbrev pub at_sender {ℓ} : {A : Type ℓ} → Action Sending A → Action (Route J) A
  at_sender m r = settled (λ s. record r { sending = s }) (m r.sending)

  abbrev pub at_server {ℓ} : {A : Type ℓ} → Action (World J) A → Action (Route J) A
  at_server m r = settled (λ w. record r { world = w }) (m r.world)

  abbrev pub at_receiver {ℓ} : {A : Type ℓ} → Action Client A → Action (Route J) A
  at_receiver m r = settled (λ c. record r { receiving = c }) (m r.receiving)

  -- What the sending client has written since `r` arrives at the server, and what the server has
  -- written since `r` at the receiving client.
  abbrev pub to_server : ℕ → Route J → Action (Route J) (Unit {0})
  to_server sender r q =
      let heard = since r.sending.socket q.sending.socket in
      done tt
        (record q { world = put_socket sender (hears heard (q.world.sockets sender)) q.world })

  abbrev pub to_receiver : ℕ → Route J → Action (Route J) (Unit {0})
  to_receiver receiver r q =
      let heard = since (r.world.sockets receiver) (q.world.sockets receiver) in
      let c = q.receiving in
      done tt (record q { receiving = record c { socket = hears heard c.socket } })

module _ {J : Type 0} (net : Net) (json : JsonLib J) (available : Readsome)
    (receiver sender : ℕ) where
  -- The announced size is that of the file. As many rounds as it has bytes, and one, are given.
  unfoldable pub deliver : Bytes → Action (Route J) (Unit {0})
  deliver path r =
      let size = length r.sending.file in
      (at_sender (send_fs_entry net available (suc size))
          >> (to_server sender r
              >> (at_server (transfer net json size receiver sender size 0)
                  >> (to_receiver receiver r
                      >> at_receiver (receive_file_impl net size path size)))))
        r

  pub length-join : (ds : List Bytes) → All IsChunk ds → length ds ≤ length (join ds)
  unfolding join
  length-join [] h = omega arith
  length-join (d ∷ ds) h = omega (arith, h.0.0, length-append d (join ds), length-join ds h.1)

  pub IsChunk→IsLegal : (ds : List Bytes) → All IsChunk ds → All IsLegal ds
  IsChunk→IsLegal [] h = tt
  IsChunk→IsLegal (d ∷ ds) h = (h.0.1, IsChunk→IsLegal ds h.1)

  pub since_written : (a b : Stream) (d : Bytes) → b.outgoing ≡ a.outgoing ++ d → since a b ≡ d
  since_written a b d e =
      ap (drop (length a.outgoing)) e ∙ drop_front a.outgoing d (length a.outgoing) refl

  -- The server passes a whole file on, as chunks again.
  relay_lem :
      (file : Bytes) (ds : List Bytes) (w : World J)
      → receiver ≢ sender
      → (w.sockets sender).incoming ≡ frames ds ++ []
      → All IsChunk ds
      → join ds ≡ file
      → 9 * length file ≤ (w.sockets receiver).room
      → (w' : World J) × (sent : List Bytes) × (transfer net json
            (length file)
            receiver
            sender
            (length file)
            0
            w
          ≡ done tt w')
        × All IsChunk sent
        × (join sent ≡ file)
        × ((w'.sockets receiver).outgoing ≡ (w.sockets receiver).outgoing ++ frames sent)
  relay_lem file ds w apart at chunks_ds whole room =
      let few = length-join ds chunks_ds in
      let size = length file in
      let same : length (join ds) ≡ size = ap length whole in
      let p =
        transfer_lem net json receiver sender apart ds size size 0 [] w
          (IsChunk→IsLegal ds chunks_ds) at (omega arith) (omega arith) (omega arith) in
      (
        p.world,
        p.sent,
        p.ends,
        p.sent_legal,
        p.payload ∙ take_all (size - 0) (join ds) (omega arith) ∙ whole,
        ap (λ x. x.outgoing) p.moved.receiver_side,
      )

  -- A file that sendFSEntry sends, whatever readsome has at hand, is passed on by the transfer loop of
  -- the server and stored by receiveFileImpl: if the sender is acknowledged before and after it, the
  -- sessions differ, there is nothing at the receiver's path, which can be opened, and the connections take what goes over them,
  -- then all three end, and the file at the path holds exactly the bytes that were sent.
  pub deliver_lem :
      (path rest : Bytes) (r : Route J)
      → receiver ≢ sender
      → r.sending.socket.incoming ≡ frame ack ++ (frame ack ++ rest)
      → 9 * length r.sending.file ≤ r.sending.socket.room
      → 9 * length r.sending.file ≤ (r.world.sockets receiver).room
      → exists path r.receiving ≡ some false
      → r.receiving.opens path ≡ true
      → length (frame ack) ≤ r.receiving.socket.room
      → (q : Route J) × (deliver path r ≡ done tt q)
        × (q.receiving.files path ≡ some r.sending.file)
  unfolding deliver
  deliver_lem path rest r apart acks room room_server new opens room_receiver =
      let file = r.sending.file in
      let size = length file in
      let (t, ds, sends, chunks_ds, whole, out, into) =
        send_fs_entry_lem net available (suc size) rest r.sending acks (omega arith) room in
      let heard = since r.sending.socket t.socket in
      let w = put_socket sender (hears heard (r.world.sockets sender)) r.world in
      let kept : w.sockets receiver ≡ r.world.sockets receiver =
        sockets-put_other sender receiver _ r.world apart in
      let at : (w.sockets sender).incoming ≡ frames ds ++ [] =
        ap (λ x. x.incoming) (sockets-put_self sender _ r.world)
        ∙ since_written r.sending.socket t.socket (frames ds) out
        ∙ sym (append-nil (frames ds)) in
      let (w', sent, ends, chunks_sent, stored, passed) =
        relay_lem file ds w apart at chunks_ds whole (omega (arith, ap (λ x. x.room) kept)) in
      let heard_there = since (r.world.sockets receiver) (w'.sockets receiver) in
      let heard_is : heard_there ≡ frames sent ++ [] =
        since_written (r.world.sockets receiver) (w'.sockets receiver) (frames sent)
          (passed ∙ ap (λ x. x.outgoing ++ frames sent) kept)
        ∙ sym (append-nil (frames sent)) in
      let c : Client = record r.receiving { socket = hears heard_there r.receiving.socket } in
      let (client, receives, got) =
        receive_file_impl_lem net path sent size size [] c new opens
          (IsChunk→IsLegal sent chunks_sent) heard_is (omega (arith, ap length stored))
          (omega (arith, ap length stored, length-join sent chunks_sent)) room_receiver in
      (
        record { sending = t; world = w'; receiving = client },
        rw (sends, ends, receives) refl,
        got.file ∙ ap some (take_all size (join sent) (omega (arith, ap length stored)) ∙ stored),
      )
