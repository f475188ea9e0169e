-- ===== src/Delivery/Session.antt =====
-- A whole session: a file that sendFSEntry sends goes through handleFirstRead of the receiver's session
-- at the server to receiveFile of the receiving client, each on what the others write to it.
use drop_file.Delivery.{
  Route, at_sender, at_server, at_receiver, to_server, to_receiver, hears, since, since_written,
  length-join, IsChunk→IsLegal,
}
use drop_file.Delivery.Metadata.{chunks-one, metadata, metadata-Announces, metadata-Offers}
use drop_file.DropFileReceiveClient.{exists, abort}
use drop_file.DropFileReceiveClient.Confirmation.{is_yes}
use drop_file.DropFileReceiveClient.Receives.{Stored, receive_and_validate-Stored}
use drop_file.DropFileReceiveClient.Whole.{Machine, receive_path, receive_and_validate}
use drop_file.DropFileSendClient.{send_fs_entry, Readsome}
use drop_file.DropFileSendClient.Sends.{send_fs_entry_lem}
use drop_file.InitSessionMessage.{
  create_receive_message, receive_fields, receive_action, action_key, code_words_key,
}
use drop_file.InitSessionMessage.RoundTrip.{create-create_receive_message, string_at-object}
use drop_file.Json.{JsonLib, assigned}
use drop_file.Network.{Net}
use drop_file.Outcome.{Action, Ensures, Ensures-settled, ◌>>◌, ◌>>=◌}
use drop_file.ServerSideClientSession.{Env, World, put_socket, handle_first_read}
use drop_file.ServerSideClientSession.Relays.{IsProtocol, handle_first_read_lem, without}
use drop_file.ServerSideClientSession.Sockets.{sockets-put_self, sockets-put_other}
use drop_file.SessionsManager.{SessionsManager, find}
use drop_file.Socket.{ack}
use drop_file.Socket.Framing.{frame, frames, chunks, join, IsChunk}
use drop_file.Utils.Hash.{Digest, IsUtilsException}
use drop_file.Common.{
  ℕ, suc, ◌+◌, ◌*◌, ◌^◌, ◌≤◌, ◌<◌, ◌≡◌, ◌≢◌, refl, sym, ap, ◌∙◌, Bool, true, false, some, List, [],
  ◌∷◌, ◌++◌, append-nil, arith, Bytes, bytes_eq, length, take_all, All,
}

module _ {J : Type 0} (net : Net) (json : JsonLib J) (evp : Digest) (machine : Machine) where
  module _ (available : Readsome) (receiver sender : ℕ) where
    -- The sending client, the handler of the receiver's first message, and the receiving client, which
    -- asks for a code. A round is given for each byte of the file.
    unfoldable pub deliver_session : Env → Bytes → Bytes → Action (Route J) (Bool × Bytes)
    deliver_session env code request r =
        let size = length r.sending.file in
        (at_sender (send_fs_entry net available (suc size))
            >> (to_server sender r
                >> (at_server (handle_first_read net json env size receiver request)
                    >> (to_receiver receiver r >>= λ _.
                        at_receiver (receive_and_validate net json evp machine size code)))))
          r

    -- A sender waits at the server under the code, with what it says of its file, which fits the
    -- receiver; both clients will acknowledge, the user agrees, and the connections take what goes
    -- over them.
    pub record IsAgreed (code request filename t : Bytes) (b : Bool) (m : SessionsManager J)
        (now : ℕ) (r : Route J) : Type 0 where
      pub apart : receiver ≢ sender
      pub manager : r.world.manager ≡ some m
      pub waiting :
          find code m.senders_sessions
          ≡ some (record {
            client_session = sender;
            session_data = metadata net json evp machine filename r.sending.file b;
            time_point = now;
          })
      pub dumped : json.dump (metadata net json evp machine filename r.sending.file b) ≡ some t
      pub one_message : IsChunk t
      pub small : length r.sending.file < 2 ^ 64
      pub not_empty : 0 < length r.sending.file
      pub space : ℕ
      pub known : machine.free b ≡ some space
      pub free : length r.sending.file ≤ space
      pub new_name : exists filename r.receiving ≡ some false
      pub new_path : exists (receive_path machine b filename) r.receiving ≡ some false
      pub opens : r.receiving.opens (receive_path machine b filename) ≡ true
      pub requested : json.dump (create_receive_message json code) ≡ some request
      pub agrees : is_yes r.receiving.interaction ≡ true
      pub server_acks : r.sending.socket.incoming ≡ frame ack ++ (frame ack ++ [])
      pub client_acks : (r.world.sockets receiver).incoming ≡ frame ack ++ (frame ack ++ [])
      pub room_sending : 9 * length r.sending.file ≤ r.sending.socket.room
      pub room_sender : length (frame ack) + length (frame ack) ≤ (r.world.sockets sender).room
      pub room_receiver :
          length (frames (chunks t)) + 9 * length r.sending.file ≤ (r.world.sockets receiver).room
      pub room_receiving :
          length (frames (chunks request)) + length (frames (chunks abort)) + 2 * length (frame ack)
          ≤ r.receiving.socket.room

    -- The file is at the receiver, the code is taken, and what was read at each end was written at the
    -- other.
    pub record IsDelivered (code request path : Bytes) (m : SessionsManager J) (r q : Route J)
        : Type 0 where
      pub file : q.receiving.files path ≡ some r.sending.file
      pub others : (p : Bytes) → p ≢ path → q.receiving.files p ≡ r.receiving.files p
      pub taken : q.world.manager ≡ some (without net json code m)
      pub sender_heard :
          (q.world.sockets sender).outgoing
          ≡ (r.world.sockets sender).outgoing ++ (frame ack ++ frame ack)
      pub client_wrote :
          q.receiving.socket.outgoing
          ≡ r.receiving.socket.outgoing ++ (frames (chunks request) ++ (frame ack ++ frame ack))

    -- What the receiving client makes of what the server has sent it.
    receives :
        (code request filename t : Bytes) (b : Bool) (m : SessionsManager J) (now : ℕ) (r : Route J)
        (sent : List Bytes) (q : Route J)
        → IsAgreed code request filename t b m now r
        → q.receiving ≡ record r.receiving { socket = hears (frames (t ∷ sent)) r.receiving.socket }
        → q.world.manager ≡ some (without net json code m)
        → (q.world.sockets sender).outgoing
          ≡ (r.world.sockets sender).outgoing ++ (frame ack ++ frame ack)
        → All IsChunk sent
        → join sent ≡ r.sending.file
        → Ensures IsUtilsException
            (λ p u.
              (p ≡ (b, receive_path machine b filename))
              × IsDelivered code request (receive_path machine b filename) m r u)
            (at_receiver (receive_and_validate net json evp machine (length r.sending.file) code) q)
    unfolding frames
    receives code request filename t b m now r sent q a is taken heard legal whole =
        let file = r.sending.file in
        let path = receive_path machine b filename in
        let tail : frames (t ∷ sent) ≡ frame t ++ (frames sent ++ []) =
          ap (◌++◌ (frame t)) (sym (append-nil (frames sent))) in
        let offers =
          metadata-Offers net json evp machine filename file t b q.receiving a.dumped
            a.one_message.1 a.small a.not_empty a.space a.known a.free
            (ap (λ c. exists filename c) is ∙ a.new_name) (ap (exists path) is ∙ a.new_path)
            (ap (λ c. c.opens path) is ∙ a.opens) in
        let stored =
          receive_and_validate-Stored net json evp machine (length file) t filename file code
            request [] b sent q.receiving offers a.requested (ap (λ c. c.socket.incoming) is ∙ tail)
            (ap (λ c. is_yes c.interaction) is ∙ a.agrees)
            (IsChunk→IsLegal net json available receiver sender sent legal) whole
            (omega
              (arith, ap length whole, length-join net json available receiver sender sent legal))
            (omega (arith, a.room_receiving, ap (λ c. c.socket.room) is)) in
        Ensures-settled IsUtilsException
          (λ p d. (p ≡ (b, path)) × Stored net json evp machine request path file q.receiving d)
          (λ p u. (p ≡ (b, path)) × IsDelivered code request path m r u)
          (λ c. record q { receiving = c }) _ stored
          (λ p d (where_to, k). (
            where_to,
            record {
              file = k.file;
              others = λ x ne. k.others x ne ∙ ap (λ c. c.files x) is;
              taken = taken;
              sender_heard = heard;
              client_wrote =
                  k.wrote
                  ∙ ap
                      (λ c.
                        c.socket.outgoing ++ (frames (chunks request) ++ (frame ack ++ frame ack)))
                      is;
            },
          ))

    -- The session of a receiver at the server, once the file has arrived at it.
    agreed-IsProtocol :
        (code request filename t : Bytes) (b : Bool) (m : SessionsManager J) (now : ℕ) (r : Route J)
        (ds : List Bytes) (w : World J)
        → IsAgreed code request filename t b m now r
        → w.sockets receiver ≡ r.world.sockets receiver
        → w.sockets sender ≡ hears (frames ds) (r.world.sockets sender)
        → All IsChunk ds
        → join ds ≡ r.sending.file
        → IsProtocol net json
            (length r.sending.file)
            receiver
            sender
            t
            (length r.sending.file)
            ds
            []
            []
            w
    agreed-IsProtocol code request filename t b m now r ds w a kept fed legal whole =
        let few = length-join net json available receiver sender ds legal in
        record {
          acknowledged = ap (λ s. s.incoming) kept ∙ a.client_acks;
          messages = ap (λ s. s.incoming) fed ∙ sym (append-nil (frames ds));
          legal = IsChunk→IsLegal net json available receiver sender ds legal;
          enough = omega (arith, ap length whole);
          rounds = omega (arith, ap length whole);
          room_receiver = omega (arith, a.room_receiver, ap length whole, ap (λ s. s.room) kept);
          room_sender = omega (arith, a.room_sender, ap (λ s. s.room) fed);
        }

    -- A file that sendFSEntry sends to a sender's session at the server, a receiver that presents its
    -- code gets in full, if the sender waits under the code with what it says of the file, the
    -- receiver has nothing at the path, can open it and has space, the user agrees, and the connections take what goes over
    -- them: sendFSEntry and the handler of the receiver's first message end, receiveFile ends by a
    -- UtilsException where OpenSSL fails, or behind the check of the hash, and then the file at its
    -- path holds exactly the bytes that were sent, no other file was touched, and the code is taken.
    -- What each end reads is what the other wrote.
    pub deliver_session_lem :
        (env : Env) (code request filename t : Bytes) (b : Bool) (m : SessionsManager J) (now : ℕ)
        (r : Route J)
        → IsAgreed code request filename t b m now r
        → Ensures IsUtilsException
            (λ p q.
              (p ≡ (b, receive_path machine b filename))
              × IsDelivered code request (receive_path machine b filename) m r q)
            (deliver_session env code request r)
    unfolding deliver_session create_receive_message assigned bytes_eq
    deliver_session_lem env code request filename t b m now r a =
        let file = r.sending.file in
        let size = length file in
        let request_json = create_receive_message json code in
        let (s, ds, sends, chunks_ds, whole, out, into) =
          send_fs_entry_lem net available (suc size) [] r.sending a.server_acks (omega arith)
            a.room_sending in
        let w =
          put_socket sender (hears (since r.sending.socket s.socket) (r.world.sockets sender))
            r.world in
        let kept : w.sockets receiver ≡ r.world.sockets receiver =
          sockets-put_other sender receiver _ r.world a.apart in
        let fed : w.sockets sender ≡ hears (frames ds) (r.world.sockets sender) =
          sockets-put_self sender _ r.world
          ∙ ap (λ d. hears d (r.world.sockets sender))
              (since_written net json available receiver sender r.sending.socket s.socket
                (frames ds) out) in
        let (w', sent, used, unread, ends, relay, payload, legal, split) =
          handle_first_read_lem net json env size receiver request code request_json m
            (record {
              client_session = sender;
              session_data = metadata net json evp machine filename file b;
              time_point = now;
            })
            t size ds [] [] w (create-create_receive_message json code request a.requested)
            (string_at-object json action_key (receive_fields json code) receive_action refl)
            (string_at-object json code_words_key (receive_fields json code) code refl) a.manager
            a.waiting a.apart
            (metadata-Announces net json evp machine filename file t b a.dumped a.small a.not_empty)
            (agreed-IsProtocol code request filename t b m now r ds w a kept fed chunks_ds whole) in
        let passed : since (r.world.sockets receiver) (w'.sockets receiver) ≡ frames (t ∷ sent) =
          since_written net json available receiver sender (r.world.sockets receiver)
            (w'.sockets receiver) (frames (t ∷ sent))
            (ap (λ x. x.outgoing) relay.receiver_side
              ∙ ap (λ x. x.outgoing ++ frames (chunks t ++ sent)) kept
              ∙ ap (λ x. (r.world.sockets receiver).outgoing ++ frames (x ++ sent))
                  (chunks-one t a.one_message)) in
        rw (sends, ends)
          (receives code request filename t b m now r sent _ a
            (ap (λ d. record r.receiving { socket = hears d r.receiving.socket }) passed)
            relay.manager_kept
            (ap (λ x. x.outgoing) relay.sender_side
              ∙ ap (λ x. x.outgoing ++ (frame ack ++ frame ack)) fed)
            legal (payload ∙ take_all size (join ds) (omega (arith, ap length whole)) ∙ whole))
