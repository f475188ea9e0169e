-- ===== src/Delivery/EndToEnd.antt =====
-- A file from end to end: sendFSEntryMetadata of the sending client, the session of the sender at the
-- server, which gives it a code, and then the whole session of a receiver that presents this code.
use drop_file.Delivery.{Route, at_server, hears, since, since_written, to_server}
use drop_file.Delivery.Metadata.{frames-one}
use drop_file.Delivery.Session.{IsAgreed, IsDelivered, deliver_session, deliver_session_lem}
use drop_file.DropFileReceiveClient.{abort, exists}
use drop_file.DropFileReceiveClient.Confirmation.{is_yes}
use drop_file.DropFileReceiveClient.Whole.{Machine, receive_path}
use drop_file.DropFileSendClient.{Readsome, Sending}
use drop_file.DropFileSendClient.Announces.{
  Announced, metadata_of, send_fs_entry_metadata-Announced,
}
use drop_file.DropFileSendClient.Whole.{Machine as SenderMachine, Sender, send_fs_entry_metadata}
use drop_file.DropFileSendClient.Whole.{with_file}
use drop_file.InitSessionMessage.{
  action_key, code_words_key, create, create_receive_message, create_send_message, send_action,
  send_fields,
}
use drop_file.InitSessionMessage.RoundTrip.{create-create_send_message, string_at-object}
use drop_file.Json.{JsonLib, Scalar, assigned}
use drop_file.Network.{Net, Stream}
use drop_file.Outcome.{
  Action, Ensures, Ensures-bind, Ensures-map, Ensures-settled, done, settled, ◌>>=◌, ◌>>◌,
}
use drop_file.RaiiFsEntry.{RaiiFsEntry}
use drop_file.Result.{ok}
use drop_file.ServerSideClientSession.{Env, World, max_first_message_size, put_socket, start}
use drop_file.ServerSideClientSession.Registers.{start-coded}
use drop_file.ServerSideClientSession.Relays.{without}
use drop_file.ServerSideClientSession.Sockets.{sockets-put_self}
use drop_file.InitSessionMessage.Valid.{string_at}
use drop_file.SessionsManager.{SessionsManager, get_sender_with_metadata, register_sender}
use drop_file.SessionsManager.Register.{register_sender_lem}
use drop_file.Socket.{ack, buffer_size}
use drop_file.Socket.Framing.{IsChunk, chunks, frame, frames, written}
use drop_file.Socket.Receive.{left}
use drop_file.Utils.Hash.{Digest, IsUtilsException, binary_to_human_readable}
use drop_file.Zstd.{Library}
use drop_file.Common.{
  ℕ, ◌+◌, ◌*◌, ◌^◌, ◌≤◌, ◌<◌, ◌≡◌, ◌≢◌, refl, sym, ap, ◌∙◌, Bool, true, false, Option, none, some,
  [], ◌∷◌, ◌++◌, append_assoc, append-nil, arith, Bytes, bytes_eq, bytes_eq_refl, length,
}

module _ {J : Type 0} (net : Net) (json : JsonLib J) (evp : Digest) (machine : Machine)
    (sending_machine : SenderMachine) (z : Library) (calls : ℕ) (available : Readsome)
    (receiver sender : ℕ) (files : Bytes → Option Bytes) (path : Bytes) where
  -- The sending client, whose files are `files` and the one that it sends, at `path`.
  abbrev pub sender_of : Sending → Sender
  sender_of s = with_file path s.file (record { socket = s.socket; files = files })

  abbrev pub at_files {ℓ} : {A : Type ℓ} → Action Sender A → Action (Route J) A
  at_files m r =
      settled (λ s. record r { sending = record { socket = s.socket; file = r.sending.file } })
        (m (sender_of r.sending))

  -- The first message of the sender's session is what the client wrote, and its code is what the
  -- receiving client is given.
  unfoldable pub deliver_file : Env → Env → Bytes → Action (Route J) (Bool × Bytes)
  deliver_file sender_env receiver_env request r =
      (at_files (send_fs_entry_metadata sending_machine net json evp z calls path) >>= λ p.
      to_server sender r
      >> (at_server (start net json sender_env 0 sender)
          >> deliver_session net json evp machine available receiver sender receiver_env p.1
              request))
        r

  abbrev pub announcement : Route J → J
  announcement r = metadata_of sending_machine net json evp path r.sending.file

  -- The server gives the sender a code; the file is no directory, and what the client says of it fits a
  -- first message and the receiver; both clients will acknowledge, the user agrees, and the
  -- connections take what goes over them.
  pub record IsPrepared (sender_env : Env) (code request t response : Bytes)
      (m n : SessionsManager J) (r : Route J) : Type 0 where
    pub apart : receiver ≢ sender
    pub manager : r.world.manager ≡ some m
    pub plain : sending_machine.directory path (sender_of r.sending) ≡ none
    pub there : sending_machine.exists path (sender_of r.sending) ≡ true
    pub dumped : json.dump (announcement r) ≡ some t
    pub one_message : 1 ≤ length t
    pub short : length t ≤ max_first_message_size
    pub registers :
        register_sender net.format_number sender (announcement r) sender_env.now sender_env.draws m
        ≡ done code n
    pub answers :
        json.dump (json.object ((code_words_key, Scalar.string code) ∷ [])) ≡ some response
    pub one_answer : IsChunk response
    pub requested : json.dump (create_receive_message json code) ≡ some request
    pub small : length r.sending.file < 2 ^ 64
    pub not_empty : 0 < length r.sending.file
    pub space : ℕ
    pub known : machine.free false ≡ some space
    pub free : length r.sending.file ≤ space
    pub new_name : exists (sending_machine.filename path) r.receiving ≡ some false
    pub new_path :
        exists (receive_path machine false (sending_machine.filename path)) r.receiving ≡ some false
    pub opens :
        r.receiving.opens (receive_path machine false (sending_machine.filename path)) ≡ true
    pub agrees : is_yes r.receiving.interaction ≡ true
    pub server_writes :
        r.sending.socket.incoming ≡ frame response ++ (frame ack ++ (frame ack ++ []))
    pub client_acks : (r.world.sockets receiver).incoming ≡ frame ack ++ (frame ack ++ [])
    pub room_sending :
        length (frames (chunks t)) + 9 * length r.sending.file ≤ r.sending.socket.room
    pub room_sender :
        length (frames (chunks response)) + length (frame ack) + length (frame ack)
        ≤ (r.world.sockets sender).room
    pub room_receiver :
        length (frames (chunks t)) + 9 * length r.sending.file ≤ (r.world.sockets receiver).room
    pub room_receiving :
        length (frames (chunks request)) + length (frames (chunks abort)) + 2 * length (frame ack)
        ≤ r.receiving.socket.room

  -- The file is at the receiver, the manager as it was, and what each end read was written at the
  -- other.
  pub record IsCompleted (request response target : Bytes) (m : SessionsManager J) (r q : Route J)
      : Type 0 where
    pub file : q.receiving.files target ≡ some r.sending.file
    pub others : (p : Bytes) → p ≢ target → q.receiving.files p ≡ r.receiving.files p
    pub manager_back : q.world.manager ≡ some m
    pub sender_heard :
        (q.world.sockets sender).outgoing
        ≡ (r.world.sockets sender).outgoing ++ (frame response ++ (frame ack ++ frame ack))
    pub client_wrote :
        q.receiving.socket.outgoing
        ≡ r.receiving.socket.outgoing ++ (frames (chunks request) ++ (frame ack ++ frame ack))

  module _ (sender_env : Env) (code request t response : Bytes) (m n : SessionsManager J)
      (r : Route J) (a : IsPrepared sender_env code request t response m n r) where
    -- The client behind its message, the server when it has read it, and the server when it has
    -- answered.
    abbrev announced_socket : Stream
    announced_socket =
        left (frame ack ++ (frame ack ++ [])) (written (frames (chunks t)) r.sending.socket)

    abbrev told : World J
    told = put_socket sender (hears (frame t ++ []) (r.world.sockets sender)) r.world

    abbrev read : World J
    read = put_socket sender (left [] (told.sockets sender)) told

    abbrev answered : World J
    answered =
        put_socket sender (written (frames (chunks response)) (read.sockets sender))
          (record read { manager = some n })

    abbrev waiting : Route J
    waiting = record {
      sending = record { socket = announced_socket; file = r.sending.file };
      world = answered;
      receiving = r.receiving;
    }

    sockets-answered_self :
        answered.sockets sender
        ≡ left [] (written (frames (chunks response)) (r.world.sockets sender))
    sockets-answered_self = ground arith

    sockets-answered_other : answered.sockets receiver ≡ r.world.sockets receiver
    sockets-answered_other = ground (arith, a.apart)

    fits : IsChunk t
    unfolding buffer_size
    fits = (a.one_message, omega (arith, a.short))

    waiting-IsAgreed :
        IsAgreed net json evp machine available receiver sender code request
          (sending_machine.filename path)
          t
          false
          n
          sender_env.now
          waiting
    waiting-IsAgreed =
        let r' =
          register_sender_lem net.format_number sender (announcement r) sender_env.now
            sender_env.draws m n code a.registers in
        record {
          apart = a.apart;
          manager = refl;
          waiting = r'.stored;
          dumped = a.dumped;
          one_message = fits;
          small = a.small;
          not_empty = a.not_empty;
          space = a.space;
          known = a.known;
          free = a.free;
          new_name = a.new_name;
          new_path = a.new_path;
          opens = a.opens;
          requested = a.requested;
          agrees = a.agrees;
          server_acks = refl;
          client_acks = ap (λ s. s.incoming) sockets-answered_other ∙ a.client_acks;
          room_sending = omega (arith, a.room_sending);
          room_sender = omega (arith, a.room_sender, ap (λ s. s.room) sockets-answered_self);
          room_receiver = omega (arith, a.room_receiver, ap (λ s. s.room) sockets-answered_other);
          room_receiving = a.room_receiving;
        }

    -- Taking the sender undoes its registration.
    without-registered : without net json code n ≡ m
    unfolding get_sender_with_metadata
    without-registered =
        let r' =
          register_sender_lem net.format_number sender (announcement r) sender_env.now
            sender_env.draws m n code a.registers in
        let k = rw r'.stored at r'.taken_back in cc

    delivered-IsCompleted :
        (q : Route J)
        → IsDelivered net json evp machine available receiver sender code request
            (receive_path machine false (sending_machine.filename path))
            n
            waiting
            q
        → IsCompleted request response
            (receive_path machine false (sending_machine.filename path))
            m
            r
            q
    delivered-IsCompleted q d = record {
      file = d.file;
      others = d.others;
      manager_back = d.taken ∙ ap some without-registered;
      sender_heard =
          d.sender_heard
          ∙ ap (λ s. s.outgoing ++ (frame ack ++ frame ack)) sockets-answered_self
          ∙ ap (λ x. ((r.world.sockets sender).outgoing ++ x) ++ (frame ack ++ frame ack))
              (frames-one response a.one_answer)
          ∙ append_assoc (r.world.sockets sender).outgoing (frame response)
              (frame ack ++ frame ack);
      client_wrote = d.client_wrote;
    }

    announcement-created : create json t ≡ ok (announcement r)
    unfolding create_send_message
    announcement-created =
        create-create_send_message json path true (sending_machine.filename path)
          (length r.sending.file) (ok (binary_to_human_readable (evp.digest r.sending.file))) false
          (announcement r) t a.small refl a.dumped

    announcement-sends : string_at json action_key (announcement r) ≡ some send_action
    unfolding assigned bytes_eq
    announcement-sends =
        string_at-object json action_key
          (send_fields json (sending_machine.filename path) (length r.sending.file)
            (binary_to_human_readable (evp.digest r.sending.file)) false)
          send_action refl

    heard_is : since r.sending.socket announced_socket ≡ frame t ++ []
    heard_is =
        since_written net json available receiver sender r.sending.socket announced_socket
          (frames (chunks t)) refl
        ∙ frames-one t fits
        ∙ sym (append-nil (frame t))

    -- The server reads the message and answers it.
    server_starts : start net json sender_env 0 sender told ≡ done tt answered
    server_starts =
        start-coded net json sender_env 0 sender t code response (announcement r) m n
          announcement-created announcement-sends a.registers a.answers [] told
          (ap (λ s. s.incoming)
            (sockets-put_self sender (hears (frame t ++ []) (r.world.sockets sender)) r.world))
          a.short a.manager
          (omega (
            arith,
            a.room_sender,
            ap (λ s. s.room)
                (sockets-put_self sender (hears (frame t ++ []) (r.world.sockets sender)) r.world),
          ))

    abbrev IsSent : RaiiFsEntry × Bytes → Route J → Type 0
    IsSent p q =
        (p ≡ (record { path = path; should_remove = false }, code))
        × (q ≡ record r { sending = record { socket = announced_socket; file = r.sending.file } })

    announces :
        Ensures IsUtilsException IsSent
          (at_files (send_fs_entry_metadata sending_machine net json evp z calls path) r)
    announces =
        let s = sender_of r.sending in
        let acks = frame ack ++ (frame ack ++ []) in
        let holds : s.files path ≡ some r.sending.file = rw (bytes_eq_refl path) refl in
        let room : length (frames (chunks t)) ≤ s.socket.room = omega (arith, a.room_sending) in
        Ensures-settled IsUtilsException
          (Announced sending_machine net json evp path r.sending.file code t response acks s a.there
            holds a.dumped a.answers a.one_answer.1 a.server_writes room)
          IsSent (λ u. record r { sending = record { socket = u.socket; file = r.sending.file } })
          (send_fs_entry_metadata sending_machine net json evp z calls path s)
          (send_fs_entry_metadata-Announced sending_machine net json evp path r.sending.file code t
            response acks s a.there holds a.dumped a.answers a.one_answer.1 a.server_writes room z
            calls a.plain)
          (λ p u (entry, same). (
            entry,
            ap (λ v. record r { sending = record { socket = v.socket; file = r.sending.file } })
                same,
          ))

    -- A file, not a directory or empty, that the sending client announces and the server gives a code
    -- for, a receiving client that is given this code gets in full, if the announcement fits a first
    -- message, the receiver has nothing at the path, can open it and has space, the user agrees, and the connections take
    -- what goes over them: all ends by a UtilsException where OpenSSL fails, or the file at the
    -- receiver's path holds exactly the bytes of the one that was sent, no other file was touched, and
    -- the manager is as it was. What each end reads is what the other wrote.
    pub deliver_file_lem :
        (receiver_env : Env)
        → Ensures IsUtilsException
            (λ p q.
              (p ≡ (false, receive_path machine false (sending_machine.filename path)))
              × IsCompleted request response
                  (receive_path machine false (sending_machine.filename path))
                  m
                  r
                  q)
            (deliver_file sender_env receiver_env request r)
    unfolding deliver_file
    deliver_file_lem receiver_env =
        Ensures-bind IsUtilsException IsSent _
          (at_files (send_fs_entry_metadata sending_machine net json evp z calls path) r) _
          announces
          (λ p q (entry, sent).
            rw (entry, sent, heard_is, server_starts)
              (Ensures-map IsUtilsException
                (λ k u.
                  (k ≡ (false, receive_path machine false (sending_machine.filename path)))
                  × IsDelivered net json evp machine available receiver sender code request
                      (receive_path machine false (sending_machine.filename path)) n waiting u)
                _
                (deliver_session net json evp machine available receiver sender receiver_env code
                  request waiting)
                (deliver_session_lem net json evp machine available receiver sender receiver_env
                  code request (sending_machine.filename path) t false n sender_env.now waiting
                  waiting-IsAgreed)
                (λ k u (where_to, d). (where_to, delivered-IsCompleted u d))))
