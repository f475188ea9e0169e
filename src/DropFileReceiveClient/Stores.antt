-- ===== src/DropFileReceiveClient/Stores.antt =====
-- DropFileReceiveClient::receiveFileImpl: what it stores of what the server sends.
use drop_file.ServerSideClientSession.Sockets.{take_split}
use drop_file.Socket.Receive.{receive_to_buffer_lem, left}
use drop_file.Socket.{send_ack, ack, buffer_size}
use drop_file.Socket.Framing.{frames-chunks-ack, send_lem, written, chunks, frame, frames, join}
use drop_file.Common.{
  ℕ, zero, suc, ◌+◌, ◌-◌, ◌≤◌, ◌<◌, min, ◌≡◌, refl, ap, subst, ◌∙◌, ◌≢◌, true, false, Option, some,
  List, [], ◌∷◌, ◌++◌, append-nil, append_assoc, arith, dec_le, lt→ltb, le→ltb_false, Bytes,
  bytes_eq_refl, ne→bytes_eq_false, length, take, length-append, All, length-take,
}
use drop_file.Network.{Net}
use drop_file.DropFileReceiveClient.{
  exists, send_ack, receive_file_impl, done, put_file, receive_loop, Client,
}

-- In `client` the file at `path` holds `content`, and no other file was touched.
pub record Holds (path content : Bytes) (c client : Client) : Type 0 where
  pub file : client.files path ≡ some content
  pub others : (q : Bytes) → q ≢ path → client.files q ≡ c.files q
  pub wrote : client.socket.outgoing ≡ c.socket.outgoing
  pub room : client.socket.room ≡ c.socket.room

put_file_other :
    (path q : Bytes) (content : Option Bytes) (c : Client)
    → q ≢ path
    → (put_file path content c).files q ≡ c.files q
put_file_other path q content c h = rw (ne→bytes_eq_false q path h)

put_file_self :
    (path : Bytes) (content : Option Bytes) (c : Client)
    → (put_file path content c).files path ≡ content
put_file_self path content c = rw (bytes_eq_refl path)

sub_sub : (expected total k : ℕ) → expected - (total + k) ≡ expected - total - k
sub_sub expected total k = omega arith

module _ (net : Net) (path : Bytes) where
  -- One message was received, and `d` of it stored.
  abbrev stored : Bytes → Bytes → Bytes → Client → Client
  stored got d rest c = put_file path (some (got ++ d)) (record c { socket = left rest c.socket })

  loop_stop :
      (fuel expected total : ℕ) (c : Client)
      → expected ≤ total
      → receive_loop net fuel path expected total c ≡ done tt c
  unfolding receive_loop
  loop_stop zero expected total c h = rw (le→ltb_false total expected h)
  loop_stop (suc fuel) expected total c h = rw (le→ltb_false total expected h)

  loop_round :
      (fuel expected total k : ℕ) (d rest got : Bytes) (c : Client)
      → total < expected
      → length d ≤ buffer_size
      → c.socket.incoming ≡ frame d ++ rest
      → c.files path ≡ some got
      → k ≡ min (expected - total) (length d)
      → receive_loop net (suc fuel) path expected total c
        ≡ receive_loop net fuel path expected (total + k) (stored got (take k d) rest c)
  unfolding receive_loop
  loop_round fuel expected total k d rest got c more legal e file ke =
      rw (lt→ltb total expected more, receive_to_buffer_lem net d rest c.socket legal e, ← ke, file)
        refl

  stored-Holds :
      (got d rest content : Bytes) (c client : Client)
      → Holds path content (stored got d rest c) client
      → Holds path content c client
  stored-Holds got d rest content c client h = record {
    file = h.file;
    others = λ q ne. h.others q ne ∙ put_file_other path q (some (got ++ d)) c ne;
    wrote = h.wrote;
    room = h.room;
  }

  loop_stopped :
      (fuel expected total : ℕ) (got x : Bytes) (c : Client)
      → expected ≤ total
      → c.files path ≡ some got
      → (client : Client) × (receive_loop net fuel path expected total c ≡ done tt client)
        × Holds path (got ++ take (expected - total) x) c client
  unfolding take
  loop_stopped fuel expected total got x c full file =
      let none_left : expected - total ≡ 0 = omega arith in
      (
        c,
        loop_stop fuel expected total c full,
        record {
          file = rw (none_left, append-nil got) file;
          others = λ q ne. refl;
          wrote = refl;
          room = refl;
        },
      )

  loop_lem :
      (ds : List Bytes) (fuel expected total : ℕ) (rest got : Bytes) (c : Client)
      → All (λ d. length d ≤ buffer_size) ds
      → c.socket.incoming ≡ frames ds ++ rest
      → c.files path ≡ some got
      → expected ≤ total + length (join ds)
      → length ds ≤ fuel
      → (client : Client) × (receive_loop net fuel path expected total c ≡ done tt client)
        × Holds path (got ++ take (expected - total) (join ds)) c client
  unfolding join frames
  loop_lem [] fuel expected total rest got c legal e file enough rounds =
      loop_stopped fuel expected total got [] c (omega arith) file
  loop_lem (d ∷ ds) zero expected total rest got c legal e file enough rounds = absurd (omega arith)
  loop_lem (d ∷ ds) (suc fuel) expected total rest got c legal e file enough rounds =
      elim (dec_le expected total) [
        | yes full ↦ loop_stopped (suc fuel) expected total got (d ++ join ds) c full file
        | no more ↦
            let k = min (expected - total) (length d) in
            let tail = frames ds ++ rest in
            let next = stored got (take k d) tail c in
            let len : length (take k d) ≡ k = omega (arith, length-take k d) in
            let (client, ends, holds) =
              loop_lem ds fuel expected (total + k) rest (got ++ take k d) next legal.1 refl
                (put_file_self path _ c) (omega (arith, length-append d (join ds))) (omega arith) in
            let content : (got ++ take k d) ++ take (expected - (total + k)) (join ds)
                ≡ got ++ take (expected - total) (d ++ join ds) =
              append_assoc got (take k d) (take (expected - (total + k)) (join ds))
              ∙ ap (◌++◌ got) (
                  ap (λ m. take k d ++ take m (join ds)) (sub_sub expected total k)
                  ∙ take_split (expected - total) k d (join ds) refl) in
            (
              client,
              loop_round fuel expected total k d tail got c (omega arith) legal.0
                    (e ∙ append_assoc (frame d) (frames ds) rest) file refl
                  ∙ ends,
              subst (λ x. Holds path x c client) content
                  (stored-Holds got (take k d) tail _ c client holds),
            )
      ]

  -- What a receiver has at the end: the new file with the announced bytes, and its ACK went out.
  pub record Received (expected : ℕ) (payload : Bytes) (c client : Client) : Type 0 where
    pub file : client.files path ≡ some (take expected payload)
    pub others : (q : Bytes) → q ≢ path → client.files q ≡ c.files q
    pub acknowledged : client.socket.outgoing ≡ c.socket.outgoing ++ frame ack

  -- For a path at which there is nothing and that can be opened for writing, whatever messages of at most a buffer the server sends, as long
  -- as they hold the expected bytes and the connection takes an ACK: receiveFileImpl ends within one
  -- round for each message, the file holds exactly the first expected bytes of them, no other file
  -- is touched, and an ACK is sent.
  pub receive_file_impl_lem :
      (ds : List Bytes) (fuel expected : ℕ) (rest : Bytes) (c : Client)
      → exists path c ≡ some false
      → c.opens path ≡ true
      → All (λ d. length d ≤ buffer_size) ds
      → c.socket.incoming ≡ frames ds ++ rest
      → expected ≤ length (join ds)
      → length ds ≤ fuel
      → length (frame ack) ≤ c.socket.room
      → (client : Client) × (receive_file_impl net fuel path expected c ≡ done tt client)
        × Received expected (join ds) c client
  unfolding receive_file_impl send_ack
  receive_file_impl_lem ds fuel expected rest c new opens legal e enough rounds room =
      let all_left : expected - 0 ≡ expected = omega arith in
      let opened = put_file path (some []) c in
      let (last, ends, holds) =
        loop_lem ds fuel expected 0 rest [] opened legal e (put_file_self path (some []) c)
          (omega arith) rounds in
      let size : length (frames (chunks ack)) ≤ last.socket.room =
        omega (arith, ap length frames-chunks-ack, holds.room) in
      (
        record last { socket = written (frames (chunks ack)) last.socket },
        rw (new, opens, ends, send_lem net ack last.socket size) refl,
        record {
          file = holds.file ∙ ap (λ n. some (take n (join ds))) all_left;
          others = λ q ne. holds.others q ne ∙ put_file_other path q (some []) c ne;
          acknowledged = rw (holds.wrote, frames-chunks-ack) refl;
        },
      )
