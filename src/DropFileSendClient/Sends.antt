-- ===== src/DropFileSendClient/Sends.antt =====
-- sendFSEntry: what goes out of a file.
use drop_file.Socket.Framing.{
  length-frame, send_lem, chunks-small, chunks, frame, written, frames, join, IsChunk,
}
use drop_file.Common.{
  ℕ, zero, suc, ◌+◌, ◌*◌, ◌≤◌, ◌<◌, ◌≡◌, refl, sym, ap, ◌∙◌, false, List, [], ◌∷◌, ◌++◌, append-nil,
  append_assoc, arith, dec_lt, ltb, lt→ltb, le→ltb_false, Bytes, length, take, drop, All,
  take-append-drop, length-take, length-drop,
}
use drop_file.Outcome.{done}
use drop_file.Socket.{buffer_size}
use drop_file.Socket.Receive.{receive_ack_ok, left}
use drop_file.DropFileSendClient.{Stream, Sending, Readsome, Net, send_rounds, send_fs_entry}
use drop_file.Socket.{send, buffer_size, ack}

module _ (net : Net) (available : Readsome) where
  -- The chunks of the file, in order, are what went out, and nothing was read.
  record Sent (data' : Bytes) (s t : Sending) : Type 0 where
    pub chunks_sent : List Bytes
    pub legal : All IsChunk chunks_sent
    pub whole : join chunks_sent ≡ data'
    pub outgoing : t.socket.outgoing ≡ s.socket.outgoing ++ frames chunks_sent
    pub incoming : t.socket.incoming ≡ s.socket.incoming

  length_0 : (d : Bytes) → length d ≡ 0 → d ≡ []
  length_0 [] h = refl
  length_0 (x ∷ d) h = absurd (omega arith)

  -- A chunk goes out as one message.
  send_small :
      (d : Bytes) (s : Stream)
      → IsChunk d
      → length d + 8 ≤ s.room
      → send net d s ≡ done tt (written (frame d) s)
  send_small [] s h room = absurd (omega (arith, h.0))
  send_small (x ∷ d) s h room =
      let one : frames (chunks (x ∷ d)) ≡ frame (x ∷ d) =
        unfold frames in ap frames (chunks-small x d h.1) ∙ append-nil (frame (x ∷ d)) in
      send_lem net (x ∷ d) s (omega (arith, ap length one, length-frame (x ∷ d)))
      ∙ ap (λ f. done tt (written f s)) one

  rounds_end :
      (fuel : ℕ) (s : Sending)
      → length s.file ≡ 0
      → send_rounds net available (suc fuel) s
        ≡ done tt (record s { file = drop (available.at_hand buffer_size s.file) s.file })
  unfolding send_rounds
  rounds_end fuel s none_left =
      let k = available.at_hand buffer_size s.file in
      let short : ltb 0 (length (take k s.file)) ≡ false =
        le→ltb_false 0 (length (take k s.file)) (omega (arith, length-take k s.file)) in
      rw short refl

  -- The state behind a round in which `k` bytes are read and go out.
  abbrev gone : ℕ → Sending → Sending
  gone k s = record { socket = written (frame (take k s.file)) s.socket; file = drop k s.file }

  rounds_next :
      (fuel k : ℕ) (s : Sending)
      → k ≡ available.at_hand buffer_size s.file
      → IsChunk (take k s.file)
      → length (take k s.file) + 8 ≤ s.socket.room
      → send_rounds net available (suc fuel) s ≡ send_rounds net available fuel (gone k s)
  unfolding send_rounds
  rounds_next fuel k s e chunk room =
      rw
        (
          ← e,
          lt→ltb 0 (length (take k s.file)) (omega (arith, chunk.0)),
          send_small (take k s.file) s.socket chunk room,
        )
        refl

  Sent-next :
      (k : ℕ) (s t : Sending)
      → IsChunk (take k s.file)
      → Sent (drop k s.file) (gone k s) t
      → Sent s.file s t
  unfolding join frames
  Sent-next k s t chunk m = record {
    chunks_sent = take k s.file ∷ m.chunks_sent;
    legal = (chunk, m.legal);
    whole = ap (◌++◌ (take k s.file)) m.whole ∙ take-append-drop k s.file;
    outgoing =
        m.outgoing ∙ append_assoc s.socket.outgoing (frame (take k s.file)) (frames m.chunks_sent);
    incoming = m.incoming;
  }

  rounds_lem :
      (fuel : ℕ) (s : Sending)
      → length s.file < fuel
      → 9 * length s.file ≤ s.socket.room
      → (t : Sending) × (send_rounds net available fuel s ≡ done tt t) × Sent s.file s t
  rounds_lem zero s r room = absurd (omega arith)
  rounds_lem (suc fuel) s r room =
      let k = available.at_hand buffer_size s.file in
      let d = take k s.file in
      elim (dec_lt 0 (length s.file)) [
        | no none_left ↦
            let empty : s.file ≡ [] = length_0 s.file (omega arith) in
            (
              record s { file = drop k s.file },
              rounds_end fuel s (omega arith),
              record {
                chunks_sent = [];
                legal = tt;
                whole = unfold join in sym empty;
                outgoing = unfold frames in sym (append-nil s.socket.outgoing);
                incoming = refl;
              },
            )
        | yes more ↦
            let (small, within) = available.at_hand-le buffer_size s.file in
            let size : length d ≡ k = omega (arith, length-take k s.file) in
            let some_read =
              available.at_hand_pos buffer_size s.file (unfold buffer_size in omega arith) more in
            let chunk : IsChunk d = (omega arith, omega arith) in
            let left = length-drop k s.file in
            let (t, ends, m) =
              rounds_lem fuel (gone k s) (omega arith) (omega (arith, length-frame d)) in
            (t, rounds_next fuel k s refl chunk (omega arith) ∙ ends, Sent-next k s t chunk m)
      ]

  -- If the receiver's side acknowledges before and after it, and the connection takes them, then
  -- sendFSEntry sends the whole file, in order, as messages of at least a byte and at most a buffer,
  -- whatever readsome has at hand, and reads the two acknowledgements only.
  pub send_fs_entry_lem :
      (fuel : ℕ) (rest : Bytes) (s : Sending)
      → s.socket.incoming ≡ frame ack ++ (frame ack ++ rest)
      → length s.file < fuel
      → 9 * length s.file ≤ s.socket.room
      → (t : Sending) × (ds : List Bytes) × (send_fs_entry net available fuel s ≡ done tt t)
        × All IsChunk ds
        × (join ds ≡ s.file)
        × (t.socket.outgoing ≡ s.socket.outgoing ++ frames ds)
        × (t.socket.incoming ≡ rest)
  unfolding send_fs_entry
  send_fs_entry_lem fuel rest s acks r room =
      let u : Sending = record s { socket = left (frame ack ++ rest) s.socket } in
      let (t, ends, m) = rounds_lem fuel u r room in
      (
        record t { socket = left rest t.socket },
        m.chunks_sent,
        rw
            (
              receive_ack_ok net (frame ack ++ rest) s.socket acks,
              ends,
              receive_ack_ok net rest t.socket m.incoming,
            )
            refl,
        m.legal,
        m.whole,
        m.outgoing,
        refl,
      )
