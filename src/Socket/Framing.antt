-- ===== src/Socket/Framing.antt =====
-- What SocketBase::send puts on the wire, and SocketBase::receive takes off it.
use mathlib.Core.Logic.{dif_pos, dif_neg}
use mathlib.Core.WellFounded.{Acc}
use native.Mathlib.Bridge.{le_prop}
use drop_file.Common.{
  drop_all, ℕ, zero, suc, ◌+◌, ◌-◌, ◌/◌, ◌≤◌, ◌<◌, ◌≡◌, refl, sym, ap, ◌∙◌, Bytes, List, [], ◌∷◌,
  ◌++◌, append_assoc, append-nil, length, take, drop, All, ltb, if◌then◌else◌, dec_le,
  length-append, length-take, length-drop, take_all, take-append-drop, drop-drop, arith,
}
use drop_file.Common.Order.{lt_wf}
use drop_file.Outcome.{done, pure, >>=-done}
use drop_file.Network.{Net, Stream}
use drop_file.Socket.Header.{le_bytes, header_size, length-le_bytes}
use drop_file.Socket.{ack, buffer_size, sub_smaller, send_chunk, send_loop, send}

-- A message on the wire: its length, then itself.
unfoldable pub frame : Bytes → Bytes
frame d = le_bytes header_size (length d) ++ d

unfoldable pub frames : List Bytes → Bytes
frames [] = []
frames (d ∷ ds) = frame d ++ frames ds

-- `k` full buffers of `d`, and the rest if there is one.
pub pieces : ℕ → Bytes → List Bytes
pieces zero [] = []
pieces zero (x ∷ d) = (x ∷ d) ∷ []
pieces (suc k) d = take buffer_size d ∷ pieces k (drop buffer_size d)

unfoldable pub chunks : Bytes → List Bytes
unfolding pieces
chunks d = pieces (length d / buffer_size) d

-- The connection after `d` went out.
abbrev pub written : Bytes → Stream → Stream
written d s = record s { outgoing = s.outgoing ++ d; room = s.room - length d }

pub length-frame : (d : Bytes) → length (frame d) ≡ length d + 8
unfolding frame
length-frame d =
    omega (arith, length-append (le_bytes 8 (length d)) d, length-le_bytes 8 (length d))

pub written-written : (a b : Bytes) (s : Stream) → written b (written a s) ≡ written (a ++ b) s
written-written a b s = ground (arith, append_assoc s.outgoing a b, length-append a b)

frames-pieces :
    (k cur : ℕ) (d : Bytes)
    → frames (pieces (suc k) (drop cur d))
      ≡ frame (take buffer_size (drop cur d)) ++ frames (pieces k (drop (cur + buffer_size) d))
unfolding frames pieces
frames-pieces k cur d =
    ap (λ x. frame (take buffer_size (drop cur d)) ++ frames (pieces k x))
      (drop-drop buffer_size cur d)

module _ (net : Net) where
  pub send_chunk_lem :
      (d : Bytes) (s : Stream)
      → length (frame d) ≤ s.room
      → send_chunk net d s ≡ done tt (written (frame d) s)
  unfolding send_chunk frame
  send_chunk_lem d s h = net.write_fits (le_bytes header_size (length d) ++ d) s h

  -- The last, short buffer, or nothing.
  send_rest_lem :
      (d : Bytes) (len : ℕ) (s : Stream)
      → len ≡ length d
      → length (frames (pieces 0 d)) ≤ s.room
      → (if ltb 0 len then send_chunk net (take len d) else pure tt) s
        ≡ done tt (written (frames (pieces 0 d)) s)
  unfolding pieces frames
  send_rest_lem [] len s e h = ground (arith, append-nil s.outgoing)
  send_rest_lem (x ∷ d) len s e h =
      let cut : take len (x ∷ d) ≡ x ∷ d = take_all len (x ∷ d) (omega arith) in
      rw cut (ground (arith, append-nil (frame (x ∷ d)), send_chunk_lem (x ∷ d) s))

  send_loop_lem :
      (k : ℕ) (d : Bytes) (len cur : ℕ) (w : Acc ◌<◌ len) (s : Stream)
      → k ≡ len / buffer_size
      → len + cur ≡ length d
      → length (frames (pieces k (drop cur d))) ≤ s.room
      → send_loop net d len cur w s ≡ done tt (written (frames (pieces k (drop cur d))) s)
  unfolding send_loop buffer_size
  send_loop_lem zero d len cur (Acc.intro _ smaller) s e el h =
      rw (dif_neg (dec_le buffer_size len) (λ p. omega arith) _ _)
        (send_rest_lem (drop cur d) len s (omega (arith, length-drop cur d)) h)
  send_loop_lem (suc k) d len cur (Acc.intro _ smaller) s e el h =
      let full : buffer_size ≤ len = omega arith in
      let first = take buffer_size (drop cur d) in
      let rest = frames (pieces k (drop (cur + buffer_size) d)) in
      let both : length (frame first) + length rest ≤ s.room =
        omega (arith, ap length (frames-pieces k cur d), length-append (frame first) rest) in
      rw (dif_pos (dec_le buffer_size len) le_prop full _ _) (
        >>=-done (send_chunk net first) _ (send_chunk_lem first s (omega arith))
        ∙ send_loop_lem k d (len - buffer_size) (cur + buffer_size)
            (smaller (len - buffer_size) (sub_smaller len full)) (written (frame first) s)
            (omega arith) (omega arith) (omega arith)
        ∙ ap (done tt) (
            written-written (frame first) rest s
            ∙ ap (λ x. written x s) (sym (frames-pieces k cur d))))

  -- On a connection that takes them, `send` writes one frame for each full buffer of the data and
  -- one for the rest, and ends normally.
  pub send_lem :
      (d : Bytes) (s : Stream)
      → length (frames (chunks d)) ≤ s.room
      → send net d s ≡ done tt (written (frames (chunks d)) s)
  unfolding send chunks drop
  send_lem d s h =
      send_loop_lem (length d / buffer_size) d (length d) 0 (lt_wf.apply (length d)) s refl
        (omega arith) h

-- The data that the frames of a list of messages carry.
unfoldable pub join : List Bytes → Bytes
join [] = []
join (d ∷ ds) = d ++ join ds

abbrev pub IsChunk : Bytes → Type 0
IsChunk c = (1 ≤ length c) × (length c ≤ buffer_size)

join-pieces : (k : ℕ) (d : Bytes) → join (pieces k d) ≡ d
unfolding join pieces
join-pieces zero [] = refl
join-pieces zero (x ∷ d) = ap (◌∷◌ x) (append-nil d)
join-pieces (suc k) d =
    ap (◌++◌ (take buffer_size d)) (join-pieces k (drop buffer_size d))
    ∙ take-append-drop buffer_size d

pieces-IsChunk : (k : ℕ) (d : Bytes) → k ≡ length d / buffer_size → All IsChunk (pieces k d)
unfolding pieces buffer_size
pieces-IsChunk zero [] e = tt
pieces-IsChunk zero (x ∷ d) e = ((omega arith, omega arith), tt)
pieces-IsChunk (suc k) d e = (
  (omega (arith, length-take buffer_size d), omega (arith, length-take buffer_size d)),
  pieces-IsChunk k (drop buffer_size d) (omega (arith, length-drop buffer_size d)),
)

-- The chunks hold the data, and each has between one byte and a buffer.
pub join-chunks : (d : Bytes) → join (chunks d) ≡ d
unfolding chunks
join-chunks d = join-pieces (length d / buffer_size) d

pub chunks-IsChunk : (d : Bytes) → All IsChunk (chunks d)
unfolding chunks
chunks-IsChunk d = pieces-IsChunk (length d / buffer_size) d refl

pieces-small :
    (k x : ℕ) (d : Bytes)
    → k ≡ length (x ∷ d) / buffer_size
    → length (x ∷ d) ≤ buffer_size
    → pieces k (x ∷ d) ≡ (x ∷ d) ∷ []
unfolding pieces buffer_size
pieces-small zero x d e h = refl
pieces-small (suc zero) x d e h =
    rw (take_all buffer_size (x ∷ d) h, drop_all buffer_size (x ∷ d) h)
pieces-small (suc (suc k)) x d e h = absurd (omega arith)

-- A message of at most a buffer goes out in one frame, an empty one in none.
pub chunks-small :
    (x : ℕ) (d : Bytes) → length (x ∷ d) ≤ buffer_size → chunks (x ∷ d) ≡ (x ∷ d) ∷ []
unfolding chunks
chunks-small x d h = pieces-small (length (x ∷ d) / buffer_size) x d refl h

pub chunks-nil : chunks [] ≡ []
unfolding chunks buffer_size
chunks-nil = refl

pub length-frames-chunks_le :
    (d : Bytes) → length d ≤ buffer_size → length (frames (chunks d)) ≤ length d + 8
unfolding frames
length-frames-chunks_le [] h = rw chunks-nil (omega arith)
length-frames-chunks_le (x ∷ d) h =
    rw (chunks-small x d h, append-nil (frame (x ∷ d))) (omega (arith, length-frame (x ∷ d)))

pub frames-chunks-ack : frames (chunks ack) ≡ frame ack
unfolding buffer_size frames
frames-chunks-ack =
    ap frames (chunks-small 65 (67 ∷ 75 ∷ []) (omega arith)) ∙ append-nil (frame ack)
