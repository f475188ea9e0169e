-- ===== src/Socket/RoundTrip.antt =====
-- SocketBase::send on one side of a connection and SocketBase::receive on the other.
use drop_file.Common.{◌≤◌, ◌≡◌, ap, ◌∙◌, Bytes, List, ◌∷◌, [], ◌++◌, length, All, arith}
use drop_file.Outcome.{done}
use drop_file.Network.{Net, Stream}
use drop_file.Socket.{buffer_size, send}
use drop_file.Socket.Framing.{
  frames, chunks, join, written, send_lem, join-chunks, chunks-IsChunk, IsChunk,
}
use drop_file.Socket.Receive.{left, receive_each, receive_each-frames}

chunks-fit : (ds : List Bytes) → All IsChunk ds → All (λ d. length d ≤ buffer_size) ds
chunks-fit [] h = tt
chunks-fit (d ∷ ds) h = (h.0.1, chunks-fit ds h.1)

-- Data of any length that was sent over a fresh connection with room for it is received by the peer as the chunks it
-- was cut into: joined, they are the data, and what follows it on the wire stays unread.
pub receive_each-send :
    (net : Net) (d rest : Bytes) (s t r : Stream)
    → s.outgoing ≡ []
    → length (frames (chunks d)) ≤ s.room
    → send net d s ≡ done tt t
    → r.incoming ≡ t.outgoing ++ rest
    → (receive_each net (chunks d) r ≡ done (chunks d) (left rest r)) × (join (chunks d) ≡ d)
receive_each-send net d rest s t r fresh room sent arrives =
    let went : t ≡ written (frames (chunks d)) s = ground (arith, send_lem net d s room) in
    let wire : t.outgoing ≡ frames (chunks d) = rw (went, fresh) in
    (
      receive_each-frames net (chunks d) rest r (chunks-fit (chunks d) (chunks-IsChunk d))
          (arrives ∙ ap (λ x. x ++ rest) wire),
      join-chunks d,
    )
