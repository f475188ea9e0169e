-- ===== src/Socket/FirstMessage.antt =====
-- SocketBase::asyncReadMessage: how the read of a first message ends.
use drop_file.Socket.Disconnect.{safe_disconnect_lem}
use drop_file.Outcome.{unfinished, Raises-bind, thrown, done, Outcome, Raises}
use drop_file.Socket.{
  header_size, over_limit_text, le_value, error_code, buffer_size, Stream, Net, try_read,
  async_read_message_impl, read_after_header, async_read_header, async_read_message,
}
use drop_file.Common.{
  ℕ, ◌≤◌, ◌≡◌, inl, inr, false, Option, none, some, arith, dec_le, ltb, le→ltb_false, Bool-cases,
  Bytes, length, take, drop, length-drop,
}

-- It ends, with no more to read than before.
abbrev pub Shrinks {ℓ} : {A : Type ℓ} → Stream → Outcome Stream A → Type 0
Shrinks s (done a t) = length t.incoming ≤ length s.incoming
Shrinks s (thrown e t) = length t.incoming ≤ length s.incoming
Shrinks s unfinished = ⊥

-- asyncReadMessage throws nothing, for a limit that is within the buffer.
pub async_read_message-Raises :
    (net : Net) (max_msg_size : ℕ) (s : Stream)
    → max_msg_size ≤ buffer_size
    → Raises (λ _. ⊥) (async_read_message net max_msg_size s)
unfolding async_read_message async_read_header read_after_header async_read_message_impl try_read
async_read_message-Raises net max_msg_size s h =
    let legal : ltb buffer_size max_msg_size ≡ false = le→ltb_false buffer_size max_msg_size h in
    rw legal (
      Raises-bind (λ _. ⊥) (error_code (net.read header_size s)) _ (code (net.read header_size s))
        (λ o t _. after o t))
  where
    code : (o : Outcome Stream Bytes) → Raises (λ _. ⊥) (error_code o)
    code (done a s) = tt
    code (thrown e s) = tt
    code unfinished = tt

    after :
        (o : Option Bytes) (t : Stream) → Raises (λ _. ⊥) (read_after_header net max_msg_size o t)
    after none t = tt
    after (some header) t = elim (Bool-cases (ltb max_msg_size (le_value header))) [
      | inr legal ↦ rw legal (code (net.read (le_value header) t))
      | inl over ↦
          let reply = over_limit_text net (le_value header) max_msg_size in
          let (u, ends, shut, kept) = safe_disconnect_lem net (some reply) t in rw (over, ends) tt
    ]

-- asyncReadMessage ends.
pub async_read_message-Shrinks :
    (net : Net) (max_msg_size : ℕ) (s : Stream)
    → max_msg_size ≤ buffer_size
    → Shrinks s (async_read_message net max_msg_size s)
unfolding async_read_message async_read_header read_after_header async_read_message_impl try_read
async_read_message-Shrinks net max_msg_size s h =
    let legal : ltb buffer_size max_msg_size ≡ false = le→ltb_false buffer_size max_msg_size h in
    rw legal (elim (dec_le header_size (length s.incoming)) [
      | no short ↦ rw (net.read_short header_size s (omega arith)) (omega arith)
      | yes enough ↦
          let t : Stream = record s { incoming = drop header_size s.incoming } in
          let header = le_value (take header_size s.incoming) in
          rw (net.read_enough header_size s enough) (elim (Bool-cases (ltb max_msg_size header)) [
            | inr fits ↦
                rw fits (content header t (omega (arith, length-drop header_size s.incoming)))
            | inl over ↦
                let reply = over_limit_text net header max_msg_size in
                let (u, ends, shut, kept) = safe_disconnect_lem net (some reply) t in
                rw (over, ends, kept) (omega (arith, length-drop header_size s.incoming))
          ])
    ])
  where
    content :
        (k : ℕ) (t : Stream)
        → length t.incoming ≤ length s.incoming
        → Shrinks s (error_code (net.read k t))
    content k t le = elim (dec_le k (length t.incoming)) [
      | yes enough ↦ rw (net.read_enough k t enough) (omega (arith, length-drop k t.incoming))
      | no short ↦ rw (net.read_short k t (omega arith)) (omega arith)
    ]
