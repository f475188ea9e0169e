-- ===== src/Tests/Wire.antt =====
-- A connection that is a pair of byte strings, as a network that meets the laws of `Net`.
use drop_file.Common.{
  ℕ, ◌-◌, ◌≤◌, ◌<◌, ◌≡◌, ◌⊎◌, inl, inr, ite, [], ◌∷◌, ◌++◌, arith, dec_lt, dec_le, Bytes, length,
  take, drop,
}
use drop_file.Outcome.{Action, done, thrown, system_error}
use drop_file.Network.{Net, Stream}

unfoldable pub wire_read : ℕ → Action Stream Bytes
wire_read n s =
    ite (dec_le n (length s.incoming))
      (done (take n s.incoming) (record s { incoming = drop n s.incoming }))
      (thrown system_error (record s { incoming = [] }))

unfoldable pub wire_write : Bytes → Action Stream (Unit {0})
wire_write d s =
    ite (dec_le (length d) s.room)
      (done tt (record s { outgoing = s.outgoing ++ d; room = s.room - length d }))
      (thrown system_error (record s { outgoing = s.outgoing ++ take s.room d; room = 0 }))

unfoldable pub wire_shutdown : Action Stream (Unit {0})
wire_shutdown s =
    ite (dec_lt 0 s.room) (done tt (record s { room = 0 }))
      (thrown system_error (record s { room = 0 }))

-- Digits are not needed: a number is written as itself.
unfoldable pub wire_format : ℕ → Bytes
wire_format n = n ∷ []

pub read_enough :
    (n : ℕ) (s : Stream)
    → n ≤ length s.incoming
    → wire_read n s ≡ done (take n s.incoming) (record s { incoming = drop n s.incoming })
unfolding wire_read
read_enough n s h = ground arith

pub read_short :
    (n : ℕ) (s : Stream)
    → length s.incoming < n
    → wire_read n s ≡ thrown system_error (record s { incoming = [] })
unfolding wire_read
read_short n s h = ground arith

pub write_fits :
    (d : Bytes) (s : Stream)
    → length d ≤ s.room
    → wire_write d s ≡ done tt (record s { outgoing = s.outgoing ++ d; room = s.room - length d })
unfolding wire_write
write_fits d s h = ground arith

pub write_breaks :
    (d : Bytes) (s : Stream)
    → s.room < length d
    → wire_write d s
      ≡ thrown system_error (record s { outgoing = s.outgoing ++ take s.room d; room = 0 })
unfolding wire_write
write_breaks d s h = ground arith

pub shutdown_open : (s : Stream) → 0 < s.room → wire_shutdown s ≡ done tt (record s { room = 0 })
unfolding wire_shutdown
shutdown_open s h = ground arith

pub shutdown_cases :
    (s : Stream)
    → (wire_shutdown s ≡ done tt (record s { room = 0 }))
      ⊎ (wire_shutdown s ≡ thrown system_error (record s { room = 0 }))
unfolding wire_shutdown
shutdown_cases s = elim (dec_lt 0 s.room) [ yes h ↦ inl (ground arith) | no h ↦ inr (ground arith) ]

abbrev pub wire : Net
wire = record {
  read = wire_read;
  write = wire_write;
  shutdown_send = wire_shutdown;
  format_number = wire_format;
  read_enough = read_enough;
  read_short = read_short;
  write_fits = write_fits;
  write_breaks = write_breaks;
  shutdown_open = shutdown_open;
  shutdown_cases = shutdown_cases;
}
