-- ===== src/Network.antt =====
-- What include/SocketBase.hpp uses of boost::asio: blocking transfers over one TLS connection, and
-- of fmt: the text of a number. Both are given, by the laws that the code relies on.
use drop_file.Common.{ℕ, ◌-◌, ◌≤◌, ◌<◌, ◌≡◌, ◌⊎◌, Bytes, ◌++◌, [], length, take, drop}
use drop_file.Outcome.{Action, done, thrown, system_error}

-- One connection as its owner sees it: the bytes that the peer sends before it closes and that are
-- not read yet, the bytes written so far, and how many more the connection takes before it breaks
-- or is shut down.
pub record Stream : Type 0 where
  pub incoming : Bytes
  pub outgoing : Bytes
  pub room : ℕ

-- The laws of boost::asio::read with transfer_exactly, of boost::asio::write, which writes all of
-- its buffers or throws, and of shutdown(shutdown_send), after which nothing can be written.
pub record Net : Type 0 where
  pub read : ℕ → Action Stream Bytes
  pub write : Bytes → Action Stream (Unit {0})
  pub shutdown_send : Action Stream (Unit {0})
  pub format_number : ℕ → Bytes
  pub read_enough :
      (n : ℕ) (s : Stream)
      → n ≤ length s.incoming
      → read n s ≡ done (take n s.incoming) (record s { incoming = drop n s.incoming })
  pub read_short :
      (n : ℕ) (s : Stream)
      → length s.incoming < n
      → read n s ≡ thrown system_error (record s { incoming = [] })
  pub write_fits :
      (d : Bytes) (s : Stream)
      → length d ≤ s.room
      → write d s ≡ done tt (record s { outgoing = s.outgoing ++ d; room = s.room - length d })
  pub write_breaks :
      (d : Bytes) (s : Stream)
      → s.room < length d
      → write d s
        ≡ thrown system_error (record s { outgoing = s.outgoing ++ take s.room d; room = 0 })
  pub shutdown_open : (s : Stream) → 0 < s.room → shutdown_send s ≡ done tt (record s { room = 0 })
  pub shutdown_cases :
      (s : Stream)
      → (shutdown_send s ≡ done tt (record s { room = 0 }))
        ⊎ (shutdown_send s ≡ thrown system_error (record s { room = 0 }))
