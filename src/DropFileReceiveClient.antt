-- ===== src/DropFileReceiveClient.antt =====
-- include/client/DropFileReceiveClient.hpp and src/client/DropFileReceiveClient.cpp: the steps of
-- receiveFile. Console output is left out, except what it computes and that can throw.
pub mod Response
pub mod Stores
pub mod Answers
pub mod Confirmation
pub mod Hashes
pub mod Whole
pub mod Steps
pub mod Arrives
pub mod Receives
use drop_file.Result.{lift}
use drop_file.Socket.{receive_to_buffer, send_ack, receive, send}
use drop_file.Utils.Hash.{Digest, calculate_file_hash}
use drop_file.Outcome.{
  settled, ◌>>=◌, ◌>>◌, bind, pure, throw, unfinished, ◌>>◌, bind, done, thrown,
  drop_file_receive_exception, filesystem_error, Action, Outcome, Exception,
}
use drop_file.InitSessionMessage.{is_some}
use drop_file.Common.{
  ℕ, zero, suc, ◌+◌, ◌-◌, ◌*◌, ◌/◌, ◌%◌, ◌^◌, ◌≤◌, ◌<◌, min, ◌≡◌, refl, sym, ap, subst, ◌∙◌, ◌≢◌,
  ◌↔◌, ◌⊎◌, inl, inr, ite, if_pos, if_neg, Bool, true, false, not, ◌&&◌, ◌||◌, Option, none, some,
  List, [], ◌∷◌, ◌++◌, map, append-nil, append_assoc, arith, dec_lt, dec_le, ltb, leb, ◌==◌,
  if◌then◌else◌, ltb→lt, lt→ltb, le→ltb_false, Bool-cases, Option-cases, Bytes, text, bytes_eq,
  bytes_eq_refl, bytes_eq→eq, bytes_eq_iff, ne→bytes_eq_false, length, take, drop, length-append,
  All, take-append-drop, length-take, length-drop, take_all, drop_all, take-append_le,
  take-append_ge, drop-append_ge, drop-drop, take_front, drop_front, take_split,
}
use drop_file.Network.{Net, Stream}
use drop_file.Json.{JsonLib}
use Response.{answer, already_exists}

-- The client's connection, the files by path, what the user types, and the rest of the file system:
-- whether a directory stands at a path, where `none` says that looking at the path fails, and which
-- paths can be opened for writing. A file that was opened for writing takes all that is written.
pub record Client : Type 0 where
  pub socket : Stream
  pub files : Bytes → Option Bytes
  pub interaction : Bytes
  pub status : Bytes → Option Bool
  pub opens : Bytes → Bool

abbrev pub settle_client {ℓ} : {A : Type ℓ} → Client → Outcome Stream A → Outcome Client A
settle_client c (done a s) = done a (record c { socket = s })
settle_client c (thrown e s) = thrown e (record c { socket = s })
settle_client c unfinished = unfinished

-- A method of SocketBase on the client's socket.
abbrev pub on_socket {ℓ} : {A : Type ℓ} → Action Stream A → Action Client A
on_socket m c = settle_client c (m c.socket)

-- std::filesystem::exists
abbrev pub looked_at : Option Bytes → Option Bool → Option Bool
looked_at file none = none
looked_at file (some directory) = some (is_some file || directory)

abbrev pub exists : Bytes → Client → Option Bool
exists path c = looked_at (c.files path) (c.status path)

pub looked_at-new :
    (file : Option Bytes) (status : Option Bool) → looked_at file status ≡ some false → file ≡ none
looked_at-new none status e = refl
looked_at-new (some x) none e = cc
looked_at-new (some x) (some d) e = cc

abbrev pub put_file : Bytes → Option Bytes → Client → Client
put_file path content c = record c { files = λ q. if bytes_eq q path then content else c.files q }

abbrev pub extended : Bytes → Option Bytes → Option Bytes
extended d none = none
extended d (some content) = some (content ++ d)

-- ofstream::write
abbrev pub append_file : Bytes → Bytes → Action Client (Unit {0})
append_file path d c = done tt (put_file path (extended d (c.files path)) c)

-- ofstream with std::ios::trunc. Whether it opened is not looked at; what is written to one that did
-- not is lost.
abbrev pub truncate_file : Bytes → Action Client (Unit {0})
truncate_file path c = done tt (if c.opens path then put_file path (some []) c else c)

abbrev pub is_space : ℕ → Bool
is_space b = (b == 32) || (leb 9 b && leb b 13)

-- `interaction_stream >> confirmation`: the first character that is no white space, or none.
unfoldable pub next_char : Bytes → ℕ × Bytes
next_char [] = (0, [])
next_char (b ∷ bs) = let rest = next_char bs in if is_space b then rest else (b, bs)

abbrev pub entered : ℕ → Exception
entered c = drop_file_receive_exception (text "Entered '" ++ ((c ∷ []) ++ text "', aborting."))

abbrev pub abort : Bytes
abort = text "abort"

module _ (net : Net) where
  -- The loop of receiveFileImpl behind the read: `again` is the next round.
  abbrev pub store :
      (ℕ → Action Client (Unit {0})) → Bytes → ℕ → ℕ → Bytes → Action Client (Unit {0})
  store again path expected_bytes total_transferred_bytes received =
      let left_to_transfer = expected_bytes - total_transferred_bytes in
      let write_size = min left_to_transfer (length received) in
      append_file path (take write_size received) >> again (total_transferred_bytes + write_size)

  unfoldable pub receive_loop : ℕ → Bytes → ℕ → ℕ → Action Client (Unit {0})
  receive_loop zero path expected_bytes total_transferred_bytes =
      if ltb total_transferred_bytes expected_bytes then (λ _. unfinished) else pure tt
  receive_loop (suc fuel) path expected_bytes total_transferred_bytes =
      let again = receive_loop fuel path expected_bytes in
      if ltb total_transferred_bytes expected_bytes
      then (on_socket (receive_to_buffer net)
          >>= store again path expected_bytes total_transferred_bytes)
      else pure tt

  abbrev pub receive_new : ℕ → Bytes → ℕ → Action Client (Unit {0})
  receive_new fuel path expected_bytes =
      truncate_file path >> (receive_loop fuel path expected_bytes 0 >> on_socket (send_ack net))

  abbrev pub receive_unless : Option Bool → ℕ → Bytes → ℕ → Action Client (Unit {0})
  receive_unless none fuel path expected_bytes = throw filesystem_error
  receive_unless (some true) fuel path expected_bytes = throw (already_exists (text "Path") path)
  receive_unless (some false) fuel path expected_bytes = receive_new fuel path expected_bytes

  unfoldable pub receive_file_impl : ℕ → Bytes → ℕ → Action Client (Unit {0})
  receive_file_impl fuel path expected_bytes c =
      receive_unless (exists path c) fuel path expected_bytes c

  abbrev pub confirmed : ℕ → Action Client (Unit {0})
  confirmed confirmation =
      if not (confirmation == 121)
      then (on_socket (send net abort) >> throw (entered confirmation))
      else on_socket (send_ack net)

  unfoldable pub get_user_confirmation : Action Client (Unit {0})
  get_user_confirmation c =
      confirmed ((next_char c.interaction).0)
        (record c { interaction = (next_char c.interaction).1 })

module _ {J : Type 0} (net : Net) (json : JsonLib J) where
  unfoldable pub get_server_response : (Bool → Option ℕ) → Action Client J
  get_server_response free c =
      bind (on_socket (receive net) c)
        (λ received. lift (answer net json (λ p. exists p c) free received))

abbrev pub hash_mismatch : Exception
hash_mismatch =
    drop_file_receive_exception (text "Received file's hash is not equal to the expected one.")

module _ (evp : Digest) where
  unfoldable pub validate_file_hash : Bytes → Bytes → Action Client (Unit {0})
  validate_file_hash path expected_file_hash c =
      bind (settled (λ _. c) (calculate_file_hash evp path (c.files path) tt)) (λ actual_file_hash.
        if not (bytes_eq actual_file_hash expected_file_hash) then throw hash_mismatch else pure tt)
