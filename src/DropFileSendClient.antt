-- ===== src/DropFileSendClient.antt =====
-- src/client/DropFileSendClient.cpp: the server's response to the sending client, and the transfer of
-- the file.
pub mod Code
pub mod Sends
pub mod Whole
pub mod Removes
pub mod Cleans
pub mod Announces
use drop_file.Socket.{send, receive_ack, buffer_size, receive}
use drop_file.InitSessionMessage.{code_words_key}
use drop_file.Outcome.{
  pure, ◌>>=◌, ◌>>◌, unfinished, settled, done, drop_file_send_exception, bind, Action,
}
use drop_file.Result.{lift, err, ok, Result}
use drop_file.Common.{
  ℕ, zero, suc, ◌+◌, ◌-◌, ◌*◌, ◌/◌, ◌%◌, ◌^◌, ◌≤◌, ◌<◌, min, ◌≡◌, refl, sym, ap, subst, ◌∙◌, ◌≢◌,
  ◌↔◌, ◌⊎◌, inl, inr, ite, if_pos, if_neg, Bool, true, false, not, ◌&&◌, ◌||◌, Option, none, some,
  List, [], ◌∷◌, ◌++◌, map, append-nil, append_assoc, arith, dec_lt, dec_le, ltb, leb, ◌==◌,
  if◌then◌else◌, ltb→lt, lt→ltb, le→ltb_false, Bool-cases, Option-cases, Bytes, text, bytes_eq,
  bytes_eq_refl, bytes_eq→eq, bytes_eq_iff, ne→bytes_eq_false, length, take, drop, length-append,
  All, take-append-drop, length-take, length-drop, take_all, drop_all, take-append_le,
  take-append_ge, drop-append_ge, drop-drop, take_front, drop_front, take_split,
}
use drop_file.Network.{Net, Stream}
use drop_file.Json.{JsonLib, read_field}

-- json::parse and get<std::string> throw a json exception.
abbrev pub parsed_code {ℓ} : {J : Type ℓ} → (J → Option Bytes) → Option J → Option Bytes
parsed_code get none = none
parsed_code get (some j) = get j

-- The catch clause: `what` is the text of the json exception.
abbrev pub code_or_error : Bytes → Bytes → Option Bytes → Result Bytes
code_or_error what received_msg (some receive_code) = ok receive_code
code_or_error what received_msg none = err (
    drop_file_send_exception
      (text "Could not parse server response (" ++ (received_msg ++ (text ") to json:  " ++ what))))

module _ {J : Type 0} (net : Net) (json : JsonLib J) where
  unfoldable pub receive_code_of : Bytes → Bytes → Result Bytes
  receive_code_of what received_msg = code_or_error what received_msg (
      parsed_code (λ j. read_field json.get_string (json.find code_words_key j))
        (json.parse received_msg))

  unfoldable pub get_receive_code_from_server : Bytes → Action Stream Bytes
  get_receive_code_from_server what s =
      bind (receive net s) (λ received_msg. lift (receive_code_of what received_msg))

-- What readsome gives of a file: how many of at most n bytes when some bytes are ahead. What the
-- stream has at hand is left open, but it has something as long as the file has.
pub record Readsome : Type 0 where
  pub at_hand : ℕ → Bytes → ℕ
  pub at_hand-le : (n : ℕ) (d : Bytes) → (at_hand n d ≤ n) × (at_hand n d ≤ length d)
  pub at_hand_pos : (n : ℕ) (d : Bytes) → 0 < n → 0 < length d → 0 < at_hand n d

-- The client's connection, and the open file, by what is ahead of it.
pub record Sending : Type 0 where
  pub socket : Stream
  pub file : Bytes

abbrev pub on_connection {ℓ} : {A : Type ℓ} → Action Stream A → Action Sending A
on_connection m s = settled (λ t. record s { socket = t }) (m s.socket)

module _ (net : Net) (available : Readsome) where
  -- file.readsome
  abbrev pub readsome : ℕ → Action Sending Bytes
  readsome n s =
      let k = available.at_hand n s.file in done (take k s.file) (record s { file = drop k s.file })

  -- Fuel: one round for each byte, and one.
  unfoldable pub send_rounds : ℕ → Action Sending (Unit {0})
  send_rounds zero = λ _. unfinished
  send_rounds (suc fuel) = do
    chunk ← readsome buffer_size
    let more = (do on_connection (send net chunk); send_rounds fuel)
    if ltb 0 (length chunk) then more else pure tt

  unfoldable pub send_fs_entry : ℕ → Action Sending (Unit {0})
  send_fs_entry fuel = do
    on_connection (receive_ack net)
    send_rounds fuel
    on_connection (receive_ack net)
