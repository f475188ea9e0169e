-- ===== src/Tests/Receiving.antt =====
-- The properties of DropFileReceiveClient on a small offer.
use drop_file.DropFileSendClient.Code.{get_receive_code_from_server_lem}
use drop_file.Socket.Receive.{left}
use drop_file.DropFileSendClient.{get_receive_code_from_server}
use drop_file.Json.{Scalar, assigned}
use drop_file.Utils.{log2, bytes_to_human_readable}
use drop_file.DropFileReceiveClient.Answers.{answer-IsOffer, IsOffer}
use drop_file.Outcome.{thrown, done}
use drop_file.InitSessionMessage.{code_words_key, send_fields}
use drop_file.DropFileReceiveClient.Confirmation.{get_user_confirmation_lem, replied, is_yes}
use drop_file.Socket.{ack, buffer_size}
use drop_file.Socket.Framing.{frame, length-frames-chunks_le, chunks, frames}
use drop_file.DropFileReceiveClient.Response.{assert_json_properties, parse_response, answer}
use drop_file.DropFileReceiveClient.{abort, next_char, entered, get_user_confirmation, Client}
use drop_file.Common.{
  ◌≤◌, ◌≡◌, refl, true, false, none, some, List, [], ◌∷◌, ◌++◌, arith, if◌then◌else◌, Bytes,
  bytes_eq, length, take, drop,
}
use drop_file.Tests.Wire.{wire}
use drop_file.Tests.Values.{
  dump_value, size_value, bool_value, string_value, find_value, encode_scalar, decode_scalar,
  decode_fields, parse_value, table, encode_fields, Value, values,
}

abbrev name : Bytes
name = 97 ∷ []

abbrev offer : Value
offer = table (send_fields values name 3 name false)

abbrev offer_text : Bytes
offer_text = 5 ∷ encode_fields (send_fields values name 3 name false)

answer-IsOffer_example : IsOffer wire values (λ _. some false) (λ _. some 10) offer_text offer
unfolding answer parse_response assert_json_properties bytes_to_human_readable parse_value
    decode_fields decode_scalar encode_fields encode_scalar find_value string_value bool_value
    size_value assigned bytes_eq log2 take drop
answer-IsOffer_example =
    answer-IsOffer wire values (λ _. some false) (λ _. some 10) offer_text offer refl

abbrev messages : List Bytes
messages = (7 ∷ 9 ∷ []) ∷ ([] ∷ ((4 ∷ 5 ∷ 6 ∷ []) ∷ []))

abbrev client : Client
client = record {
  socket = record { incoming = frames messages ++ name; outgoing = []; room = 100 };
  files = λ _. none;
  interaction = 32 ∷ 121 ∷ [];
  status = λ _. some false;
  opens = λ _. true;
}

short-fits : (d : Bytes) → length d ≤ 10 → length (frames (chunks d)) ≤ 100
unfolding buffer_size
short-fits d h = omega (arith, length-frames-chunks_le d (omega arith))

get_user_confirmation_lem_example : get_user_confirmation wire client ≡ (
    if is_yes client.interaction
    then done tt (replied ack client)
    else thrown (entered (next_char client.interaction).0) (replied abort client))
get_user_confirmation_lem_example =
    get_user_confirmation_lem wire client (short-fits ack (omega arith))
      (short-fits abort (omega arith))

abbrev code_text : Bytes
code_text = 1 ∷ encode_fields ((code_words_key, Scalar.string name) ∷ [])

get_receive_code_from_server_lem_example :
    get_receive_code_from_server wire values []
      (record client.socket { incoming = frame code_text ++ name })
    ≡ done name (left name (record client.socket { incoming = frame code_text ++ name }))
unfolding dump_value encode_fields encode_scalar buffer_size
get_receive_code_from_server_lem_example =
    get_receive_code_from_server_lem wire values [] name code_text name
      (record client.socket { incoming = frame code_text ++ name }) refl (omega arith) refl
