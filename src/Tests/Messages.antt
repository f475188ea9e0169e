-- ===== src/Tests/Messages.antt =====
-- The properties of InitSessionMessage on small messages.
use drop_file.Outcome.{init_session_message_exception}
use drop_file.InitSessionMessage.Valid.{
  create_error, create_iff, IsReceiveMessage, IsSendMessage, is_init_session_message_exception,
}
use drop_file.InitSessionMessage.RoundTrip.{create-create_send_message}
use drop_file.Result.{ok}
use drop_file.InitSessionMessage.{send_fields, create, create_send_message}
use drop_file.Common.{◌≡◌, refl, ◌↔◌, ◌⊎◌, true, some, [], ◌∷◌, arith, Bytes, text}
use drop_file.Tests.Values.{dump_value, parse_value, table, encode_fields, Value, values}

abbrev name : Bytes
name = 97 ∷ []

abbrev sender_json : Value
sender_json = table (send_fields values name 12 name true)

sender_text : Bytes
sender_text = 5 ∷ encode_fields (send_fields values name 12 name true)

create-create_send_message_example : create values sender_text ≡ ok sender_json
unfolding create_send_message dump_value sender_text encode_fields
create-create_send_message_example =
    create-create_send_message values name true name 12 (ok name) true sender_json sender_text
      (omega arith) refl refl

create_iff_example : (create values sender_text ≡ ok sender_json) ↔ (
    (values.parse sender_text ≡ some sender_json)
    × (IsSendMessage values sender_json ⊎ IsReceiveMessage values sender_json))
create_iff_example = create_iff values sender_text sender_json

create_error_example :
    is_init_session_message_exception
      (init_session_message_exception (text "Could not parse to json."))
    ≡ true
unfolding create parse_value
create_error_example =
    create_error values [] (init_session_message_exception (text "Could not parse to json.")) refl
