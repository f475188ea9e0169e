-- ===== src/Tests/Programs.antt =====
-- The two clients as a whole, and the status of the program, on small inputs.
use drop_file.InitSessionMessage.{create_receive_message}
use drop_file.Tests.Values.{
  dump_value, encode_scalar, parse_value, decode_fields, decode_scalar, find_value, string_value,
  bool_value, size_value,
}
use drop_file.Socket.{
  send, send_loop, send_chunk, buffer_size, receive, get_message_length, send_ack,
  receive_to_buffer,
}
use drop_file.Common.Order.{lt_wf}
use drop_file.Socket.Header.{le_bytes, le_value}
use drop_file.Tests.Wire.{wire_write, wire_read, wire_format}
use drop_file.DropFileReceiveClient.{
  get_server_response, get_user_confirmation, next_char, receive_file_impl, receive_loop,
  validate_file_hash,
}
use drop_file.DropFileReceiveClient.Response.{answer, parse_response, assert_json_properties}
use drop_file.Json.{assigned}
use drop_file.Utils.{bytes_to_human_readable, log2}
use drop_file.Utils.Hash.{calculate_file_hash, hash_rounds, binary_to_human_readable}
use drop_file.Streams.{read}
use drop_file.DropFileReceiveClient.Whole.{handle_compressed_file}
use drop_file.ArchiveManager.{join_paths}
use drop_file.Common.{
  ℕ, ◌+◌, ◌≡◌, refl, ◌↔◌, ◌⊎◌, inl, Bool, true, false, none, some, [], ◌∷◌, ◌++◌, arith, dec_le,
  Bytes, text, bytes_eq, length, take, drop,
}
use drop_file.Tests.Hashing.{copies}
use drop_file.Tests.Wire.{wire}
use drop_file.Socket.Framing.{frame}
use drop_file.DropFileReceiveClient.Arrives.{client_receive_file-Unpacked, Unpacked, Arrived}
use drop_file.InitSessionMessage.{send_fields}
use drop_file.Tests.Values.{values, encode_fields}
use drop_file.Outcome.{socket_exception, thrown, done}
use drop_file.ClientArgParser.{ClientArgs}
use drop_file.ClientArgParser.Parses.{CommandLine, Parses, parse_client_args, parse_client_args_lem}
use drop_file.DropFileReceiveClient.{Client, put_file}
use drop_file.Outcome.{Action}
use drop_file.DropFileReceiveClient.Whole.{client_receive_file}
use drop_file.Outcome.{Outcome, unfinished}
use drop_file.Tests.Codec.{codec}
use drop_file.DropFileReceiveClient.Whole.{store_response, store_file}
use drop_file.Common.{
  ℕ, ◌+◌, ◌≡◌, refl, ◌↔◌, ◌⊎◌, inl, true, false, none, some, [], ◌∷◌, ◌++◌, arith, Bytes, text,
  length,
}
use drop_file.DropFileReceiveClient.Whole.{receive_and_validate, Machine}

abbrev name : Bytes
name = 97 ∷ []

abbrev offer_text : Bytes
offer_text = 5 ∷ encode_fields (send_fields values name 3 name false)

abbrev small_receiver : Client
small_receiver = record {
  socket = record {
    incoming = frame offer_text ++ frame (7 ∷ 8 ∷ 9 ∷ []);
    outgoing = [];
    room = 300;
  };
  files = λ _. none;
  interaction = 121 ∷ [];
  status = λ _. some false;
  opens = λ _. true;
}

abbrev pub machine : Machine
machine = record {
  current_path = 46 ∷ [];
  receiver_tmp_dir = 116 ∷ [];
  free = λ _. some 100;
  create_directories = λ _ c. some c;
  remove = λ path c. some (put_file path none c);
  remove_all = λ _ c. some c;
}

abbrev typed : CommandLine
typed = record {
  given_action = text "send";
  given_file_or_code = text "dir//";
  given_port = none;
  given_domain = none;
  allows_self_signed = false;
}

parse_client_args_lem_example : Parses typed (parse_client_args (inl typed))
parse_client_args_lem_example = parse_client_args_lem typed

-- A client that counts what it is given.
abbrev counts : ClientArgs → Bytes → Action ℕ (Unit {0})
counts args t n = done tt (n + length t)

abbrev refuses : ClientArgs → Bytes → Action ℕ (Unit {0})
refuses args t n = thrown (socket_exception t) n

abbrev true_offer : Bytes
true_offer = 5 ∷ encode_fields (send_fields values name 3 (text "070809") false)

abbrev agreeing : Client
agreeing = record {
  socket = record {
    incoming = frame true_offer ++ frame (7 ∷ 8 ∷ 9 ∷ []);
    outgoing = [];
    room = 300;
  };
  files = λ _. none;
  interaction = 121 ∷ [];
  status = λ _. some false;
  opens = λ _. true;
}

abbrev final_of : Outcome Client (Unit {0}) → Client
final_of (done a c) = c
final_of (thrown e c) = c
final_of unfinished = agreeing

abbrev received : Client
received = final_of (client_receive_file wire values copies machine codec 4 200 name agreeing)

received_file :
    client_receive_file wire values copies machine codec 4 200 name agreeing ≡ done tt received
unfolding client_receive_file receive_and_validate store_response store_file create_receive_message
    dump_value encode_fields encode_scalar send send_loop send_chunk lt_wf buffer_size le_bytes
    le_value wire_write get_server_response receive get_message_length wire_read answer
    parse_response assert_json_properties parse_value decode_fields decode_scalar find_value
    assigned string_value bool_value size_value bytes_to_human_readable log2 wire_format
    get_user_confirmation next_char send_ack receive_file_impl receive_loop receive_to_buffer
    validate_file_hash calculate_file_hash hash_rounds read binary_to_human_readable
    handle_compressed_file join_paths bytes_eq take drop frame dec_le
received_file = refl

client_receive_file-Unpacked_example :
    (b : Bool) × (path : Bytes) × (accepted : Client) × Arrived wire values copies machine agreeing
      accepted b path
    × Unpacked wire values copies machine codec 4 b path accepted received
unfolding frame le_bytes encode_fields encode_scalar
client_receive_file-Unpacked_example =
    client_receive_file-Unpacked wire values copies machine codec 4 200 name agreeing received
      (omega arith) received_file
