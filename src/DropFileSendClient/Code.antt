-- ===== src/DropFileSendClient/Code.antt =====
-- The code that the server hands out, on its way to the user of the sending client.
use drop_file.Socket.Receive.{receive_lem, left}
use drop_file.Outcome.{done}
use drop_file.Socket.Framing.{frame}
use drop_file.Socket.{buffer_size}
use drop_file.Common.{◌≤◌, ◌≡◌, refl, some, List, [], ◌∷◌, ◌++◌, Bytes, bytes_eq, length}
use drop_file.Network.{Net, Stream}
use drop_file.Json.{JsonLib, Scalar, assigned}
use drop_file.DropFileSendClient.{code_words_key, get_receive_code_from_server, receive_code_of}

-- The server's response to a sender, as registerSession writes it, of at most a buffer: the client
-- returns the code that is in it, and reads nothing else.
pub get_receive_code_from_server_lem :
    {J : Type 0} (net : Net) (json : JsonLib J) (what code t rest : Bytes) (s : Stream)
    → json.dump (json.object ((code_words_key, Scalar.string code) ∷ [])) ≡ some t
    → length t ≤ buffer_size
    → s.incoming ≡ frame t ++ rest
    → get_receive_code_from_server net json what s ≡ done code (left rest s)
unfolding get_receive_code_from_server receive_code_of assigned bytes_eq
get_receive_code_from_server_lem net json what code t rest s dumped legal at =
    let fields : List (Bytes × Scalar) = (code_words_key, Scalar.string code) ∷ [] in
    rw
      (
        receive_lem net t rest s legal at,
        json.parse-dump fields t dumped,
        json.find-object code_words_key fields,
        json.get_string-string code,
      )
      refl
