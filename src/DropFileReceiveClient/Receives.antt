-- ===== src/DropFileReceiveClient/Receives.antt =====
-- DropFileReceiveClient::receiveFile up to the check of the hash, when the server keeps to the
-- protocol and the user agrees.
use drop_file.Utils.{bytes_to_human_readable-ok}
use drop_file.Utils.Hash.{calculate_file_hash_lem, binary_to_human_readable, IsUtilsException}
use drop_file.DropFileReceiveClient.Confirmation.{is_yes, get_user_confirmation_lem, replied}
use drop_file.DropFileReceiveClient.Stores.{receive_file_impl_lem}
use drop_file.DropFileReceiveClient.Response.{answer, parse_response, assert_json_properties}
use drop_file.DropFileReceiveClient.Whole.{
  Machine, receive_path, receive_and_validate, store_response, store_file,
}
use drop_file.DropFileReceiveClient.{
  Client, Digest, exists, get_server_response, validate_file_hash, calculate_file_hash, abort,
}
use drop_file.InitSessionMessage.{
  create_receive_message, filename_key, file_size_key, file_hash_key, is_compressed_key,
}
use drop_file.Json.{JsonLib, read_field}
use drop_file.Network.{Net}
use drop_file.Result.{ok}
use drop_file.Socket.Framing.{frames-chunks-ack, frame, frames, chunks, join, written, send_lem}
use drop_file.Socket.Receive.{left, receive_lem}
use drop_file.Socket.{buffer_size, ack}
use drop_file.Outcome.{Ensures, Ensures-bind, Ensures-settled, settled}
use drop_file.Common.{
  ℕ, ◌+◌, ◌*◌, ◌≤◌, ◌<◌, ◌≡◌, ◌≢◌, refl, ap, ◌∙◌, Bool, true, false, some, List, ◌++◌, append_assoc,
  arith, le→ltb_false, Bytes, bytes_eq_refl, length, take_all, All,
}

-- A file with the expected hash passes, or OpenSSL fails.
pub validate_file_hash-same :
    (evp : Digest) (path content : Bytes) (c : Client)
    → c.files path ≡ some content
    → Ensures IsUtilsException
        (λ _ d. d ≡ c)
        (validate_file_hash evp path (binary_to_human_readable (evp.digest content)) c)
unfolding validate_file_hash
validate_file_hash-same evp path content c file =
    let expected = binary_to_human_readable (evp.digest content) in
    let o = calculate_file_hash evp path (some content) tt in
    rw file (
      Ensures-bind IsUtilsException (λ h d. (h ≡ expected) × (d ≡ c)) (λ _ d. d ≡ c)
        (settled (λ _. c) o) _
        (Ensures-settled IsUtilsException (λ h _. h ≡ expected) _ (λ _. c) o
          (calculate_file_hash_lem evp path content) (λ h u k. (k, refl)))
        (λ h d (k, same). rw (k, bytes_eq_refl expected) same))

module _ {J : Type 0} (net : Net) (json : JsonLib J) (evp : Digest) (machine : Machine) where
  -- A response that offers a new file of the size, with the hash of `content`, for a path that can
  -- be opened.
  pub record Offers (response : Bytes) (filename content : Bytes) (b : Bool) (c : Client)
      : Type 0 where
    pub j : J
    pub short : length response ≤ buffer_size
    pub parsed : json.parse response ≡ some j
    pub named : read_field json.get_string (json.find filename_key j) ≡ some filename
    pub compressed : read_field json.get_bool (json.find is_compressed_key j) ≡ some b
    pub sized : read_field json.get_size (json.find file_size_key j) ≡ some (length content)
    pub hashed :
        read_field json.get_string (json.find file_hash_key j)
        ≡ some (binary_to_human_readable (evp.digest content))
    pub not_empty : 0 < length content
    pub space : ℕ
    pub known : machine.free b ≡ some space
    pub fits : length content ≤ space
    pub new_name : exists filename c ≡ some false
    pub new_path : exists (receive_path machine b filename) c ≡ some false
    pub opens : c.opens (receive_path machine b filename) ≡ true

  answer_ok :
      (response filename content : Bytes) (b : Bool) (c : Client)
      (o : Offers response filename content b c)
      → answer net json (λ p. exists p c) machine.free response ≡ ok o.j
  unfolding answer parse_response assert_json_properties
  answer_ok response filename content b c o =
      let (text_of, shown) =
        bytes_to_human_readable-ok net.format_number (length content) o.not_empty in
      rw
        (
          o.parsed,
          o.compressed,
          o.named,
          o.sized,
          shown,
          o.new_name,
          o.known,
          le→ltb_false o.space (length content) o.fits,
        )
        refl

  -- The client that has received and validated `content` at `path`, after it sent the message `q` and
  -- two ACKs.
  pub record Stored (q path content : Bytes) (c client : Client) : Type 0 where
    pub file : client.files path ≡ some content
    pub others : (p : Bytes) → p ≢ path → client.files p ≡ c.files p
    pub wrote :
        client.socket.outgoing
        ≡ c.socket.outgoing ++ (frames (chunks q) ++ (frame ack ++ frame ack))

  -- The clients on the way there.
  abbrev asked : Bytes → Client → Client
  asked q c = record c { socket = written (frames (chunks q)) c.socket }

  abbrev answered : Bytes → Bytes → Client → Client
  answered q rest c = record c { socket = left rest (written (frames (chunks q)) c.socket) }

  store_lem :
      (fuel : ℕ) (response filename content q rest : Bytes) (b : Bool) (ds : List Bytes)
      (c d : Client) (o : Offers response filename content b c)
      → d ≡ replied ack (answered q (frames ds ++ rest) c)
      → All (λ x. length x ≤ buffer_size) ds
      → join ds ≡ content
      → length ds ≤ fuel
      → length (frame ack) ≤ d.socket.room
      → Ensures IsUtilsException
          (λ p e.
            (p ≡ (b, receive_path machine b filename))
            × Stored q (receive_path machine b filename) content c e)
          (store_response net json evp machine fuel o.j d)
  unfolding store_response store_file
  store_lem fuel response filename content q rest b ds c d o at legal whole rounds room =
      let path = receive_path machine b filename in
      let size = length content in
      let (client, ends, r) =
        receive_file_impl_lem net path ds fuel size rest d (ap (exists path) at ∙ o.new_path)
          (ap (λ x. x.opens path) at ∙ o.opens) legal (ap (λ x. x.socket.incoming) at)
          (omega (arith, ap length whole)) rounds room in
      let file : client.files path ≡ some content =
        r.file ∙ ap some (take_all size (join ds) (omega (arith, ap length whole)) ∙ whole) in
      rw (o.named, o.compressed, o.sized, ends, o.hashed)
        (Ensures-bind IsUtilsException (λ _ e. e ≡ client) _
          (validate_file_hash evp path (binary_to_human_readable (evp.digest content)) client) _
          (validate_file_hash-same evp path content client file)
          (λ _ e same. (
            refl,
            record {
              file = ap (λ x. x.files path) same ∙ file;
              others = λ p ne. ap (λ x. x.files p) same ∙ r.others p ne ∙ ap (λ x. x.files p) at;
              wrote =
                  ap (λ x. x.socket.outgoing) same
                  ∙ r.acknowledged
                  ∙ ap (λ x. x.socket.outgoing ++ frame ack) at
                  ∙ simp (frames-chunks-ack, append_assoc);
            },
          )))

  -- A server that answers with an offer and then sends the content: if the user agrees, and the
  -- connection takes what goes over it, the client ends, by a UtilsException where OpenSSL fails, or
  -- has the content at the path, touched no other file, and sent its message and two ACKs.
  pub receive_and_validate-Stored :
      (fuel : ℕ) (response filename content code_words q rest : Bytes) (b : Bool) (ds : List Bytes)
      (c : Client)
      → Offers response filename content b c
      → json.dump (create_receive_message json code_words) ≡ some q
      → c.socket.incoming ≡ frame response ++ (frames ds ++ rest)
      → is_yes c.interaction ≡ true
      → All (λ x. length x ≤ buffer_size) ds
      → join ds ≡ content
      → length ds ≤ fuel
      → length (frames (chunks q)) + length (frames (chunks abort)) + 2 * length (frame ack)
        ≤ c.socket.room
      → Ensures IsUtilsException
          (λ p client.
            (p ≡ (b, receive_path machine b filename))
            × Stored q (receive_path machine b filename) content c client)
          (receive_and_validate net json evp machine fuel code_words c)
  unfolding receive_and_validate get_server_response
  receive_and_validate-Stored fuel response filename content code_words q rest b ds c o dumped at
        agrees legal whole rounds room =
      let s1 = written (frames (chunks q)) c.socket in
      let tail = frames ds ++ rest in
      let d = replied ack (answered q tail c) in
      let confirms =
        get_user_confirmation_lem net (answered q tail c)
          (omega (arith, ap length frames-chunks-ack)) (omega arith) in
      let stored =
        store_lem fuel response filename content q rest b ds c d o refl legal whole rounds
          (omega (arith, ap length frames-chunks-ack)) in
      rw
        (
          dumped,
          send_lem net q c.socket (omega arith),
          receive_lem net response tail s1 o.short at,
          answer_ok response filename content b c o,
          confirms,
          agrees,
        )
        stored
