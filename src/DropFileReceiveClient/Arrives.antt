-- ===== src/DropFileReceiveClient/Arrives.antt =====
-- DropFileReceiveClient::receiveFile: what is true of the file that it accepts, whatever the server
-- sends.
use drop_file.ArchiveManager.{unpack_archive}
use drop_file.Zstd.{Library}
use drop_file.DropFileReceiveClient.Steps.{
  confirmed-Ends, response-Ends, receive_file_impl-Ends, sent-Ends, Kept, HoldsSize, AnyException,
  Ends,
}
use drop_file.Utils.Hash.{binary_to_human_readable}
use drop_file.DropFileReceiveClient.Confirmation.{is_yes}
use drop_file.DropFileReceiveClient.Response.{checked, key_of}
use drop_file.InitSessionMessage.{
  create_receive_message, file_hash_key, file_size_key, is_compressed_key, filename_key,
}
use drop_file.Json.{read_field}
use drop_file.InitSessionMessage.Valid.{bool_at, string_at}
use drop_file.DropFileReceiveClient.Whole.{
  store_file, receive_and_validate, store_response, receive_path, Machine,
}
use drop_file.ServerSideClientSession.Waiting.{Waits}
use drop_file.DropFileReceiveClient.{
  done, looked_at, exists, get_server_response, Digest, get_user_confirmation, JsonLib, send,
  on_socket, receive_file_impl, lift, Client,
}
use drop_file.Network.{Net}
use drop_file.Outcome.{Ensures-weaken, Ensures-map, Ensures-bind, Ensures}
use drop_file.DropFileReceiveClient.Hashes.{
  validate_file_hash_lem, validate_file_hash_unopened, IsHashException,
}
use drop_file.DropFileReceiveClient.{receive_file_impl, validate_file_hash}
use drop_file.DropFileReceiveClient.Whole.{
  client_receive_file, handle_compressed_file, replaced, changes_disk, disk_of,
}
use drop_file.Outcome.{>>=-eq-done}
use drop_file.Common.{
  ℕ, ◌<◌, ◌≡◌, refl, sym, ap, subst, ◌∙◌, ◌⊎◌, inl, inr, Bool, true, false, Option, none, some,
  arith, Option-cases, Bytes, length,
}

module _ {J : Type 0} (net : Net) (json : JsonLib J) (evp : Digest) (machine : Machine) where
  -- A file that was accepted: the user agreed to what the server announced, there was no file and no
  -- directory at its path, and now there is one of the announced size and with the announced hash.
  pub record Arrived (c client : Client) (is_compressed : Bool) (path : Bytes) : Type 0 where
    pub response : J
    pub filename : Bytes
    pub content : Bytes
    pub named : string_at json filename_key response ≡ some filename
    pub compressed : bool_at json is_compressed_key response ≡ some is_compressed
    pub placed : path ≡ receive_path machine is_compressed filename
    pub agreed : is_yes c.interaction ≡ true
    pub was_new : exists path c ≡ some false
    pub file : client.files path ≡ some content
    pub size : read_field json.get_size (json.find file_size_key response) ≡ some (length content)
    pub hash :
        string_at json file_hash_key response ≡ some (binary_to_human_readable (evp.digest content))

  key-Ends :
      {A : Type 0} (get : J → Option A) (key : Bytes) (j : J) (c : Client)
      → Ends
          (λ a d. (d ≡ c) × (read_field get (json.find key j) ≡ some a))
          (lift (key_of net json get key j) c)
  key-Ends {A} get key j c = go (read_field get (json.find key j)) refl
    where
      go :
          (o : Option A)
          → read_field get (json.find key j) ≡ o
          → Ends (λ a d. (d ≡ c) × (read_field get (json.find key j) ≡ some a)) (lift (checked o) c)
      go none e = tt
      go (some a) e = (refl, e)

  -- A file that could not be opened does not pass the check of its hash.
  hashed-Ends :
      (path h : Bytes) (n : ℕ) (u : Client)
      → HoldsSize net path n u
      → Ends
          (λ _ v.
            (v ≡ u)
            × (x : Bytes) × (u.files path ≡ some x)
            × (length x ≡ n)
            × (binary_to_human_readable (evp.digest x) ≡ h))
          (validate_file_hash evp path h u)
  hashed-Ends path h n u (inl lost) =
      Ensures-weaken IsHashException AnyException _ (validate_file_hash evp path h u)
        (validate_file_hash_unopened evp path h u _ lost) (λ y k. tt)
  hashed-Ends path h n u (inr (x, file, size)) =
      Ensures-map AnyException (λ _ v. (v ≡ u) × (binary_to_human_readable (evp.digest x) ≡ h)) _
        (validate_file_hash evp path h u)
        (Ensures-weaken IsHashException AnyException
          (λ _ v. (v ≡ u) × (binary_to_human_readable (evp.digest x) ≡ h))
          (validate_file_hash evp path h u) (validate_file_hash_lem evp path h x u file)
          (λ y k. tt))
        (λ _ v (kept, hash). (kept, x, file, size, hash))

  received-Ends :
      (fuel : ℕ) (j : J) (c d : Client) (filename : Bytes) (is_compressed : Bool) (n : ℕ)
      → is_yes c.interaction ≡ true
      → d.files ≡ c.files
      → d.status ≡ c.status
      → length d.socket.incoming < fuel
      → string_at json filename_key j ≡ some filename
      → bool_at json is_compressed_key j ≡ some is_compressed
      → read_field json.get_size (json.find file_size_key j) ≡ some n
      → Ends
          (λ p e. Arrived c e p.0 p.1)
          (store_file net json evp machine fuel j is_compressed
            (receive_path machine is_compressed filename)
            n
            d)
  unfolding store_file
  received-Ends fuel j c d filename b n agreed same looks lt named compressed sized =
      let path = receive_path machine b filename in
      Ensures-bind AnyException (λ _ u. (exists path d ≡ some false) × HoldsSize net path n u) _
        (receive_file_impl net fuel path n d) _ (receive_file_impl-Ends net path fuel n d lt)
        (λ _ u (new, holds). elim (Option-cases (string_at json file_hash_key j)) [
          | inl e ↦ rw e tt
          | inr (h, e) ↦ rw e (
              Ensures-bind AnyException
                (λ _ v.
                  (v ≡ u)
                  × (x : Bytes) × (u.files path ≡ some x)
                  × (length x ≡ n)
                  × (binary_to_human_readable (evp.digest x) ≡ h))
                _ (validate_file_hash evp path h u) _ (hashed-Ends path h n u holds)
                (λ _ v (kept, x, file, size, hash). record {
                  response = j;
                  filename = filename;
                  content = x;
                  named = named;
                  compressed = compressed;
                  placed = refl;
                  agreed = agreed;
                  was_new =
                      ap (λ f. looked_at (f path) (c.status path)) (sym same)
                      ∙ ap (λ f. looked_at (d.files path) (f path)) (sym looks)
                      ∙ new;
                  file = ap (λ w. w.files path) kept ∙ file;
                  size = sized ∙ ap some (sym size);
                  hash = e ∙ ap some (sym hash);
                }))
        ])

  -- What was received and validated: the path that is returned is that of an accepted file.
  stored-Ends :
      (fuel : ℕ) (j : J) (c d : Client)
      → is_yes c.interaction ≡ true
      → d.files ≡ c.files
      → d.status ≡ c.status
      → length d.socket.incoming < fuel
      → Ends (λ p e. Arrived c e p.0 p.1) (store_response net json evp machine fuel j d)
  unfolding store_response
  stored-Ends fuel j c d agreed same looks lt =
      elim (Option-cases (string_at json filename_key j)) [
        | inl e ↦ rw e tt
        | inr (f, ef) ↦ elim (Option-cases (bool_at json is_compressed_key j)) [
          | inl e ↦ rw (ef, e) tt
          | inr (b, eb) ↦
              elim (Option-cases (read_field json.get_size (json.find file_size_key j))) [
                | inl e ↦ rw (ef, eb, e) tt
                | inr (n, en) ↦
                    rw (ef, eb, en) (received-Ends fuel j c d f b n agreed same looks lt ef eb en)
              ]
        ]
      ]

  -- Whatever the server sends before it closes its side, receiveFile gets to the check of the hash and
  -- through it or throws; a round is given for each byte that it sends and one. Behind the check the user has agreed,
  -- there was nothing at the path, and now there is one of the announced size and hash.
  pub receive_and_validate_lem :
      (fuel : ℕ) (code_words : Bytes) (c : Client)
      → length c.socket.incoming < fuel
      → Ensures
          (λ _. Unit {0})
          (λ p client. Arrived c client p.0 p.1)
          (receive_and_validate net json evp machine fuel code_words c)
  unfolding receive_and_validate
  receive_and_validate_lem fuel code_words c lt =
      let n = length c.socket.incoming in
      let message = json.dump (create_receive_message json code_words) in
      elim (Option-cases message) [
        | inl e ↦ rw e tt
        | inr (t, e) ↦ rw e (
            Ensures-bind AnyException (λ _ d. Kept n c d) _ (on_socket (send net t) c) _
              (sent-Ends net t c)
              (λ _ d1 k1.
                Ensures-bind AnyException (λ _ d. Kept n c d) _
                  (get_server_response net json machine.free d1) _
                  (response-Ends net json machine.free n c d1 k1)
                  (λ j d2 k2.
                    Ensures-bind AnyException
                      (λ _ d.
                        (is_yes d2.interaction ≡ true)
                        × (d.files ≡ d2.files)
                        × (d.status ≡ d2.status)
                        × Waits n d.socket)
                      _ (get_user_confirmation net d2) _ (confirmed-Ends net n d2 k2.waits)
                      (λ _ d3 (agreed, files, status, waits).
                        stored-Ends fuel j c d3 (ap is_yes (sym k2.interaction) ∙ agreed)
                          (files ∙ k2.files) (status ∙ k2.status) (omega arith)))))
      ]

  -- What handleCompressedFile does with an accepted file: nothing, or an archive is unpacked into the
  -- current directory and then removed.
  abbrev pub Unpacked : Library → ℕ → Bool → Bytes → Client → Client → Type 0
  Unpacked z calls is_compressed path c client =
      ((is_compressed ≡ false) × (c ≡ client))
      ⊎ ((is_compressed ≡ true)
          × (u : Client) × (unpack_archive z calls net.format_number (disk_of machine)
                machine.current_path path c
              ≡ done tt u)
          × (machine.remove path u ≡ some client))

  replaced-done :
      (o : Option Client) (u client : Client) → replaced o u ≡ done tt client → o ≡ some client
  replaced-done none u client e = cc
  replaced-done (some d) u client e = (let k : d ≡ client = cc in ap some k)

  handled-Unpacked :
      (z : Library) (calls : ℕ) (b : Bool) (path : Bytes) (c client : Client)
      → handle_compressed_file machine z calls net.format_number b path c ≡ done tt client
      → Unpacked z calls b path c client
  unfolding handle_compressed_file
  handled-Unpacked z calls false path c client e = inl (refl, (let k : c ≡ client = cc in k))
  handled-Unpacked z calls true path c client e =
      let (a, u, unpacked, removed) =
        >>=-eq-done
          (unpack_archive z calls net.format_number (disk_of machine) machine.current_path path)
          (λ _. changes_disk (machine.remove path)) c e in
      inr (refl, u, unpacked, replaced-done (machine.remove path u) u client removed)

  -- Whatever the server sent: where receiveFile ends normally, the file was accepted before anything
  -- was unpacked, with the user's consent, at a path with no file and no directory, and with the announced
  -- size and hash, and only an archive is unpacked, into the current directory, and removed.
  pub client_receive_file-Unpacked :
      (z : Library) (calls fuel : ℕ) (code_words : Bytes) (c client : Client)
      → length c.socket.incoming < fuel
      → client_receive_file net json evp machine z calls fuel code_words c ≡ done tt client
      → (b : Bool) × (path : Bytes) × (accepted : Client) × Arrived c accepted b path
        × Unpacked z calls b path accepted client
  unfolding client_receive_file
  client_receive_file-Unpacked z calls fuel code_words c client lt e =
      let ((b, path), mid, validated, handled) =
        >>=-eq-done (receive_and_validate net json evp machine fuel code_words)
          (λ p. handle_compressed_file machine z calls net.format_number p.0 p.1) c e in
      let arrived : Arrived c mid b path =
        subst (λ o. Ensures (λ _. Unit {0}) (λ p d. Arrived c d p.0 p.1) o) validated
          (receive_and_validate_lem fuel code_words c lt) in
      (b, path, mid, arrived, handled-Unpacked z calls b path mid client handled)
