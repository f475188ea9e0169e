-- ===== src/InitSessionMessage/RoundTrip.antt =====
-- What the clients write as a first message, the server reads back.
use drop_file.Common.{ℕ, ◌^◌, ◌<◌, ◌≡◌, refl, ap, inl, inr, Bool, true, some, List, Bytes, bytes_eq}
use drop_file.Json.{JsonLib, Scalar, assigned, read_field}
use drop_file.InitSessionMessage.{
  code_words_key, is_compressed_key, receive_action, file_hash_key, receive_fields, ok,
  file_size_key, filename_key, send_action, action_key, send_fields, Result, create_receive_message,
  create_send_message, create,
}
use drop_file.InitSessionMessage.Valid.{IsSendMessage, string_at, create_iff}

module _ {J : Type 0} (json : JsonLib J) where
  pub string_at-object :
      (k : Bytes) (fs : List (Bytes × Scalar)) (t : Bytes)
      → assigned k fs ≡ some (Scalar.string t)
      → string_at json k (json.object fs) ≡ some t
  string_at-object k fs t e = rw (json.find-object k fs, e) (json.get_string-string t)

  pub size_at-object :
      (fs : List (Bytes × Scalar)) (n : ℕ)
      → n < 2 ^ 64
      → assigned file_size_key fs ≡ some (Scalar.unsigned n)
      → read_field json.get_size (json.find file_size_key (json.object fs)) ≡ some n
  size_at-object fs n fits e =
      rw (json.find-object file_size_key fs, e) (json.get_size-unsigned n fits)

  send_fields-IsSendMessage :
      (filename : Bytes) (file_size : ℕ) (file_hash : Bytes) (is_compressed : Bool)
      → file_size < 2 ^ 64
      → IsSendMessage json
          (json.object (send_fields json filename file_size file_hash is_compressed))
  unfolding assigned bytes_eq
  send_fields-IsSendMessage f n h c fits =
      let fs = send_fields json f n h c in
      record {
        action_is = string_at-object action_key fs send_action refl;
        has_filename = rw (string_at-object filename_key fs f refl);
        has_file_size =
            rw (json.find-object file_size_key fs)
              (ap some (json.is_number_unsigned-unsigned n fits));
        has_file_hash = rw (string_at-object file_hash_key fs h refl);
        has_is_compressed = rw (json.find-object is_compressed_key fs, json.get_bool-boolean c);
      }

  -- The text of a message that createSendMessage returns, for a file of less than 2 ^ 64 bytes, is
  -- accepted by `create` as the same value.
  pub create-create_send_message :
      (path : Bytes) (exists : Bool) (filename : Bytes) (file_size : ℕ) (file_hash : Result Bytes)
      (is_compressed : Bool) (j : J) (t : Bytes)
      → file_size < 2 ^ 64
      → create_send_message json path exists filename file_size file_hash is_compressed ≡ ok j
      → json.dump j ≡ some t
      → create json t ≡ ok j
  unfolding create_send_message
  create-create_send_message path true f n (ok h) c j t fits e d =
      let fs = send_fields json f n h c in
      let built : json.object fs ≡ j = cc in
      let written : json.dump (json.object fs) ≡ some t = rw built d in
      rw (← built) (
        (create_iff json t (json.object fs)).1
          (json.parse-dump fs t written, inl (send_fields-IsSendMessage f n h c fits)))
  create-create_send_message path _ f n _ c j t fits e d = cc

  -- The text of the message that createReceiveMessage returns is accepted as the same value.
  pub create-create_receive_message :
      (code t : Bytes)
      → json.dump (create_receive_message json code) ≡ some t
      → create json t ≡ ok (create_receive_message json code)
  unfolding create_receive_message assigned bytes_eq
  create-create_receive_message code t d =
      let fs = receive_fields json code in
      (create_iff json t (json.object fs)).1 (
        json.parse-dump fs t d,
        inr (record {
          action_is = string_at-object action_key fs receive_action refl;
          has_code_words = rw (string_at-object code_words_key fs code refl);
        }),
      )
