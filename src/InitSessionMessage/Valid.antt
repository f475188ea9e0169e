-- ===== src/InitSessionMessage/Valid.antt =====
-- Which first messages InitSessionMessage::create accepts.
use drop_file.Common.{
  ◌≡◌, ap, ◌↔◌, ◌⊎◌, inl, inr, Bool, true, false, Option, none, some, arith, Option-cases, Bytes,
  bytes_eq, bytes_eq→eq,
}
use drop_file.Outcome.{Exception, init_session_message_exception}
use drop_file.Result.{ok, err}
use drop_file.Json.{JsonLib, read_field}
use drop_file.InitSessionMessage.{
  action_key, filename_key, file_size_key, file_hash_key, is_compressed_key, code_words_key,
  send_action, receive_action, validate_string_key, validate, is_some, is_text, string_or_undefined,
  create, validate_single_key_exists, validate_action_key,
}

unfoldable pub is_init_session_message_exception : Exception → Bool
is_init_session_message_exception (init_session_message_exception _) = true
is_init_session_message_exception _ = false

is_text→eq : (o : Option Bytes) (t : Bytes) → is_text o t ≡ true → o ≡ some t
is_text→eq none t h = cc
is_text→eq (some s) t h = ap some (bytes_eq→eq s t h)

module _ {J : Type 0} (json : JsonLib J) where
  abbrev pub string_at : Bytes → J → Option Bytes
  string_at key j = read_field json.get_string (json.find key j)

  abbrev pub bool_at : Bytes → J → Option Bool
  bool_at key j = read_field json.get_bool (json.find key j)

  abbrev pub unsigned_flag : J → Option Bool
  unsigned_flag v = some (json.is_number_unsigned v)

  -- The message of a sender: every key is there, and of its type.
  pub record IsSendMessage (j : J) : Type 0 where
    pub action_is : string_at action_key j ≡ some send_action
    pub has_filename : is_some (string_at filename_key j) ≡ true
    pub has_file_size : read_field unsigned_flag (json.find file_size_key j) ≡ some true
    pub has_file_hash : is_some (string_at file_hash_key j) ≡ true
    pub has_is_compressed : is_some (bool_at is_compressed_key j) ≡ true

  -- The message of a receiver.
  pub record IsReceiveMessage (j : J) : Type 0 where
    pub action_is : string_at action_key j ≡ some receive_action
    pub has_code_words : is_some (string_at code_words_key j) ≡ true

  validate_string_key_ok :
      (j : J) (key : Bytes)
      → validate_string_key json j key ≡ ok tt
      → is_some (string_at key j) ≡ true
  unfolding validate_string_key
  validate_string_key_ok j key h = ground arith

  validate_action_key_ok :
      (j : J)
      → validate_action_key json j ≡ ok tt
      → (string_at action_key j ≡ some send_action) ⊎ (string_at action_key j ≡ some receive_action)
  unfolding validate_action_key validate_string_key validate_single_key_exists string_or_undefined
  validate_action_key_ok j h = elim (Option-cases (json.find action_key j)) [
    | inl e ↦ ground arith
    | inr (v, e) ↦ ground (
      arith,
      is_text→eq (json.get_string v) send_action,
      is_text→eq (json.get_string v) receive_action,
    )
  ]

  module _ (j : J) where
    -- What `validate` accepts is a sender's or a receiver's message.
    pub validate_sound : validate json j ≡ ok tt → IsSendMessage j ⊎ IsReceiveMessage j
    unfolding validate
    validate_sound h = elim (Option-cases (json.find action_key j)) [
      | inl e ↦ ground arith
      | inr (v, e) ↦ ground (
        arith,
        is_text→eq (json.get_string v) send_action,
        is_text→eq (json.get_string v) receive_action,
      )
    ]

    pub validate-send : IsSendMessage j → validate json j ≡ ok tt
    unfolding validate bytes_eq
    validate-send m = ground arith

    pub validate-receive : IsReceiveMessage j → validate json j ≡ ok tt
    unfolding validate bytes_eq
    validate-receive m = ground arith

    -- What it refuses, it refuses by its own exception: no lookup of an absent key is reached.
    pub validate_error :
        (x : Exception) → validate json j ≡ err x → is_init_session_message_exception x ≡ true
    unfolding validate is_init_session_message_exception
    validate_error x h = ground arith

  create-parsed :
      (t : Bytes) (j : J)
      → create json t ≡ ok j
      → (json.parse t ≡ some j) × (validate json j ≡ ok tt)
  unfolding create
  create-parsed t j h = ground arith

  -- `create` accepts exactly the texts of well-formed messages, and returns the parsed value.
  pub create_iff :
      (t : Bytes) (j : J)
      → (create json t ≡ ok j) ↔ ((json.parse t ≡ some j) × (IsSendMessage j ⊎ IsReceiveMessage j))
  unfolding create
  create_iff t j = (
    λ h. ((create-parsed t j h).0, validate_sound j (create-parsed t j h).1),
    λ (e, m). elim m [ inl s ↦ rw (e, validate-send j s) | inr r ↦ rw (e, validate-receive j r) ],
  )

  -- A text that it does not accept makes `create` throw an InitSessionMessageException, and nothing else.
  pub create_error :
      (t : Bytes) (x : Exception)
      → create json t ≡ err x
      → is_init_session_message_exception x ≡ true
  unfolding create is_init_session_message_exception
  create_error t x h = elim (Option-cases (json.parse t)) [
    | inl e ↦ ground arith
    | inr (j, e) ↦ ground (arith, validate_error j x)
  ]
