-- ===== src/InitSessionMessage.antt =====
-- include/InitSessionMessage.hpp and src/InitSessionMessage.cpp.
pub mod Valid
pub mod RoundTrip
use drop_file.Common.{
  ℕ, ◌≡◌, Bytes, text, bytes_eq, List, [], ◌∷◌, ◌++◌, Bool, true, false, not, ◌&&◌, Option, none,
  some, if◌then◌else◌,
}
use drop_file.Outcome.{Exception, init_session_message_exception, undefined}
use drop_file.Result.{Result, ok, err, ◌>>=◌, ◌>>◌, require}
use drop_file.Json.{JsonLib, Scalar}

abbrev pub filename_key : Bytes
filename_key = text "filename"

abbrev pub file_size_key : Bytes
file_size_key = text "file_size"

abbrev pub file_hash_key : Bytes
file_hash_key = text "file_hash"

abbrev pub is_compressed_key : Bytes
is_compressed_key = text "is_compressed"

abbrev pub code_words_key : Bytes
code_words_key = text "code_words_key"

abbrev pub action_key : Bytes
action_key = text "action"

abbrev pub send_action : Bytes
send_action = text "send"

abbrev pub receive_action : Bytes
receive_action = text "receive"

abbrev missing : Bytes → Exception
missing key =
    init_session_message_exception
      (text "InitSessionMessage json is missing " ++ (key ++ text " key."))

abbrev pub should_be : Bytes → Bytes → Exception
should_be key kind =
    init_session_message_exception
      (text "InitSessionMessage json key " ++ (key ++ (text " should be a " ++ (kind ++ text "."))))

abbrev unrecognized : Bytes → Exception
unrecognized action = init_session_message_exception (
    text "InitSessionMessage "
    ++ (action_key ++ (text " key has unrecognized value: " ++ (action ++ text "."))))

abbrev pub is_some {ℓ} : {A : Type ℓ} → Option A → Bool
is_some none = false
is_some (some a) = true

-- `json == "..."`, which no value but a string can meet.
abbrev pub is_text : Option Bytes → Bytes → Bool
is_text none t = false
is_text (some s) t = bytes_eq s t

module _ {J : Type 0} (json : JsonLib J) where
  -- json[key] on a const value: undefined behaviour unless the key is there.
  abbrev pub at_key : J → Bytes → Result J
  at_key j key = elim (json.find key j) [ none ↦ err undefined | some v ↦ ok v ]

  pub validate_single_key_exists : J → Bytes → Result (Unit {0})
  validate_single_key_exists j key = require (is_some (json.find key j)) (missing key)

  pub validate_string_key : J → Bytes → Result (Unit {0})
  validate_string_key j key = do
    v ← at_key j key
    require (is_some (json.get_string v)) (should_be key (text "string"))

  pub validate_each_exists : J → List Bytes → Result (Unit {0})
  validate_each_exists j [] = ok tt
  validate_each_exists j (key ∷ keys) =
      validate_single_key_exists j key >> validate_each_exists j keys

  pub validate_keys_exist : J → Result (Unit {0})
  validate_keys_exist j =
      validate_each_exists j (filename_key ∷ file_size_key ∷ file_hash_key ∷ is_compressed_key ∷ [])

  pub validate_keys_types : J → Result (Unit {0})
  validate_keys_types j = do
    validate_string_key j filename_key
    validate_string_key j file_hash_key
    size ← at_key j file_size_key
    require (json.is_number_unsigned size) (should_be file_size_key (text "number"))
    compressed ← at_key j is_compressed_key
    require (is_some (json.get_bool compressed)) (should_be is_compressed_key (text "boolean"))

  -- The text of the action, which is a string where this is called.
  pub string_or_undefined : Option Bytes → Result Bytes
  string_or_undefined none = err undefined
  string_or_undefined (some t) = ok t

  pub validate_action_key : J → Result (Unit {0})
  validate_action_key j = do
    validate_single_key_exists j action_key
    validate_string_key j action_key
    action ← at_key j action_key
    if not (is_text (json.get_string action) send_action)
          && not (is_text (json.get_string action) receive_action)
        then (string_or_undefined (json.get_string action) >>= λ t. err (unrecognized t))
        else ok tt

  unfoldable pub validate : J → Result (Unit {0})
  unfolding validate_single_key_exists validate_string_key validate_each_exists validate_keys_exist
      validate_keys_types string_or_undefined validate_action_key
  validate j = do
    validate_action_key j
    action ← at_key j action_key
    if is_text (json.get_string action) send_action
        then (validate_keys_exist j >> validate_keys_types j)
        else (validate_single_key_exists j code_words_key >> validate_string_key j code_words_key)

  -- The caught json::exception of parse.
  abbrev pub parsed : Option J → Result J
  parsed none = err (init_session_message_exception (text "Could not parse to json."))
  parsed (some j) = ok j

  unfoldable pub create : Bytes → Result J
  create str = do j ← parsed (json.parse str); validate j; ok j

  abbrev pub send_fields : Bytes → ℕ → Bytes → Bool → List (Bytes × Scalar)
  send_fields filename file_size file_hash is_compressed =
      (action_key, Scalar.string send_action)
      ∷ (filename_key, Scalar.string filename)
      ∷ (file_size_key, Scalar.unsigned file_size)
      ∷ (file_hash_key, Scalar.string file_hash)
      ∷ (is_compressed_key, Scalar.boolean is_compressed)
      ∷ []

  -- `exists`, `filename` and `file_size` are what std::filesystem says of the path, and `file_hash`
  -- is what calculateFileHash returns or throws.
  unfoldable pub create_send_message : Bytes → Bool → Bytes → ℕ → Result Bytes → Bool → Result J
  create_send_message file_path exists filename file_size file_hash is_compressed = do
    require exists (
        init_session_message_exception
          (text "Given path " ++ (file_path ++ text " does not exist!")))
    hash ← file_hash
    ok (json.object (send_fields filename file_size hash is_compressed))

  abbrev pub receive_fields : Bytes → List (Bytes × Scalar)
  receive_fields code =
      (action_key, Scalar.string receive_action) ∷ (code_words_key, Scalar.string code) ∷ []

  unfoldable pub create_receive_message : Bytes → J
  create_receive_message code = json.object (receive_fields code)
