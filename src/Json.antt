-- ===== src/Json.antt =====
-- What the program uses of nlohmann::json, a third-party library: given, by its documented laws.
use mathlib.Core.Option
use drop_file.Common.{
  ℕ, ◌^◌, ◌<◌, ◌≡◌, Bool, true, Option, none, some, List, [], ◌∷◌, if◌then◌else◌, Bytes, bytes_eq,
}

-- The values that the program assigns to a key.
pub data Scalar : Type 0 where
  string : Bytes → Scalar
  unsigned : ℕ → Scalar
  boolean : Bool → Scalar

abbrev or_else {ℓ} : {A : Type ℓ} → Option A → Option A → Option A
or_else (some a) o = some a
or_else none o = o

-- The value that a key has after the assignments of a list, made in that order.
unfoldable pub assigned : Bytes → List (Bytes × Scalar) → Option Scalar
assigned k [] = none
assigned k ((j, v) ∷ fs) = or_else (assigned k fs) (if bytes_eq j k then some v else none)

-- The value of a key, read by a conversion.
abbrev pub read_field {ℓ κ} : {J : Type ℓ} {A : Type κ} → (J → Option A) → Option J → Option A
read_field get none = none
read_field get (some v) = get v

pub record JsonLib (J : Type 0) : Type 0 where
  -- json::parse, which throws on malformed text.
  pub parse : Bytes → Option J
  -- dump, which throws on a string that is not UTF-8.
  pub dump : J → Option Bytes
  -- `json json{};` and then `json[key] = value;` for each pair, in order.
  pub object : List (Bytes × Scalar) → J
  pub scalar : Scalar → J
  -- contains(key), and operator[] on a const value that contains the key.
  pub find : Bytes → J → Option J
  -- is_string and get<std::string>.
  pub get_string : J → Option Bytes
  -- is_boolean and get<bool>.
  pub get_bool : J → Option Bool
  pub is_number_unsigned : J → Bool
  -- get<std::size_t>, which converts any number.
  pub get_size : J → Option ℕ
  pub find-object :
      (k : Bytes) (fs : List (Bytes × Scalar))
      → find k (object fs) ≡ Option.map scalar (assigned k fs)
  pub get_string-string : (t : Bytes) → get_string (scalar (string t)) ≡ some t
  pub get_bool-boolean : (b : Bool) → get_bool (scalar (boolean b)) ≡ some b
  pub is_number_unsigned-unsigned :
      (n : ℕ) → n < 2 ^ 64 → is_number_unsigned (scalar (unsigned n)) ≡ true
  pub get_size-unsigned : (n : ℕ) → n < 2 ^ 64 → get_size (scalar (unsigned n)) ≡ some n
  pub get_size-number :
      (j : J) → is_number_unsigned j ≡ true → (n : ℕ) × (get_size j ≡ some n) × (n < 2 ^ 64)
  pub parse-dump :
      (fs : List (Bytes × Scalar)) (t : Bytes)
      → dump (object fs) ≡ some t
      → parse t ≡ some (object fs)
  -- parse refuses text that is not UTF-8, so what it returns can be dumped.
  pub dump-parsed : (t : Bytes) (j : J) → parse t ≡ some j → (u : Bytes) × (dump j ≡ some u)
