-- ===== src/Tests/Values.antt =====
-- A small library of json values that meets the laws of `JsonLib`: its texts are length-prefixed.
use drop_file.Common.{
  ℕ, zero, suc, ◌^◌, ◌<◌, ◌≡◌, refl, Bool, true, false, Option, none, some, List, [], ◌∷◌, ◌++◌,
  arith, ltb, ◌==◌, if◌then◌else◌, ltb→lt, lt→ltb, Bytes, length, take, drop, take_front,
  drop_front,
}
use mathlib.Core.Option
use drop_file.Json.{JsonLib, Scalar, assigned}

pub data Value : Type 0 where
  literal : Scalar → Value
  table : List (Bytes × Scalar) → Value

unfoldable pub encode_scalar : Scalar → Bytes
encode_scalar (Scalar.string t) = 0 ∷ length t ∷ t
encode_scalar (Scalar.unsigned n) = 1 ∷ n ∷ []
encode_scalar (Scalar.boolean true) = 2 ∷ 1 ∷ []
encode_scalar (Scalar.boolean false) = 2 ∷ 0 ∷ []

unfoldable pub encode_fields : List (Bytes × Scalar) → Bytes
encode_fields [] = []
encode_fields ((k, v) ∷ fs) = length k ∷ (k ++ (encode_scalar v ++ encode_fields fs))

unfoldable pub dump_value : Value → Option Bytes
dump_value (literal v) = none
dump_value (table fs) = some (length fs ∷ encode_fields fs)

unfoldable pub decode_scalar : Bytes → Option (Scalar × Bytes)
decode_scalar (tag ∷ n ∷ r) =
    if tag == 0
    then some (Scalar.string (take n r), drop n r)
    else if tag == 1
    then some (Scalar.unsigned n, r)
    else some (Scalar.boolean (n == 1), r)
decode_scalar _ = none

abbrev with_field :
    Bytes
    → Option (Scalar × Bytes)
    → (Bytes → Option (List (Bytes × Scalar)))
    → Option (List (Bytes × Scalar))
with_field k none more = none
with_field k (some (v, r)) more = Option.map (λ fs. (k, v) ∷ fs) (more r)

unfoldable pub decode_fields : ℕ → Bytes → Option (List (Bytes × Scalar))
decode_fields zero t = some []
decode_fields (suc n) [] = none
decode_fields (suc n) (len ∷ t) =
    with_field (take len t) (decode_scalar (drop len t)) (decode_fields n)

unfoldable pub parse_value : Bytes → Option Value
parse_value [] = none
parse_value (n ∷ t) = Option.map table (decode_fields n t)

decode-encode_scalar : (v : Scalar) (r : Bytes) → decode_scalar (encode_scalar v ++ r) ≡ some (v, r)
unfolding decode_scalar encode_scalar
decode-encode_scalar (Scalar.string t) r =
    rw (take_front t r (length t) refl, drop_front t r (length t) refl)
decode-encode_scalar (Scalar.unsigned n) r = refl
decode-encode_scalar (Scalar.boolean true) r = refl
decode-encode_scalar (Scalar.boolean false) r = refl

decode-encode_fields :
    (fs : List (Bytes × Scalar)) → decode_fields (length fs) (encode_fields fs) ≡ some fs
unfolding decode_fields encode_fields
decode-encode_fields [] = refl
decode-encode_fields ((k, v) ∷ fs) = rw (
  take_front k (encode_scalar v ++ encode_fields fs) (length k) refl,
  drop_front k (encode_scalar v ++ encode_fields fs) (length k) refl,
  decode-encode_scalar v (encode_fields fs),
  decode-encode_fields fs,
)

pub parse-dump :
    (fs : List (Bytes × Scalar)) (t : Bytes)
    → dump_value (table fs) ≡ some t
    → parse_value t ≡ some (table fs)
unfolding dump_value parse_value
parse-dump fs [] e = cc
parse-dump fs (n ∷ t) e = ground (arith, decode-encode_fields fs)

unfoldable pub find_value : Bytes → Value → Option Value
find_value k (literal v) = none
find_value k (table fs) = Option.map literal (assigned k fs)

unfoldable pub string_value : Value → Option Bytes
string_value (literal (Scalar.string t)) = some t
string_value _ = none

unfoldable pub bool_value : Value → Option Bool
bool_value (literal (Scalar.boolean b)) = some b
bool_value _ = none

unfoldable pub number_value : Value → Bool
number_value (literal (Scalar.unsigned n)) = ltb n (2 ^ 64)
number_value _ = false

unfoldable pub size_value : Value → Option ℕ
size_value (literal (Scalar.unsigned n)) = some n
size_value _ = none

pub number_value-size :
    (j : Value) → number_value j ≡ true → (n : ℕ) × (size_value j ≡ some n) × (n < 2 ^ 64)
unfolding number_value size_value
number_value-size (literal (Scalar.unsigned n)) h = (n, refl, ltb→lt n (2 ^ 64) h)
number_value-size (literal (Scalar.string t)) h = cc
number_value-size (literal (Scalar.boolean b)) h = cc
number_value-size (table fs) h = cc

pub number_value-unsigned : (n : ℕ) → n < 2 ^ 64 → number_value (literal (Scalar.unsigned n)) ≡ true
unfolding number_value
number_value-unsigned n h = lt→ltb n (2 ^ 64) h

dump-decoded :
    (o : Option (List (Bytes × Scalar))) (j : Value)
    → Option.map table o ≡ some j
    → (u : Bytes) × (dump_value j ≡ some u)
unfolding dump_value
dump-decoded none j e = cc
dump-decoded (some fs) j e = (length fs ∷ encode_fields fs, ground arith)

pub dump-parsed :
    (t : Bytes) (j : Value) → parse_value t ≡ some j → (u : Bytes) × (dump_value j ≡ some u)
unfolding parse_value
dump-parsed [] j e = cc
dump-parsed (n ∷ t) j e = dump-decoded (decode_fields n t) j e

pub find_value-table :
    (k : Bytes) (fs : List (Bytes × Scalar))
    → find_value k (table fs) ≡ Option.map literal (assigned k fs)
unfolding find_value
find_value-table k fs = refl

pub string_value-string : (t : Bytes) → string_value (literal (Scalar.string t)) ≡ some t
unfolding string_value
string_value-string t = refl

pub bool_value-boolean : (b : Bool) → bool_value (literal (Scalar.boolean b)) ≡ some b
unfolding bool_value
bool_value-boolean b = refl

pub size_value-unsigned : (n : ℕ) → n < 2 ^ 64 → size_value (literal (Scalar.unsigned n)) ≡ some n
unfolding size_value
size_value-unsigned n h = refl

abbrev pub values : JsonLib Value
values = record {
  parse = parse_value;
  dump = dump_value;
  object = table;
  scalar = literal;
  find = find_value;
  get_string = string_value;
  get_bool = bool_value;
  is_number_unsigned = number_value;
  get_size = size_value;
  find-object = find_value-table;
  get_string-string = string_value-string;
  get_bool-boolean = bool_value-boolean;
  is_number_unsigned-unsigned = number_value-unsigned;
  get_size-unsigned = size_value-unsigned;
  get_size-number = number_value-size;
  parse-dump = parse-dump;
  dump-parsed = dump-parsed;
}
