-- ===== src/ClientArgParser.antt =====
-- src/client/ClientArgParser.cpp behind the parse of the options, which is argparse's.
pub mod Parses
use drop_file.Common.{
  ℕ, suc, ◌+◌, min, ◌≡◌, refl, sym, ap, subst, ◌∙◌, ◌≢◌, ◌⊎◌, inl, inr, Bool, not, Option, none,
  some, [], ◌∷◌, ◌++◌, arith, ◌==◌, if◌then◌else◌, Bool-cases, Bytes, text, bytes_eq, length, take,
  drop, All, take-append-drop,
}

abbrev pub last_of : ℕ → ℕ → Option ℕ → Option ℕ
last_of c b none = if b == c then none else some 0
last_of c b (some pos) = some (suc pos)

-- std::string::find_last_not_of of one character.
unfoldable pub find_last_not_of : ℕ → Bytes → Option ℕ
find_last_not_of c [] = none
find_last_not_of c (b ∷ bs) = last_of c b (find_last_not_of c bs)

-- The part of a text up to a position, or at most one character of it.
abbrev pub up_to : Bytes → Option ℕ → Bytes
up_to t none = take (min (length t) 1) t
up_to t (some pos) = take (pos + 1) t

unfoldable pub remove_trailing_slashes : Bytes → Bytes
remove_trailing_slashes file_or_code = up_to file_or_code (find_last_not_of 47 file_or_code)

pub data Action : Type 0 where
  send receive : Action

pub record ClientArgs : Type 0 where
  pub action : Action
  pub file_to_send_path : Option Bytes
  pub receive_code : Option Bytes
  pub port : ℕ
  pub server_domain_name : Bytes
  pub verify_cert : Bool

-- The values that argparse gives for the options.
pub record Options : Type 0 where
  pub action_text : Bytes
  pub file_or_code : Bytes
  pub port_value : ℕ
  pub domain_name : Bytes
  pub allow_self_signed_cert : Bool

unfoldable pub client_args : Options → ClientArgs
client_args o =
    if bytes_eq o.action_text (text "send")
    then record {
      action = send;
      file_to_send_path = some (remove_trailing_slashes o.file_or_code);
      receive_code = none;
      port = o.port_value;
      server_domain_name = o.domain_name;
      verify_cert = not o.allow_self_signed_cert;
    }
    else record {
      action = receive;
      file_to_send_path = none;
      receive_code = some o.file_or_code;
      port = o.port_value;
      server_domain_name = o.domain_name;
      verify_cert = not o.allow_self_signed_cert;
    }

abbrev pub IsSlash : ℕ → Type 0
IsSlash b = b ≡ 47

-- A text that ends with something else than a slash.
abbrev pub EndsOtherwise : Bytes → Type 0
EndsOtherwise t = (front : Bytes) × (x : ℕ) × (t ≡ front ++ (x ∷ [])) × (x ≢ 47)

-- Behind the last character that is no slash, or everywhere if there is none, stand slashes only.
abbrev Found : Bytes → Option ℕ → Type 0
Found t none = All IsSlash t
Found t (some pos) = EndsOtherwise (take (pos + 1) t) × All IsSlash (drop (pos + 1) t)

Found-next : (b : ℕ) (bs : Bytes) (o : Option ℕ) → Found bs o → Found (b ∷ bs) (last_of 47 b o)
unfolding take drop
Found-next b bs none h = elim (Bool-cases (b == 47)) [
  | inl e ↦ rw e (ground (arith, e), h)
  | inr e ↦ rw e (([], b, refl, λ k. ground (arith, e, k)), h)
]
Found-next b bs (some pos) ((front, x, e, other), slashes) =
    let place : suc pos + 1 ≡ suc (pos + 1) = omega arith in
    (
      (b ∷ front, x, ap (λ k. take k (b ∷ bs)) place ∙ ap (◌∷◌ b) e, other),
      subst (λ k. All IsSlash (drop k (b ∷ bs))) (sym place) slashes,
    )

find_last_not_of-Found : (t : Bytes) → Found t (find_last_not_of 47 t)
unfolding find_last_not_of
find_last_not_of-Found [] = tt
find_last_not_of-Found (b ∷ bs) =
    Found-next b bs (find_last_not_of 47 bs) (find_last_not_of-Found bs)

-- What is cut off a text at its end.
abbrev pub Stripped : Bytes → Bytes → Type 0
Stripped t r =
    (cut : Bytes) × (t ≡ r ++ cut)
    × All IsSlash cut
    × ((r ≡ []) × (t ≡ []) ⊎ ((r ≡ 47 ∷ []) ⊎ EndsOtherwise r))

up_to-Stripped : (t : Bytes) (o : Option ℕ) → Found t o → Stripped t (up_to t o)
unfolding take
up_to-Stripped [] none h = ([], refl, tt, inl (refl, refl))
up_to-Stripped (b ∷ bs) none h =
    let one : min (length (b ∷ bs)) 1 ≡ 1 = omega arith in
    rw (one, h.0) (bs, refl, h.1, inr (inl refl))
up_to-Stripped t (some pos) (other, slashes) =
    (drop (pos + 1) t, sym (take-append-drop (pos + 1) t), slashes, inr (inr other))

-- removeTrailingSlashes cuts slashes only off the end of a text, and all of them, but for the first of
-- a text that is nothing else: what is left is empty only for an empty text.
pub remove_trailing_slashes_lem : (t : Bytes) → Stripped t (remove_trailing_slashes t)
unfolding remove_trailing_slashes
remove_trailing_slashes_lem t = up_to-Stripped t (find_last_not_of 47 t) (find_last_not_of-Found t)
