-- ===== src/Result.antt =====
-- Pure code that may throw.
use drop_file.Common.{if◌then◌else◌, Bool}
use drop_file.Outcome.{Exception, Action, done, thrown}

pub data Result {ℓ} (A : Type ℓ) : Type ℓ where
  ok : A → Result A
  err : Exception → Result A

-- `if (!b) throw e;`
abbrev pub require : Bool → Exception → Result (Unit {0})
require b e = if b then ok tt else err e

infixl 5 ◌>>=◌ ◌>>◌
-- An exception skips what follows.
abbrev pub ◌>>=◌ {ℓ κ} : {A : Type ℓ} {B : Type κ} → Result A → (A → Result B) → Result B
err x >>= next = err x
ok value >>= next = next value

abbrev pub ◌>>◌ {κ} : {A : Type κ} → Result (Unit {0}) → Result A → Result A
first >> next = first >>= λ _. next

-- Pure code run where there is a state.
abbrev pub lift {ℓ κ} : {S : Type ℓ} {A : Type κ} → Result A → Action S A
lift (ok a) s = done a s
lift (err e) s = thrown e s
