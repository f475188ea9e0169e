-- ===== src/Utils.antt =====
-- src/Utils.cpp: the text of a size.
pub mod Hash
use drop_file.Common.{
  ℕ, zero, suc, ◌*◌, ◌/◌, ◌^◌, ◌<◌, ◌≡◌, refl, ◌≢◌, ◌↔◌, ◌++◌, arith, dec_lt, ltb, ◌==◌,
  if◌then◌else◌, Bytes, text,
}
use drop_file.Outcome.{Exception, undefined}
use drop_file.Result.{Result, ok, err}

-- static_cast<std::size_t>(std::log2(n)) for 0 < n < 2 ^ 64. The rounding of a double cannot move a
-- result over 10, 20 or 30, and only these are told apart. Fuel: one round for each bit.
pub log2_loop : ℕ → ℕ → ℕ
log2_loop zero n = 0
log2_loop (suc fuel) n = let rest = log2_loop fuel (n / 2) in if ltb n 2 then 0 else suc rest

unfoldable pub log2 : ℕ → ℕ
unfolding log2_loop
log2 n = log2_loop 64 n

abbrev pub step : ℕ
step = 10

-- std::log2(0) is minus infinity, and converting that to an integer is undefined.
unfoldable pub bytes_to_human_readable : (ℕ → Bytes) → ℕ → Result Bytes
bytes_to_human_readable format_number n =
    let order_of_magnitude = log2 n / step in
    if n == 0
    then err undefined
    else if order_of_magnitude == 0
    then ok (format_number n ++ text " B")
    else if order_of_magnitude == 1
    then ok (format_number (n / 1024) ++ text " kiB")
    else if order_of_magnitude == 2
    then ok (format_number (n / (1024 * 1024)) ++ text " MiB")
    else ok (format_number (n / (1024 * 1024 * 1024)) ++ text " GiB")

-- `n` has at most `k` bits.
abbrev FitsBits : ℕ → ℕ → Type 0
FitsBits zero n = n ≡ 0
FitsBits (suc k) n = FitsBits k (n / 2)

FitsBits-zero : (k n : ℕ) → n ≡ 0 → FitsBits k n
FitsBits-zero zero n e = e
FitsBits-zero (suc k) n e = FitsBits-zero k (n / 2) (omega arith)

log2_loop-lt : (fuel k n : ℕ) → FitsBits fuel n → 0 < n → (log2_loop fuel n < k) ↔ FitsBits k n
unfolding log2_loop
log2_loop-lt zero k n fits pos = absurd (omega arith)
log2_loop-lt (suc fuel) zero n fits pos = (λ h. absurd (omega arith), λ h. absurd (omega arith))
log2_loop-lt (suc fuel) (suc k) n fits pos = elim (dec_lt n 2) [
  | yes one ↦ (λ h. FitsBits-zero k (n / 2) (omega arith), λ h. ground arith)
  | no more ↦
      let ih = log2_loop-lt fuel k (n / 2) fits (omega arith) in
      (λ h. ih.0 (ground arith), λ h. let lt = ih.1 h in ground arith)
]

log2-lt : (k n : ℕ) → n < 2 ^ 64 → 0 < n → (log2 n < k) ↔ FitsBits k n
unfolding log2
log2-lt k n h pos = log2_loop-lt 64 k n (omega arith) pos

-- For a size of less than 2 ^ 64, the unit is the largest of B, kiB, MiB and GiB that is not above
-- the size, which is rounded down to it; a size of 0 is undefined behaviour.
pub bytes_to_human_readable_lem :
    (format_number : ℕ → Bytes) (n : ℕ)
    → n < 2 ^ 64
    → bytes_to_human_readable format_number n ≡ (
        if n == 0
        then err undefined
        else if ltb n (2 ^ 10)
        then ok (format_number n ++ text " B")
        else if ltb n (2 ^ 20)
        then ok (format_number (n / 2 ^ 10) ++ text " kiB")
        else if ltb n (2 ^ 30)
        then ok (format_number (n / 2 ^ 20) ++ text " MiB")
        else ok (format_number (n / 2 ^ 30) ++ text " GiB"))
unfolding bytes_to_human_readable
bytes_to_human_readable_lem format_number n h = elim (dec_lt 0 n) [
  | no z ↦ ground arith
  | yes pos ↦
      let b10 : (log2 n < 10) ↔ (n < 2 ^ 10) = (
        λ x. let y = (log2-lt 10 n h pos).0 x in omega arith,
        λ x. (log2-lt 10 n h pos).1 (omega arith),
      ) in
      let b20 : (log2 n < 20) ↔ (n < 2 ^ 20) = (
        λ x. let y = (log2-lt 20 n h pos).0 x in omega arith,
        λ x. (log2-lt 20 n h pos).1 (omega arith),
      ) in
      let b30 : (log2 n < 30) ↔ (n < 2 ^ 30) = (
        λ x. let y = (log2-lt 30 n h pos).0 x in omega arith,
        λ x. (log2-lt 30 n h pos).1 (omega arith),
      ) in
      ground arith
]

not_err :
    (format_number : ℕ → Bytes) (n : ℕ) {x : Exception}
    → 0 < n
    → bytes_to_human_readable format_number n ≢ err x
unfolding bytes_to_human_readable
not_err format_number n h e = ground arith

-- Every other size has a text.
pub bytes_to_human_readable-ok :
    (format_number : ℕ → Bytes) (n : ℕ)
    → 0 < n
    → (t : Bytes) × (bytes_to_human_readable format_number n ≡ ok t)
bytes_to_human_readable-ok format_number n h = go (bytes_to_human_readable format_number n) refl
  where
    go :
        (r : Result Bytes)
        → bytes_to_human_readable format_number n ≡ r
        → (t : Bytes) × (bytes_to_human_readable format_number n ≡ ok t)
    go (ok t) e = (t, e)
    go (err x) e = absurd (not_err format_number n h e)
