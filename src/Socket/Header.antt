-- ===== src/Socket/Header.antt =====
-- A std::size_t in memory: eight bytes, the lowest first (x86-64), as sendChunk writes the header
-- and std::bit_cast reads it back.
use drop_file.Common.{
  ℕ, zero, suc, ◌+◌, ◌*◌, ◌/◌, ◌%◌, ◌^◌, ◌<◌, ◌≡◌, refl, ap, Bytes, [], ◌∷◌, length, All, arith,
}

unfoldable pub le_bytes : ℕ → ℕ → Bytes
le_bytes zero n = []
le_bytes (suc k) n = (n % 256) ∷ le_bytes k (n / 256)

unfoldable pub le_value : Bytes → ℕ
le_value [] = 0
le_value (b ∷ bs) = b + 256 * le_value bs

-- sizeof(MSG_HEADER_t)
abbrev pub header_size : ℕ
header_size = 8

pub length-le_bytes : (k n : ℕ) → length (le_bytes k n) ≡ k
unfolding le_bytes
length-le_bytes zero n = refl
length-le_bytes (suc k) n = ap suc (length-le_bytes k (n / 256))

pub le_bytes-byte : (k n : ℕ) → All (λ b. b < 256) (le_bytes k n)
unfolding le_bytes
le_bytes-byte zero n = tt
le_bytes-byte (suc k) n = (omega arith, le_bytes-byte k (n / 256))

-- `n` fits into `k` bytes.
abbrev pub Fits : ℕ → ℕ → Type 0
Fits zero n = n ≡ 0
Fits (suc k) n = Fits k (n / 256)

le_value-le_bytes-Fits : (k n : ℕ) → Fits k n → le_value (le_bytes k n) ≡ n
unfolding le_value le_bytes
le_value-le_bytes-Fits zero n h = omega arith
le_value-le_bytes-Fits (suc k) n h = omega (arith, le_value-le_bytes-Fits k (n / 256) h)

-- A length of less than 2 ^ 64 is read back from its header.
pub le_value-le_bytes : (n : ℕ) → n < 2 ^ 64 → le_value (le_bytes header_size n) ≡ n
le_value-le_bytes n h = le_value-le_bytes-Fits 8 n (omega arith)

pub le_value-lt : (bs : Bytes) → All (λ b. b < 256) bs → length bs ≡ 8 → le_value bs < 2 ^ 64
unfolding le_value
le_value-lt (a ∷ b ∷ c ∷ d ∷ e ∷ f ∷ g ∷ h ∷ []) all len = omega arith
le_value-lt _ all len = absurd (omega arith)

-- A block of bytes is the memory of its value.
pub le_bytes-le_value :
    (bs : Bytes) → All (λ b. b < 256) bs → le_bytes (length bs) (le_value bs) ≡ bs
unfolding le_value le_bytes
le_bytes-le_value [] all = refl
le_bytes-le_value (b ∷ bs) all =
    let low : (b + 256 * le_value bs) % 256 ≡ b = omega (arith, all.0) in
    let high : (b + 256 * le_value bs) / 256 ≡ le_value bs = omega (arith, all.0) in
    rw (low, high) (ap (◌∷◌ b) (le_bytes-le_value bs all.1))

pub le_value-le_bytes_one : (n : ℕ) → n < 256 → le_value (le_bytes 1 n) ≡ n
le_value-le_bytes_one n h = le_value-le_bytes-Fits 1 n (omega arith)

pub le_value_one-lt : (d : Bytes) → length d ≡ 1 → All (λ b. b < 256) d → le_value d < 256
unfolding le_value
le_value_one-lt [] len h = absurd (omega arith)
le_value_one-lt (x ∷ []) len h = omega (arith, h.0)
le_value_one-lt (x ∷ (y ∷ d)) len h = absurd (omega arith)
