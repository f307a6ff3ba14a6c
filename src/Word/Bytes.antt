-- ===== src/Word/Bytes.antt =====
-- Big-endian bytes: `to_be_bytes` and `from_be_bytes` of the words.
use cannon_rs.Prelude.{ℕ, ◌+◌, ◌*◌, ◌/◌, ◌%◌, ◌^◌, ◌<◌, ◌≡◌, List, [], ◌∷◌, arith}

-- `n.to_be_bytes()` of a u32 and of a u64 (or of a usize).
abbrev pub u32_to_be_bytes : ℕ → List ℕ
u32_to_be_bytes n = (n / 2 ^ 24 % 256) ∷ (n / 2 ^ 16 % 256) ∷ (n / 2 ^ 8 % 256) ∷ (n % 256) ∷ []

abbrev pub u64_to_be_bytes : ℕ → List ℕ
u64_to_be_bytes n =
    (n / 2 ^ 56 % 256)
    ∷ (n / 2 ^ 48 % 256)
    ∷ (n / 2 ^ 40 % 256)
    ∷ (n / 2 ^ 32 % 256)
    ∷ (n / 2 ^ 24 % 256)
    ∷ (n / 2 ^ 16 % 256)
    ∷ (n / 2 ^ 8 % 256)
    ∷ (n % 256)
    ∷ []

-- `from_be_bytes`, of as many bytes as there are.
unfoldable pub from_be : ℕ → List ℕ → ℕ
from_be acc [] = acc
from_be acc (b ∷ bs) = from_be (acc * 256 + b) bs

abbrev pub from_be_bytes : List ℕ → ℕ
from_be_bytes bs = from_be 0 bs

pub u32_from-to : (n : ℕ) → n < 2 ^ 32 → from_be_bytes (u32_to_be_bytes n) ≡ n
unfolding from_be
u32_from-to n h = omega arith

pub u64_from-to : (n : ℕ) → n < 2 ^ 64 → from_be_bytes (u64_to_be_bytes n) ≡ n
unfolding from_be
u64_from-to n h = omega arith
