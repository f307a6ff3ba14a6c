-- ===== src/Word.antt =====
-- The unsigned words of the emulator: u32 and u64 values as native numbers below 2 ^ 32 and
-- 2 ^ 64, with the wrapping arithmetic that crates/mipsevm is compiled with (the profiles of
-- Cargo.toml leave `overflow-checks` off), and their big-endian bytes.
pub mod Bits
pub mod Bytes
pub mod Bounds
use cannon_rs.Prelude.{
  ℕ, zero, suc, ◌+◌, ◌-◌, ◌*◌, ◌/◌, ◌%◌, ◌^◌, Bool, ltb, if◌then◌else◌, bit_and, bit_or, bit_xor,
}
use cannon_rs.Prelude.Int.{ℤ, pos, negsuc}

abbrev pub u8 : ℕ → ℕ
u8 n = n % 2 ^ 8

abbrev pub u32 : ℕ → ℕ
u32 n = n % 2 ^ 32

abbrev pub u64 : ℕ → ℕ
u64 n = n % 2 ^ 64

-- `a + b`, `a - b` and `a * b` of u32. `-` on ℕ stops at 0, so the modulus is added first.
abbrev pub add32 : ℕ → ℕ → ℕ
add32 a b = u32 (a + b)

abbrev pub sub32 : ℕ → ℕ → ℕ
sub32 a b = u32 (a + 2 ^ 32 - b % 2 ^ 32)

abbrev pub mul32 : ℕ → ℕ → ℕ
mul32 a b = u32 (a * b)

-- `a << k` and `a >> k` of u32: the amount is taken modulo 32.
abbrev pub shl32 : ℕ → ℕ → ℕ
shl32 a k = u32 (a * 2 ^ (k % 32))

abbrev pub shr32 : ℕ → ℕ → ℕ
shr32 a k = a / 2 ^ (k % 32)

-- `!a` of u32.
abbrev pub not32 : ℕ → ℕ
not32 a = 2 ^ 32 - 1 - a

-- `a as i32`, and back.
abbrev pub as_i32 : ℕ → ℤ
as_i32 a = if ltb a (2 ^ 31) then pos a else negsuc (2 ^ 32 - 1 - a)

abbrev pub i32_as_u32 : ℤ → ℕ
i32_as_u32 (pos n) = u32 n
i32_as_u32 (negsuc n) = 2 ^ 32 - 1 - u32 n

-- `((a as i32) as i64) as u64`.
abbrev pub sext64 : ℕ → ℕ
sext64 a = if ltb a (2 ^ 31) then a else a + 2 ^ 64 - 2 ^ 32

-- `bool as u32`.
abbrev pub of_bool : Bool → ℕ
of_bool b = if b then 1 else 0
