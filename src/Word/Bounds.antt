-- ===== src/Word/Bounds.antt =====
-- Bounds of the bitwise operations of u32 values.
use cannon_rs.Prelude.{ℕ, zero, suc, ◌/◌, ◌%◌, ◌^◌, ◌<◌, ◌≤◌, ◌≡◌, bit_and, bit_or, bit_xor, arith}
use cannon_rs.Prelude.Int.{ℤ, pos, negsuc}
use cannon_rs.Word.{shl32, shr32, i32_as_u32}
use cannon_rs.Word.Bits.{or_digit, and_digit, xor_digit, with_zero}
use Prim.Native.Nat.{differ}
use native.Mathlib.Nat.{pow-suc, div-le_self}

pub bit_and-lt : (width x y : ℕ) → y < 2 ^ width → bit_and x y < 2 ^ width
bit_and-lt zero x y h =
    let e : y ≡ 0 = omega arith in
    let z : bit_and x 0 ≡ 0 = (with_zero x x (omega arith)).1 in rw (e, z) (omega arith)
bit_and-lt (suc width) x y h = omega (
  arith,
  and_digit x y,
  pow-suc 2 width,
  bit_and-lt width (x / 2) (y / 2) (omega (arith, pow-suc 2 width)),
)

pub bit_or-lt : (width x y : ℕ) → x < 2 ^ width → y < 2 ^ width → bit_or x y < 2 ^ width
bit_or-lt zero x y h k =
    let e : x ≡ 0 = omega arith in let e' : y ≡ 0 = omega arith in rw (e, e') (omega arith)
bit_or-lt (suc width) x y h k = omega (
  arith,
  or_digit x y,
  pow-suc 2 width,
  bit_or-lt width (x / 2) (y / 2) (omega (arith, pow-suc 2 width)) (omega (arith, pow-suc 2 width)),
)

differ-lt : (x y : ℕ) → x < 2 → y < 2 → differ x y < 2
differ-lt zero y h k = k
differ-lt (suc x) zero h k = h
differ-lt (suc zero) (suc zero) h k = omega arith
differ-lt (suc zero) (suc (suc y)) h k = absurd (omega arith)
differ-lt (suc (suc x)) (suc y) h k = absurd (omega arith)

pub bit_xor-lt : (width x y : ℕ) → x < 2 ^ width → y < 2 ^ width → bit_xor x y < 2 ^ width
bit_xor-lt zero x y h k =
    let e : x ≡ 0 = omega arith in let e' : y ≡ 0 = omega arith in rw (e, e') (omega arith)
bit_xor-lt (suc width) x y h k = omega (
  arith,
  xor_digit x y,
  differ-lt (x % 2) (y % 2) (omega arith) (omega arith),
  pow-suc 2 width,
  bit_xor-lt width (x / 2) (y / 2) (omega (arith, pow-suc 2 width))
      (omega (arith, pow-suc 2 width)),
)

pub shl32-lt : (x k : ℕ) → shl32 x k < 2 ^ 32
shl32-lt x k = omega arith

pub shr32-le : (x k : ℕ) → shr32 x k ≤ x
shr32-le x k = div-le_self x (2 ^ (k % 32))

pub i32_as_u32-lt : (z : ℤ) → i32_as_u32 z < 2 ^ 32
i32_as_u32-lt (pos n) = omega arith
i32_as_u32-lt (negsuc n) = omega arith
