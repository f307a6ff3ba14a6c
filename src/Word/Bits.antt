-- ===== src/Word/Bits.antt =====
-- `&` with a mask of low bits and `|` of disjoint fields, as arithmetic. The native operations count
-- their binary digits with fuel; the equations for the lowest digit have none.
use Prim.Native.Nat.{
  ℕ, zero, suc, ◌+◌, ◌-◌, ◌*◌, ◌/◌, ◌%◌, ◌^◌, ◌≤◌, ◌<◌, min, max, bit_and, bit_or, digits, bitwise,
  bit_and-bitwise, bit_or-bitwise, bit_xor, bit_xor-bitwise, differ,
}
use mathlib.Core.Path.{◌≡◌, refl, sym, ap, ◌∙◌}
use native.Mathlib.Nat.{pow-suc, pow-succ', one-le-pow, div-div-eq-div-mul}
use native.Mathlib.Omega.{arith}

module _ (rest : ℕ → ℕ) (digit : ℕ → ℕ → ℕ) where
  -- Any fuel that is enough gives what the number itself gives as fuel.
  drop_fuel :
      (bound fuel x y : ℕ)
      → fuel ≤ bound
      → x ≤ fuel
      → digits rest digit fuel x y ≡ bitwise rest digit x y
  drop_fuel bound zero zero y below enough = refl
  drop_fuel bound zero (suc x) y below enough = absurd (omega arith)
  drop_fuel bound (suc fuel) zero y below enough = refl
  drop_fuel zero (suc fuel) (suc x) y below enough = absurd (omega arith)
  drop_fuel (suc bound) (suc fuel) (suc x) y below enough =
      let half : suc x / 2 ≤ x = omega arith in
      ap (λ (t : ℕ). t * 2 + digit (suc x % 2) (y % 2))
        (drop_fuel bound fuel (suc x / 2) (y / 2) (omega arith) (omega arith)
          ∙ sym (drop_fuel bound x (suc x / 2) (y / 2) (omega arith) half))

  last_digit :
      (x y : ℕ)
      → bitwise rest digit (suc x) y
        ≡ digit (suc x % 2) (y % 2) + 2 * bitwise rest digit (suc x / 2) (y / 2)
  last_digit x y = omega (arith, drop_fuel x x (suc x / 2) (y / 2) (omega arith) (omega arith))

pub or_digit : (x y : ℕ) → bit_or x y ≡ max (x % 2) (y % 2) + 2 * bit_or (x / 2) (y / 2)
or_digit zero y = simp bit_or-bitwise (omega arith)
or_digit (suc x) y = simp bit_or-bitwise (last_digit (λ t. t) max x y)

pub and_digit : (x y : ℕ) → bit_and x y ≡ min (x % 2) (y % 2) + 2 * bit_and (x / 2) (y / 2)
and_digit zero y = simp bit_and-bitwise (omega arith)
and_digit (suc x) y = simp bit_and-bitwise (last_digit (λ t. 0) min x y)

pub xor_digit : (x y : ℕ) → bit_xor x y ≡ differ (x % 2) (y % 2) + 2 * bit_xor (x / 2) (y / 2)
xor_digit zero y = simp bit_xor-bitwise (omega arith)
xor_digit (suc x) y = simp bit_xor-bitwise (last_digit (λ t. t) differ x y)

-- With zero nothing is added, and nothing is kept.
pub with_zero : (bound x : ℕ) → x ≤ bound → (bit_or x 0 ≡ x) × (bit_and x 0 ≡ 0)
with_zero bound zero below = (refl, refl)
with_zero zero (suc x) below = absurd (omega arith)
with_zero (suc bound) (suc x) below =
    let half = with_zero bound (suc x / 2) (omega arith) in
    (omega (arith, half.0, or_digit (suc x) 0), omega (arith, half.1, and_digit (suc x) 0))

double_field : (high width : ℕ) → high * 2 ^ suc width ≡ high * 2 ^ width * 2
double_field high width = omega (arith, ap (λ (t : ℕ). high * t) (pow-suc 2 width))

-- A field above `width` bits and a number of `width` bits share no bit: `|` is their sum.
pub bit_or_fields :
    (width high low : ℕ) → low < 2 ^ width → bit_or (high * 2 ^ width) low ≡ high * 2 ^ width + low
bit_or_fields zero high low small = ground (arith, (with_zero high high (omega arith)).0)
bit_or_fields (suc width) high low small =
    let below : low / 2 < 2 ^ width = omega (arith, pow-suc 2 width) in
    ground (
      arith,
      bit_or_fields width high (low / 2) below,
      double_field high width,
      or_digit (high * 2 ^ suc width) low,
    )

-- The same with the sides exchanged.
pub bit_or_fields' :
    (width high low : ℕ) → low < 2 ^ width → bit_or low (high * 2 ^ width) ≡ high * 2 ^ width + low
bit_or_fields' zero high low small =
    let none_low : low ≡ 0 = omega arith in
    let all_high : high * 2 ^ 0 ≡ high = omega arith in
    rw (none_low, all_high) (bit_or-bitwise 0 high ∙ omega arith)
bit_or_fields' (suc width) high low small =
    let below : low / 2 < 2 ^ width = omega (arith, pow-suc 2 width) in
    ground (
      arith,
      bit_or_fields' width high (low / 2) below,
      double_field high width,
      or_digit low (high * 2 ^ suc width),
    )

-- The low bits of a field and a number of `width` bits are the number.
low_field :
    (width high low : ℕ) → low < 2 ^ width → bit_and (high * 2 ^ width + low) (2 ^ width - 1) ≡ low
low_field zero high low small =
    ground (arith, (with_zero (high * 2 ^ 0 + low) (high * 2 ^ 0 + low) (omega arith)).1)
low_field (suc width) high low small =
    let below : low / 2 < 2 ^ width = omega (arith, pow-suc 2 width) in
    ground (
      arith,
      low_field width high (low / 2) below,
      double_field high width,
      pow-suc 2 width,
      one-le-pow width 2,
      and_digit (high * 2 ^ suc width + low) (2 ^ suc width - 1),
    )

-- A mask of the `width` low bits is the remainder by `2 ^ width`.
pub bit_and_mask : (width x : ℕ) → bit_and x (2 ^ width - 1) ≡ x % 2 ^ width
bit_and_mask width x =
    ground (arith, low_field width (x / 2 ^ width) (x % 2 ^ width), one-le-pow width 2)

-- A mask that stands at bit `at` keeps bits from there on.
pub bit_and_shifted :
    (at mask x : ℕ) → bit_and x (mask * 2 ^ at) ≡ bit_and (x / 2 ^ at) mask * 2 ^ at
bit_and_shifted zero mask x = ground arith
bit_and_shifted (suc at) mask x =
    let halved : mask * 2 ^ suc at / 2 ≡ mask * 2 ^ at = omega (arith, double_field mask at) in
    let further : x / 2 / 2 ^ at ≡ x / 2 ^ suc at =
      div-div-eq-div-mul x 2 (2 ^ at) ∙ ap (λ (t : ℕ). x / t) (sym (pow-succ' 2 at)) in
    omega (
      arith,
      and_digit x (mask * 2 ^ suc at),
      bit_and_shifted at mask (x / 2),
      ap (λ (t : ℕ). bit_and t mask * 2 ^ at) further,
      ap (λ (t : ℕ). bit_and (x / 2) t) halved,
      double_field mask at,
      double_field (bit_and (x / 2 ^ suc at) mask) at,
    )
