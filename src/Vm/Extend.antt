-- ===== src/Vm/Extend.antt =====
-- `sign_extend` of crates/mipsevm/src/mips/mips_vm.rs at any width, and the arithmetic right shift.
use cannon_rs.Prelude.{
  ℕ, zero, suc, ◌+◌, ◌-◌, ◌*◌, ◌/◌, ◌%◌, ◌^◌, ◌<◌, ◌≤◌, ◌≡◌, refl, ap, ◌∙◌, ltb, ◌==◌,
  if◌then◌else◌, bit_and, bit_or, arith, ok, Bool, true, Bool-cases, ==_iff, inl, inr,
}
use cannon_rs.Word.{sub32, shl32, shr32}
use cannon_rs.Word.Bits.{bit_and_mask, bit_or_fields'}
use native.Mathlib.Nat.{
  one-le-pow, pow-suc, pow-le-pow_right, div-eq_of_lt, mod-eq_of_lt, le-div_iff_mul-le,
}
use native.Mathlib.Decide.{dec_lt}
use cannon_rs.Merkle.Heights.{pow-add, le-mul_pow}
use cannon_rs.Vm.Signs.{sra_by_zero}
use cannon_rs.Vm.Alu.{sign_extend, execute_function}

-- The ones above a field: `(2 ^ (w - k) - 1) * 2 ^ k` is `2 ^ w - 2 ^ k`.
ones_above : (q s : ℕ) → 0 < q → (q - 1) * s + s ≡ q * s
ones_above zero s h = absurd (omega (arith, h))
ones_above (suc q) s h = let e : suc q - 1 ≡ q = omega arith in rw e (omega arith)

power_splits : (k : ℕ) → k < 31 → 2 ^ (31 - k) * 2 ^ suc k ≡ 2 ^ 32
power_splits k h =
    let e : suc k + (31 - k) ≡ 32 = omega arith in
    pow-add (31 - k) (suc k) ∙ ap (λ (n : ℕ). 2 ^ n) e

-- The shifted ones as the code computes them.
signed_ones :
    (k : ℕ) → k < 31 → shl32 (sub32 (shl32 1 (31 - k)) 1) (suc k) ≡ (2 ^ (31 - k) - 1) * 2 ^ suc k
signed_ones k h =
    let amount : (31 - k) % 32 ≡ 31 - k = omega arith in
    let amount' : suc k % 32 ≡ suc k = omega arith in
    let top : k + (31 - k) ≡ 31 = omega arith in
    let half : 2 ^ (31 - k) * 2 ^ k ≡ 2 ^ 31 = pow-add (31 - k) k ∙ ap (λ (n : ℕ). 2 ^ n) top in
    let small : 2 ^ (31 - k) < 2 ^ 32 = omega (arith, le-mul_pow (2 ^ (31 - k)) k, half) in
    let ones : (1 * 2 ^ (31 - k) % 2 ^ 32 + 2 ^ 32 - 1 % 2 ^ 32) % 2 ^ 32 ≡ 2 ^ (31 - k) - 1 =
      omega (arith, small, one-le-pow (31 - k) 2) in
    rw (amount, amount', ones)
      (omega (
        arith,
        ones_above (2 ^ (31 - k)) (2 ^ suc k) (omega (arith, one-le-pow (31 - k) 2)),
        power_splits k h,
        one-le-pow (suc k) 2,
      ))

-- The mask of the field.
field_mask : (k : ℕ) → k < 31 → sub32 (shl32 1 (suc k)) 1 ≡ 2 ^ suc k - 1
field_mask k h =
    let amount' : suc k % 32 ≡ suc k = omega arith in
    let small : 2 ^ suc k < 2 ^ 32 =
      omega (arith, pow-le-pow_right {n = 2} (omega arith) {i = suc k} {j = 31} (omega arith)) in
    rw amount' (omega (arith, small, one-le-pow (suc k) 2))

quotient_zero : (value unit : ℕ) → 1 ≤ unit → (value / unit == 0) ≡ ltb value unit
quotient_zero value unit some_unit = elim (dec_lt value unit) [
  | yes below ↦ rw (div-eq_of_lt below) (ground arith)
  | no above ↦
      let some_units : 1 ≤ value / unit =
        (le-div_iff_mul-le {k = unit} {x = 1} {y = value} some_unit).1 (omega (arith, above)) in
      ground (arith, some_units)
]

-- `sign_extend` of a value of `k + 1` bits, fewer than 32, keeps a value whose bit `k` is clear, and
-- sets all the bits from `k + 1` on of another.
pub sign_extend_lem :
    (k value : ℕ)
    → k < 31
    → value < 2 ^ suc k
    → sign_extend value (suc k)
      ≡ (if ltb value (2 ^ k) then value else value + (2 ^ 32 - 2 ^ suc k))
unfolding sign_extend
sign_extend_lem k value h fits =
    let index : sub32 (suc k) 1 ≡ k = omega arith in
    let amount : k % 32 ≡ k = omega arith in
    let above : sub32 32 (suc k) ≡ 31 - k = omega arith in
    let upper : 2 ^ suc k ≡ 2 ^ k * 2 = pow-suc 2 k in
    let tested : (value / 2 ^ k == 0) ≡ ltb value (2 ^ k) =
      quotient_zero value (2 ^ k) (one-le-pow k 2 (omega arith)) in
    let masked : bit_and value (2 ^ suc k - 1) ≡ value =
      bit_and_mask (suc k) value ∙ mod-eq_of_lt {n = value} {m = 2 ^ suc k} fits in
    let joined : bit_or value ((2 ^ (31 - k) - 1) * 2 ^ suc k) ≡ value + (2 ^ 32 - 2 ^ suc k) =
      bit_or_fields' (suc k) (2 ^ (31 - k) - 1) value fits
      ∙ omega (
        arith,
        ones_above (2 ^ (31 - k)) (2 ^ suc k) (omega (arith, one-le-pow (31 - k) 2)),
        power_splits k h,
      ) in
    rw (index, above, signed_ones k h, field_mask k h, amount, tested, masked, joined)
      (elim (Bool-cases (ltb value (2 ^ k))) [ inl b ↦ rw b refl | inr b ↦ rw b refl ])

ltb-below : {x y : ℕ} → ltb x y ≡ true → x < y
ltb-below {x} {y} h = ground (arith, h)

-- Comparing a quotient is comparing the dividend.
quotient_below : (x unit bound : ℕ) → 1 ≤ unit → ltb (x / unit) bound ≡ ltb x (bound * unit)
quotient_below x unit bound some_unit =
    let law = le-div_iff_mul-le {k = unit} {x = bound} {y = x} some_unit in
    elim (dec_lt x (bound * unit)) [
      | yes below ↦ elim (dec_lt (x / unit) bound) [
        | yes small ↦ ground (arith, below, small)
        | no large ↦ absurd (omega (arith, below, law.0 (omega (arith, large))))
      ]
      | no above ↦
          let large : bound ≤ x / unit = law.1 (omega (arith, above)) in
          ground (arith, above, large)
    ]

-- The quotient by `2 ^ suc j`, extended from the bit that bit 31 has become.
shifted :
    (j x : ℕ)
    → j < 31
    → x < 2 ^ 32
    → sign_extend (shr32 x (suc j)) (sub32 32 (suc j))
      ≡ (if ltb x (2 ^ 31) then x / 2 ^ suc j else x / 2 ^ suc j + (2 ^ 32 - 2 ^ (32 - suc j)))
shifted j x h small =
    let amount : suc j % 32 ≡ suc j = omega arith in
    let width : sub32 32 (suc j) ≡ suc (30 - j) = omega arith in
    let width' : 32 - suc j ≡ suc (30 - j) = omega arith in
    let top : suc j + (30 - j) ≡ 31 = omega arith in
    let half : 2 ^ (30 - j) * 2 ^ suc j ≡ 2 ^ 31 =
      pow-add (30 - j) (suc j) ∙ ap (λ (n : ℕ). 2 ^ n) top in
    let top' : suc j + suc (30 - j) ≡ 32 = omega arith in
    let whole : 2 ^ suc (30 - j) * 2 ^ suc j ≡ 2 ^ 32 =
      pow-add (suc (30 - j)) (suc j) ∙ ap (λ (n : ℕ). 2 ^ n) top' in
    let unit : 1 ≤ 2 ^ suc j = one-le-pow (suc j) 2 (omega arith) in
    let fits : x / 2 ^ suc j < 2 ^ suc (30 - j) = ltb-below (
      quotient_below x (2 ^ suc j) (2 ^ suc (30 - j)) unit
      ∙ ap (λ (n : ℕ). ltb x n) whole
      ∙ ground (arith, small)) in
    let sign : ltb (x / 2 ^ suc j) (2 ^ (30 - j)) ≡ ltb x (2 ^ 31) =
      quotient_below x (2 ^ suc j) (2 ^ (30 - j)) unit ∙ ap (λ (n : ℕ). ltb x n) half in
    rw (amount, width, width')
      (sign_extend_lem (30 - j) (x / 2 ^ suc j) (omega arith) fits
        ∙ ap
            (λ (b : Bool). if b then x / 2 ^ suc j else x / 2 ^ suc j + (2 ^ 32 - 2 ^ suc (30 - j)))
            sign)

shifted_by :
    (shamt x : ℕ)
    → 0 < shamt
    → shamt < 32
    → x < 2 ^ 32
    → sign_extend (shr32 x shamt) (sub32 32 shamt)
      ≡ (if ltb x (2 ^ 31) then x / 2 ^ shamt else x / 2 ^ shamt + (2 ^ 32 - 2 ^ (32 - shamt)))
shifted_by zero x positive bounded small = absurd (omega (arith, positive))
shifted_by (suc j) x positive bounded small = shifted j x (omega (arith, bounded)) small

-- An arithmetic right shift (`sra`, function 3) of a u32 by an amount between 1 and 31 is the quotient
-- by the power of two when bit 31 is clear, and otherwise that quotient with all the bits that the
-- shift freed set. By the amount 0 it is 0, whatever the value of the register.
pub execute_function-shifts :
    (instruction rs rt : ℕ)
    → rt < 2 ^ 32
    → execute_function 3 instruction rs rt ≡ (
        let shamt = bit_and (instruction / 2 ^ 6) 0x1F in
        ok (
          if shamt == 0
          then 0
          else if ltb rt (2 ^ 31)
          then rt / 2 ^ shamt
          else rt / 2 ^ shamt + (2 ^ 32 - 2 ^ (32 - shamt))))
execute_function-shifts instruction rs rt small =
    let shamt = bit_and (instruction / 2 ^ 6) 0x1F in
    let bounded : shamt < 32 = omega (arith, bit_and_mask 5 (instruction / 2 ^ 6)) in
    elim (Bool-cases (shamt == 0)) [
      | inl none_left ↦
          rw none_left (sra_by_zero instruction rs rt ((==_iff shamt 0).0 none_left) small)
      | inr some_left ↦ rw some_left (
          unfold execute_function in
          ap ok (shifted_by shamt rt (ground (arith, some_left)) bounded small))
    ]
