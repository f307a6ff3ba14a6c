-- ===== src/Vm/LeadingOnes.antt =====
-- The loop of clz and clo of crates/mipsevm/src/mips/mips_vm.rs.
use native.Mathlib.Nat.{pow-suc}
use cannon_rs.Prelude.{
  ℕ, zero, suc, ◌+◌, ◌*◌, ◌/◌, ◌%◌, ◌^◌, ◌≤◌, ◌<◌, ◌≡◌, refl, ap, ◌∙◌, inl, inr, Bool-cases, ◌==◌,
  if◌then◌else◌, arith, ok, bit_and, ◌⊎◌, false, Bool,
}
use cannon_rs.Word.Bits.{bit_and_shifted, bit_and_mask}
use cannon_rs.Word.{shl32, not32}
use cannon_rs.Vm.Alu.{count_leading_ones, execute_special2}

top_bit : (rs : ℕ) → bit_and rs 0x80000000 ≡ rs / 2 ^ 31 % 2 * 2 ^ 31
top_bit rs = omega (arith, bit_and_shifted 31 1 rs, bit_and_mask 1 (rs / 2 ^ 31))

-- The distance to 2 ^ 32 doubles in every round; with as much fuel as there are bits left, and one
-- round more, the loop ends.
loop_ends :
    (fuel k rs i : ℕ)
    → fuel + k ≡ 33
    → 2 ^ k + rs ≤ 2 ^ 32
    → (n : ℕ) × (count_leading_ones fuel rs i ≡ ok n) × (i ≤ n) × (n + k ≤ i + 32)
unfolding count_leading_ones
loop_ends zero k rs i fuel_left room =
    let e : k ≡ 33 = omega arith in absurd (omega (arith, ap (λ (t : ℕ). 2 ^ t) e))
loop_ends (suc fuel) k rs i fuel_left room = elim (Bool-cases (bit_and rs 0x80000000 == 0)) [
  | inl clear ↦ (
    i,
    ap (λ (b : Bool). if b then ok i else count_leading_ones fuel (shl32 rs 1) (i + 1)) clear,
    omega arith,
    short,
  )
  | inr set ↦
      let rest = loop_ends fuel (suc k) (shl32 rs 1) (i + 1) (omega arith) (doubled set) in
      (
        rest.0,
        ap (λ (b : Bool). if b then ok i else count_leading_ones fuel (shl32 rs 1) (i + 1)) set
            ∙ rest.1,
        omega (arith, rest.2),
        omega (arith, rest.3),
      )
]
  where
    short : i + k ≤ i + 32
    short = omega (arith, fuel_room)
      where
        fuel_room : k ≤ 32
        fuel_room = omega arith

    doubled : (bit_and rs 0x80000000 == 0) ≡ false → 2 ^ suc k + shl32 rs 1 ≤ 2 ^ 32
    doubled set =
        let high : rs / 2 ^ 31 % 2 ≡ 1 = ground (arith, top_bit rs) in omega (arith, pow-suc 2 k)

-- clz and clo (functions 0x20 and 0x21 of SPECIAL2) end within their fuel, with a count of at most 32.
pub count_ends :
    (fun rs rt : ℕ)
    → (fun ≡ 0x20) ⊎ (fun ≡ 0x21)
    → rs < 2 ^ 32
    → (n : ℕ) × (execute_special2 fun rs rt ≡ ok n) × (n ≤ 32)
count_ends fun rs rt (inl clz) small =
    let e = loop_ends 33 0 (not32 rs) 0 refl (omega arith) in
    (
      e.0,
      ap (λ (f : ℕ). execute_special2 f rs rt) clz ∙ (unfold execute_special2 in e.1),
      omega (arith, e.3),
    )
count_ends fun rs rt (inr clo) small =
    let e = loop_ends 33 0 rs 0 refl (omega arith) in
    (
      e.0,
      ap (λ (f : ℕ). execute_special2 f rs rt) clo ∙ (unfold execute_special2 in e.1),
      omega (arith, e.3),
    )
