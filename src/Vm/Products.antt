-- ===== src/Vm/Products.antt =====
-- hi and lo after the products and the divisions of crates/mipsevm/src/mips/mips_vm.rs.
use native.Mathlib.Nat.{div-add-mod', mod-lt, mul-le-mul}
use cannon_rs.Prelude.{
  ℕ, ◌+◌, ◌-◌, ◌*◌, ◌/◌, ◌%◌, ◌^◌, ◌<◌, ◌≡◌, ◌≢◌, refl, arith, ok, panic, ◌==◌, if◌then◌else◌, Bool,
  true, false, ap,
}
use cannon_rs.Word.{u64}
use cannon_rs.State.{State}
use cannon_rs.Vm.Handlers.{handle_hi_lo, hi_lo, advance, set_register, set_product}

product_fits : (a b : ℕ) → a < 2 ^ 32 → b < 2 ^ 32 → a * b < 2 ^ 64
product_fits a b h k = omega (
  arith,
  mul-le-mul {n₁ = a} {m₁ = b} {n₂ = 2 ^ 32 - 1} {m₂ = 2 ^ 32 - 1} (omega arith) (omega arith),
)

-- What the end of `handle_hi_lo` keeps.
advanced :
    (b : Bool) (reg val : ℕ) (s : State)
    → ((advance (if b then s else set_register reg val s)).hi ≡ s.hi)
      × ((advance (if b then s else set_register reg val s)).lo ≡ s.lo)
unfolding advance
advanced true reg val s = (refl, refl)
advanced false reg val s = (refl, refl)

-- `multu` of two words leaves their product in hi and lo, all 64 bits of it.
pub multu_product :
    (rs rt store_reg : ℕ) (s : State)
    → rs < 2 ^ 32
    → rt < 2 ^ 32
    → (s' : State) × (handle_hi_lo 0x19 rs rt store_reg s ≡ ok s')
      × (s'.hi * 2 ^ 32 + s'.lo ≡ rs * rt)
unfolding handle_hi_lo
multu_product rs rt store_reg s h k =
    let kept = advanced (store_reg == 0) store_reg 0 (set_product (u64 (rs * rt)) s) in
    (
      advance (
          if store_reg == 0
          then set_product (u64 (rs * rt)) s
          else set_register store_reg 0 (set_product (u64 (rs * rt)) s)),
      unfold hi_lo in refl,
      omega (arith, kept.0, kept.1, product_fits rs rt h k),
    )

-- `divu` panics if the divisor is zero, and otherwise leaves the quotient in lo and the remainder in hi.
pub divu_quotient :
    (rs rt store_reg : ℕ) (s : State)
    → (rt ≡ 0 → handle_hi_lo 0x1B rs rt store_reg s ≡ panic)
      × (rt ≢ 0
          → (s' : State) × (handle_hi_lo 0x1B rs rt store_reg s ≡ ok s')
            × (s'.lo * rt + s'.hi ≡ rs)
            × (s'.hi < rt))
unfolding handle_hi_lo hi_lo
divu_quotient rs rt store_reg s = (
  λ zero_divisor. ground arith,
  λ nonzero.
      let s0 = record s { hi = rs % rt; lo = rs / rt } in
      let kept = advanced (store_reg == 0) store_reg 0 s0 in
      (
        advance (if store_reg == 0 then s0 else set_register store_reg 0 s0),
        ground arith,
        omega (arith, kept.0, kept.1, ap (λ (t : ℕ). t * rt) kept.1, div-add-mod' rs rt),
        omega (arith, kept.0, mod-lt rs {m = rt} (omega arith)),
      ),
)
