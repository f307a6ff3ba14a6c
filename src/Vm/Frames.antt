-- ===== src/Vm/Frames.antt =====
-- What the handlers of crates/mipsevm/src/mips/mips_vm.rs leave alone: memory, register 0 and the
-- step counter.
use cannon_rs.Prelude.{ℕ, ◌≡◌, Bool, Holds, Holds-bind, arith}
use cannon_rs.State.{State}
use cannon_rs.Vm.Handlers.{advance, handle_branch, hi_lo, handle_hi_lo, handle_jump, handle_rd}

-- The memory, register 0 and the step counter are those of `s`.
abbrev pub Frames : State → State → Type 0
Frames s s' = (s'.memory ≡ s.memory) × (s'.registers 0 ≡ s.registers 0) × (s'.step ≡ s.step)

pub rd-Frames : (reg val : ℕ) (c : Bool) (s : State) → Holds (Frames s) (handle_rd reg val c s)
unfolding handle_rd advance
rd-Frames reg val c s = ground arith

pub jump-Frames : (link dest : ℕ) (s : State) → Holds (Frames s) (handle_jump link dest s)
unfolding handle_jump
jump-Frames link dest s = ground arith

pub branch-Frames :
    (opcode instruction rt_reg rs : ℕ) (s : State)
    → Holds (Frames s) (handle_branch opcode instruction rt_reg rs s)
unfolding handle_branch
branch-Frames opcode instruction rt_reg rs s = ground arith

-- hi and lo are all that changes.
hi_lo-frame :
    (fun rs rt : ℕ) (s : State)
    → Holds
        (λ p. (p.1.memory ≡ s.memory) × (p.1.registers ≡ s.registers) × (p.1.step ≡ s.step))
        (hi_lo fun rs rt s)
unfolding hi_lo
hi_lo-frame fun rs rt s = ground arith

pub handle_hi_lo-Frames :
    (fun rs rt reg : ℕ) (s : State) → Holds (Frames s) (handle_hi_lo fun rs rt reg s)
unfolding handle_hi_lo advance
handle_hi_lo-Frames fun rs rt reg s =
    Holds-bind (λ p. (p.1.memory ≡ s.memory) × (p.1.registers ≡ s.registers) × (p.1.step ≡ s.step))
      (Frames s) (hi_lo fun rs rt s) _ (hi_lo-frame fun rs rt s) λ p same. ground arith
