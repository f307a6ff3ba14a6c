-- ===== src/Vm/Typed.antt =====
-- The types of the fields of the state, crates/mipsevm/src/state.rs, as bounds, and the handlers of
-- crates/mipsevm/src/mips/mips_vm.rs that keep them.
pub mod Alu
pub mod Syscalls
pub mod Step
pub mod Steps
use cannon_rs.Prelude.{
  ℕ, ◌+◌, ◌*◌, ◌/◌, ◌%◌, ◌^◌, ◌<◌, ◌≤◌, ◌≡◌, ◌==◌, Bool, true, false, not, ◌&&◌, if◌then◌else◌,
  update, update_all, length, Result, ok, Holds, Holds-bind, Holds-then, Holds-if, bail_if, leb,
  invalid_register, jump_in_delay_slot, branch_in_delay_slot, arith,
}
use cannon_rs.Word.{add32, as_i32}
use cannon_rs.Prelude.Int.{rem_ℤ, quot_ℤ}
use native.Mathlib.Nat.{div-le_self, mod-le}
use cannon_rs.Hash.{Keccak}
use cannon_rs.Memory.{Memory}
use cannon_rs.State.{State}
use cannon_rs.Vm.Handlers.{
  advance, set_register, handle_rd, handle_jump, handle_branch, hi_lo, handle_hi_lo,
}
use cannon_rs.Word.Bounds.{i32_as_u32-lt}
use cannon_rs.Memory.Typed

-- The program counters, hi, lo, the heap, the preimage offset and the registers are u32 values, the exit
-- code is a u8, the counter a u64, and the preimage key has 32 bytes.
pub record HasWords (s : State) : Type 0 where
  pub pc : s.pc < 2 ^ 32
  pub next_pc : s.next_pc < 2 ^ 32
  pub lo : s.lo < 2 ^ 32
  pub hi : s.hi < 2 ^ 32
  pub heap : s.heap < 2 ^ 32
  pub preimage_offset : s.preimage_offset < 2 ^ 32
  pub exit_code : s.exit_code < 2 ^ 8
  pub step : s.step < 2 ^ 64
  pub preimage_key : length s.preimage_key ≡ 32
  pub registers : (i : ℕ) → s.registers i < 2 ^ 32

pub set_register-HasWords :
    (reg val : ℕ) (s : State) → val < 2 ^ 32 → HasWords s → HasWords (set_register reg val s)
set_register-HasWords reg val s fits w = record {
  pc = w.pc;
  next_pc = w.next_pc;
  lo = w.lo;
  hi = w.hi;
  heap = w.heap;
  preimage_offset = w.preimage_offset;
  exit_code = w.exit_code;
  step = w.step;
  preimage_key = w.preimage_key;
  registers = update_all (λ i v. v < 2 ^ 32) s.registers reg val fits w.registers;
}

pub with_memory-HasWords :
    (m : Memory) (s : State) → HasWords s → HasWords (record s { memory = m })
with_memory-HasWords m s w = ground (arith, w.registers)

pub advance-HasWords : (s : State) → HasWords s → HasWords (advance s)
unfolding advance
advance-HasWords s w = ground (arith, w.registers)

pub if-HasWords :
    (b : Bool) (s s' : State) → HasWords s → HasWords s' → HasWords (if b then s else s')
if-HasWords true s s' w w' = w
if-HasWords false s s' w w' = w'

pub rd-HasWords :
    (reg val : ℕ) (c : Bool) (s : State)
    → val < 2 ^ 32
    → HasWords s
    → Holds HasWords (handle_rd reg val c s)
unfolding handle_rd
rd-HasWords reg val c s fits w =
    Holds-then HasWords (bail_if (leb 32 reg) (invalid_register reg)) _ λ _.
      advance-HasWords _
        (if-HasWords (not (reg == 0) && c) _ s (set_register-HasWords reg val s fits w) w)

pub jump-HasWords :
    (link dest : ℕ) (s : State)
    → dest < 2 ^ 32
    → HasWords s
    → Holds HasWords (handle_jump link dest s)
unfolding handle_jump
jump-HasWords link dest s fits w =
    let jumped : HasWords (record s { pc = s.next_pc; next_pc = dest }) =
      ground (arith, w.registers) in
    Holds-then HasWords (bail_if (not (s.next_pc == add32 s.pc 4)) (jump_in_delay_slot s.pc)) _ λ _.
      if-HasWords (link == 0) _ _ jumped
        (set_register-HasWords link (add32 s.pc 8) _ (omega arith) jumped)

pub branch-HasWords :
    (opcode instruction rt_reg rs : ℕ) (s : State)
    → HasWords s
    → Holds HasWords (handle_branch opcode instruction rt_reg rs s)
unfolding handle_branch
branch-HasWords opcode instruction rt_reg rs s w =
    Holds-then HasWords (bail_if (not (s.next_pc == add32 s.pc 4)) (branch_in_delay_slot s.pc)) _
      λ _. ground (arith, w.registers)

-- The value of hi or lo for the register is a u32.
hi_lo-HasWords :
    (fun rs rt : ℕ) (s : State)
    → rs < 2 ^ 32
    → rt < 2 ^ 32
    → HasWords s
    → Holds (λ p. HasWords p.1 × (p.0 < 2 ^ 32)) (hi_lo fun rs rt s)
unfolding hi_lo
hi_lo-HasWords fun rs rt s h k w = ground (
  arith,
  w.registers,
  i32_as_u32-lt (rem_ℤ (as_i32 rs) (as_i32 rt)),
  i32_as_u32-lt (quot_ℤ (as_i32 rs) (as_i32 rt)),
  div-le_self rs rt,
  mod-le rs rt,
)

pub handle_hi_lo-HasWords :
    (fun rs rt reg : ℕ) (s : State)
    → rs < 2 ^ 32
    → rt < 2 ^ 32
    → HasWords s
    → Holds HasWords (handle_hi_lo fun rs rt reg s)
unfolding handle_hi_lo
handle_hi_lo-HasWords fun rs rt reg s h k w =
    Holds-bind (λ p. HasWords p.1 × (p.0 < 2 ^ 32)) HasWords (hi_lo fun rs rt s) _
      (hi_lo-HasWords fun rs rt s h k w)
      λ p t.
        advance-HasWords _
          (if-HasWords (reg == 0) p.1 _ t.0 (set_register-HasWords reg p.0 p.1 t.1 t.0))
