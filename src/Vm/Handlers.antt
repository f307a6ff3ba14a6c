-- ===== src/Vm/Handlers.antt =====
-- `handle_branch`, `handle_hi_lo`, `handle_jump` and `handle_rd` of
-- crates/mipsevm/src/mips/mips_vm.rs. They change the thread state alone.
use cannon_rs.Prelude.{
  ℕ, ◌*◌, ◌/◌, ◌%◌, ◌^◌, Bool, false, not, ◌&&◌, ◌||◌, leb, ◌==◌, if◌then◌else◌, update, bit_and,
  Result, ok, ◌>>=◌, ◌>>◌, bail_if, panic_if, branch_in_delay_slot, jump_in_delay_slot,
  invalid_register,
}
use cannon_rs.Prelude.Int.{pos, ltb_ℤ, quot_ℤ, rem_ℤ}
use cannon_rs.Word.{u32, u64, add32, shl32, as_i32, i32_as_u32, sext64}
use cannon_rs.State.{State}
use cannon_rs.Vm.Alu.{sign_extend}

-- `self.state.pc = self.state.next_pc; self.state.next_pc += 4;`
unfoldable pub advance : State → State
advance s = record s { pc = s.next_pc; next_pc = add32 s.next_pc 4 }

-- `self.state.registers[reg] = val`.
abbrev pub set_register : ℕ → ℕ → State → State
set_register reg val s = record s { registers = update s.registers reg val }

-- The condition of a branch.
unfoldable pub should_branch : ℕ → ℕ → ℕ → ℕ → Bool
should_branch opcode instruction rs rt =
    let rtv = bit_and (instruction / 2 ^ 16) 0x1F in
    if opcode == 4 || opcode == 5
    then (rs == rt) && opcode == 4 || not (rs == rt) && opcode == 5
    else if opcode == 6
    then not (ltb_ℤ (pos 0) (as_i32 rs))
    else if opcode == 7
    then ltb_ℤ (pos 0) (as_i32 rs)
    else if opcode == 1
    then (if rtv == 0
        then ltb_ℤ (as_i32 rs) (pos 0)
        else if rtv == 1
        then not (ltb_ℤ (as_i32 rs) (pos 0))
        else false)
    else false

-- `handle_branch`.
unfoldable pub handle_branch : ℕ → ℕ → ℕ → ℕ → State → Result State
unfolding should_branch
handle_branch opcode instruction rt_reg rs s =
    let taken = should_branch opcode instruction rs (s.registers rt_reg) in
    let offset = shl32 (sign_extend (bit_and instruction 0xFFFF) 16) 2 in
    bail_if (not (s.next_pc == add32 s.pc 4)) (branch_in_delay_slot s.pc)
    >> ok (record s {
      pc = s.next_pc;
      next_pc = if taken then add32 (add32 s.pc 4) offset else add32 s.next_pc 4;
    })

-- The product of `mult` and `multu`, in hi and lo.
abbrev pub set_product : ℕ → State → State
set_product acc s = record s { hi = u32 (acc / 2 ^ 32); lo = u32 acc }

-- The match on `fun` of `handle_hi_lo`: the value for the register, and the state with hi and lo
-- set. A division by zero panics, and so does the signed division of the least i32 by -1.
unfoldable pub hi_lo : ℕ → ℕ → ℕ → State → Result (ℕ × State)
hi_lo fun rs rt s =
    if fun == 0x10
    then ok (s.hi, s)
    else if fun == 0x11
    then ok (0, record s { hi = rs })
    else if fun == 0x12
    then ok (s.lo, s)
    else if fun == 0x13
    then ok (0, record s { lo = rs })
    else if fun == 0x18
    then ok (0, set_product (u64 (sext64 rs * sext64 rt)) s)
    else if fun == 0x19
    then ok (0, set_product (u64 (rs * rt)) s)
    else if fun == 0x1A
    then (panic_if (rt == 0 || (rs == 0x80000000 && rt == 0xFFFFFFFF))
        >> ok (
          0,
          record s {
            hi = i32_as_u32 (rem_ℤ (as_i32 rs) (as_i32 rt));
            lo = i32_as_u32 (quot_ℤ (as_i32 rs) (as_i32 rt));
          },
        ))
    else if fun == 0x1B
    then (panic_if (rt == 0) >> ok (0, record s { hi = rs % rt; lo = rs / rt }))
    else ok (0, s)

-- `handle_hi_lo`.
unfoldable pub handle_hi_lo : ℕ → ℕ → ℕ → ℕ → State → Result State
unfolding hi_lo advance
handle_hi_lo fun rs rt store_reg s = hi_lo fun rs rt s >>= λ (val, s').
    ok (advance (if store_reg == 0 then s' else set_register store_reg val s'))

-- `handle_jump`.
unfoldable pub handle_jump : ℕ → ℕ → State → Result State
handle_jump link_reg dest s =
    let jumped = record s { pc = s.next_pc; next_pc = dest } in
    bail_if (not (s.next_pc == add32 s.pc 4)) (jump_in_delay_slot s.pc)
    >> ok (if link_reg == 0 then jumped else set_register link_reg (add32 s.pc 8) jumped)

-- `handle_rd`.
unfoldable pub handle_rd : ℕ → ℕ → Bool → State → Result State
unfolding advance
handle_rd store_reg val conditional s =
    bail_if (leb 32 store_reg) (invalid_register store_reg)
    >> ok
        (advance (if not (store_reg == 0) && conditional then set_register store_reg val s else s))
