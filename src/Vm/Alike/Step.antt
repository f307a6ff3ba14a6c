-- ===== src/Vm/Alike/Step.antt =====
-- `inner_step` of crates/mipsevm/src/mips/mips_vm.rs on two threads that differ only in how the bytes of
-- memory are kept.
use cannon_rs.Prelude.{
  ℕ, ◌+◌, ◌/◌, ◌^◌, ◌<◌, ◌≡◌, refl, Bool, true, false, not, ◌&&◌, ◌||◌, ltb, leb, ◌==◌,
  if◌then◌else◌, bit_and, Result, ok, ◌>>=◌, map_ok, Holds, Holds-if, Holds-then, arith,
}
use cannon_rs.Word.{u64, add32}
use cannon_rs.Hash.{Keccak}
use cannon_rs.Memory.{Memory, get_memory, set_memory}
use cannon_rs.Memory.Alike
use cannon_rs.Memory.Alike.{
  Holder, itself, beside, Same, Alike-bind, Alike-bind_where, Alike-then, Alike-if,
}
use cannon_rs.Memory.Alike.Words.{get_memory-Alike, set_memory-Alike}
use cannon_rs.Types.{syscall_try_from}
use cannon_rs.Vm.{PreimageOracle, InstrumentedState, track_mem_access, u32_max}
use cannon_rs.Vm.Alu.{sign_extend, execute}
use cannon_rs.Vm.Handlers.{set_register, handle_rd, handle_jump, handle_hi_lo}
use cannon_rs.Vm.Syscalls.{tracked_word, handle_syscall}
use cannon_rs.Vm.Step.{
  Operands, Fetched, rt_reg_of, fetch_operands, fetch_memory, write_back, complete,
  jump_instruction, execute_instruction, inner_step,
}
use cannon_rs.Vm.Preserved.{target_fits}
use cannon_rs.Vm.Alike.{
  in_vm, word-Alike, track-Alike, with_state-Alike, handle_jump-Alike, handle_branch-Alike,
  handle_rd-Alike, handle_hi_lo-Alike,
}
use cannon_rs.Vm.Alike.Syscalls.{dispatch-Alike}

module _ {Server : Type 0} (keccak256 : Keccak) (oracle : PreimageOracle Server) where
  abbrev Vm : Type 0
  Vm = InstrumentedState Server

  abbrev put : Memory → Vm → Vm
  put m' vm = (in_vm Server).put m' vm

  abbrev AlikeVm : Result Vm → Result Vm → Type 0
  AlikeVm r r' = Alike.Alike keccak256 (in_vm Server) r r'

  abbrev in_fetched : Holder (Fetched Server)
  in_fetched = record {
    memory = λ f. f.vm.state.memory;
    put = λ m' f. record f { vm = put m' f.vm };
  }

  -- The stores of `write_back`.
  stored-Alike :
      (address val : ℕ) (vm : Vm) (m' : Memory)
      → address < 2 ^ 32
      → Same keccak256 vm.state.memory m'
      → AlikeVm
          (track_mem_access keccak256 oracle address vm >>= λ tracked.
            set_memory keccak256 address val tracked.state.memory >>= λ memory.
            ok (record tracked { state = record (tracked.state) { memory = memory } }))
          (track_mem_access keccak256 oracle address (put m' vm) >>= λ tracked.
            set_memory keccak256 address val tracked.state.memory >>= λ memory.
            ok (record tracked { state = record (tracked.state) { memory = memory } }))
  stored-Alike address val vm m' fits same =
      Alike-bind keccak256 (in_vm Server) (in_vm Server)
        (track_mem_access keccak256 oracle address vm) _ _ _
        (track-Alike keccak256 oracle address vm m' same)
        λ vm1 m1 same1.
          Alike-bind keccak256 itself (in_vm Server)
            (set_memory keccak256 address val vm1.state.memory) _ _ _
            (set_memory-Alike keccak256 address val vm1.state.memory m1 fits same1)
            λ memory m2 same2. (m2, same2, refl)

  -- The flag of a conditional store.
  flagged_vm : ℕ → ℕ → Vm → Vm
  flagged_vm opcode rt_reg vm = record vm {
    state =
        if opcode == 0x38 && not (rt_reg == 0) then set_register rt_reg 1 vm.state else vm.state;
  }

  write_back-Alike :
      (opcode rt_reg val : ℕ) (f : Fetched Server) (m' : Memory)
      → f.store_address < 2 ^ 32
      → Same keccak256 f.vm.state.memory m'
      → AlikeVm
          (write_back keccak256 oracle opcode rt_reg val f)
          (write_back keccak256 oracle opcode rt_reg val (in_fetched.put m' f))
  unfolding write_back
  write_back-Alike opcode rt_reg val f m' fits same =
      by_flag (opcode == 0x38 && not (rt_reg == 0)) refl
    where
      written :
          (vm : Vm)
          → Same keccak256 vm.state.memory m'
          → AlikeVm
              ((if f.store_address == u32_max
                  then ok vm
                  else (track_mem_access keccak256 oracle f.store_address vm >>= λ tracked.
                      set_memory keccak256 f.store_address val tracked.state.memory >>= λ memory.
                      ok (record tracked { state = record (tracked.state) { memory = memory } })))
                >>= λ vm'.
                    map_ok (λ s. record vm' { state = s }) (handle_rd f.rd_reg val true vm'.state))
              ((if f.store_address == u32_max
                  then ok (put m' vm)
                  else (track_mem_access keccak256 oracle f.store_address (put m' vm) >>= λ tracked.
                      set_memory keccak256 f.store_address val tracked.state.memory >>= λ memory.
                      ok (record tracked { state = record (tracked.state) { memory = memory } })))
                >>= λ vm'.
                    map_ok (λ s. record vm' { state = s }) (handle_rd f.rd_reg val true vm'.state))
      written vm same1 =
          Alike-bind keccak256 (in_vm Server) (in_vm Server) _ _ _ _
            (Alike-if keccak256 (in_vm Server) (f.store_address == u32_max) _ _ _ _
              (m', same1, refl) (stored-Alike f.store_address val vm m' fits same1))
            λ vm1 m1 same2.
              with_state-Alike keccak256 oracle vm1 m1 (handle_rd f.rd_reg val true vm1.state) _
                (handle_rd-Alike keccak256 f.rd_reg val true vm1.state m1 same2)

      by_flag :
          (b : Bool)
          → (opcode == 0x38 && not (rt_reg == 0)) ≡ b
          → AlikeVm
              (write_back keccak256 oracle opcode rt_reg val f)
              (write_back keccak256 oracle opcode rt_reg val (in_fetched.put m' f))
      by_flag true h =
          rw (write_back, h)
            (written (record (f.vm) { state = set_register rt_reg 1 f.vm.state }) same)
      by_flag false h = rw (write_back, h) (written f.vm same)

  complete-Alike :
      (opcode instruction rt val : ℕ) (f : Fetched Server) (m' : Memory)
      → f.store_address < 2 ^ 32
      → Same keccak256 f.vm.state.memory m'
      → AlikeVm
          (complete keccak256 oracle opcode instruction rt val f)
          (complete keccak256 oracle opcode instruction rt val (in_fetched.put m' f))
  unfolding complete handle_syscall
  complete-Alike opcode instruction rt val f m' fits same =
      let fun = bit_and instruction 0x3F in
      let s = f.vm.state in
      let written = write_back-Alike opcode (rt_reg_of instruction) val f m' fits same in
      Alike-if keccak256 (in_vm Server) (opcode == 0 && (leb 8 fun && ltb fun 0x1C)) _ _ _ _
        (Alike-if keccak256 (in_vm Server) (leb fun 9) _ _ _ _
          (with_state-Alike keccak256 oracle f.vm m'
            (handle_jump (if fun == 9 then f.rd_reg else 0) f.rs s) _
            (handle_jump-Alike keccak256 (if fun == 9 then f.rd_reg else 0) f.rs s m' same))
          (Alike-if keccak256 (in_vm Server) (fun == 0x0A) _ _ _ _
            (with_state-Alike keccak256 oracle f.vm m' (handle_rd f.rd_reg val (rt == 0) s) _
              (handle_rd-Alike keccak256 f.rd_reg val (rt == 0) s m' same))
            (Alike-if keccak256 (in_vm Server) (fun == 0x0B) _ _ _ _
              (with_state-Alike keccak256 oracle f.vm m' (handle_rd f.rd_reg val (not (rt == 0)) s)
                _ (handle_rd-Alike keccak256 f.rd_reg val (not (rt == 0)) s m' same))
              (Alike-if keccak256 (in_vm Server) (fun == 0x0C) _ _ _ _
                (dispatch-Alike keccak256 oracle (syscall_try_from (s.registers 2)) f.vm m' same)
                (Alike-if keccak256 (in_vm Server) (leb 0x10 fun) _ _ _ _
                  (with_state-Alike keccak256 oracle f.vm m' (handle_hi_lo fun f.rs rt f.rd_reg s) _
                    (handle_hi_lo-Alike keccak256 fun f.rs rt f.rd_reg s m' same))
                  written)))))
        written

  -- A fetched instruction, and the bound of where it stores.
  fetch-Alike :
      (opcode instruction : ℕ) (ops : Operands) (vm : Vm) (m' : Memory)
      → Same keccak256 vm.state.memory m'
      → Alike.Alike keccak256 in_fetched
          (fetch_memory keccak256 oracle opcode instruction ops vm)
          (fetch_memory keccak256 oracle opcode instruction ops (put m' vm))
  unfolding fetch_memory
  fetch-Alike opcode instruction ops vm m' same =
      let rs = add32 ops.rs (sign_extend (bit_and instruction 0xFFFF) 16) in
      Alike-if keccak256 in_fetched (leb 0x20 opcode) _ _ _ _
        (Alike-bind keccak256 (beside ℕ (in_vm Server)) in_fetched
          (tracked_word keccak256 oracle (bit_and rs 0xFFFFFFFC) vm) _ _ _
          (word-Alike keccak256 oracle (bit_and rs 0xFFFFFFFC) vm m' same)
          λ p m1 same1. (m1, same1, refl))
        (m', same, refl)

  fetch-fits :
      (opcode instruction : ℕ) (ops : Operands) (vm : Vm)
      → Holds
          (λ (f : Fetched Server). f.store_address < 2 ^ 32)
          (fetch_memory keccak256 oracle opcode instruction ops vm)
  unfolding fetch_memory
  fetch-fits opcode instruction ops vm =
      let rs = add32 ops.rs (sign_extend (bit_and instruction 0xFFFF) 16) in
      Holds-if (λ f. f.store_address < 2 ^ 32) (leb 0x20 opcode) _ _
        (Holds-then (λ f. f.store_address < 2 ^ 32)
          (tracked_word keccak256 oracle (bit_and rs 0xFFFFFFFC) vm) _
          λ _. target_fits (leb 0x28 opcode && not (opcode == 0x30)) rs)
        (omega arith)

  execute_instruction-Alike :
      (instruction : ℕ) (vm : Vm) (m' : Memory)
      → Same keccak256 vm.state.memory m'
      → AlikeVm
          (execute_instruction keccak256 oracle instruction vm)
          (execute_instruction keccak256 oracle instruction (put m' vm))
  unfolding execute_instruction jump_instruction fetch_operands
  execute_instruction-Alike instruction vm m' same =
      let opcode = instruction / 2 ^ 26 in
      let ops = fetch_operands opcode instruction vm.state in
      Alike-if keccak256 (in_vm Server) (leb 2 opcode && leb opcode 3) _ _ _ _
        (with_state-Alike keccak256 oracle vm m' _ _
          (handle_jump-Alike keccak256 (if opcode == 3 then 31 else 0) _ vm.state m' same))
        (Alike-if keccak256 (in_vm Server) (leb 4 opcode && ltb opcode 8 || opcode == 1) _ _ _ _
          (with_state-Alike keccak256 oracle vm m' _ _ (
            handle_branch-Alike keccak256 opcode instruction (rt_reg_of instruction) ops.rs vm.state
              m' same))
          (Alike-bind_where keccak256 in_fetched (in_vm Server) (λ f. f.store_address < 2 ^ 32)
            (fetch_memory keccak256 oracle opcode instruction ops vm) _ _ _
            (fetch-Alike opcode instruction ops vm m' same) (fetch-fits opcode instruction ops vm)
            λ f m1 fits same1.
              Alike-then keccak256 (in_vm Server) (execute instruction f.rs ops.rt f.mem) _ _
                λ val. complete-Alike opcode instruction ops.rt val f m1 fits same1))

  pub inner_step-Alike :
      (vm : Vm) (m' : Memory)
      → Same keccak256 vm.state.memory m'
      → AlikeVm (inner_step keccak256 oracle vm) (inner_step keccak256 oracle (put m' vm))
  unfolding inner_step
  inner_step-Alike vm m' same =
      Alike-if keccak256 (in_vm Server) vm.state.exited _ _ _ _ (m', same, refl)
        (Alike-bind keccak256 (beside ℕ itself) (in_vm Server)
          (get_memory vm.state.pc vm.state.memory) _ _ _
          (get_memory-Alike keccak256 vm.state.pc vm.state.memory m' same)
          λ p m1 same1.
            execute_instruction-Alike p.0
              (record vm {
                state = record (vm.state) { memory = p.1; step = u64 (vm.state.step + 1) };
              })
              m1 same1)
