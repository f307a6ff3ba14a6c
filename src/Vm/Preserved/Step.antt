-- ===== src/Vm/Preserved/Step.antt =====
-- What a whole step of crates/mipsevm/src/mips/mips_vm.rs keeps.
use cannon_rs.Prelude.{
  ℕ, ◌/◌, ◌^◌, true, false, ◌==◌, ◌&&◌, ◌||◌, not, leb, ltb, if◌then◌else◌, Result, ok, map_ok,
  ◌>>=◌, Holds, Holds-bind, Holds-if, ◌+◌, sym, subst, ◌<◌, ◌≡◌, bit_and, arith,
}
use cannon_rs.Hash.{Keccak}
use cannon_rs.Memory.{get_memory, set_memory}
use cannon_rs.State.{State}
use cannon_rs.Types.{syscall_try_from}
use cannon_rs.Vm.{PreimageOracle, InstrumentedState, track_mem_access, u32_max}
use cannon_rs.Vm.Alu.{execute, sign_extend}
use cannon_rs.Vm.Syscalls.{tracked_word, handle_syscall}
use cannon_rs.Vm.Step.{
  Operands, Fetched, rt_reg_of, fetch_operands, fetch_memory, write_back, complete,
  jump_instruction, execute_instruction, inner_step,
}
use cannon_rs.Vm.Handlers.{set_register, handle_rd, handle_jump, handle_hi_lo, handle_branch}
use cannon_rs.Word.{add32, u64}
use cannon_rs.Vm.Frames.{Frames, rd-Frames, jump-Frames, branch-Frames, handle_hi_lo-Frames}
use cannon_rs.Vm.Preserved
use cannon_rs.Vm.Preserved.{
  anything, MemoryInvariant, aligned_fits, target_fits, framed, track-Kept, word-Kept,
  preimage-Kept, bytes-Kept, with_state-Kept,
}
use cannon_rs.Vm.Preserved.Syscalls.{dispatch-Kept}

module _ {Server : Type 0} (keccak256 : Keccak) (oracle : PreimageOracle Server)
    (invariant : MemoryInvariant keccak256) where
  abbrev Vm : Type 0
  Vm = InstrumentedState Server

  abbrev KeptState : State → Type 0
  KeptState s = Preserved.KeptState keccak256 oracle invariant s

  abbrev Kept : Vm → Type 0
  Kept vm = Preserved.Kept keccak256 oracle invariant vm

  abbrev FetchedKept : Fetched Server → Type 0
  FetchedKept f = Kept f.vm × (f.store_address < 2 ^ 32)

  fetch-Kept :
      (opcode instruction : ℕ) (ops : Operands) (vm : Vm)
      → Kept vm
      → Holds FetchedKept (fetch_memory keccak256 oracle opcode instruction ops vm)
  unfolding fetch_memory
  fetch-Kept opcode instruction ops vm z =
      let rs = add32 ops.rs (sign_extend (bit_and instruction 0xFFFF) 16) in
      let address = bit_and rs 0xFFFFFFFC in
      Holds-if FetchedKept (leb 0x20 opcode) _ _
        (Holds-bind (λ p. Kept p.1) FetchedKept (tracked_word keccak256 oracle address vm) _
          (word-Kept keccak256 oracle invariant address vm z)
          λ p z1. (z1, target_fits (leb 0x28 opcode && not (opcode == 0x30)) rs))
        (z, omega arith)

  -- The stores of `write_back`.
  stored-Kept :
      (address val : ℕ) (vm : Vm)
      → address < 2 ^ 32
      → Kept vm
      → Holds Kept (
          track_mem_access keccak256 oracle address vm >>= λ tracked.
          set_memory keccak256 address val tracked.state.memory >>= λ memory.
          ok (record tracked { state = record (tracked.state) { memory = memory } }))
  stored-Kept address val vm fits z =
      Holds-bind Kept Kept (track_mem_access keccak256 oracle address vm) _
        (track-Kept keccak256 oracle invariant address vm z)
        λ vm' z'.
          Holds-bind (λ m. invariant.Keeps m (vm'.state.registers 0) vm'.state.step) Kept
            (set_memory keccak256 address val vm'.state.memory) _
            (invariant.stores address val vm'.state.memory (vm'.state.registers 0) vm'.state.step
              fits z')
            λ memory z1. z1

  written-Kept :
      (reg val : ℕ) (r : Result Vm)
      → Holds Kept r
      → Holds Kept
          (r >>= λ vm. map_ok (λ s. record vm { state = s }) (handle_rd reg val true vm.state))
  written-Kept reg val r h = Holds-bind Kept Kept r _ h λ vm z.
      with_state-Kept keccak256 oracle invariant vm (handle_rd reg val true vm.state) z
        (rd-Frames reg val true vm.state)

  flagged-Frames :
      (opcode rt_reg : ℕ) (s : State)
      → Frames s (if opcode == 0x38 && not (rt_reg == 0) then set_register rt_reg 1 s else s)
  flagged-Frames opcode rt_reg s = ground arith

  flagged-KeptState :
      (opcode rt_reg : ℕ) (s : State)
      → KeptState s
      → KeptState (if opcode == 0x38 && not (rt_reg == 0) then set_register rt_reg 1 s else s)
  flagged-KeptState opcode rt_reg s z =
      framed keccak256 oracle invariant s
        (if opcode == 0x38 && not (rt_reg == 0) then set_register rt_reg 1 s else s)
        (flagged-Frames opcode rt_reg s) z

  write_back-Kept :
      (opcode rt_reg val : ℕ) (f : Fetched Server)
      → FetchedKept f
      → Holds Kept (write_back keccak256 oracle opcode rt_reg val f)
  unfolding write_back
  write_back-Kept opcode rt_reg val f z =
      let flagged =
        if opcode == 0x38 && not (rt_reg == 0)
        then set_register rt_reg 1 f.vm.state
        else f.vm.state in
      let vm = record (f.vm) { state = flagged } in
      let z' : KeptState flagged = flagged-KeptState opcode rt_reg f.vm.state z.0 in
      written-Kept f.rd_reg val _ (
        Holds-if Kept (f.store_address == u32_max) (ok vm) _ z'
          (stored-Kept f.store_address val vm z.1 z'))

  complete-Kept :
      (opcode instruction rt val : ℕ) (f : Fetched Server)
      → FetchedKept f
      → Holds Kept (complete keccak256 oracle opcode instruction rt val f)
  unfolding complete handle_syscall
  complete-Kept opcode instruction rt val f z =
      let fun = bit_and instruction 0x3F in
      let s = f.vm.state in
      let link = if fun == 9 then f.rd_reg else 0 in
      ground (
        arith,
        write_back-Kept opcode (rt_reg_of instruction) val f z,
        with_state-Kept keccak256 oracle invariant f.vm (handle_jump 0 f.rs s) z.0
            (jump-Frames 0 f.rs s),
        with_state-Kept keccak256 oracle invariant f.vm (handle_jump f.rd_reg f.rs s) z.0
            (jump-Frames f.rd_reg f.rs s),
        with_state-Kept keccak256 oracle invariant f.vm (handle_rd f.rd_reg val true s) z.0
            (rd-Frames f.rd_reg val true s),
        with_state-Kept keccak256 oracle invariant f.vm (handle_rd f.rd_reg val false s) z.0
            (rd-Frames f.rd_reg val false s),
        with_state-Kept keccak256 oracle invariant f.vm (handle_hi_lo fun f.rs rt f.rd_reg s) z.0
            (handle_hi_lo-Frames fun f.rs rt f.rd_reg s),
        dispatch-Kept keccak256 oracle invariant (syscall_try_from (f.vm.state.registers 2)) f.vm
            z.0,
      )

  jump_instruction-Kept :
      (opcode instruction : ℕ) (vm : Vm)
      → Kept vm
      → Holds Kept (jump_instruction keccak256 oracle opcode instruction vm)
  unfolding jump_instruction
  jump_instruction-Kept opcode instruction vm z =
      with_state-Kept keccak256 oracle invariant vm _ z
        (jump-Frames (if opcode == 3 then 31 else 0) _ vm.state)

  execute_instruction-Kept :
      (instruction : ℕ) (vm : Vm)
      → Kept vm
      → Holds Kept (execute_instruction keccak256 oracle instruction vm)
  unfolding execute_instruction
  execute_instruction-Kept instruction vm z =
      let opcode = instruction / 2 ^ 26 in
      let ops = fetch_operands opcode instruction vm.state in
      Holds-if Kept (leb 2 opcode && leb opcode 3) _ _
        (jump_instruction-Kept opcode instruction vm z)
        (Holds-if Kept (leb 4 opcode && ltb opcode 8 || opcode == 1) _ _
          (with_state-Kept keccak256 oracle invariant vm
            (handle_branch opcode instruction (rt_reg_of instruction) ops.rs vm.state) z
            (branch-Frames opcode instruction (rt_reg_of instruction) ops.rs vm.state))
          (Holds-bind FetchedKept Kept (fetch_memory keccak256 oracle opcode instruction ops vm) _
            (fetch-Kept opcode instruction ops vm z)
            λ f z'.
              Holds-bind (λ _. Unit) Kept (execute instruction f.rs ops.rt f.mem) _
                (anything (execute instruction f.rs ops.rt f.mem))
                λ val _. complete-Kept opcode instruction ops.rt val f z'))

  -- The step of a thread that has not exited.
  abbrev counted_step : Vm → Result Vm
  counted_step vm = get_memory vm.state.pc vm.state.memory >>= λ (instruction, memory).
      execute_instruction keccak256 oracle instruction (record vm {
        state = record (vm.state) { memory = memory; step = u64 (vm.state.step + 1) };
      })

  counted-Kept :
      (vm : Vm)
      → invariant.Keeps vm.state.memory (vm.state.registers 0) (u64 (vm.state.step + 1))
      → Holds Kept (counted_step vm)
  counted-Kept vm z =
      Holds-bind (λ p. invariant.Keeps p.1 (vm.state.registers 0) (u64 (vm.state.step + 1))) Kept
        (get_memory vm.state.pc vm.state.memory) _
        (invariant.loads vm.state.pc vm.state.memory (vm.state.registers 0)
          (u64 (vm.state.step + 1)) z)
        λ p z1.
          execute_instruction-Kept p.0
            (record vm {
              state = record (vm.state) { memory = p.1; step = u64 (vm.state.step + 1) };
            })
            z1

  -- A step of a thread that runs and that succeeds ends in the property, if it holds of the memory
  -- and of register 0 with the step counter after the step.
  pub running-Kept :
      (vm : Vm)
      → vm.state.exited ≡ false
      → invariant.Keeps vm.state.memory (vm.state.registers 0) (u64 (vm.state.step + 1))
      → Holds Kept (inner_step keccak256 oracle vm)
  unfolding inner_step
  running-Kept vm runs z =
      subst (λ b. Holds Kept (if b then ok vm else counted_step vm)) (sym runs) (counted-Kept vm z)

  -- A step that succeeds keeps the property, if the count of the step keeps it.
  pub inner_step-Kept :
      (vm : Vm)
      → Kept vm
      → invariant.Keeps vm.state.memory (vm.state.registers 0) (u64 (vm.state.step + 1))
      → Holds Kept (inner_step keccak256 oracle vm)
  unfolding inner_step
  inner_step-Kept vm z z' =
      Holds-if Kept vm.state.exited (ok vm) (counted_step vm) z (counted-Kept vm z')
