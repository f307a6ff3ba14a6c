-- ===== src/Vm/Step.antt =====
-- `inner_step` of crates/mipsevm/src/mips/mips_vm.rs and `step` of instrumented.rs.
use cannon_rs.Prelude.{
  ℕ, ◌+◌, ◌/◌, ◌^◌, Bool, true, false, not, ◌&&◌, ◌||◌, ltb, leb, ◌==◌, if◌then◌else◌, Option, none,
  some, List, ◌++◌, bit_and, bit_or, Result, ok, ◌>>=◌, map_ok,
}
use cannon_rs.Word.{u64, add32, shl32}
use cannon_rs.Hash.{Keccak}
use cannon_rs.Memory.{get_memory, set_memory, merkle_proof}
use cannon_rs.State.{State, encode_witness}
use cannon_rs.Vm.{PreimageOracle, InstrumentedState, track_mem_access, u32_max}
use cannon_rs.Vm.Alu.{sign_extend, execute}
use cannon_rs.Vm.Handlers.{set_register, handle_branch, handle_hi_lo, handle_jump, handle_rd}
use cannon_rs.Vm.Syscalls.{handle_syscall, tracked_word}

-- The operands of an instruction: `rs`, `rt` and the destination register.
pub record Operands : Type 0 where
  pub rs : ℕ
  pub rt : ℕ
  pub rd_reg : ℕ

abbrev pub rt_reg_of : ℕ → ℕ
rt_reg_of instruction = bit_and (instruction / 2 ^ 16) 0x1F

-- The register fetch.
unfoldable pub fetch_operands : ℕ → ℕ → State → Operands
fetch_operands opcode instruction s =
    let rs = s.registers (bit_and (instruction / 2 ^ 21) 0x1F) in
    let rt_reg = rt_reg_of instruction in
    let immediate = bit_and instruction 0xFFFF in
    if opcode == 0 || opcode == 0x1C
    then record { rs = rs; rt = s.registers rt_reg; rd_reg = bit_and (instruction / 2 ^ 11) 0x1F }
    else if ltb opcode 20
    then (if leb 0x0C opcode && leb opcode 0x0E
        then record { rs = rs; rt = immediate; rd_reg = rt_reg }
        else record { rs = rs; rt = sign_extend immediate 16; rd_reg = rt_reg })
    else if leb 0x28 opcode || (opcode == 0x22 || opcode == 0x26)
    then record { rs = rs; rt = s.registers rt_reg; rd_reg = rt_reg }
    else record { rs = rs; rt = 0; rd_reg = rt_reg }

-- What the memory fetch leaves: `rs` with the offset added, the word, where to store, and the
-- destination.
pub record Fetched (Server : Type 0) : Type 0 where
  pub vm : InstrumentedState Server
  pub rs : ℕ
  pub rd_reg : ℕ
  pub mem : ℕ
  pub store_address : ℕ

module _ {Server : Type 0} (keccak256 : Keccak) (oracle : PreimageOracle Server) where
  abbrev Vm : Type 0
  Vm = InstrumentedState Server

  abbrev with_state : Vm → Result State → Result Vm
  with_state vm r = map_ok (λ s. record vm { state = s }) r

  -- The j-type instructions.
  unfoldable pub jump_instruction : ℕ → ℕ → Vm → Result Vm
  jump_instruction opcode instruction vm =
      let link_reg = if opcode == 3 then 31 else 0 in
      let target =
        bit_or (bit_and vm.state.next_pc 0xF0000000) (shl32 (bit_and instruction 0x03FFFFFF) 2) in
      with_state vm (handle_jump link_reg target vm.state)

  -- The memory fetch. The load is done for stores too.
  unfoldable pub fetch_memory : ℕ → ℕ → Operands → Vm → Result (Fetched Server)
  fetch_memory opcode instruction ops vm =
      let rs = add32 ops.rs (sign_extend (bit_and instruction 0xFFFF) 16) in
      let address = bit_and rs 0xFFFFFFFC in
      let is_store = leb 0x28 opcode && not (opcode == 0x30) in
      if leb 0x20 opcode
      then (tracked_word keccak256 oracle address vm >>= λ (mem, vm'). ok (record {
        vm = vm';
        rs = rs;
        rd_reg = if is_store then 0 else ops.rd_reg;
        mem = mem;
        store_address = if is_store then address else u32_max;
      }))
      else ok
          (record { vm = vm; rs = ops.rs; rd_reg = ops.rd_reg; mem = 0; store_address = u32_max })

  -- The end of a step: the conditional store's flag, the write to memory and the write back.
  unfoldable pub write_back : ℕ → ℕ → ℕ → Fetched Server → Result Vm
  write_back opcode rt_reg val f =
      let s = f.vm.state in
      let flagged = if opcode == 0x38 && not (rt_reg == 0) then set_register rt_reg 1 s else s in
      let vm = record (f.vm) { state = flagged } in
      let stored =
        if f.store_address == u32_max
        then ok vm
        else (track_mem_access keccak256 oracle f.store_address vm >>= λ tracked.
            set_memory keccak256 f.store_address val tracked.state.memory >>= λ memory.
            ok (record tracked { state = record (tracked.state) { memory = memory } })) in
      stored >>= λ vm'. with_state vm' (handle_rd f.rd_reg val true vm'.state)

  -- The step after the ALU: the functions of opcode 0 that jump, move, call or use hi and lo, or the
  -- write back.
  unfoldable pub complete : ℕ → ℕ → ℕ → ℕ → Fetched Server → Result Vm
  unfolding write_back
  complete opcode instruction rt val f =
      let fun = bit_and instruction 0x3F in
      let s = f.vm.state in
      if opcode == 0 && (leb 8 fun && ltb fun 0x1C)
      then (if leb fun 9
          then with_state f.vm (handle_jump (if fun == 9 then f.rd_reg else 0) f.rs s)
          else if fun == 0x0A
          then with_state f.vm (handle_rd f.rd_reg val (rt == 0) s)
          else if fun == 0x0B
          then with_state f.vm (handle_rd f.rd_reg val (not (rt == 0)) s)
          else if fun == 0x0C
          then handle_syscall keccak256 oracle f.vm
          else if leb 0x10 fun
          then with_state f.vm (handle_hi_lo fun f.rs rt f.rd_reg s)
          else write_back opcode (rt_reg_of instruction) val f)
      else write_back opcode (rt_reg_of instruction) val f

  -- The step of an instruction that was fetched.
  unfoldable pub execute_instruction : ℕ → Vm → Result Vm
  unfolding jump_instruction fetch_operands fetch_memory complete
  execute_instruction instruction vm =
      let opcode = instruction / 2 ^ 26 in
      let ops = fetch_operands opcode instruction vm.state in
      if leb 2 opcode && leb opcode 3
      then jump_instruction opcode instruction vm
      else if leb 4 opcode && ltb opcode 8 || opcode == 1
      then with_state vm (handle_branch opcode instruction (rt_reg_of instruction) ops.rs vm.state)
      else (fetch_memory opcode instruction ops vm >>= λ f.
          execute instruction f.rs ops.rt f.mem >>= λ val. complete opcode instruction ops.rt val f)

  -- `inner_step`.
  unfoldable pub inner_step : Vm → Result Vm
  unfolding execute_instruction
  inner_step vm =
      let counted = record (vm.state) { step = u64 (vm.state.step + 1) } in
      if vm.state.exited
      then ok vm
      else (get_memory vm.state.pc vm.state.memory >>= λ (instruction, memory).
          execute_instruction instruction
            (record vm { state = record counted { memory = memory } }))

-- `StepWitness` of crates/mipsevm/src/witness.rs.
pub record StepWitness : Type 0 where
  pub state : List ℕ
  pub mem_proof : List ℕ
  pub preimage_key : Option (List ℕ)
  pub preimage_value : Option (List ℕ)
  pub preimage_offset : Option ℕ

module _ {Server : Type 0} (keccak256 : Keccak) (oracle : PreimageOracle Server) where
  -- The head of `step`: the flags are reset.
  unfoldable pub begin_step : Bool → InstrumentedState Server → InstrumentedState Server
  begin_step proof vm = record vm {
    mem_proof_enabled = proof;
    last_mem_access = u32_max;
    last_preimage_offset = u32_max;
  }

  -- `step`. With `proof`, the witness is taken before the step and completed after it.
  unfoldable pub step :
      Bool → InstrumentedState Server → Result (Option StepWitness × InstrumentedState Server)
  unfolding begin_step
  step false vm = inner_step keccak256 oracle (begin_step false vm) >>= λ vm'. ok (none, vm')
  step true vm = do
    let vm0 = begin_step true vm
    (instruction_proof, memory) ← merkle_proof keccak256 vm0.state.pc vm0.state.memory
    (witness, state) ← encode_witness keccak256 (record (vm0.state) { memory = memory })
    vm' ← inner_step keccak256 oracle (record vm0 { state = state })
    let read = not (vm'.last_preimage_offset == u32_max)
    ok (
      some (record {
        state = witness;
        mem_proof = instruction_proof ++ vm'.mem_proof;
        preimage_key = if read then some vm'.last_preimage_key else none;
        preimage_value = if read then some vm'.last_preimage else none;
        preimage_offset = if read then some vm'.last_preimage_offset else none;
      }),
      vm',
    )
