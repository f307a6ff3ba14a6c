-- ===== src/Vm/Typed/Step.antt =====
-- Every step of crates/mipsevm/src/mips/mips_vm.rs and instrumented.rs keeps the types of the state.
use cannon_rs.Prelude.{
  ℕ, ◌+◌, ◌/◌, ◌^◌, ◌<◌, true, not, ◌&&◌, ◌||◌, ltb, leb, ◌==◌, if◌then◌else◌, bit_and, Result, ok,
  err, panic, diverge, map_ok, Holds, Holds-bind, Holds-then, Holds-if, Holds-both, Holds-weaken,
  ◌>>=◌, arith,
}
use cannon_rs.Hash.{Keccak}
use cannon_rs.Word.{u64, add32, shl32}
use cannon_rs.Word.Bounds.{bit_and-lt, bit_or-lt}
use cannon_rs.Memory.{get_memory, set_memory}
use cannon_rs.Memory.Typed.{
  IsTyped, get_memory-IsTyped, set_memory-IsTyped, merkle_proof-IsTyped, read_to_end-IsTyped,
}
use cannon_rs.State.{State}
use cannon_rs.Types.{syscall_try_from}
use cannon_rs.Vm.{PreimageOracle, InstrumentedState, track_mem_access, u32_max}
use cannon_rs.Vm.Alu.{sign_extend, execute}
use cannon_rs.Vm.Handlers.{set_register}
use cannon_rs.Vm.Syscalls.{tracked_word, handle_syscall}
use cannon_rs.Vm.Step.{
  Operands, Fetched, rt_reg_of, fetch_operands, fetch_memory, write_back, complete,
  jump_instruction, execute_instruction, inner_step,
}
use cannon_rs.Vm.Preserved.{MemoryInvariant, track-Kept}
use cannon_rs.Vm.Preserved.Step.{inner_step-Kept}
use cannon_rs.Vm.Typed.{
  HasWords, set_register-HasWords, with_memory-HasWords, if-HasWords, rd-HasWords, jump-HasWords,
  branch-HasWords, handle_hi_lo-HasWords,
}
use cannon_rs.Vm.Typed.Alu.{sign_extend-lt, execute-IsWord}
use cannon_rs.Vm.Typed.Syscalls.{track-HasWords, word-HasWords, dispatch-HasWords}

-- The memory is sound and its bytes are u8 values.
abbrev pub typed_memory : (keccak256 : Keccak) → MemoryInvariant keccak256
typed_memory keccak256 = record {
  Keeps = λ m r n. IsTyped keccak256 m;
  loads = λ a m r n t.
      Holds-weaken (λ p. IsTyped keccak256 p.1 × (p.0 < 2 ^ 32)) (λ p. IsTyped keccak256 p.1)
        (get_memory a m) (get_memory-IsTyped keccak256 a m t) λ p h. h.0;
  stores = λ a value m r n fits t. set_memory-IsTyped keccak256 a value m fits t;
  proves = λ a m r n t. merkle_proof-IsTyped keccak256 a m t;
  reads = λ fuel reader r n t. read_to_end-IsTyped keccak256 fuel reader t;
}

module _ {Server : Type 0} (keccak256 : Keccak) (oracle : PreimageOracle Server) where
  abbrev Vm : Type 0
  Vm = InstrumentedState Server

  abbrev VmWords : Vm → Type 0
  VmWords vm = HasWords vm.state

  -- The word that is loaded from a memory of bytes is a u32.
  word-lt :
      (address : ℕ) (vm : Vm)
      → IsTyped keccak256 vm.state.memory
      → Holds (λ p. p.0 < 2 ^ 32) (tracked_word keccak256 oracle address vm)
  unfolding tracked_word
  word-lt address vm t =
      Holds-bind (λ vm'. IsTyped keccak256 vm'.state.memory) (λ p. p.0 < 2 ^ 32)
        (track_mem_access keccak256 oracle address vm) _
        (track-Kept keccak256 oracle (typed_memory keccak256) address vm t)
        λ vm' t'.
          Holds-bind (λ p. IsTyped keccak256 p.1 × (p.0 < 2 ^ 32)) (λ p. p.0 < 2 ^ 32)
            (get_memory address vm'.state.memory) _
            (get_memory-IsTyped keccak256 address vm'.state.memory t') λ p h. h.1

  with_state-HasWords :
      (vm : Vm) (r : Result State)
      → Holds HasWords r
      → Holds VmWords (map_ok (λ s. record vm { state = s }) r)
  with_state-HasWords vm (ok s) h = h
  with_state-HasWords vm (err e) h = tt
  with_state-HasWords vm panic h = tt
  with_state-HasWords vm diverge h = tt

  operands-lt :
      (opcode instruction : ℕ) (s : State)
      → HasWords s
      → ((fetch_operands opcode instruction s).rs < 2 ^ 32)
        × ((fetch_operands opcode instruction s).rt < 2 ^ 32)
  unfolding fetch_operands
  operands-lt opcode instruction s w = ground (
    arith,
    w.registers (bit_and (instruction / 2 ^ 21) 0x1F),
    w.registers (rt_reg_of instruction),
    bit_and-lt 32 instruction 0xFFFF (omega arith),
    sign_extend-lt (bit_and instruction 0xFFFF) 16,
  )

  jump_instruction-HasWords :
      (opcode instruction : ℕ) (vm : Vm)
      → VmWords vm
      → Holds VmWords (jump_instruction keccak256 oracle opcode instruction vm)
  unfolding jump_instruction
  jump_instruction-HasWords opcode instruction vm w = with_state-HasWords vm _ (
      jump-HasWords (if opcode == 3 then 31 else 0) _ vm.state
        (bit_or-lt 32 (bit_and vm.state.next_pc 0xF0000000)
          (shl32 (bit_and instruction 0x03FFFFFF) 2)
          (bit_and-lt 32 vm.state.next_pc 0xF0000000 (omega arith)) (omega arith))
        w)

  abbrev FetchedWords : Fetched Server → Type 0
  FetchedWords f = VmWords f.vm × (f.rs < 2 ^ 32) × (f.mem < 2 ^ 32)

  fetch-HasWords :
      (opcode instruction : ℕ) (ops : Operands) (vm : Vm)
      → VmWords vm
      → IsTyped keccak256 vm.state.memory
      → ops.rs < 2 ^ 32
      → Holds FetchedWords (fetch_memory keccak256 oracle opcode instruction ops vm)
  unfolding fetch_memory
  fetch-HasWords opcode instruction ops vm w t fits =
      let rs = add32 ops.rs (sign_extend (bit_and instruction 0xFFFF) 16) in
      let address = bit_and rs 0xFFFFFFFC in
      Holds-if FetchedWords (leb 0x20 opcode) _ _
        (Holds-bind (λ p. VmWords p.1 × (p.0 < 2 ^ 32)) FetchedWords
          (tracked_word keccak256 oracle address vm) _
          (Holds-both (λ p. VmWords p.1) (λ p. p.0 < 2 ^ 32)
            (tracked_word keccak256 oracle address vm) (word-HasWords keccak256 oracle address vm w)
            (word-lt address vm t))
          λ p h. (h.0, omega arith, h.1))
        (w, fits, omega arith)

  stored-HasWords :
      (address val : ℕ) (vm : Vm)
      → VmWords vm
      → Holds VmWords (
          track_mem_access keccak256 oracle address vm >>= λ tracked.
          set_memory keccak256 address val tracked.state.memory >>= λ memory.
          ok (record tracked { state = record (tracked.state) { memory = memory } }))
  stored-HasWords address val vm w =
      Holds-bind VmWords VmWords (track_mem_access keccak256 oracle address vm) _
        (track-HasWords keccak256 oracle address vm w)
        λ vm' w'.
          Holds-then VmWords (set_memory keccak256 address val vm'.state.memory) _
            λ m. with_memory-HasWords m vm'.state w'

  write_back-HasWords :
      (opcode rt_reg val : ℕ) (f : Fetched Server)
      → val < 2 ^ 32
      → VmWords f.vm
      → Holds VmWords (write_back keccak256 oracle opcode rt_reg val f)
  unfolding write_back
  write_back-HasWords opcode rt_reg val f fits w =
      let s = f.vm.state in
      let marks = opcode == 0x38 && not (rt_reg == 0) in
      let flagged = if marks then set_register rt_reg 1 s else s in
      let vm = record (f.vm) { state = flagged } in
      let w' : HasWords flagged =
        if-HasWords marks _ s (set_register-HasWords rt_reg 1 s (omega arith) w) w in
      Holds-bind VmWords VmWords
        (if f.store_address == u32_max
          then ok vm
          else (track_mem_access keccak256 oracle f.store_address vm >>= λ tracked.
              set_memory keccak256 f.store_address val tracked.state.memory >>= λ memory.
              ok (record tracked { state = record (tracked.state) { memory = memory } })))
        _
        (Holds-if VmWords (f.store_address == u32_max) _ _ w'
          (stored-HasWords f.store_address val vm w'))
        λ vm1 w1. with_state-HasWords vm1 _ (rd-HasWords f.rd_reg val true vm1.state fits w1)

  complete-HasWords :
      (opcode instruction rt val : ℕ) (f : Fetched Server)
      → rt < 2 ^ 32
      → val < 2 ^ 32
      → FetchedWords f
      → Holds VmWords (complete keccak256 oracle opcode instruction rt val f)
  unfolding complete handle_syscall
  complete-HasWords opcode instruction rt val f h k w =
      let fun = bit_and instruction 0x3F in
      let back = write_back-HasWords opcode (rt_reg_of instruction) val f k w.0 in
      let s = f.vm.state in
      Holds-if VmWords (opcode == 0 && (leb 8 fun && ltb fun 0x1C)) _ _
        (Holds-if VmWords (leb fun 9) _ _
          (with_state-HasWords f.vm _
            (jump-HasWords (if fun == 9 then f.rd_reg else 0) f.rs s w.1 w.0))
          (Holds-if VmWords (fun == 0x0A) _ _
            (with_state-HasWords f.vm _ (rd-HasWords f.rd_reg val (rt == 0) s k w.0))
            (Holds-if VmWords (fun == 0x0B) _ _
              (with_state-HasWords f.vm _ (rd-HasWords f.rd_reg val (not (rt == 0)) s k w.0))
              (Holds-if VmWords (fun == 0x0C) _ _
                (dispatch-HasWords keccak256 oracle (syscall_try_from (s.registers 2)) f.vm w.0)
                (Holds-if VmWords (leb 0x10 fun) _ _
                  (with_state-HasWords f.vm _
                    (handle_hi_lo-HasWords fun f.rs rt f.rd_reg s w.1 h w.0))
                  back)))))
        back

  execute_instruction-HasWords :
      (instruction : ℕ) (vm : Vm)
      → VmWords vm
      → IsTyped keccak256 vm.state.memory
      → Holds VmWords (execute_instruction keccak256 oracle instruction vm)
  unfolding execute_instruction
  execute_instruction-HasWords instruction vm w t =
      let opcode = instruction / 2 ^ 26 in
      let ops = fetch_operands opcode instruction vm.state in
      let fits = operands-lt opcode instruction vm.state w in
      Holds-if VmWords (leb 2 opcode && leb opcode 3) _ _
        (jump_instruction-HasWords opcode instruction vm w)
        (Holds-if VmWords (leb 4 opcode && ltb opcode 8 || opcode == 1) _ _
          (with_state-HasWords vm _
            (branch-HasWords opcode instruction (rt_reg_of instruction) ops.rs vm.state w))
          (Holds-bind FetchedWords VmWords (fetch_memory keccak256 oracle opcode instruction ops vm)
            _ (fetch-HasWords opcode instruction ops vm w t fits.0)
            λ f w'.
              Holds-bind (λ v. v < 2 ^ 32) VmWords (execute instruction f.rs ops.rt f.mem) _
                (execute-IsWord instruction f.rs ops.rt f.mem w'.1 fits.1 w'.2)
                λ val k. complete-HasWords opcode instruction ops.rt val f fits.1 k w'))

  -- A state with its types, over a sound memory of bytes.
  abbrev pub Typed : Vm → Type 0
  Typed vm = HasWords vm.state × IsTyped keccak256 vm.state.memory

  counted-HasWords : (s : State) → HasWords s → HasWords (record s { step = u64 (s.step + 1) })
  counted-HasWords s w = ground (arith, w.registers)

  -- If the fields of the state have their types before a step that succeeds, over a sound memory of
  -- bytes, then so it is after it, for every instruction and system call: the program counters, hi, lo,
  -- the heap, the preimage offset and all registers are u32 values, the exit code is a u8, the counter a
  -- u64, the preimage key has 32 bytes, and every byte of memory is a u8.
  pub inner_step-Typed : (vm : Vm) → Typed vm → Holds Typed (inner_step keccak256 oracle vm)
  inner_step-Typed vm t =
      Holds-both VmWords (λ vm'. IsTyped keccak256 vm'.state.memory)
        (inner_step keccak256 oracle vm) (words vm t)
        (inner_step-Kept keccak256 oracle (typed_memory keccak256) vm t.1 t.1)
    where
      words : (vm : Vm) → Typed vm → Holds VmWords (inner_step keccak256 oracle vm)
      words vm t =
          unfold inner_step in
          Holds-if VmWords vm.state.exited _ _ t.0 (
            Holds-bind (λ p. IsTyped keccak256 p.1 × (p.0 < 2 ^ 32)) VmWords
              (get_memory vm.state.pc vm.state.memory) _
              (get_memory-IsTyped keccak256 vm.state.pc vm.state.memory t.1)
              λ p t1.
                execute_instruction-HasWords p.0 _
                  (with_memory-HasWords p.1 _ (counted-HasWords vm.state t.0)) t1.0)
