-- ===== src/Vm/Preserved.antt =====
-- What `inner_step` of crates/mipsevm/src/mips/mips_vm.rs keeps: a property of the memory, of register
-- 0 and of the step counter that the operations on memory keep.
pub mod Syscalls
pub mod Step
use cannon_rs.Prelude.{
  ℕ, ◌/◌, ◌^◌, true, false, ◌==◌, ◌&&◌, ◌||◌, not, leb, ltb, if◌then◌else◌, Result, ok, err, panic,
  diverge, map_ok, ◌>>=◌, Holds, Holds-bind, Holds-any, Holds-if, suc, Bool, ◌+◌, sym, subst, ◌<◌,
  ◌≡◌, List, bit_and, arith,
}
use cannon_rs.Hash.{Keccak}
use cannon_rs.Memory.{Memory, get_memory, set_memory, merkle_proof}
use cannon_rs.Memory.Reader.{MemoryReader, read_to_end}
use cannon_rs.Word.Bits.{bit_and_shifted, bit_and_mask}
use cannon_rs.State.{State}
use cannon_rs.Types.{Syscall, syscall_try_from}
use cannon_rs.Vm.{
  PreimageOracle, InstrumentedState, track_mem_access, fetch_preimage, read_preimage, u32_max,
}
use cannon_rs.Vm.Alu.{execute, sign_extend}
use cannon_rs.Vm.Syscalls.{
  Outcome, tracked_word, preimage_read, sys_read, memory_bytes, hint_write, preimage_write,
  sys_write, mmap, fcntl, finish, dispatch, handle_syscall,
}
use cannon_rs.Vm.Step.{
  Operands, Fetched, rt_reg_of, fetch_operands, fetch_memory, write_back, complete,
  jump_instruction, execute_instruction, inner_step,
}
use cannon_rs.Vm.Handlers.{
  advance, set_register, handle_rd, handle_jump, handle_hi_lo, handle_branch,
}
use cannon_rs.Word.{add32, u64}
use cannon_rs.Vm.Frames.{Frames, rd-Frames, jump-Frames, branch-Frames, handle_hi_lo-Frames}

pub anything : {A : Type 0} (r : Result A) → Holds (λ _. Unit {0}) r
anything r = Holds-any (λ _. Unit) r λ _. tt

-- A property of the memory, of the value of register 0 and of the step counter that every operation
-- on memory keeps.
pub record MemoryInvariant (keccak256 : Keccak) : Type 1 where
  pub Keeps : Memory → ℕ → ℕ → Type 0
  pub loads :
      (a : ℕ) (m : Memory) (r n : ℕ) → Keeps m r n → Holds (λ p. Keeps p.1 r n) (get_memory a m)
  pub stores :
      (a value : ℕ) (m : Memory) (r n : ℕ)
      → a < 2 ^ 32
      → Keeps m r n
      → Holds (λ m'. Keeps m' r n) (set_memory keccak256 a value m)
  pub proves :
      (a : ℕ) (m : Memory) (r n : ℕ)
      → Keeps m r n
      → Holds (λ p. Keeps p.1 r n) (merkle_proof keccak256 a m)
  pub reads :
      (fuel : ℕ) (reader : MemoryReader) (r n : ℕ)
      → Keeps reader.memory r n
      → Holds (λ p. Keeps p.1 r n) (read_to_end fuel reader)

pub aligned_fits : (x : ℕ) → bit_and x 0xFFFFFFFC < 2 ^ 32
aligned_fits x = omega (arith, bit_and_shifted 2 0x3FFFFFFF x, bit_and_mask 30 (x / 4))

pub target_fits : (b : Bool) (x : ℕ) → (if b then bit_and x 0xFFFFFFFC else u32_max) < 2 ^ 32
target_fits true x = aligned_fits x
target_fits false x = omega arith

module _ {Server : Type 0} (keccak256 : Keccak) (oracle : PreimageOracle Server)
    (invariant : MemoryInvariant keccak256) where
  abbrev Vm : Type 0
  Vm = InstrumentedState Server

  abbrev pub KeptState : State → Type 0
  KeptState s = invariant.Keeps s.memory (s.registers 0) s.step

  abbrev pub Kept : Vm → Type 0
  Kept vm = KeptState vm.state

  pub framed : (s s' : State) → Frames s s' → KeptState s → KeptState s'
  framed s s' f z =
      subst (λ m. invariant.Keeps m (s'.registers 0) s'.step) (sym f.0)
        (subst (λ r. invariant.Keeps s.memory r s'.step) (sym f.1)
          (subst (λ n. invariant.Keeps s.memory (s.registers 0) n) (sym f.2) z))

  pub track-Kept :
      (address : ℕ) (vm : Vm) → Kept vm → Holds Kept (track_mem_access keccak256 oracle address vm)
  unfolding track_mem_access
  track-Kept address vm z =
      ground
        (arith, invariant.proves address vm.state.memory (vm.state.registers 0) vm.state.step z)

  pub word-Kept :
      (address : ℕ) (vm : Vm)
      → Kept vm
      → Holds (λ p. Kept p.1) (tracked_word keccak256 oracle address vm)
  unfolding tracked_word
  word-Kept address vm z =
      Holds-bind Kept (λ p. Kept p.1) (track_mem_access keccak256 oracle address vm) _
        (track-Kept address vm z)
        λ vm' z'.
          Holds-bind (λ p. invariant.Keeps p.1 (vm'.state.registers 0) vm'.state.step)
            (λ p. Kept p.1) (get_memory address vm'.state.memory) _
            (invariant.loads address vm'.state.memory (vm'.state.registers 0) vm'.state.step z')
            λ p z1. z1

  fetch_preimage-Kept :
      (key : List ℕ) (vm : Vm) → Kept vm → Holds Kept (fetch_preimage keccak256 oracle key vm)
  unfolding fetch_preimage
  fetch_preimage-Kept key vm z = ground arith

  pub preimage-Kept :
      (key : List ℕ) (offset : ℕ) (vm : Vm)
      → Kept vm
      → Holds (λ p. Kept p.1) (read_preimage keccak256 oracle key offset vm)
  unfolding read_preimage
  preimage-Kept key offset vm z = ground (arith, fetch_preimage-Kept key vm z)

  pub bytes-Kept :
      (a1 a2 : ℕ) (vm : Vm)
      → Kept vm
      → Holds (λ p. Kept p.1) (memory_bytes keccak256 oracle a1 a2 vm)
  unfolding memory_bytes
  bytes-Kept a1 a2 vm z =
      let reader : MemoryReader = record { memory = vm.state.memory; address = a1; count = a2 } in
      Holds-bind (λ p. invariant.Keeps p.1 (vm.state.registers 0) vm.state.step) (λ p. Kept p.1)
        (read_to_end (suc a2) reader) _
        (invariant.reads (suc a2) reader (vm.state.registers 0) vm.state.step z) λ p z1. z1

  pub with_state-Kept :
      (vm : Vm) (r : Result State)
      → Kept vm
      → Holds (Frames vm.state) r
      → Holds Kept (map_ok (λ s. record vm { state = s }) r)
  with_state-Kept vm (ok s) z h = framed vm.state s h z
  with_state-Kept vm (err e) z h = tt
  with_state-Kept vm panic z h = tt
  with_state-Kept vm diverge z h = tt
