-- ===== src/Vm/StepInvariant.antt =====
-- What every step of crates/mipsevm/src/mips/mips_vm.rs keeps: register 0 is zero, and the memory is
-- sound.
use cannon_rs.Prelude.{ℕ, ◌+◌, refl, false, ◌≡◌, Holds, Holds-any}
use cannon_rs.Hash.{Keccak}
use cannon_rs.Memory.{get_memory, set_memory, merkle_proof}
use cannon_rs.Memory.Reader.{read_to_end}
use cannon_rs.Memory.Sound.{
  IsSound, get_memory-IsSound, set_memory-IsSound, merkle_proof-IsSound, read_to_end-IsSound,
}
use cannon_rs.Word.{u64}
use cannon_rs.Vm.{PreimageOracle, InstrumentedState}
use cannon_rs.Vm.Step.{inner_step}
use cannon_rs.Vm.Preserved.{MemoryInvariant}
use cannon_rs.Vm.Preserved.Step.{inner_step-Kept, running-Kept}

-- Register 0 is zero, whatever the memory holds.
abbrev zero_register : (keccak256 : Keccak) → MemoryInvariant keccak256
zero_register keccak256 = record {
  Keeps = λ m r n. r ≡ 0;
  loads = λ a m r n z. Holds-any (λ p. r ≡ 0) (get_memory a m) λ p. z;
  stores = λ a value m r n fits z. Holds-any (λ p. r ≡ 0) (set_memory keccak256 a value m) λ p. z;
  proves = λ a m r n z. Holds-any (λ p. r ≡ 0) (merkle_proof keccak256 a m) λ p. z;
  reads = λ fuel reader r n z. Holds-any (λ p. r ≡ 0) (read_to_end fuel reader) λ p. z;
}

abbrev pub sound_memory : (keccak256 : Keccak) → MemoryInvariant keccak256
sound_memory keccak256 = record {
  Keeps = λ m r n. IsSound keccak256 m;
  loads = λ a m r n s. get_memory-IsSound keccak256 a m s;
  stores = λ a value m r n fits s. set_memory-IsSound keccak256 a value m fits s;
  proves = λ a m r n s. merkle_proof-IsSound keccak256 a m s;
  reads = λ fuel reader r n s. read_to_end-IsSound keccak256 fuel reader s;
}

-- The step counter has the value `k`.
abbrev counter : (keccak256 : Keccak) → ℕ → MemoryInvariant keccak256
counter keccak256 k = record {
  Keeps = λ m r n. n ≡ k;
  loads = λ a m r n e. Holds-any (λ p. n ≡ k) (get_memory a m) λ p. e;
  stores = λ a value m r n fits e. Holds-any (λ p. n ≡ k) (set_memory keccak256 a value m) λ p. e;
  proves = λ a m r n e. Holds-any (λ p. n ≡ k) (merkle_proof keccak256 a m) λ p. e;
  reads = λ fuel reader r n e. Holds-any (λ p. n ≡ k) (read_to_end fuel reader) λ p. e;
}

module _ {Server : Type 0} (keccak256 : Keccak) (oracle : PreimageOracle Server) where
  -- If register 0 is zero before a step that succeeds, it is zero after it: no instruction and no
  -- system call writes it.
  pub inner_step-Zeroed :
      (vm : InstrumentedState Server)
      → vm.state.registers 0 ≡ 0
      → Holds (λ vm'. vm'.state.registers 0 ≡ 0) (inner_step keccak256 oracle vm)
  inner_step-Zeroed vm z = inner_step-Kept keccak256 oracle (zero_register keccak256) vm z z

  -- If the memory is sound before a step that succeeds, it is sound after it, whatever the
  -- instruction or the system call: its pages are shared as they should be, and every cached node
  -- is that of the reference tree over the flat view.
  pub inner_step-IsSound :
      (vm : InstrumentedState Server)
      → IsSound keccak256 vm.state.memory
      → Holds (λ vm'. IsSound keccak256 vm'.state.memory) (inner_step keccak256 oracle vm)
  inner_step-IsSound vm s = inner_step-Kept keccak256 oracle (sound_memory keccak256) vm s s

  -- A step of a thread that has not exited counts itself: if it succeeds, the counter is one more,
  -- modulo 2 ^ 64.
  pub inner_step-counts :
      (vm : InstrumentedState Server)
      → vm.state.exited ≡ false
      → Holds (λ vm'. vm'.state.step ≡ u64 (vm.state.step + 1)) (inner_step keccak256 oracle vm)
  inner_step-counts vm runs =
      running-Kept keccak256 oracle (counter keccak256 (u64 (vm.state.step + 1))) vm runs refl
