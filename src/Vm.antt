-- ===== src/Vm.antt =====
-- crates/mipsevm/src/mips/instrumented.rs and mips_vm.rs: the thread context with its buffers, its
-- memory tracking and its preimage cache, and one instruction step.
pub mod Alu
pub mod Handlers
pub mod Hints
pub mod Syscalls
pub mod Step
pub mod Signs
pub mod Extend
pub mod Typed
pub mod HintLoop
pub mod Bounds
pub mod Witness
pub mod Frames
pub mod Preserved
pub mod Alike
pub mod StepInvariant
pub mod Steps
pub mod WordAccess
pub mod StepWitness
pub mod JumpStep
pub mod Products
pub mod LeadingOnes
use cannon_rs.Prelude.{
  ℕ, ◌+◌, ◌*◌, ◌^◌, replicate, Bool, true, false, not, ◌&&◌, ltb, ◌==◌, if◌then◌else◌, List, [],
  ◌∷◌, ◌++◌, length, take, drop, Result, ok, err, panic, ◌>>=◌, different_memory_access,
}
use cannon_rs.Word.Bytes.{u64_to_be_bytes}
use cannon_rs.Hash.{Keccak, zero_digest}
use cannon_rs.Memory.{merkle_proof}
use cannon_rs.State.{State}

-- `trait PreimageOracle` of crates/mipsevm/src/traits.rs: the server is not part of the emulator.
pub record PreimageOracle (Server : Type 0) : Type 0 where
  pub hint : List ℕ → Server → Result Server
  pub get : List ℕ → Server → Result (List ℕ × Server)

-- `InstrumentedState`; a writer is the list of the bytes written to it.
pub record InstrumentedState (Server : Type 0) : Type 0 where
  pub state : State
  pub std_out : List ℕ
  pub std_err : List ℕ
  pub last_mem_access : ℕ
  pub mem_proof_enabled : Bool
  pub mem_proof : List ℕ
  pub preimage_oracle : Server
  pub last_preimage : List ℕ
  pub last_preimage_key : List ℕ
  pub last_preimage_offset : ℕ

abbrev pub u32_max : ℕ
u32_max = 0xFFFFFFFF

-- `==` of byte strings.
unfoldable pub bytes_eq : List ℕ → List ℕ → Bool
bytes_eq [] [] = true
bytes_eq [] (y ∷ ys) = false
bytes_eq (x ∷ xs) [] = false
bytes_eq (x ∷ xs) (y ∷ ys) = (x == y) && bytes_eq xs ys

module _ {Server : Type 0} (keccak256 : Keccak) (oracle : PreimageOracle Server) where
  abbrev pub Vm : Type 0
  Vm = InstrumentedState Server

  -- The first half of `read_preimage`: the preimage of the key, with its length in 8 bytes, is in
  -- `last_preimage`.
  unfoldable pub fetch_preimage : List ℕ → Vm → Result Vm
  unfolding bytes_eq
  fetch_preimage key vm =
      if bytes_eq key vm.last_preimage_key
      then ok vm
      else (oracle.get key vm.preimage_oracle >>= λ (bytes, server). ok (record vm {
        preimage_oracle = server;
        last_preimage_key = key;
        last_preimage = u64_to_be_bytes (length bytes) ++ bytes;
      }))

  -- `read_preimage`: the bytes read, at most 32, which are the first `data_len` bytes of its array.
  -- An offset past the end panics.
  unfoldable pub read_preimage : List ℕ → ℕ → Vm → Result (List ℕ × Vm)
  unfolding fetch_preimage
  read_preimage key offset vm = fetch_preimage key vm >>= λ fetched.
      let vm' = record fetched { last_preimage_offset = offset } in
      if ltb (length vm'.last_preimage) offset
      then panic
      else ok (take 32 (drop offset vm'.last_preimage), vm')

  -- `track_mem_access`.
  unfoldable pub track_mem_access : ℕ → Vm → Result Vm
  track_mem_access address vm =
      if vm.mem_proof_enabled && not (vm.last_mem_access == address)
      then (if not (vm.last_mem_access == u32_max)
          then err (different_memory_access address)
          else (merkle_proof keccak256 address vm.state.memory >>= λ (proof, memory).
              ok (record vm {
                last_mem_access = address;
                mem_proof = proof;
                state = record (vm.state) { memory = memory };
              })))
      else ok vm

-- `InstrumentedState::new`, with buffers that are empty.
unfoldable pub new_instrumented : {Server : Type 0} → State → Server → InstrumentedState Server
new_instrumented s server = record {
  state = s;
  std_out = [];
  std_err = [];
  last_mem_access = 0;
  mem_proof_enabled = false;
  mem_proof = replicate (28 * 32) 0;
  preimage_oracle = server;
  last_preimage = [];
  last_preimage_key = zero_digest;
  last_preimage_offset = 0;
}
