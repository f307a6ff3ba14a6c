-- ===== src/State.antt =====
-- crates/mipsevm/src/state.rs: the state of the emulated thread and its encoding. A fixed array is
-- a function of the index; a key is a list of 32 bytes.
pub mod Encoding
pub mod Form
use cannon_rs.Prelude.{
  ℕ, zero, suc, ◌+◌, ◌==◌, if◌then◌else◌, Bool, true, false, List, [], ◌∷◌, ◌++◌, slice, get_or,
  drop, Result, ok, ◌>>=◌,
}
use cannon_rs.Word.{of_bool}
use cannon_rs.Word.Bytes.{u32_to_be_bytes, u64_to_be_bytes}
use cannon_rs.Hash.{Digest, Keccak}
use cannon_rs.Types.{VmStatus, vm_status_as_u8}
use cannon_rs.Memory.{Memory, merkle_root}

pub record State : Type 0 where
  pub memory : Memory
  pub preimage_key : List ℕ
  pub preimage_offset : ℕ
  pub pc : ℕ
  pub next_pc : ℕ
  pub lo : ℕ
  pub hi : ℕ
  pub heap : ℕ
  pub exit_code : ℕ
  pub exited : Bool
  pub step : ℕ
  pub registers : ℕ → ℕ
  pub last_hint : List ℕ

-- The bytes of a run of registers.
unfoldable pub encode_registers : List ℕ → List ℕ
encode_registers [] = []
encode_registers (r ∷ rs) = u32_to_be_bytes r ++ encode_registers rs

-- The fields of the witness after the memory root, in the order of their offsets.
unfoldable pub encode_fields : State → List ℕ
unfolding encode_registers
encode_fields s =
    s.preimage_key
    ++ (u32_to_be_bytes s.preimage_offset
        ++ (u32_to_be_bytes s.pc
            ++ (u32_to_be_bytes s.next_pc
                ++ (u32_to_be_bytes s.lo
                    ++ (u32_to_be_bytes s.hi
                        ++ (u32_to_be_bytes s.heap
                            ++ (s.exit_code
                                ∷ of_bool s.exited
                                ∷ (u64_to_be_bytes s.step
                                    ++ encode_registers (slice s.registers 0 32)))))))))

-- `State::vm_status`.
unfoldable pub vm_status : Bool → ℕ → VmStatus
vm_status exited exit_code =
    if exited
    then (if exit_code == 0
        then VmStatus.valid
        else if exit_code == 1
        then VmStatus.invalid
        else VmStatus.panicked)
    else VmStatus.unfinished

module _ (keccak256 : Keccak) where
  -- `State::encode_witness`.
  unfoldable pub encode_witness : State → Result (List ℕ × State)
  encode_witness s = merkle_root keccak256 s.memory >>= λ (root, memory).
      ok (root ++ encode_fields s, record s { memory = memory })

  -- `StateWitnessHasher::state_hash` of crates/mipsevm/src/witness.rs: the status takes the place
  -- of the first byte of the hash.
  unfoldable pub state_hash : List ℕ → Digest
  state_hash witness =
      let exit_code = get_or witness 88 0 in
      let exited = get_or witness 89 0 == 1 in
      vm_status_as_u8 (vm_status exited exit_code) ∷ drop 1 (keccak256 witness)
