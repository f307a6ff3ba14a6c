-- ===== src/Vm/Witness.antt =====
-- The inputs for the contracts, crates/mipsevm/src/witness.rs. The ABI encoding of the calls is
-- generated by the macro `sol!` of another crate, so it is a parameter.
use cannon_rs.Prelude.{
  ℕ, ◌-◌, ◌==◌, ◌≡◌, leb, arith, ltb, if◌then◌else◌, Bool, true, false, Option, none, some, List,
  ◌++◌, length, get_or, drop, replicate, Result, ok, panic,
}
use cannon_rs.Word.Bytes.{u64_to_be_bytes}
use cannon_rs.Preimage.Keys.{KeyType, key_type_from}
use cannon_rs.Vm.Step.{StepWitness}

-- `abi_encode` of the three calls.
pub record AbiCalls : Type 0 where
  pub load_local_data : List ℕ → List ℕ → ℕ → ℕ → List ℕ
  pub load_keccak256_preimage_part : ℕ → List ℕ → List ℕ
  pub step_call : List ℕ → List ℕ → List ℕ

-- `StepWitness::has_preimage`.
unfoldable pub has_preimage : StepWitness → Bool
has_preimage w = elim w.preimage_key [ none ↦ false | some key ↦ true ]

module _ (abi : AbiCalls) where
  -- The call for a local key. `value[8..]` panics on a value without a length.
  unfoldable pub encode_local : List ℕ → Option (List ℕ) → Option ℕ → Result (Option (List ℕ))
  encode_local key none offset = ok none
  encode_local key (some value) offset =
      let part = drop 8 value in
      let padded = part ++ replicate (32 - length part) 0 in
      if ltb 40 (length value)
      then ok none
      else if ltb (length value) 8
      then panic
      else elim offset [
        | none ↦ ok none
        | some o ↦ ok (some (abi.load_local_data key padded (length value - 8) o))
      ]

  -- The call for the key of a hash.
  unfoldable pub encode_global : Option (List ℕ) → Option ℕ → Result (Option (List ℕ))
  encode_global value none = ok none
  encode_global none (some offset) = ok none
  encode_global (some value) (some offset) =
      if ltb (length value) 8
      then panic
      else ok (some (abi.load_keccak256_preimage_part offset (drop 8 value)))

  unfoldable pub encode_keyed :
      KeyType → List ℕ → Option (List ℕ) → Option ℕ → Result (Option (List ℕ))
  unfolding encode_local encode_global
  encode_keyed KeyType.illegal key value offset = ok none
  encode_keyed KeyType.local key value offset = encode_local key value offset
  encode_keyed KeyType.global_keccak key value offset = encode_global value offset

  -- `StepWitness::encode_preimage_oracle_input`.
  unfoldable pub encode_preimage_oracle_input : StepWitness → Result (Option (List ℕ))
  unfolding encode_keyed
  encode_preimage_oracle_input w = elim w.preimage_key [
    | none ↦ ok none
    | some key ↦
        encode_keyed (key_type_from (get_or key 0 0)) key w.preimage_value w.preimage_offset
  ]

  -- `StepWitness::encode_step_input`.
  unfoldable pub encode_step_input : StepWitness → List ℕ
  encode_step_input w = abi.step_call w.state w.mem_proof

  -- The input for the contract when the value is a preimage after its length in eight bytes: for a
  -- local key of at most 32 bytes of data, the data padded to 32 bytes and its length; none for more
  -- data; for the key of a hash, the data; none for another key. Nothing panics.
  pub encode_preimage_oracle_input-value :
      (state proof key data_bytes : List ℕ) (offset : ℕ)
      → encode_preimage_oracle_input (record {
        state = state;
        mem_proof = proof;
        preimage_key = some key;
        preimage_value = some (u64_to_be_bytes (length data_bytes) ++ data_bytes);
        preimage_offset = some offset;
      })
        ≡ ok (
            if get_or key 0 0 == 1
            then (if leb (length data_bytes) 32
                then some (
                    abi.load_local_data key
                      (data_bytes ++ replicate (32 - length data_bytes) 0)
                      (length data_bytes)
                      offset)
                else none)
            else if get_or key 0 0 == 2
            then some (abi.load_keccak256_preimage_part offset data_bytes)
            else none)
  unfolding encode_preimage_oracle_input key_type_from
  encode_preimage_oracle_input-value state proof key data_bytes offset = ground arith
