-- ===== src/State/Encoding.antt =====
-- The witness of crates/mipsevm/src/state.rs and its hash.
use cannon_rs.Prelude.{
  ℕ, ◌*◌, ◌≡◌, get_or-append, refl, ◌∙◌, List, [], ◌∷◌, ◌++◌, length, length-append, length-slice,
  slice, get_or, drop, arith, ok, Bool, true, false, ◌==◌,
}
use cannon_rs.Word.{of_bool}
use cannon_rs.Word.Bytes.{u32_to_be_bytes, u64_to_be_bytes}
use cannon_rs.Hash.{Keccak, Digest}
use cannon_rs.Memory.{merkle_root}
use cannon_rs.Memory.Coherent.{IsCoherent, digest, Merkleizes}
use cannon_rs.Memory.Invariant.{byte_at, memory_leaf}
use cannon_rs.Memory.Verified.{length-subtree, memory_leaf-length}
use cannon_rs.Memory.Merkleize.Root.{merkle_root-Merkleizes}
use cannon_rs.Types.{vm_status_as_u8}
use cannon_rs.State.{State, encode_registers, encode_fields, encode_witness, vm_status, state_hash}

registers_length : (rs : List ℕ) → length (encode_registers rs) ≡ 4 * length rs
unfolding encode_registers
registers_length [] = refl
registers_length (r ∷ rs) = omega (arith, registers_length rs)

fields_length : (s : State) → length s.preimage_key ≡ 32 → length (encode_fields s) ≡ 194
unfolding encode_fields
fields_length s h = omega (
  arith,
  length-append s.preimage_key _,
  registers_length (slice s.registers 0 32),
  length-slice s.registers 0 32,
)

-- The fields of a witness after the key.
abbrev after_key : State → List ℕ
after_key s =
    u32_to_be_bytes s.preimage_offset
    ++ (u32_to_be_bytes s.pc
        ++ (u32_to_be_bytes s.next_pc
            ++ (u32_to_be_bytes s.lo
                ++ (u32_to_be_bytes s.hi
                    ++ (u32_to_be_bytes s.heap
                        ++ (s.exit_code
                            ∷ of_bool s.exited
                            ∷ (u64_to_be_bytes s.step
                                ++ encode_registers (slice s.registers 0 32))))))))

-- The status bytes in a witness.
status_bytes :
    (root : Digest) (s : State)
    → length root ≡ 32
    → length s.preimage_key ≡ 32
    → (get_or (root ++ encode_fields s) 88 0 ≡ s.exit_code)
      × (get_or (root ++ encode_fields s) 89 0 ≡ of_bool s.exited)
unfolding encode_fields
status_bytes root s h k = (
  rw h at (get_or-append root (encode_fields s) 56 0)
      ∙ rw k at (get_or-append s.preimage_key (after_key s) 24 0),
  rw h at (get_or-append root (encode_fields s) 57 0)
      ∙ rw k at (get_or-append s.preimage_key (after_key s) 25 0),
)

module _ (keccak256 : Keccak)
    (digest_length : (bytes : List ℕ) → length (keccak256 bytes) ≡ 32) where
  -- For a coherent memory and a key of 32 bytes the witness is encoded: it starts with the root of the
  -- reference tree, it has 226 bytes, and its hash is the Keccak hash with the status of the state in
  -- place of the first byte.
  pub encode_witness-hash :
      (s : State)
      → IsCoherent keccak256 s.memory
      → length s.preimage_key ≡ 32
      → (w : List ℕ) × (s' : State) × (encode_witness keccak256 s ≡ ok (w, s'))
        × (w ≡ digest keccak256 s.memory 27 1 ++ encode_fields s)
        × (length w ≡ 226)
        × (state_hash keccak256 w
            ≡ vm_status_as_u8 (vm_status s.exited s.exit_code) ∷ drop 1 (keccak256 w))
  encode_witness-hash s c k = (
    w,
    record s { memory = record (s.memory) { nodes = r.nodes; store = r.store } },
    unfold encode_witness in rw (r.returns),
    refl,
    omega (arith, length-append root (encode_fields s), root_length, fields_length s k),
    hash,
  )
    where
      r : Merkleizes keccak256 27 1 s.memory (merkle_root keccak256 s.memory)
      r = merkle_root-Merkleizes keccak256 s.memory c

      root : Digest
      root = digest keccak256 s.memory 27 1

      w : List ℕ
      w = root ++ encode_fields s

      root_length : length root ≡ 32
      root_length =
          length-subtree keccak256 digest_length (memory_leaf (byte_at s.memory))
            (memory_leaf-length keccak256 digest_length (byte_at s.memory)) 27 1

      status : (b : Bool) (e : ℕ) → vm_status (of_bool b == 1) e ≡ vm_status b e
      status true e = refl
      status false e = refl

      hash :
          state_hash keccak256 w
          ≡ vm_status_as_u8 (vm_status s.exited s.exit_code) ∷ drop 1 (keccak256 w)
      hash =
          unfold state_hash in
          rw (
            (status_bytes root s root_length k).0,
            (status_bytes root s root_length k).1,
            status s.exited s.exit_code,
          )
