-- ===== src/Memory/Verified.antt =====
-- `merkle_root` and `merkle_proof` of crates/mipsevm/src/memory.rs together: the proof that is
-- returned for an address checks against the root.
use cannon_rs.Prelude.{
  ℕ, zero, suc, ◌+◌, ◌*◌, ◌/◌, ◌^◌, ◌%◌, ◌<◌, ◌≡◌, refl, ap, subst, List, [], ◌∷◌, ◌++◌, length,
  length-append, length-slice, slice, arith, ok, Result,
}
use cannon_rs.Hash.{Digest, Keccak, keccak_concat_hashes}
use cannon_rs.Merkle.{subtree}
use cannon_rs.Merkle.Verify.{
  verify, siblings, descend, descend_lem, verify-siblings, length-siblings,
}
use cannon_rs.Memory.{Memory, merkle_root, merkle_proof, traverse_branch, flatten}
use cannon_rs.Memory.Invariant.{byte_at, memory_leaf}
use cannon_rs.Memory.Coherent.{IsCoherent, digest}
use cannon_rs.Memory.Merkleize.Pages.{byte_at_same}
use cannon_rs.Memory.Merkleize.Root.{merkle_root-Merkleizes}
use cannon_rs.Memory.Proof.{Traverses, traverse_branch-Traverses}

abbrev All32 : List Digest → Type 0
All32 [] = Unit
All32 (d ∷ ds) = (length d ≡ 32) × All32 ds

All32-append : (ds es : List Digest) → All32 ds → All32 es → All32 (ds ++ es)
All32-append [] es h k = k
All32-append (d ∷ ds) es h k = (h.0, All32-append ds es h.1 k)

length-flatten : (ds : List Digest) → All32 ds → length (flatten ds) ≡ 32 * length ds
length-flatten [] h = refl
length-flatten (d ∷ ds) h = omega (arith, length-append d (flatten ds), length-flatten ds h.1)

module _ (keccak256 : Keccak)
    (digest_length : (bytes : List ℕ) → length (keccak256 bytes) ≡ 32) where
  pub length-subtree :
      (leaf : ℕ → Digest)
      → ((g : ℕ) → length (leaf g) ≡ 32)
      → (j g : ℕ) → length (subtree keccak256 leaf j g) ≡ 32
  unfolding subtree keccak_concat_hashes
  length-subtree leaf h zero g = h g
  length-subtree leaf h (suc j) g = digest_length _

  siblings-All32 :
      (leaf : ℕ → Digest)
      → ((g : ℕ) → length (leaf g) ≡ 32)
      → (path j g : ℕ) → All32 (siblings keccak256 leaf path j g)
  unfolding siblings
  siblings-All32 leaf h path zero g = tt
  siblings-All32 leaf h path (suc j) g =
      All32-append (siblings keccak256 leaf path j (2 * g + path / 2 ^ j % 2)) _
        (siblings-All32 leaf h path j (2 * g + path / 2 ^ j % 2)) (length-subtree leaf h j _, tt)

  pub memory_leaf-length : (bytes : ℕ → ℕ) (g : ℕ) → length (memory_leaf bytes g) ≡ 32
  unfolding memory_leaf
  memory_leaf-length bytes g = length-slice bytes (g % 2 ^ 27 * 32) 32

  -- What `merkle_proof` returns for an address, against the root of the memory.
  pub record Proves (address : ℕ) (m : Memory) (root : Digest) (result : Result (List ℕ × Memory))
      : Type 0 where
    pub leaf : Digest
    pub branch : List Digest
    pub after : Memory
    pub returns : result ≡ ok (flatten (leaf ∷ branch), after)
    pub holds_bytes : leaf ≡ slice (byte_at m) (address / 32 * 32) 32
    pub levels : length branch ≡ 27
    pub verifies : verify keccak256 (address / 32) leaf branch ≡ root
    pub same_view : byte_at after ≡ byte_at m
    pub coherent : IsCoherent keccak256 after

  pub proof_lem :
      (address : ℕ) (m : Memory)
      → address < 2 ^ 32
      → IsCoherent keccak256 m
      → Proves address m (digest keccak256 m 27 1) (merkle_proof keccak256 address m)
  proof_lem address m h c = record {
    leaf = memory_leaf (byte_at m) (descend keccak256 bytes path 27 1);
    branch = siblings keccak256 bytes path 27 1;
    after = record m { nodes = t.nodes; store = t.store };
    returns = unfold merkle_proof in rw (t.returns, fits);
    holds_bytes =
        unfold memory_leaf in
        ap (λ (i : ℕ). slice (byte_at m) i 32)
          (omega (arith, descend_lem keccak256 bytes path 27 1));
    levels = length-siblings keccak256 bytes path 27 1;
    verifies = verify-siblings keccak256 bytes path 27 1;
    same_view = byte_at_same m t.nodes t.store t.same_bytes;
    coherent = t.coherent;
  }
    where
      path : ℕ
      path = address / 32

      bytes : ℕ → Digest
      bytes = memory_leaf (byte_at m)

      t : Traverses keccak256 27 1 address m (traverse_branch keccak256 28 1 address 0 m)
      t = traverse_branch-Traverses keccak256 28 27 0 1 address m refl (omega arith) (omega arith) c

      leaf_length : length (bytes (descend keccak256 bytes path 27 1)) ≡ 32
      leaf_length = memory_leaf-length (byte_at m) (descend keccak256 bytes path 27 1)

      all_32 :
          All32 (bytes (descend keccak256 bytes path 27 1) ∷ siblings keccak256 bytes path 27 1)
      all_32 = (leaf_length, siblings-All32 bytes (memory_leaf-length (byte_at m)) path 27 1)

      fits :
          length (
            flatten
              (bytes (descend keccak256 bytes path 27 1) ∷ siblings keccak256 bytes path 27 1))
          ≡ 896
      fits = omega (
        arith,
        length-flatten
            (bytes (descend keccak256 bytes path 27 1) ∷ siblings keccak256 bytes path 27 1) all_32,
        length-siblings keccak256 bytes path 27 1,
      )

  -- If the hash has 32 bytes and the memory is coherent, `merkle_root` succeeds, and after it
  -- `merkle_proof` of an address below 2 ^ 32 succeeds with a leaf and 27 siblings: the leaf holds
  -- the 32 bytes around the address, the siblings lead from it to the root that was returned, and
  -- the flat view and the coherence are kept.
  pub merkle_proof-verify :
      (address : ℕ) (m : Memory)
      → address < 2 ^ 32
      → IsCoherent keccak256 m
      → (root : Digest) × (m' : Memory) × (merkle_root keccak256 m ≡ ok (root, m'))
        × Proves address m' root (merkle_proof keccak256 address m')
  merkle_proof-verify address m h c =
      let r = merkle_root-Merkleizes keccak256 m c in
      let m' = record m { nodes = r.nodes; store = r.store } in
      (
        digest keccak256 m 27 1,
        m',
        r.returns,
        subst
            (λ (b : ℕ → ℕ).
              Proves address m' (subtree keccak256 (memory_leaf b) 27 1)
                (merkle_proof keccak256 address m'))
            (byte_at_same m r.nodes r.store r.same_bytes) (proof_lem address m' h r.coherent),
      )
