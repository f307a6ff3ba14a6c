-- ===== src/Memory/Alike/Nodes.antt =====
-- `merkle_proof` and `merkle_root` of crates/mipsevm/src/memory.rs on two memories with the same bytes.
use cannon_rs.Prelude.{
  ℕ, ◌*◌, ◌/◌, refl, sym, ap, ◌∙◌, not, ◌==◌, List, ◌∷◌, length, ok, bail_if, io_error, arith,
}
use cannon_rs.Hash.{Keccak, Digest}
use cannon_rs.Merkle.{subtree}
use cannon_rs.Merkle.Verify.{descend, siblings}
use cannon_rs.Memory.Merkleize.Root.{merkle_root-Merkleizes}
use cannon_rs.Memory.Merkleize.Pages.{byte_at_same, IsValid-same}
use cannon_rs.Memory.Proof.{traverse_branch-Traverses}
use cannon_rs.Memory.{Memory, merkle_proof, merkle_root, traverse_branch, flatten}
use cannon_rs.Memory.Invariant.{memory_leaf}
use cannon_rs.Memory.Alike.{itself, beside, Same, Alike, Alike-bind, Alike-then}

module _ (keccak256 : Keccak) where
  traverse_branch-Alike :
      (a : ℕ) (m m' : Memory)
      → Same keccak256 m m'
      → Alike keccak256
          (beside (List Digest) itself)
          (traverse_branch keccak256 28 1 a 0 m)
          (traverse_branch keccak256 28 1 a 0 m')
  traverse_branch-Alike a m m' same =
      let t =
        traverse_branch-Traverses keccak256 28 27 0 1 a m refl (omega arith) (omega arith)
          same.sound.coherent in
      let u =
        traverse_branch-Traverses keccak256 28 27 0 1 a m' refl (omega arith) (omega arith)
          same.other.coherent in
      rw (t.returns) (
        record m' { nodes = u.nodes; store = u.store },
        record {
          sound = record {
            valid = IsValid-same m t.nodes t.store same.sound.valid;
            coherent = t.coherent;
          };
          other = record {
            valid = IsValid-same m' u.nodes u.store same.other.valid;
            coherent = u.coherent;
          };
          view =
              byte_at_same m' u.nodes u.store u.same_bytes
              ∙ same.view
              ∙ sym (byte_at_same m t.nodes t.store t.same_bytes);
        },
        u.returns
            ∙ ap
                (λ (f : ℕ → ℕ). ok (
                  memory_leaf f (descend keccak256 (memory_leaf f) (a / 32) 27 1)
                      ∷ siblings keccak256 (memory_leaf f) (a / 32) 27 1,
                  record m' { nodes = u.nodes; store = u.store },
                ))
                same.view,
      )

  pub merkle_proof-Alike :
      (a : ℕ) (m m' : Memory)
      → Same keccak256 m m'
      → Alike keccak256
          (beside (List ℕ) itself)
          (merkle_proof keccak256 a m)
          (merkle_proof keccak256 a m')
  unfolding merkle_proof
  merkle_proof-Alike a m m' same =
      Alike-bind keccak256 (beside (List Digest) itself) (beside (List ℕ) itself) _ _ _ _
        (traverse_branch-Alike a m m' same)
        λ p m1 same1.
          Alike-then keccak256 (beside (List ℕ) itself)
            (bail_if (not (length (flatten p.0) == 28 * 32)) io_error) _ _ λ _. (m1, same1, refl)

  pub merkle_root-Alike :
      (m m' : Memory)
      → Same keccak256 m m'
      → Alike keccak256 (beside Digest itself) (merkle_root keccak256 m) (merkle_root keccak256 m')
  merkle_root-Alike m m' same =
      let r = merkle_root-Merkleizes keccak256 m same.sound.coherent in
      let s = merkle_root-Merkleizes keccak256 m' same.other.coherent in
      rw (r.returns) (
        record m' { nodes = s.nodes; store = s.store },
        record {
          sound = record {
            valid = IsValid-same m r.nodes r.store same.sound.valid;
            coherent = r.coherent;
          };
          other = record {
            valid = IsValid-same m' s.nodes s.store same.other.valid;
            coherent = s.coherent;
          };
          view =
              byte_at_same m' s.nodes s.store s.same_bytes
              ∙ same.view
              ∙ sym (byte_at_same m r.nodes r.store r.same_bytes);
        },
        s.returns
            ∙ ap
                (λ (f : ℕ → ℕ). ok (
                  subtree keccak256 (memory_leaf f) 27 1,
                  record m' { nodes = s.nodes; store = s.store },
                ))
                same.view,
      )
