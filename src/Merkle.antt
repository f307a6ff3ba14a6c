-- ===== src/Merkle.antt =====
-- The reference Merkle tree that the caches of crates/mipsevm/src/page.rs and memory.rs stand for.
-- A node is named by its generalized index, 2 ^ depth + position; `leaf` gives the digest of each
-- node of the lowest level, and `k` is the number of levels from a node down to it.
pub mod Heights
pub mod Verify
use cannon_rs.Prelude.{ℕ, zero, suc, ◌+◌, ◌*◌}
use cannon_rs.Hash.{Digest, Keccak, keccak_concat_hashes}

module _ (keccak256 : Keccak) where
  unfoldable pub subtree : (ℕ → Digest) → ℕ → ℕ → Digest
  subtree leaf zero g = leaf g
  subtree leaf (suc k) g =
      keccak_concat_hashes keccak256 (subtree leaf k (2 * g)) (subtree leaf k (2 * g + 1))
