-- ===== src/Hash.antt =====
-- Hashing, crates/mipsevm/src/utils.rs and the table of crates/mipsevm/src/page.rs. The function
-- keccak256 is the crate xkcp-rs, so it is a parameter: a function from bytes to a digest.
use cannon_rs.Prelude.{ℕ, zero, suc, List, ◌++◌, replicate}

-- `[u8; 32]`.
abbrev pub Digest : Type 0
Digest = List ℕ

abbrev pub Keccak : Type 0
Keccak = List ℕ → Digest

-- 32 zero bytes.
abbrev pub zero_digest : Digest
zero_digest = replicate 32 0

module _ (keccak256 : Keccak) where
  -- `keccak_concat_hashes(a, b)`, with `concat_fixed` in place.
  unfoldable pub keccak_concat_hashes : Digest → Digest → Digest
  keccak_concat_hashes a b = keccak256 (a ++ b)

  -- `ZERO_HASHES[i]`: the hash of a subtree of height `i` over zero bytes.
  unfoldable pub zero_hashes : ℕ → Digest
  zero_hashes zero = zero_digest
  zero_hashes (suc i) = let h = zero_hashes i in keccak_concat_hashes h h
