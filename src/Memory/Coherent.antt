-- ===== src/Memory/Coherent.antt =====
-- The invariant of the node cache of crates/mipsevm/src/memory.rs: what is cached is the reference
-- Merkle tree over the flat view of memory.
use cannon_rs.Prelude.{ℕ, suc, ◌+◌, ◌^◌, ◌≡◌, true, Option, none, some, List, lookup, Result, ok}
use cannon_rs.Hash.{Digest, Keccak}
use cannon_rs.Merkle.{subtree}
use cannon_rs.Merkle.Heights.{AtDepth, Covers}
use cannon_rs.Page.{CachedPage}
use cannon_rs.Page.Coherent
use cannon_rs.Memory.{Memory}
use cannon_rs.Memory.Invariant.{byte_at, memory_leaf}

module _ (keccak256 : Keccak) where
  -- The digest of a node of the tree over all of memory.
  abbrev pub digest : Memory → ℕ → ℕ → Digest
  digest m j g = subtree keccak256 (memory_leaf (byte_at m)) j g

  -- A node `g` that stands `suc k` levels above the pages:
  -- a cached digest is right, and the pages below it are hashed; where there is no entry there is
  -- no page below.
  pub record IsCoherent (m : Memory) : Type 0 where
    pub page : (i r : ℕ) → lookup i m.pages ≡ some r → Coherent.IsCoherent keccak256 (m.store r)
    pub cached :
        (k d g : ℕ) (h : Digest)
        → suc k + d ≡ 20
        → AtDepth d g
        → lookup g m.nodes ≡ some (some h)
        → h ≡ digest m (suc k + 7) g
    pub hashed :
        (k d g i r : ℕ) (h : Digest)
        → suc k + d ≡ 20
        → AtDepth d g
        → lookup g m.nodes ≡ some (some h)
        → Covers (suc k) g (2 ^ 20 + i)
        → lookup i m.pages ≡ some r
        → (m.store r).valid 1 ≡ true
    pub absent :
        (k d g i : ℕ)
        → suc k + d ≡ 20
        → AtDepth d g
        → lookup g m.nodes ≡ none
        → Covers (suc k) g (2 ^ 20 + i)
        → lookup i m.pages ≡ none

  -- What a call of `merkleize_subtree` at a node of height `j` does: only the nodes and the caches
  -- of the pages change, and the pages below the node are hashed.
  pub record Merkleizes (j g : ℕ) (m : Memory) (result : Result (Digest × Memory)) : Type 0 where
    pub nodes : List (ℕ × Option Digest)
    pub store : ℕ → CachedPage
    pub returns : result ≡ ok (digest m j g, record m { nodes = nodes; store = store })
    pub same_bytes : (r : ℕ) → (store r).bytes ≡ (m.store r).bytes
    pub coherent : IsCoherent (record m { nodes = nodes; store = store })
    pub keeps_hashed : (r : ℕ) → (m.store r).valid 1 ≡ true → (store r).valid 1 ≡ true
    pub now_hashed :
        (k i r : ℕ)
        → k + 7 ≡ j
        → Covers k g (2 ^ 20 + i)
        → lookup i m.pages ≡ some r
        → (store r).valid 1 ≡ true
