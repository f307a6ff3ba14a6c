-- ===== src/Memory/Marks.antt =====
-- `invalidate` of crates/mipsevm/src/memory.rs: what it marks in the node cache.
use cannon_rs.Prelude.{
  ℕ, suc, ◌+◌, ◌/◌, ◌%◌, ◌^◌, ◌<◌, ◌≡◌, refl, ◌⊎◌, inl, inr, true, false, Bool-cases, Option, none,
  some, Option-cases, List, lookup, update, arith, Result, ok, bit_and, bit_or,
}
use native.Mathlib.Nat.{one-le-pow}
use cannon_rs.Word.Bits.{bit_and_mask, bit_or_fields}
use cannon_rs.Hash.{Digest, Keccak}
use cannon_rs.Merkle.Heights.{AtDepth, Covers}
use cannon_rs.Page.Writes.{invalidated, invalidate_in_range}
use cannon_rs.Memory.{Memory, clear_branch, invalidate_page}
use cannon_rs.Memory.Branch.{clear_branch_or, clear_branch-Covers}
use cannon_rs.Memory.Coherent.{IsCoherent}

-- The node of a page, and the place in a page, as the code computes them.
pub page_node : (a : ℕ) → a < 2 ^ 32 → bit_or (2 ^ 32) a / 2 ^ 12 ≡ 2 ^ 20 + a / 4096
page_node a h = omega (arith, bit_or_fields 32 1 a h)

pub page_place : (a : ℕ) → bit_and a 4095 ≡ a % 4096
page_place a = bit_and_mask 12 a

-- The nodes are left marked along the branch of a page.
pub record Marks (i : ℕ) (old : List (ℕ × Option Digest)) (nodes : List (ℕ × Option Digest))
    : Type 0 where
  pub marks : (x : ℕ) → (lookup x nodes ≡ some none) ⊎ (lookup x nodes ≡ lookup x old)
  pub marked :
      (k d g : ℕ)
      → suc k + d ≡ 20
      → AtDepth d g
      → Covers (suc k) g (2 ^ 20 + i)
      → lookup g nodes ≡ some none

pub clear_branch-Marks :
    (i : ℕ) (m : Memory) → Marks i m.nodes (clear_branch 64 (2 ^ 20 + i) m.nodes)
clear_branch-Marks i m = record {
  marks = λ x. clear_branch_or 64 (2 ^ 20 + i) x m.nodes;
  marked = λ k d g level at cov.
      clear_branch-Covers 64 (suc k) g (2 ^ 20 + i) m.nodes (omega arith)
        (omega (arith, one-le-pow d 2)) cov;
}

module _ (keccak256 : Keccak) where
  -- Above a page that is not hashed every node is marked already.
  unhashed-Marks :
      (i r : ℕ) (m : Memory)
      → IsCoherent keccak256 m
      → lookup i m.pages ≡ some r
      → (m.store r).valid 1 ≡ false
      → Marks i m.nodes m.nodes
  unhashed-Marks i r m c found unhashed = record {
    marks = λ x. inr refl;
    marked = λ k d g level at cov. elim (Option-cases (lookup g m.nodes)) [
      | inl e ↦ absurd (absent_clash (c.absent k d g i level at e cov))
      | inr (none, e) ↦ e
      | inr (some h, e) ↦ absurd (hashed_clash (c.hashed k d g i r h level at e cov found))
    ];
  }
    where
      absent_clash : lookup i m.pages ≡ none → ⊥
      absent_clash e = cc

      hashed_clash : (m.store r).valid 1 ≡ true → ⊥
      hashed_clash e = cc

  -- What the invalidation of an address on a page leaves.
  pub record Invalidates (a r : ℕ) (m : Memory) (result : Result Memory) : Type 0 where
    pub nodes : List (ℕ × Option Digest)
    pub returns :
        result
        ≡ ok (record m {
          nodes = nodes;
          store = update m.store r (invalidated (a % 4096) (m.store r));
        })
    pub marks : Marks (a / 4096) m.nodes nodes

  pub invalidate_page-Invalidates :
      (a r : ℕ) (m : Memory)
      → a < 2 ^ 32
      → IsCoherent keccak256 m
      → lookup (a / 4096) m.pages ≡ some r
      → Invalidates a r m (invalidate_page a r m)
  unfolding invalidate_page
  invalidate_page-Invalidates a r m h c found = elim (Bool-cases ((m.store r).valid 1)) [
    | inl hashed ↦ record {
      nodes = clear_branch 64 (2 ^ 20 + a / 4096) m.nodes;
      returns = rw (
        page_place a,
        invalidate_in_range (a % 4096) (m.store r) (omega arith),
        hashed,
        page_node a h,
      );
      marks = clear_branch-Marks (a / 4096) m;
    }
    | inr unhashed ↦ record {
      nodes = m.nodes;
      returns =
          rw (page_place a, invalidate_in_range (a % 4096) (m.store r) (omega arith), unhashed);
      marks = unhashed-Marks (a / 4096) r m c found unhashed;
    }
  ]
