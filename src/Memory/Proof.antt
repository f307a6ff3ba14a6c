-- ===== src/Memory/Proof.antt =====
-- `traverse_branch` and `merkle_proof` of crates/mipsevm/src/memory.rs: the proof of an address
-- leads from the leaf that holds it to the root.
use native.Mathlib.Nat.{pow-suc, one-le-pow, div-div-eq-div-mul}
use native.Mathlib.Numerals.{add-one}
use cannon_rs.Prelude.{
  ℕ, zero, suc, ◌+◌, ◌-◌, ◌*◌, ◌/◌, ◌%◌, ◌^◌, ◌≤◌, ◌<◌, ◌≡◌, refl, sym, subst, ap, ◌∙◌, ◌==◌,
  if◌then◌else◌, Option, List, [], ◌∷◌, ◌++◌, bit_and, bit_or, arith, ok, ◌>>=◌, Result,
}
use cannon_rs.Word.Bits.{bit_and_mask, bit_and_shifted, bit_or_fields}
use cannon_rs.Hash.{Digest, Keccak}
use cannon_rs.Merkle.{subtree}
use cannon_rs.Merkle.Heights.{AtDepth, pow-add}
use cannon_rs.Merkle.Verify.{siblings, descend}
use cannon_rs.Page.{CachedPage}
use cannon_rs.Memory.{Memory, merkleize_subtree, traverse_branch}
use cannon_rs.Memory.Invariant.{byte_at, memory_leaf}
use cannon_rs.Memory.Coherent.{IsCoherent, Merkleizes}
use cannon_rs.Memory.Merkleize.Pages.{byte_at_same}
use cannon_rs.Memory.Merkleize.Root.{merkleize_subtree-Merkleizes}

-- The bit that chooses the child, as the digit of the path.
branch_bit : (address n : ℕ) → bit_and address (2 ^ n) ≡ address / 2 ^ n % 2 * 2 ^ n
branch_bit address n =
    let one : 1 * 2 ^ n ≡ 2 ^ n = omega arith in
    rw one at (bit_and_shifted n 1 address)
    ∙ ap (λ (t : ℕ). t * 2 ^ n) (bit_and_mask 1 (address / 2 ^ n))

-- The bit of the address at depth `d` is a digit of the position of its leaf.
depth_bit :
    (address j d : ℕ)
    → suc j + d ≡ 27
    → bit_and address (2 ^ (31 - d)) ≡ address / 32 / 2 ^ j % 2 * 2 ^ (31 - d)
depth_bit address j d level =
    let n : 31 - d ≡ j + 5 = omega arith in
    let split : 32 * 2 ^ j ≡ 2 ^ (31 - d) = rw n (pow-add 5 j) in
    let shifted : address / 32 / 2 ^ j ≡ address / 2 ^ (31 - d) =
      div-div-eq-div-mul address 32 (2 ^ j) ∙ ap (λ (t : ℕ). address / t) split in
    rw shifted (branch_bit address (31 - d))

right_child : (g : ℕ) → bit_or (2 * g) 1 ≡ 2 * g + 1
right_child g =
    let twice : g * 2 ^ 1 ≡ 2 * g = omega arith in rw twice at (bit_or_fields 1 g 1 (omega arith))

choose :
    (g b p : ℕ)
    → b < 2
    → 1 ≤ p
    → ((if b * p == 0 then 2 * g else bit_or (2 * g) 1) ≡ 2 * g + b)
      × ((if b * p == 0 then bit_or (2 * g) 1 else 2 * g) ≡ 2 * g + (1 - b))
choose g zero p h pos = ground (arith, right_child g)
choose g (suc zero) p h pos = ground (arith, right_child g)
choose g (suc (suc b)) p h pos = absurd (omega arith)

module _ (keccak256 : Keccak) where
  -- What a traversal of the branch of an address does below a node of height `j`.
  pub record Traverses (j g address : ℕ) (m : Memory) (result : Result (List Digest × Memory))
      : Type 0 where
    pub nodes : List (ℕ × Option Digest)
    pub store : ℕ → CachedPage
    pub returns :
        result
        ≡ ok (
          memory_leaf (byte_at m) (descend keccak256 (memory_leaf (byte_at m)) (address / 32) j g)
              ∷ siblings keccak256 (memory_leaf (byte_at m)) (address / 32) j g,
          record m { nodes = nodes; store = store },
        )
    pub same_bytes : (r : ℕ) → (store r).bytes ≡ (m.store r).bytes
    pub coherent : IsCoherent keccak256 (record m { nodes = nodes; store = store })

  -- One level of the traversal, with the bit read off the address.
  traverse_step :
      (fuel j d g address : ℕ) (m : Memory)
      → suc j + d ≡ 27
      → traverse_branch keccak256 (suc fuel) g address d m ≡ (
          traverse_branch keccak256 fuel (2 * g + address / 32 / 2 ^ j % 2) address (d + 1) m
          >>= λ branch.
              merkleize_subtree keccak256 21 (2 * g + (1 - address / 32 / 2 ^ j % 2)) branch.1
              >>= λ node. ok (branch.0 ++ (node.0 ∷ []), node.1))
  traverse_step fuel j d g address m level =
      let bit = address / 32 / 2 ^ j % 2 in
      let (left, right) =
        choose g bit (2 ^ (31 - d)) (omega arith) (one-le-pow (31 - d) 2 (omega arith)) in
      enters ∙ rw (depth_bit address j d level, left, right) refl
    where
      enters : traverse_branch keccak256 (suc fuel) g address d m ≡ (
          traverse_branch keccak256 fuel
            (if bit_and address (2 ^ (31 - d)) == 0 then 2 * g else bit_or (2 * g) 1)
            address
            (d + 1)
            m
          >>= λ branch.
              merkleize_subtree keccak256 21
                (if bit_and address (2 ^ (31 - d)) == 0 then bit_or (2 * g) 1 else 2 * g)
                branch.1
              >>= λ node. ok (branch.0 ++ (node.0 ∷ []), node.1))
      enters = unfold traverse_branch in ground arith

  child_at : (d g b : ℕ) → b < 2 → AtDepth d g → AtDepth (suc d) (2 * g + b)
  child_at d g b h at = omega (arith, pow-suc 2 d)

  leaf-Traverses :
      (fuel g address : ℕ) (m : Memory)
      → AtDepth 27 g
      → IsCoherent keccak256 m
      → Traverses 0 g address m (traverse_branch keccak256 (suc fuel) g address 27 m)
  leaf-Traverses fuel g address m at c = record {
    nodes = node.nodes;
    store = node.store;
    returns = enters ∙ rw node.returns (unfold descend siblings subtree in refl);
    same_bytes = node.same_bytes;
    coherent = node.coherent;
  }
    where
      node : Merkleizes keccak256 0 g m (merkleize_subtree keccak256 21 g m)
      node =
          merkleize_subtree-Merkleizes keccak256 0 27 21 g m refl (omega arith) (omega arith) at c

      enters :
          traverse_branch keccak256 (suc fuel) g address 27 m
          ≡ (merkleize_subtree keccak256 21 g m >>= λ node. ok (node.0 ∷ [], node.1))
      enters = unfold traverse_branch in refl

  level-Traverses :
      (fuel j d g address : ℕ) (m : Memory)
      → suc j + d ≡ 27
      → AtDepth d g
      → Traverses j
          (2 * g + address / 32 / 2 ^ j % 2)
          address
          m
          (traverse_branch keccak256 fuel (2 * g + address / 32 / 2 ^ j % 2) address (d + 1) m)
      → Traverses (suc j) g address m (traverse_branch keccak256 (suc fuel) g address d m)
  level-Traverses fuel j d g address m level at t = record {
    nodes = node.nodes;
    store = node.store;
    returns =
        traverse_step fuel j d g address m level
        ∙ rw (t.returns, node.returns, byte_at_same m t.nodes t.store t.same_bytes)
            (unfold descend siblings in refl);
    same_bytes = λ r. node.same_bytes r ∙ t.same_bytes r;
    coherent = node.coherent;
  }
    where
      sibling : ℕ
      sibling = 2 * g + (1 - address / 32 / 2 ^ j % 2)

      node :
          Merkleizes keccak256 j sibling
            (record m { nodes = t.nodes; store = t.store })
            (merkleize_subtree keccak256 21 sibling (record m { nodes = t.nodes; store = t.store }))
      node =
          merkleize_subtree-Merkleizes keccak256 j (suc d) 21 sibling
            (record m { nodes = t.nodes; store = t.store }) (omega arith) (omega arith)
            (omega arith) (child_at d g (1 - address / 32 / 2 ^ j % 2) (omega arith) at) t.coherent

  pub traverse_branch-Traverses :
      (fuel j d g address : ℕ) (m : Memory)
      → j + d ≡ 27
      → j < fuel
      → AtDepth d g
      → IsCoherent keccak256 m
      → Traverses j g address m (traverse_branch keccak256 fuel g address d m)
  traverse_branch-Traverses zero j d g address m level enough at c = absurd (omega arith)
  traverse_branch-Traverses (suc fuel) zero d g address m level enough at c =
      let e : 27 ≡ d = omega arith in
      subst (λ t. Traverses 0 g address m (traverse_branch keccak256 (suc fuel) g address t m)) e
        (leaf-Traverses fuel g address m (subst (λ t. AtDepth t g) (sym e) at) c)
  traverse_branch-Traverses (suc fuel) (suc j) d g address m level enough at c =
      level-Traverses fuel j d g address m level at (
        traverse_branch-Traverses fuel j (d + 1) (2 * g + address / 32 / 2 ^ j % 2) address m
          (omega arith) (omega arith)
          (rw add-one (child_at d g (address / 32 / 2 ^ j % 2) (omega arith) at)) c)
