-- ===== src/Memory/Merkleize/Root.antt =====
-- `merkleize_subtree` and `merkle_root` of crates/mipsevm/src/memory.rs return the digests of the
-- reference tree.
use native.Mathlib.Decide.{dec_lt}
use cannon_rs.Prelude.{
  ℕ, zero, suc, ◌+◌, ◌-◌, ◌*◌, ◌/◌, ◌^◌, ◌<◌, ◌≡◌, refl, subst, inl, inr, none, some, Option-cases,
  lookup, arith,
}
use cannon_rs.Hash.{Keccak}
use cannon_rs.Merkle.Heights.{AtDepth, AtDepth-left, AtDepth-right}
use cannon_rs.Memory.{Memory, merkleize_subtree, merkle_root}
use cannon_rs.Memory.Coherent.{IsCoherent, Merkleizes}
use cannon_rs.Memory.Merkleize.Pages.{page_of, page-Merkleizes, absent-Merkleizes}
use cannon_rs.Memory.Merkleize.Nodes

module _ (keccak256 : Keccak) where
  in_page :
      (j e fuel g : ℕ) (m : Memory)
      → j + e ≡ 7
      → AtDepth (20 + e) g
      → IsCoherent keccak256 m
      → Merkleizes keccak256 j g m (merkleize_subtree keccak256 (suc fuel) g m)
  in_page j e fuel g m level at c =
      let range = page_of e g at in
      let i = g / 2 ^ e - 2 ^ 20 in
      let here : g / 2 ^ e ≡ 2 ^ 20 + i = omega (arith, range) in
      let hi : i < 2 ^ 20 = omega (arith, range) in
      elim (Option-cases (lookup i m.pages)) [
        | inl e' ↦ absent-Merkleizes keccak256 m i e j g level at here hi fuel e' c
        | inr (r, e') ↦ page-Merkleizes keccak256 m i e j g level at here hi fuel r e' c
      ]

  above :
      (k d fuel g : ℕ) (m : Memory)
      → suc k + d ≡ 20
      → AtDepth d g
      → IsCoherent keccak256 m
      → ((m' : Memory)
          → IsCoherent keccak256 m'
          → Merkleizes keccak256 (k + 7) (2 * g) m' (merkleize_subtree keccak256 fuel (2 * g) m'))
      → ((m' : Memory)
          → IsCoherent keccak256 m'
          → Merkleizes keccak256
              (k + 7)
              (2 * g + 1)
              m'
              (merkleize_subtree keccak256 fuel (2 * g + 1) m'))
      → Merkleizes keccak256 (suc k + 7) g m (merkleize_subtree keccak256 (suc fuel) g m)
  above k d fuel g m level at c left right = elim (Option-cases (lookup g m.nodes)) [
    | inl e ↦ Nodes.absent-Merkleizes keccak256 m k d g level at fuel e c
    | inr (some h, e) ↦ Nodes.cached-Merkleizes keccak256 m k d g level at fuel h e c
    | inr (none, e) ↦
        let l = left m c in
        Nodes.children-Merkleizes keccak256 m k d g level at fuel l
          (right (record m { nodes = l.nodes; store = l.store }) l.coherent) e
  ]

  -- At a node above the pages or inside one, of height `j` and depth `d`, the call returns the
  -- digest of the reference tree.
  pub merkleize_subtree-Merkleizes :
      (j d fuel g : ℕ) (m : Memory)
      → j + d ≡ 27
      → 0 < fuel
      → 20 < fuel + d
      → AtDepth d g
      → IsCoherent keccak256 m
      → Merkleizes keccak256 j g m (merkleize_subtree keccak256 fuel g m)
  merkleize_subtree-Merkleizes j d zero g m level some_fuel enough at c = absurd (omega arith)
  merkleize_subtree-Merkleizes j d (suc fuel) g m level some_fuel enough at c = elim (dec_lt d 20) [
    | no deep ↦
        let e : d ≡ 20 + (d - 20) = omega arith in
        in_page j (d - 20) fuel g m (omega arith) (subst (λ t. AtDepth t g) e at) c
    | yes high ↦
        let e : suc (j - 8) + 7 ≡ j = omega arith in
        subst (λ t. Merkleizes keccak256 t g m (merkleize_subtree keccak256 (suc fuel) g m)) e
          (above (j - 8) d fuel g m (omega arith) at c
            (λ m' c'.
              merkleize_subtree-Merkleizes (j - 8 + 7) (suc d) fuel (2 * g) m' (omega arith)
                (omega arith) (omega arith) (AtDepth-left d g at) c')
            (λ m' c'.
              merkleize_subtree-Merkleizes (j - 8 + 7) (suc d) fuel (2 * g + 1) m' (omega arith)
                (omega arith) (omega arith) (AtDepth-right d g at) c'))
  ]

  -- On a coherent memory `merkle_root` returns the root of the reference tree over the flat view; the
  -- bytes of the pages are kept, the memory after it is coherent, and its pages are hashed.
  pub merkle_root-Merkleizes :
      (m : Memory) → IsCoherent keccak256 m → Merkleizes keccak256 27 1 m (merkle_root keccak256 m)
  unfolding merkle_root
  merkle_root-Merkleizes m c =
      merkleize_subtree-Merkleizes 27 0 21 1 m refl (omega arith) (omega arith) (omega arith) c
