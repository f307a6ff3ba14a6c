-- ===== src/Memory/Branch.antt =====
-- The loops of crates/mipsevm/src/memory.rs that mark the nodes above a page as invalidated, and
-- the number of digits of a generalized index.
use native.Mathlib.Nat.{one-le-pow, pow-suc}
use cannon_rs.Prelude.{
  ℕ, zero, suc, ◌/◌, ◌<◌, ◌≡◌, refl, ◌⊎◌, inr, Option, none, some, List, lookup, insert,
  lookup-insert, arith,
}
use cannon_rs.Hash.{Digest}
use cannon_rs.Memory.{clear_branch, bit_length_in}
use cannon_rs.Merkle.Heights.{AtDepth, Covers, mul_pow-suc, le-mul_pow}

abbrev Nodes : Type 0
Nodes = List (ℕ × Option Digest)

-- The loop marks nodes, and changes nothing else.
pub clear_branch_or :
    (fuel g x : ℕ) (nodes : Nodes)
    → (lookup x (clear_branch fuel g nodes) ≡ some none)
      ⊎ (lookup x (clear_branch fuel g nodes) ≡ lookup x nodes)
unfolding clear_branch
clear_branch_or zero g x nodes = inr refl
clear_branch_or (suc fuel) g x nodes =
    ground
      (arith, clear_branch_or fuel (g / 2) x (insert g none nodes), lookup-insert g x none nodes)

-- Every node above the start is marked, the start included.
pub clear_branch-Covers :
    (fuel k g x : ℕ) (nodes : Nodes)
    → k < fuel
    → 0 < g
    → Covers k g x
    → lookup g (clear_branch fuel x nodes) ≡ some none
unfolding clear_branch
clear_branch-Covers zero k g x nodes f pos c = absurd (omega arith)
clear_branch-Covers (suc fuel) zero g x nodes f pos c =
    ground
      (arith, clear_branch_or fuel (x / 2) g (insert x none nodes), lookup-insert x g none nodes)
clear_branch-Covers (suc fuel) (suc k) g x nodes f pos c =
    let above : Covers k g (x / 2) = omega (arith, mul_pow-suc g k, pow-suc 2 k) in
    let start : 0 < x = omega (arith, le-mul_pow g (suc k)) in
    let rest = clear_branch-Covers fuel k g (x / 2) (insert x none nodes) (omega arith) pos above in
    ground arith

-- An index at depth `d` has `d + 1` digits.
pub bit_length_depth : (fuel d g : ℕ) → d < fuel → AtDepth d g → bit_length_in fuel g ≡ suc d
unfolding bit_length_in
bit_length_depth zero d g f at = absurd (omega arith)
bit_length_depth (suc zero) zero g f at = ground arith
bit_length_depth (suc (suc fuel)) zero g f at = ground arith
bit_length_depth (suc fuel) (suc d) g f at =
    let at' : AtDepth d (g / 2) = omega (arith, pow-suc 2 d) in
    let e : bit_length_in fuel (g / 2) ≡ suc d =
      bit_length_depth fuel d (g / 2) (omega arith) at' in
    let pos : 0 < g = omega (arith, one-le-pow d 2, pow-suc 2 d) in ground arith
