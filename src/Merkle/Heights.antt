-- ===== src/Merkle/Heights.antt =====
-- Levels of generalized indices: a node `g` of height `k` covers the leaves from `g * 2 ^ k` to
-- `(g + 1) * 2 ^ k`, and its depth is determined by its digits.
use native.Mathlib.Decide.{dec_lt}
use native.Mathlib.Nat.{one-le-pow, pow-suc, pow-le-pow_right}
use cannon_rs.Prelude.{ℕ, zero, suc, ◌+◌, ◌*◌, ◌^◌, ◌≤◌, ◌<◌, ◌≡◌, refl, ap, ap₂, arith}
use cannon_rs.Hash.{Digest, Keccak, keccak_concat_hashes, zero_hashes, zero_digest}
use cannon_rs.Merkle.{subtree}

pub mul_pow-suc : (g k : ℕ) → g * 2 ^ suc k ≡ 2 * (g * 2 ^ k)
mul_pow-suc g k = omega (arith, ap (λ (t : ℕ). g * t) (pow-suc 2 k))

pub le-mul_pow : (g k : ℕ) → g ≤ g * 2 ^ k
le-mul_pow g k = grind (arith, one-le-pow k 2)

pub left_mul_pow : (g k : ℕ) → 2 * g * 2 ^ k ≡ g * 2 ^ suc k
left_mul_pow g k = omega (arith, mul_pow-suc g k)

pub right_mul_pow : (g k : ℕ) → (2 * g + 1) * 2 ^ k ≡ g * 2 ^ suc k + 2 ^ k
right_mul_pow g k = omega (arith, mul_pow-suc g k)

-- `g` stands at depth `d`: it has `d + 1` binary digits.
abbrev pub AtDepth : ℕ → ℕ → Type 0
AtDepth d g = (2 ^ d ≤ g) × (g < 2 * 2 ^ d)

-- The leaf `x` is under `g`, which stands `k` levels above the leaves.
abbrev pub Covers : ℕ → ℕ → ℕ → Type 0
Covers k g x = (g * 2 ^ k ≤ x) × (x < g * 2 ^ k + 2 ^ k)

pub AtDepth-left : (d g : ℕ) → AtDepth d g → AtDepth (suc d) (2 * g)
AtDepth-left d g h = omega (arith, pow-suc 2 d)

pub AtDepth-right : (d g : ℕ) → AtDepth d g → AtDepth (suc d) (2 * g + 1)
AtDepth-right d g h = omega (arith, pow-suc 2 d)

depth-le : (d e g : ℕ) → AtDepth d g → AtDepth e g → d ≤ e
depth-le d e g p q = elim (dec_lt e d) [
  | yes lt ↦ absurd (omega (arith, pow-suc 2 e, pow-le-pow_right {n = 2} (omega arith) lt))
  | no ge ↦ omega arith
]

pub depth_unique : (d e g : ℕ) → AtDepth d g → AtDepth e g → d ≡ e
depth_unique d e g p q = omega (arith, depth-le d e g p q, depth-le e d g q p)

pub pow-add : (d k : ℕ) → 2 ^ d * 2 ^ k ≡ 2 ^ (k + d)
pow-add d zero = ground arith
pow-add d (suc k) =
    let e : suc k + d ≡ suc (k + d) = omega arith in
    rw e (omega (arith, pow-suc 2 (k + d), mul_pow-suc (2 ^ d) k, pow-add d k))

-- The leaves under a node at depth `d` lie in the lowest level, at depth `k + d`.
pub leaves_in_range :
    (k d g : ℕ) → AtDepth d g → (2 ^ (k + d) ≤ g * 2 ^ k) × (g * 2 ^ k + 2 ^ k ≤ 2 * 2 ^ (k + d))
leaves_in_range k d g h = (
  rw (← pow-add d k) (lower (2 ^ d) g (2 ^ k) h.0),
  rw (← pow-add d k) (upper (2 ^ d) g (2 ^ k) h.1),
)
  where
    lower : (a b c : ℕ) → a ≤ b → a * c ≤ b * c
    lower a b c h = grind arith

    upper : (a b c : ℕ) → b < 2 * a → b * c + c ≤ 2 * (a * c)
    upper a b c h = omega (arith, lower (suc b) (2 * a) c h)

module _ (keccak256 : Keccak) where
  -- Two trees whose leaves agree below a node have one digest there.
  pub subtree_ext :
      (leaf leaf' : ℕ → Digest) (k g g' : ℕ)
      → ((i : ℕ) → i < 2 ^ k → leaf (g * 2 ^ k + i) ≡ leaf' (g' * 2 ^ k + i))
      → subtree keccak256 leaf k g ≡ subtree keccak256 leaf' k g'
  unfolding subtree
  subtree_ext leaf leaf' zero g g' h = ground (arith, h 0)
  subtree_ext leaf leaf' (suc k) g g' h =
      ap₂ (keccak_concat_hashes keccak256)
        (subtree_ext leaf leaf' k (2 * g) (2 * g')
          (λ i p. ground (arith, h i, left_mul_pow g k, left_mul_pow g' k, pow-suc 2 k)))
        (subtree_ext leaf leaf' k (2 * g + 1) (2 * g' + 1) (λ i p.
          ground (arith, h (2 ^ k + i), right_mul_pow g k, right_mul_pow g' k, pow-suc 2 k)))

  -- Over zero leaves it is the table of zero hashes.
  pub subtree-zero : (k g : ℕ) → subtree keccak256 (λ _. zero_digest) k g ≡ zero_hashes keccak256 k
  unfolding subtree zero_hashes
  subtree-zero zero g = refl
  subtree-zero (suc k) g =
      ap₂ (keccak_concat_hashes keccak256) (subtree-zero k (2 * g)) (subtree-zero k (2 * g + 1))
