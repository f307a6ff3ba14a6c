-- ===== src/Memory/Changes.antt =====
-- A change of one page of crates/mipsevm/src/memory.rs: what the node cache needs for it.
use cannon_rs.Prelude.{
  ℕ, suc, ◌+◌, ◌*◌, ◌/◌, ◌%◌, ◌^◌, ◌<◌, ◌≤◌, ◌≡◌, ◌≢◌, refl, sym, subst, ap, ◌∙◌, ◌⊎◌, inl, inr,
  true, Option, none, some, slice_ext, lookup, arith,
}
use native.Mathlib.Decide.{ℕ_discrete}
use cannon_rs.Hash.{Digest, Keccak}
use cannon_rs.Merkle.Heights.{AtDepth, Covers, leaves_in_range, pow-add, subtree_ext}
use cannon_rs.Page.Coherent
use cannon_rs.Memory.{Memory}
use cannon_rs.Memory.Invariant.{byte_at, page_byte, memory_leaf}
use cannon_rs.Memory.Coherent.{digest, IsCoherent}

-- `m'` differs from `m` in the page `i`, which `r` holds.
pub record PageChange (i r : ℕ) (m m' : Memory) : Type 0 where
  pub there : lookup i m'.pages ≡ some r
  pub other_pages : (j : ℕ) → j ≢ i → lookup j m'.pages ≡ lookup j m.pages
  pub unshared : (j : ℕ) → j ≢ i → lookup j m.pages ≢ some r
  pub other_refs : (r' : ℕ) → r' ≢ r → m'.store r' ≡ m.store r'

-- The same with the nodes above the page marked.
pub record Changes (i r : ℕ) (m m' : Memory) : Type 0 where
  pub change : PageChange i r m m'
  pub marks : (x : ℕ) → (lookup x m'.nodes ≡ some none) ⊎ (lookup x m'.nodes ≡ lookup x m.nodes)
  pub marked :
      (k d g : ℕ)
      → suc k + d ≡ 20
      → AtDepth d g
      → Covers (suc k) g (2 ^ 20 + i)
      → lookup g m'.nodes ≡ some none

page_byte_same :
    (m m' : Memory) (found : Option ℕ) (k : ℕ)
    → ((r : ℕ) → found ≡ some r → m'.store r ≡ m.store r)
    → page_byte m' found k ≡ page_byte m found k
unfolding page_byte
page_byte_same m m' none k same = refl
page_byte_same m m' (some r) k same = rw (same r refl, page_byte)

-- The other pages read as before.
pub byte_at-other :
    (i r a : ℕ) (m m' : Memory) → PageChange i r m m' → a / 4096 ≢ i → byte_at m' a ≡ byte_at m a
unfolding byte_at
byte_at-other i r a m m' c off = rw (c.other_pages (a / 4096) off) (
    page_byte_same m m' (lookup (a / 4096) m.pages) (a % 4096)
      λ r' e. c.other_refs r' λ same. c.unshared (a / 4096) off (rw (← same) e))

-- A leaf under a node that does not cover the page lies on another page.
leaf_elsewhere :
    (k d g i x j : ℕ)
    → suc k + d ≡ 20
    → AtDepth d g
    → x < 2 ^ (suc k + 7)
    → j < 32
    → ((g * 2 ^ (suc k + 7) + x) % 2 ^ 27 * 32 + j) / 4096 ≡ i
    → Covers (suc k) g (2 ^ 20 + i)
leaf_elsewhere k d g i x j level at hx hj e =
    let scaled : 2 ^ suc k * 128 ≡ 2 ^ (suc k + 7) =
      pow-add (suc k) 7 ∙ ap (λ (t : ℕ). 2 ^ t) (omega arith) in
    let place : g * 2 ^ (suc k + 7) ≡ g * 2 ^ suc k * 128 =
      omega (arith, ap (λ (t : ℕ). g * t) scaled) in
    omega (
      arith,
      subst (λ n. (2 ^ n ≤ g * 2 ^ suc k) × (g * 2 ^ suc k + 2 ^ suc k ≤ 2 * 2 ^ n)) level
          (leaves_in_range (suc k) d g at),
    )

module _ (keccak256 : Keccak) (i r : ℕ) (m m' : Memory) (c : Changes i r m m') where
  digest_elsewhere :
      (k d g : ℕ)
      → suc k + d ≡ 20
      → AtDepth d g
      → (Covers (suc k) g (2 ^ 20 + i) → ⊥)
      → digest keccak256 m (suc k + 7) g ≡ digest keccak256 m' (suc k + 7) g
  unfolding memory_leaf
  digest_elsewhere k d g level at off =
      subtree_ext keccak256 (memory_leaf (byte_at m)) (memory_leaf (byte_at m')) (suc k + 7) g g
        λ x hx. slice_ext (byte_at m) (byte_at m') _ _ 32 λ j hj.
          sym (
            byte_at-other i r _ m m' c.change
              λ e. off (leaf_elsewhere k d g i x j level at hx hj e))

  -- An entry that is left was there before, and does not cover the page.
  old_entry :
      (g : ℕ) (h : Digest) → lookup g m'.nodes ≡ some (some h) → lookup g m.nodes ≡ some (some h)
  old_entry g h e = elim (c.marks g) [ inl marked ↦ absurd (cc) | inr same ↦ sym same ∙ e ]

  old_absent : (g : ℕ) → lookup g m'.nodes ≡ none → lookup g m.nodes ≡ none
  old_absent g e = elim (c.marks g) [ inl marked ↦ absurd (cc) | inr same ↦ sym same ∙ e ]

  -- The cache is still that of the reference tree if the changed page is coherent.
  pub Changes-IsCoherent :
      Coherent.IsCoherent keccak256 (m'.store r) → IsCoherent keccak256 m → IsCoherent keccak256 m'
  Changes-IsCoherent page coherent = record {
    page = page_at;
    cached = λ k d g h level at e.
        coherent.cached k d g h level at (old_entry g h e)
        ∙ digest_elsewhere k d g level at λ cov. absurd (clash (c.marked k d g level at cov) e);
    hashed = hashed_at;
    absent = λ k d g j level at e cov. elim (ℕ_discrete j i) [
      | yes same ↦ absurd (unmarked (c.marked k d g level at (rw (← same) cov)) e)
      | no other ↦
          c.change.other_pages j other ∙ coherent.absent k d g j level at (old_absent g e) cov
    ];
  }
    where
      clash : {o : Option (Option Digest)} {h : Digest} → o ≡ some none → o ≡ some (some h) → ⊥
      clash p q = cc

      unmarked : {o : Option (Option Digest)} → o ≡ some none → o ≡ none → ⊥
      unmarked p q = cc

      page_at :
          (j r' : ℕ) → lookup j m'.pages ≡ some r' → Coherent.IsCoherent keccak256 (m'.store r')
      page_at j r' e = elim (ℕ_discrete r' r) [
        | yes same ↦ rw same page
        | no other ↦ elim (ℕ_discrete j i) [
          | yes here ↦ absurd (other (cc (c.change.there)))
          | no off ↦
              rw (c.change.other_refs r' other)
                (coherent.page j r' (sym (c.change.other_pages j off) ∙ e))
        ]
      ]

      hashed_at :
          (k d g j r' : ℕ) (h : Digest)
          → suc k + d ≡ 20
          → AtDepth d g
          → lookup g m'.nodes ≡ some (some h)
          → Covers (suc k) g (2 ^ 20 + j)
          → lookup j m'.pages ≡ some r'
          → (m'.store r').valid 1 ≡ true
      hashed_at k d g j r' h level at e cov found = elim (ℕ_discrete j i) [
        | yes same ↦ absurd (clash (c.marked k d g level at (rw (← same) cov)) e)
        | no off ↦
            let before : lookup j m.pages ≡ some r' = sym (c.change.other_pages j off) ∙ found in
            rw (c.change.other_refs r' λ q. c.change.unshared j off (rw (← q) before))
              (coherent.hashed k d g j r' h level at (old_entry g h e) cov before)
      ]
