-- ===== src/Page/Writes.antt =====
-- `CachedPage::invalidate` around a change of the bytes.
use cannon_rs.Prelude.{
  ℕ, suc, ◌+◌, ◌*◌, ◌/◌, ◌%◌, ◌^◌, ◌≤◌, ◌<◌, ◌≡◌, ◌≢◌, refl, sym, subst, ◌∙◌, true, false, ok,
  arith, slice_ext, bit_or, leb, if◌then◌else◌,
}
use cannon_rs.Word.Bits.{bit_or_fields}
use cannon_rs.Hash.{Keccak}
use cannon_rs.Merkle.Heights.{AtDepth, leaves_in_range, le-mul_pow, mul_pow-suc, subtree_ext}
use cannon_rs.Page.{CachedPage, invalidate}
use cannon_rs.Page.Coherent.{page_leaf, IsCoherent}

-- The key of an address is the parent of its leaf.
invalidate_key : (addr : ℕ) → addr < 4096 → bit_or 4096 addr / 64 ≡ 64 + addr / 64
invalidate_key addr h = omega (arith, bit_or_fields 12 1 addr h)

-- What `invalidate` leaves of the page at an address in range.
unfoldable pub invalidated : ℕ → CachedPage → CachedPage
invalidated addr page = record page {
  valid = λ i. if leb i (64 + addr / 64) then false else page.valid i;
}

pub invalidate_in_range :
    (addr : ℕ) (page : CachedPage) → addr < 4096 → invalidate addr page ≡ ok (invalidated addr page)
unfolding invalidate invalidated
invalidate_in_range addr page h = rw (invalidate_key addr h) (ground arith)

valid_above :
    (addr : ℕ) (page : CachedPage) (g : ℕ)
    → (invalidated addr page).valid g ≡ true
    → 64 + addr / 64 < g
unfolding invalidated
valid_above addr page g v = ground arith

-- A node above the key has no leaf that holds the address.
leaf_elsewhere :
    (k d g i j addr : ℕ)
    → suc k + d ≡ 7
    → AtDepth d g
    → i < 2 ^ suc k
    → 64 + addr / 64 < g
    → j < 32
    → ((g * 2 ^ suc k + i) % 128 * 32 + j) / 32 ≢ addr / 32
leaf_elsewhere k d g i j addr level at p above q = omega (
  arith,
  subst (λ n. (2 ^ n ≤ g * 2 ^ suc k) × (g * 2 ^ suc k + 2 ^ suc k ≤ 2 * 2 ^ n)) level
      (leaves_in_range (suc k) d g at),
  mul_pow-suc g k,
  le-mul_pow g k,
)

module _ (keccak256 : Keccak) where
  -- A change of the bytes of one leaf after the address is invalidated keeps the cache coherent.
  pub invalidated-IsCoherent :
      (addr : ℕ) (page : CachedPage) (bytes : ℕ → ℕ)
      → addr < 4096
      → ((j : ℕ) → j / 32 ≢ addr / 32 → bytes j ≡ page.bytes j)
      → IsCoherent keccak256 page
      → IsCoherent keccak256 (record (invalidated addr page) { bytes = bytes })
  unfolding invalidated page_leaf
  invalidated-IsCoherent addr page bytes hi same c = record {
    node = λ k d g level at v.
        c.node k d g level at (ground arith)
        ∙ subtree_ext keccak256 (page_leaf page.bytes) (page_leaf bytes) (suc k) g g (λ i p.
          slice_ext page.bytes bytes _ _ 32 (λ j q.
            sym (same _ (leaf_elsewhere k d g i j addr level at p (valid_above addr page g v) q))));
  }

  -- `invalidate` at an address of a coherent page succeeds and leaves the bytes, and then any change
  -- of the bytes of the leaf of that address keeps the cache coherent.
  pub invalidate-IsCoherent :
      (addr : ℕ) (page : CachedPage) (bytes : ℕ → ℕ)
      → addr < 4096
      → ((j : ℕ) → j / 32 ≢ addr / 32 → bytes j ≡ page.bytes j)
      → IsCoherent keccak256 page
      → (page' : CachedPage) × (invalidate addr page ≡ ok page')
        × (page'.bytes ≡ page.bytes)
        × IsCoherent keccak256 (record page' { bytes = bytes })
  unfolding invalidated
  invalidate-IsCoherent addr page bytes hi same c = (
    invalidated addr page,
    invalidate_in_range addr page hi,
    refl,
    invalidated-IsCoherent addr page bytes hi same c,
  )
