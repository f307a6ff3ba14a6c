-- ===== src/Page/Default.antt =====
-- The default page: `DEFAULT_CACHE` and `CachedPage::default`.
use cannon_rs.Prelude.{ℕ, zero, suc, ◌+◌, ◌<◌, ◌≡◌, refl, Bool, true, false, ◌&&◌, ok, arith}
use native.Mathlib.Nat.{one-le-pow}
use cannon_rs.Hash.{Keccak}
use cannon_rs.Merkle.{subtree}
use cannon_rs.Merkle.Heights.{AtDepth}
use cannon_rs.Page.{
  store_hash, merkleize_subtree, merkle_root, blank_page, default_cache, default_page,
}
use cannon_rs.Page.Coherent.{
  depth-lt, page_leaf, IsCoherent, Merkleizes, merkleize_subtree-Merkleizes,
}

-- The test holds at every index below a bound.
holds_until : (ℕ → Bool) → ℕ → Bool
holds_until test zero = true
holds_until test (suc bound) = holds_until test bound && test bound

holds_until_sound :
    (test : ℕ → Bool) (bound i : ℕ) → i < bound → holds_until test bound ≡ true → test i ≡ true
unfolding holds_until
holds_until_sound test zero i small all = absurd (omega arith)
holds_until_sound test (suc bound) i small all = ground (arith, holds_until_sound test bound i)

module _ (keccak256 : Keccak) where
  computed_valid : ℕ → Bool
  computed_valid g = elim (merkle_root keccak256 blank_page) [
    | ok (_, page) ↦ page.valid (suc g)
    | _ ↦ false
  ]

  -- Hashing the blank page visits every node.
  all_computed : holds_until computed_valid 127 ≡ true
  unfolding holds_until computed_valid merkle_root merkleize_subtree store_hash
  all_computed = refl

  blank-IsCoherent : IsCoherent keccak256 blank_page
  blank-IsCoherent = record { node = λ k d g level at v. cc }

  blank_run : Merkleizes keccak256 7 1 blank_page (merkle_root keccak256 blank_page)
  unfolding merkle_root
  blank_run =
      merkleize_subtree-Merkleizes keccak256 7 0 8 1 blank_page (omega arith) (omega arith)
        (omega arith) blank-IsCoherent

  -- So `DEFAULT_CACHE` never panics, and is the cache that the run leaves.
  default_cache_run : default_cache keccak256 ≡ blank_run.after.cache
  unfolding default_cache
  default_cache_run = rw (blank_run.returns, default_cache)

  run_valid : (g : ℕ) → g < 127 → blank_run.after.valid (suc g) ≡ true
  unfolding computed_valid
  run_valid g h =
      let computed : computed_valid g ≡ true =
        holds_until_sound computed_valid 127 g h all_computed in
      rw (blank_run.returns, computed_valid) at computed

  -- The default page is coherent: its cache holds the digests of the zero bytes.
  pub default_page-IsCoherent : IsCoherent keccak256 (default_page keccak256)
  unfolding default_page
  default_page-IsCoherent = record { node = entry }
    where
      entry :
          (k d g : ℕ)
          → suc k + d ≡ 7
          → AtDepth d g
          → (default_page keccak256).valid g ≡ true
          → (default_page keccak256).cache g
            ≡ subtree keccak256 (page_leaf (default_page keccak256).bytes) (suc k) g
      entry k d zero level at v = absurd (omega (arith, one-le-pow d 2))
      entry k d (suc g) level at v =
          rw (default_cache_run, ← blank_run.same_bytes)
            (blank_run.coherent.node k d (suc g) level at
              (run_valid g (omega (arith, depth-lt d 6 (suc g) at (omega arith)))))
