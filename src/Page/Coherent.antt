-- ===== src/Page/Coherent.antt =====
-- The node cache of a page (crates/mipsevm/src/page.rs) against the reference Merkle tree.
use native.Mathlib.Nat.{pow-le-pow_right}
use cannon_rs.Prelude.{
  ℕ, zero, suc, ◌+◌, ◌-◌, ◌*◌, ◌%◌, ◌^◌, ◌≤◌, ◌<◌, ◌≡◌, refl, ap, ◌∙◌, subst, inl, inr, true, false,
  Bool-cases, slice, slice-append, ok, arith, Result, ◌>>=◌,
}
use cannon_rs.Word.Bits.{bit_and_mask}
use cannon_rs.Hash.{Digest, Keccak, keccak_concat_hashes}
use cannon_rs.Merkle.{subtree}
use cannon_rs.Merkle.Heights.{AtDepth, AtDepth-left, AtDepth-right, depth_unique}
use cannon_rs.Page.{CachedPage, store_hash, merkleize_subtree}

pub depth-lt : (d n g : ℕ) → AtDepth d g → d ≤ n → g < 2 * 2 ^ n
depth-lt d n g at h = omega (arith, pow-le-pow_right {n = 2} (omega arith) h)

-- The 32 bytes of a page under its leaf node `g`.
unfoldable pub page_leaf : (ℕ → ℕ) → ℕ → Digest
page_leaf bytes g = slice bytes (g % 128 * 32) 32

module _ (keccak256 : Keccak) where
  -- Every valid cache entry is the digest of its node.
  pub record IsCoherent (page : CachedPage) : Type 0 where
    pub node :
        (k d g : ℕ)
        → suc k + d ≡ 7
        → AtDepth d g
        → page.valid g ≡ true
        → page.cache g ≡ subtree keccak256 (page_leaf page.bytes) (suc k) g

  -- What a call of `merkleize_subtree` at a node of height `k` does.
  pub record Merkleizes (k g : ℕ) (page : CachedPage) (result : Result (Digest × CachedPage))
      : Type 0 where
    pub after : CachedPage
    pub returns : result ≡ ok (subtree keccak256 (page_leaf page.bytes) k g, after)
    pub same_bytes : after.bytes ≡ page.bytes
    pub coherent : IsCoherent after
    pub keeps_valid : (i : ℕ) → page.valid i ≡ true → after.valid i ≡ true
    pub now_valid : 1 ≤ k → after.valid g ≡ true

  store_hash-Merkleizes :
      (k d g : ℕ) (page : CachedPage) (hash : Digest)
      → suc k + d ≡ 7
      → AtDepth d g
      → IsCoherent page
      → hash ≡ subtree keccak256 (page_leaf page.bytes) (suc k) g
      → Merkleizes (suc k) g page (ok (store_hash keccak256 g hash page))
  unfolding store_hash
  store_hash-Merkleizes k d g page hash level at c e = record {
    after = (store_hash keccak256 g hash page).1;
    returns = rw e;
    same_bytes = refl;
    coherent = record {
      node = λ k' d' g' level' at' v'. ground (arith, depth_unique d d' g, c.node k' d' g');
    };
    keeps_valid = λ i v. ground arith;
    now_valid = λ _. ground arith;
  }

  -- A node of the lowest level is the bytes of the page.
  leaf-Merkleizes :
      (fuel g : ℕ) (page : CachedPage)
      → 128 ≤ g
      → g < 256
      → IsCoherent page
      → Merkleizes 0 g page (merkleize_subtree keccak256 (suc fuel) g page)
  unfolding merkleize_subtree subtree page_leaf
  leaf-Merkleizes fuel g page lo hi c = record {
    after = page;
    returns = ground (arith, bit_and_mask 7 g);
    same_bytes = refl;
    coherent = c;
    keeps_valid = λ i v. v;
    now_valid = λ h. absurd (omega arith);
  }

  -- A node above two leaves hashes its 64 bytes, which is the hash of the two leaves.
  pair_hash :
      (bytes : ℕ → ℕ) (g : ℕ)
      → 64 ≤ g
      → g < 128
      → keccak256 (slice bytes ((g - 64) * 64) 64) ≡ subtree keccak256 (page_leaf bytes) 1 g
  unfolding subtree page_leaf keccak_concat_hashes
  pair_hash bytes g lo hi =
      let e : 2 * g % 128 * 32 ≡ (g - 64) * 64 = omega arith in
      let e' : (2 * g + 1) % 128 * 32 ≡ (g - 64) * 64 + 32 = omega arith in
      rw (e, e') (ap keccak256 (slice-append bytes ((g - 64) * 64) 32 32))

  pair-Merkleizes :
      (fuel g : ℕ) (page : CachedPage)
      → AtDepth 6 g
      → page.valid g ≡ false
      → IsCoherent page
      → Merkleizes 1 g page (merkleize_subtree keccak256 (suc fuel) g page)
  pair-Merkleizes fuel g page at v c =
      rw enters
        (store_hash-Merkleizes 0 6 g page _ (omega arith) at c (pair_hash page.bytes g at.0 at.1))
    where
      enters :
          merkleize_subtree keccak256 (suc fuel) g page
          ≡ ok (store_hash keccak256 g (keccak256 (slice page.bytes ((g - 64) * 64) 64)) page)
      enters = unfold merkleize_subtree in ground arith

  cached-Merkleizes :
      (k d fuel g : ℕ) (page : CachedPage)
      → suc k + d ≡ 7
      → AtDepth d g
      → g < 128
      → page.valid g ≡ true
      → IsCoherent page
      → Merkleizes (suc k) g page (merkleize_subtree keccak256 (suc fuel) g page)
  unfolding merkleize_subtree
  cached-Merkleizes k d fuel g page level at hi v c = record {
    after = page;
    returns = ground (arith, c.node k d g);
    same_bytes = refl;
    coherent = c;
    keeps_valid = λ i v. v;
    now_valid = λ h. v;
  }

  internal_step :
      (fuel g : ℕ) (page : CachedPage)
      → g < 64
      → page.valid g ≡ false
      → merkleize_subtree keccak256 (suc fuel) g page ≡ (
          merkleize_subtree keccak256 fuel (2 * g) page >>= λ left.
          merkleize_subtree keccak256 fuel (2 * g + 1) left.1 >>= λ right.
          ok (store_hash keccak256 g (keccak_concat_hashes keccak256 left.0 right.0) right.1))
  unfolding merkleize_subtree
  internal_step fuel g page hi v = ground arith

  internal-Merkleizes :
      (k d fuel g : ℕ) (page : CachedPage)
      → suc (suc k) + d ≡ 7
      → AtDepth d g
      → page.valid g ≡ false
      → (l : Merkleizes (suc k) (2 * g) page (merkleize_subtree keccak256 fuel (2 * g) page))
      → Merkleizes
          (suc k)
          (2 * g + 1)
          l.after
          (merkleize_subtree keccak256 fuel (2 * g + 1) l.after)
      → Merkleizes (suc (suc k)) g page (merkleize_subtree keccak256 (suc fuel) g page)
  internal-Merkleizes k d fuel g page level at v l r = record {
    after = stored.after;
    returns =
        internal_step fuel g page (depth-lt d 5 g at (omega arith)) v
        ∙ rw (l.returns, r.returns) (stored.returns ∙ rw (r.same_bytes, l.same_bytes));
    same_bytes = stored.same_bytes ∙ r.same_bytes ∙ l.same_bytes;
    coherent = stored.coherent;
    keeps_valid = λ i h. stored.keeps_valid i (r.keeps_valid i (l.keeps_valid i h));
    now_valid = stored.now_valid;
  }
    where
      hash : Digest
      hash =
          keccak_concat_hashes keccak256 (subtree keccak256 (page_leaf page.bytes) (suc k) (2 * g))
            (subtree keccak256 (page_leaf l.after.bytes) (suc k) (2 * g + 1))

      stored : Merkleizes (suc (suc k)) g r.after (ok (store_hash keccak256 g hash r.after))
      stored =
          store_hash-Merkleizes (suc k) d g r.after hash level at r.coherent
            (rw (r.same_bytes, l.same_bytes) (unfold subtree in refl))

  -- At a node of a coherent page, with fuel for its height, the digest of the reference tree is
  -- returned, the bytes stay, and the cache stays coherent.
  pub merkleize_subtree-Merkleizes :
      (k d fuel g : ℕ) (page : CachedPage)
      → k + d ≡ 7
      → k < fuel
      → AtDepth d g
      → IsCoherent page
      → Merkleizes k g page (merkleize_subtree keccak256 fuel g page)
  merkleize_subtree-Merkleizes k d zero g page level f at c = absurd (omega arith)
  merkleize_subtree-Merkleizes zero d (suc fuel) g page level f at c =
      let e : d ≡ 7 = omega arith in
      let at' : AtDepth 7 g = subst (λ n. AtDepth n g) e at in
      leaf-Merkleizes fuel g page at'.0 at'.1 c
  merkleize_subtree-Merkleizes (suc zero) d (suc fuel) g page level f at c =
      let e : d ≡ 6 = omega arith in
      elim (Bool-cases (page.valid g)) [
        | inl v ↦ cached-Merkleizes 0 d fuel g page level at (depth-lt d 6 g at (omega arith)) v c
        | inr v ↦ pair-Merkleizes fuel g page (subst (λ n. AtDepth n g) e at) v c
      ]
  merkleize_subtree-Merkleizes (suc (suc k)) d (suc fuel) g page level f at c =
      elim (Bool-cases (page.valid g)) [
        | inl v ↦
            cached-Merkleizes (suc k) d fuel g page level at (depth-lt d 6 g at (omega arith)) v c
        | inr v ↦
            let l =
              merkleize_subtree-Merkleizes (suc k) (suc d) fuel (2 * g) page (omega arith)
                (omega arith) (AtDepth-left d g at) c in
            internal-Merkleizes k d fuel g page level at v l (
              merkleize_subtree-Merkleizes (suc k) (suc d) fuel (2 * g + 1) l.after (omega arith)
                (omega arith) (AtDepth-right d g at) l.coherent)
      ]
