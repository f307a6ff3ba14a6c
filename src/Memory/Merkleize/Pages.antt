-- ===== src/Memory/Merkleize/Pages.antt =====
-- The nodes at the pages and inside them.
use native.Mathlib.Nat.{le-div_iff_mul-le, div-lt_iff_lt-mul, one-le-pow, mod-lt}
use cannon_rs.Prelude.{
  ℕ, zero, suc, ◌+◌, ◌-◌, ◌*◌, ◌/◌, ◌%◌, ◌^◌, ◌≤◌, ◌<◌, ◌≡◌, refl, subst, ap, ◌∙◌, fun_ext, Option,
  none, some, true, List, lookup, update, update_all, bit_and, bit_or, arith, ok, ◌>>=◌,
}
use cannon_rs.Word.Bits.{bit_and_mask, bit_or_fields}
use cannon_rs.Hash.{Digest, Keccak, zero_hashes}
use cannon_rs.Merkle.Heights.{AtDepth, Covers, pow-add}
use cannon_rs.Page
use cannon_rs.Page.{CachedPage}
use cannon_rs.Page.Coherent
use cannon_rs.Page.Coherent.{merkleize_subtree-Merkleizes}
use cannon_rs.Memory.{
  Memory, set_page, bit_length_in, merkleize_found, merkleize_in_page, merkleize_subtree,
}
use cannon_rs.Memory.Invariant.{IsValid, byte_at, page_byte}
use cannon_rs.Memory.Branch.{bit_length_depth}
use cannon_rs.Memory.Leaves.{subtree_in_page, subtree_absent}
use cannon_rs.Memory.Coherent.{IsCoherent, Merkleizes}

-- The flat view does not see the caches.
pub byte_at_same :
    (m : Memory) (nodes : List (ℕ × Option Digest)) (store : ℕ → CachedPage)
    → ((r : ℕ) → (store r).bytes ≡ (m.store r).bytes)
    → byte_at (record m { nodes = nodes; store = store }) ≡ byte_at m
unfolding byte_at
byte_at_same m nodes store same = fun_ext λ a. by_page (lookup (a / 4096) m.pages) (a % 4096)
  where
    by_page :
        (found : Option ℕ) (k : ℕ)
        → page_byte (record m { nodes = nodes; store = store }) found k ≡ page_byte m found k
    by_page none k = unfold page_byte in refl
    by_page (some r) k = unfold page_byte in ap (λ (f : ℕ → ℕ). f k) (same r)

pub IsValid-same :
    (m : Memory) (nodes : List (ℕ × Option Digest)) (store : ℕ → CachedPage)
    → IsValid m
    → IsValid (record m { nodes = nodes; store = store })
IsValid-same m nodes store v = record {
  unique = v.unique;
  index_bounded = v.index_bounded;
  refs_bounded = v.refs_bounded;
  refs_distinct = v.refs_distinct;
  slot_0 = v.slot_0;
  slot_1 = v.slot_1;
}

-- The page of a node at depth `20 + e`.
pub page_of : (e g : ℕ) → AtDepth (20 + e) g → (2 ^ 20 ≤ g / 2 ^ e) × (g / 2 ^ e < 2 ^ 21)
page_of e g at =
    let split : 2 ^ 20 * 2 ^ e ≡ 2 ^ (20 + e) =
      pow-add 20 e ∙ ap (λ (t : ℕ). 2 ^ t) (omega arith) in
    (
      (le-div_iff_mul-le (one-le-pow e 2 (omega arith))).1 (omega (arith, split)),
      (div-lt_iff_lt-mul (one-le-pow e 2 (omega arith))).1 (omega (arith, split)),
    )

module _ (keccak256 : Keccak) where
  -- A change of page caches that keeps bytes, coherence and hashes keeps the whole coherent.
  pub store-IsCoherent :
      (m : Memory) (store : ℕ → CachedPage)
      → ((r : ℕ) → (store r).bytes ≡ (m.store r).bytes)
      → ((r : ℕ) → (m.store r).valid 1 ≡ true → (store r).valid 1 ≡ true)
      → ((i r : ℕ) → lookup i m.pages ≡ some r → Coherent.IsCoherent keccak256 (store r))
      → IsCoherent keccak256 m
      → IsCoherent keccak256 (record m { store = store })
  store-IsCoherent m store same keeps pages c =
      let view = byte_at_same m m.nodes store same in
      record {
        page = pages;
        cached = λ k d g h level at e. rw view (c.cached k d g h level at e);
        hashed =
            λ k d g i r h level at e cov found. keeps r (c.hashed k d g i r h level at e cov found);
        absent = c.absent;
      }

  module _ (m : Memory) (i e j g : ℕ) (level : j + e ≡ 7) (at : AtDepth (20 + e) g)
      (here : g / 2 ^ e ≡ 2 ^ 20 + i) (hi : i < 2 ^ 20) where
    enters :
        (fuel : ℕ)
        → bit_length_in 64 g ≡ suc (20 + e)
        → merkleize_subtree keccak256 (suc fuel) g m
          ≡ merkleize_in_page keccak256 (suc (20 + e)) g m
    enters fuel bits = unfold merkleize_subtree in ground arith

    depth : suc (20 + e) - 1 - 20 ≡ e
    depth = omega arith

    page_index : bit_and (g / 2 ^ (suc (20 + e) - 1 - 20)) 0xFFFFF ≡ i
    page_index = rw (depth, here) (bit_and_mask 20 (2 ^ 20 + i) ∙ omega arith)

    page_found :
        merkleize_in_page keccak256 (suc (20 + e)) g m
        ≡ merkleize_found keccak256 (suc (20 + e)) g (lookup i m.pages) m
    unfolding merkleize_in_page
    page_found =
        ap (λ (t : ℕ). merkleize_found keccak256 (suc (20 + e)) g (lookup t m.pages) m) page_index

    in_page_step :
        (fuel : ℕ)
        → merkleize_subtree keccak256 (suc fuel) g m
          ≡ merkleize_found keccak256 (suc (20 + e)) g (lookup i m.pages) m
    in_page_step fuel = enters fuel (bit_length_depth 64 (20 + e) g (omega arith) at) ∙ page_found

    page_g_at : AtDepth e (2 ^ e + g % 2 ^ e)
    page_g_at = omega (arith, mod-lt g (one-le-pow e 2 (omega arith)))

    page_g : bit_or (2 ^ e) (bit_and g (2 ^ e - 1)) ≡ 2 ^ e + g % 2 ^ e
    page_g =
        let one : 1 * 2 ^ e ≡ 2 ^ e = omega arith in
        let fields = bit_or_fields e 1 (g % 2 ^ e) (mod-lt g (one-le-pow e 2 (omega arith))) in
        ap (bit_or (2 ^ e)) (bit_and_mask e g) ∙ (rw one at fields)

    found_step :
        (r : ℕ)
        → merkleize_found keccak256 (suc (20 + e)) g (some r) m ≡ (
            Page.merkleize_subtree keccak256 8 (2 ^ e + g % 2 ^ e) (m.store r) >>= λ (hash, page).
            ok (hash, set_page r page m))
    found_step r = unfold merkleize_found in rw (depth, page_g)

    -- A page at a node of the page level is hashed by the call.
    hashed_page :
        (k i' r r' : ℕ) (page : CachedPage)
        → k + 7 ≡ j
        → Covers k g (2 ^ 20 + i')
        → lookup i m.pages ≡ some r
        → lookup i' m.pages ≡ some r'
        → (1 ≤ j → page.valid (2 ^ e + g % 2 ^ e) ≡ true)
        → (update m.store r page r').valid 1 ≡ true
    hashed_page zero i' r r' page height cov found found' now =
        let e0 : e ≡ 0 = omega arith in
        let one : 2 ^ e ≡ 1 = ap (λ (t : ℕ). 2 ^ t) e0 in
        let index : 2 ^ e + g % 2 ^ e ≡ 1 = rw one (omega arith) in
        let same : i' ≡ i = omega (arith, rw one at here) in
        let valid : page.valid 1 ≡ true =
          subst (λ t. page.valid t ≡ true) index (now (omega arith)) in
        let found2 : lookup i m.pages ≡ some r' =
          subst (λ t. lookup t m.pages ≡ some r') same found' in
        ground arith
    hashed_page (suc k) i' r r' page height cov found found' now = absurd (omega arith)

    pub page-Merkleizes :
        (fuel r : ℕ)
        → lookup i m.pages ≡ some r
        → IsCoherent keccak256 m
        → Merkleizes keccak256 j g m (merkleize_subtree keccak256 (suc fuel) g m)
    page-Merkleizes fuel r found c = record {
      nodes = m.nodes;
      store = update m.store r inner.after;
      returns =
          in_page_step fuel
          ∙ rw (
            found,
            found_step r,
            inner.returns,
            subtree_in_page keccak256 m i e j g level hi here r found,
          );
      same_bytes = same;
      coherent =
          store-IsCoherent m (update m.store r inner.after) same keeps (λ i' q. pages q i') c;
      keeps_hashed = keeps;
      now_hashed = λ k i' r' height cov found'.
          hashed_page k i' r r' inner.after height cov found found' inner.now_valid;
    }
      where
        inner :
            Coherent.Merkleizes keccak256 j
              (2 ^ e + g % 2 ^ e)
              (m.store r)
              (Page.merkleize_subtree keccak256 8 (2 ^ e + g % 2 ^ e) (m.store r))
        inner =
            merkleize_subtree-Merkleizes keccak256 j e 8 (2 ^ e + g % 2 ^ e) (m.store r) level
              (omega arith) page_g_at (c.page i r found)

        same : (q : ℕ) → (update m.store r inner.after q).bytes ≡ (m.store q).bytes
        same =
            update_all (λ q p. p.bytes ≡ (m.store q).bytes) m.store r inner.after inner.same_bytes
              (λ q. refl)

        pages :
            (q i' : ℕ)
            → lookup i' m.pages ≡ some q
            → Coherent.IsCoherent keccak256 (update m.store r inner.after q)
        pages =
            update_all
              (λ q p. (i' : ℕ) → lookup i' m.pages ≡ some q → Coherent.IsCoherent keccak256 p)
              m.store r inner.after (λ i' h. inner.coherent) (λ q i' h. c.page i' q h)

        keeps :
            (q : ℕ) → (m.store q).valid 1 ≡ true → (update m.store r inner.after q).valid 1 ≡ true
        keeps =
            update_all (λ q p. (m.store q).valid 1 ≡ true → p.valid 1 ≡ true) m.store r inner.after
              (inner.keeps_valid 1) (λ q h. h)

    pub absent-Merkleizes :
        (fuel : ℕ)
        → lookup i m.pages ≡ none
        → IsCoherent keccak256 m
        → Merkleizes keccak256 j g m (merkleize_subtree keccak256 (suc fuel) g m)
    absent-Merkleizes fuel none_here c = record {
      nodes = m.nodes;
      store = m.store;
      returns =
          in_page_step fuel
          ∙ rw none_here
              (rw (subtree_absent keccak256 m i e j g level hi here none_here) zero_found);
      same_bytes = λ r. refl;
      coherent = c;
      keeps_hashed = λ r h. h;
      now_hashed = λ k i' r' height cov found'. absurd (clash k i' r' height cov found');
    }
      where
        zero_found :
            merkleize_found keccak256 (suc (20 + e)) g none m ≡ ok (zero_hashes keccak256 j, m)
        zero_found =
            let height : 28 - suc (20 + e) ≡ j = omega arith in unfold merkleize_found in rw height

        clash :
            (k i' r' : ℕ) → k + 7 ≡ j → Covers k g (2 ^ 20 + i') → lookup i' m.pages ≡ some r' → ⊥
        clash zero i' r' height cov found' =
            let e0 : e ≡ 0 = omega arith in
            let one : 2 ^ e ≡ 1 = ap (λ (t : ℕ). 2 ^ t) e0 in
            let same : i' ≡ i = omega (arith, rw one at here) in
            let found2 : lookup i m.pages ≡ some r' =
              subst (λ t. lookup t m.pages ≡ some r') same found' in
            cc
        clash (suc k) i' r' height cov found' = absurd (omega arith)
