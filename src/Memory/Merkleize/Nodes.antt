-- ===== src/Memory/Merkleize/Nodes.antt =====
-- The nodes above the pages: a cached digest, an index without an entry, and the hash of the two
-- children.
use native.Mathlib.Nat.{pow-suc}
use native.Mathlib.Decide.{dec_lt}
use cannon_rs.Prelude.{
  ℕ, suc, ◌+◌, ◌-◌, ◌*◌, ◌/◌, ◌^◌, ◌≤◌, ◌<◌, ◌≡◌, refl, sym, subst, ap, ◌∙◌, ◌⊎◌, inl, inr, none,
  some, true, lookup, lookup-insert, insert, bit_or, arith, ok, ◌>>=◌,
}
use cannon_rs.Word.Bits.{bit_or_fields}
use cannon_rs.Hash.{Digest, Keccak, keccak_concat_hashes, zero_hashes}
use cannon_rs.Merkle.{subtree}
use cannon_rs.Merkle.Heights.{
  AtDepth, Covers, depth_unique, left_mul_pow, right_mul_pow, pow-add, leaves_in_range,
}
use cannon_rs.Memory.{Memory, bit_length_in, store_node, merkleize_subtree}
use cannon_rs.Memory.Invariant.{byte_at, memory_leaf}
use cannon_rs.Memory.Branch.{bit_length_depth}
use cannon_rs.Memory.Leaves.{zero_subtree, memory_leaf-absent}
use cannon_rs.Memory.Coherent.{digest, IsCoherent, Merkleizes}
use cannon_rs.Memory.Merkleize.Pages.{byte_at_same}

-- A page below a node is below one of its children.
Covers-children : (k g x : ℕ) → Covers (suc k) g x → Covers k (2 * g) x ⊎ Covers k (2 * g + 1) x
Covers-children k g x c = elim (dec_lt x (g * 2 ^ suc k + 2 ^ k)) [
  | yes p ↦ inl (omega (arith, left_mul_pow g k))
  | no p ↦ inr (omega (arith, right_mul_pow g k, pow-suc 2 k))
]

module _ (keccak256 : Keccak) (m : Memory) (k d g : ℕ) (level : suc k + d ≡ 20)
    (at : AtDepth d g) where
  bits : bit_length_in 64 g ≡ suc d
  bits = bit_length_depth 64 d g (omega arith) at

  pub cached-Merkleizes :
      (fuel : ℕ) (h : Digest)
      → lookup g m.nodes ≡ some (some h)
      → IsCoherent keccak256 m
      → Merkleizes keccak256 (suc k + 7) g m (merkleize_subtree keccak256 (suc fuel) g m)
  cached-Merkleizes fuel h e c = record {
    nodes = m.nodes;
    store = m.store;
    returns = enters ∙ ap (λ (t : Digest). ok (t, m)) (c.cached k d g h level at e);
    same_bytes = λ r. refl;
    coherent = c;
    keeps_hashed = λ r v. v;
    now_hashed = λ k' i r height cov found.
        let same : k' ≡ suc k = omega arith in
        c.hashed k d g i r h level at e (subst (λ t. Covers t g (2 ^ 20 + i)) same cov) found;
  }
    where
      enters : merkleize_subtree keccak256 (suc fuel) g m ≡ ok (h, m)
      enters = unfold merkleize_subtree in ground (arith, bits)

  -- A page below the node, as a leaf of the tree names it.
  page_below :
      (x : ℕ)
      → x < 2 ^ (suc k + 7)
      → (i : ℕ) × (i < 2 ^ 20)
        × Covers (suc k) g (2 ^ 20 + i)
        × ((2 ^ 20 + i) * 128 ≤ g * 2 ^ (suc k + 7) + x)
        × (g * 2 ^ (suc k + 7) + x < (2 ^ 20 + i) * 128 + 128)
  page_below x h =
      let range =
        subst (λ t. (2 ^ t ≤ g * 2 ^ suc k) × (g * 2 ^ suc k + 2 ^ suc k ≤ 2 * 2 ^ t)) level
          (leaves_in_range (suc k) d g at) in
      let split : 2 ^ 7 * 2 ^ suc k ≡ 2 ^ (suc k + 7) = pow-add 7 (suc k) in
      let split' : g * 2 ^ (suc k + 7) ≡ 128 * (g * 2 ^ suc k) =
        omega (arith, ap (λ (t : ℕ). g * t) split) in
      (
        (g * 2 ^ (suc k + 7) + x) / 128 - 2 ^ 20,
        omega (arith, range, split, split'),
        omega (arith, range, split, split'),
        omega (arith, range, split, split'),
        omega (arith, range, split, split'),
      )

  pub absent-Merkleizes :
      (fuel : ℕ)
      → lookup g m.nodes ≡ none
      → IsCoherent keccak256 m
      → Merkleizes keccak256 (suc k + 7) g m (merkleize_subtree keccak256 (suc fuel) g m)
  absent-Merkleizes fuel e c = record {
    nodes = m.nodes;
    store = m.store;
    returns = enters ∙ ap (λ (t : Digest). ok (t, m)) (sym zeros);
    same_bytes = λ r. refl;
    coherent = c;
    keeps_hashed = λ r v. v;
    now_hashed = λ k' i r height cov found.
        let same : k' ≡ suc k = omega arith in
        let no_page = c.absent k d g i level at e (subst (λ t. Covers t g (2 ^ 20 + i)) same cov) in
        absurd (cc);
  }
    where
      enters :
          merkleize_subtree keccak256 (suc fuel) g m ≡ ok (zero_hashes keccak256 (suc k + 7), m)
      enters =
          let height : 28 - suc d ≡ suc k + 7 = omega arith in
          rw (← height) (unfold merkleize_subtree in ground (arith, bits))

      zeros : digest keccak256 m (suc k + 7) g ≡ zero_hashes keccak256 (suc k + 7)
      zeros = zero_subtree keccak256 (memory_leaf (byte_at m)) (suc k + 7) g λ x h.
          let (i, hi, cov, lo, up) = page_below x h in
          memory_leaf-absent m i _ (c.absent k d g i level at e cov) hi lo up

module _ (keccak256 : Keccak) (m : Memory) (k d g : ℕ) (level : suc k + d ≡ 20) (at : AtDepth d g)
    (fuel : ℕ)
    (l : Merkleizes keccak256 (k + 7) (2 * g) m (merkleize_subtree keccak256 fuel (2 * g) m))
    (r : Merkleizes keccak256
      (k + 7)
      (2 * g + 1)
      (record m { nodes = l.nodes; store = l.store })
      (merkleize_subtree keccak256 fuel
        (2 * g + 1)
        (record m { nodes = l.nodes; store = l.store }))) where
  abbrev hash : Digest
  hash = digest keccak256 m (suc k + 7) g

  abbrev after : Memory
  after = record m { nodes = insert g (some hash) r.nodes; store = r.store }

  same_bytes : (q : ℕ) → (r.store q).bytes ≡ (m.store q).bytes
  same_bytes q = r.same_bytes q ∙ l.same_bytes q

  same_view : byte_at after ≡ byte_at m
  same_view = byte_at_same m (insert g (some hash) r.nodes) r.store same_bytes

  pair :
      keccak_concat_hashes keccak256
        (digest keccak256 m (k + 7) (2 * g))
        (digest keccak256 (record m { nodes = l.nodes; store = l.store }) (k + 7) (2 * g + 1))
      ≡ hash
  pair =
      let e : suc k + 7 ≡ suc (k + 7) = omega arith in
      unfold subtree in rw (byte_at_same m l.nodes l.store l.same_bytes, e) refl

  steps :
      lookup g m.nodes ≡ some none → merkleize_subtree keccak256 (suc fuel) g m ≡ ok (hash, after)
  steps e = unfolded ∙ rw (l.returns, right, r.returns) (unfold store_node in rw pair refl)
    where
      right : bit_or (2 * g) 1 ≡ 2 * g + 1
      right = omega (arith, bit_or_fields 1 g 1 (omega arith), ap (λ (t : ℕ). bit_or t 1) twice)
        where
          twice : g * 2 ^ 1 ≡ 2 * g
          twice = omega arith

      unfolded : merkleize_subtree keccak256 (suc fuel) g m ≡ (
          merkleize_subtree keccak256 fuel (2 * g) m >>= λ left.
          merkleize_subtree keccak256 fuel (bit_or (2 * g) 1) left.1 >>= λ right.
          ok (store_node keccak256 g (keccak_concat_hashes keccak256 left.0 right.0) right.1))
      unfolded = unfold merkleize_subtree in ground (arith, bits keccak256 m k d g level at)

  below_hashed :
      (i q : ℕ)
      → Covers (suc k) g (2 ^ 20 + i)
      → lookup i m.pages ≡ some q
      → (r.store q).valid 1 ≡ true
  below_hashed i q cov found = elim (Covers-children k g (2 ^ 20 + i) cov) [
    | inl left ↦ r.keeps_hashed q (l.now_hashed k i q refl left found)
    | inr right ↦ r.now_hashed k i q refl right found
  ]

  after-IsCoherent : IsCoherent keccak256 after
  after-IsCoherent = record {
    page = r.coherent.page;
    cached = λ k' d' g' h' level' at' e. rw same_view (
        ground (
          arith,
          lookup-insert g g' (some hash) r.nodes,
          depth_unique d d' g,
          r.coherent.cached k' d' g' h',
          byte_at_same m r.nodes r.store same_bytes,
        ));
    hashed = λ k' d' g' i q h' level' at' e cov found. ground (
      arith,
      lookup-insert g g' (some hash) r.nodes,
      depth_unique d d' g,
      r.coherent.hashed k' d' g' i q h',
      below_hashed i q,
    );
    absent = λ k' d' g' i level' at' e cov.
        ground (arith, lookup-insert g g' (some hash) r.nodes, r.coherent.absent k' d' g' i);
  }

  pub children-Merkleizes :
      lookup g m.nodes ≡ some none
      → Merkleizes keccak256 (suc k + 7) g m (merkleize_subtree keccak256 (suc fuel) g m)
  children-Merkleizes e = record {
    nodes = insert g (some hash) r.nodes;
    store = r.store;
    returns = steps e;
    same_bytes = same_bytes;
    coherent = after-IsCoherent;
    keeps_hashed = λ q v. r.keeps_hashed q (l.keeps_hashed q v);
    now_hashed = λ k' i q height cov found.
        let same : k' ≡ suc k = omega arith in
        below_hashed i q (subst (λ t. Covers t g (2 ^ 20 + i)) same cov) found;
  }
