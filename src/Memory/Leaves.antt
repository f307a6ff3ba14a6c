-- ===== src/Memory/Leaves.antt =====
-- The leaves of the tree over all of memory, page by page.
use native.Mathlib.Nat.{mod-lt, div-add-mod', one-le-pow}
use cannon_rs.Prelude.{
  ℕ, ◌+◌, ◌*◌, ◌/◌, ◌%◌, ◌^◌, ◌≤◌, ◌<◌, ◌≡◌, ap, ◌∙◌, none, some, slice_ext, slice_const, lookup,
  arith,
}
use cannon_rs.Hash.{Digest, Keccak, zero_digest, zero_hashes}
use cannon_rs.Merkle.{subtree}
use cannon_rs.Merkle.Heights.{subtree_ext, subtree-zero, pow-add}
use cannon_rs.Page.Coherent.{page_leaf}
use cannon_rs.Memory.{Memory}
use cannon_rs.Memory.Invariant.{byte_at, page_byte, memory_leaf}

-- A leaf of a page is the leaf of memory at its place.
pub memory_leaf-page :
    (m : Memory) (i r l : ℕ)
    → lookup i m.pages ≡ some r
    → l < 128
    → i < 2 ^ 20
    → page_leaf (m.store r).bytes (128 + l) ≡ memory_leaf (byte_at m) ((2 ^ 20 + i) * 128 + l)
unfolding page_leaf memory_leaf byte_at page_byte
memory_leaf-page m i r l found hl hi = slice_ext (m.store r).bytes (byte_at m) _ _ 32 λ k h.
    let e : (((2 ^ 20 + i) * 128 + l) % 2 ^ 27 * 32 + k) / 4096 ≡ i = omega arith in
    let e' : (((2 ^ 20 + i) * 128 + l) % 2 ^ 27 * 32 + k) % 4096 ≡ (128 + l) % 128 * 32 + k =
      omega arith in
    rw (e, e', found)

-- Where there is no page the leaves are zero.
pub memory_leaf-absent :
    (m : Memory) (i x : ℕ)
    → lookup i m.pages ≡ none
    → i < 2 ^ 20
    → (2 ^ 20 + i) * 128 ≤ x
    → x < (2 ^ 20 + i) * 128 + 128
    → memory_leaf (byte_at m) x ≡ zero_digest
unfolding memory_leaf byte_at page_byte
memory_leaf-absent m i x absent hi lo up =
    slice_ext (byte_at m) (λ _. 0) _ 0 32
      (λ k h. let e : (x % 2 ^ 27 * 32 + k) / 4096 ≡ i = omega arith in rw (e, absent))
    ∙ slice_const 0 0 32

module _ (keccak256 : Keccak) where
  -- Over zero leaves the digest is that of the table.
  pub zero_subtree :
      (leaf : ℕ → Digest) (j g : ℕ)
      → ((x : ℕ) → x < 2 ^ j → leaf (g * 2 ^ j + x) ≡ zero_digest)
      → subtree keccak256 leaf j g ≡ zero_hashes keccak256 j
  zero_subtree leaf j g h =
      subtree_ext keccak256 leaf (λ _. zero_digest) j g g h ∙ subtree-zero keccak256 j g

  module _ (m : Memory) (i e j g : ℕ) (level : j + e ≡ 7) (hi : i < 2 ^ 20)
      (at : g / 2 ^ e ≡ 2 ^ 20 + i) where
    abbrev offset : ℕ
    offset = g % 2 ^ e * 2 ^ j

    whole : 2 ^ e * 2 ^ j ≡ 128
    whole = pow-add e j ∙ ap (λ (t : ℕ). 2 ^ t) level

    offset_fits : offset + 2 ^ j ≤ 128
    offset_fits =
        omega (
          arith,
          whole,
          below (g % 2 ^ e) (2 ^ e) (2 ^ j) (mod-lt g (one-le-pow e 2 (omega arith))),
        )
      where
        below : (a b c : ℕ) → a < b → a * c + c ≤ b * c
        below a b c h = grind arith

    place : g * 2 ^ j ≡ (2 ^ 20 + i) * 128 + offset
    place = omega (
      arith,
      ap (λ (t : ℕ). t * 2 ^ j) (div-add-mod' g (2 ^ e)),
      ap (λ (t : ℕ). t * 2 ^ e * 2 ^ j) at,
      ap (λ (t : ℕ). (2 ^ 20 + i) * t) whole,
    )

    -- A node inside a page is the node of memory at its place.
    pub subtree_in_page :
        (r : ℕ)
        → lookup i m.pages ≡ some r
        → subtree keccak256 (page_leaf (m.store r).bytes) j (2 ^ e + g % 2 ^ e)
          ≡ subtree keccak256 (memory_leaf (byte_at m)) j g
    subtree_in_page r found =
        subtree_ext keccak256 (page_leaf (m.store r).bytes) (memory_leaf (byte_at m)) j
          (2 ^ e + g % 2 ^ e) g
          λ x h.
            let p : (2 ^ e + g % 2 ^ e) * 2 ^ j + x ≡ 128 + (offset + x) = omega (arith, whole) in
            let q : g * 2 ^ j + x ≡ (2 ^ 20 + i) * 128 + (offset + x) = omega (arith, place) in
            rw (p, q) (memory_leaf-page m i r (offset + x) found (omega (arith, offset_fits)) hi)

    pub subtree_absent :
        lookup i m.pages ≡ none
        → subtree keccak256 (memory_leaf (byte_at m)) j g ≡ zero_hashes keccak256 j
    subtree_absent absent = zero_subtree (memory_leaf (byte_at m)) j g λ x h.
        memory_leaf-absent m i _ absent hi (omega (arith, place))
          (omega (arith, place, offset_fits))
