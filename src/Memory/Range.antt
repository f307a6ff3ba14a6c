-- ===== src/Memory/Range.antt =====
-- `Memory::set_memory_range` of crates/mipsevm/src/memory.rs, over any reader.
use cannon_rs.Prelude.{
  ℕ, zero, suc, [], ◌∷◌, ◌++◌, ◌<◌, ◌≤◌, ◌≡◌, refl, sym, take-drop, length-take, arith, ◌-◌, ◌/◌,
  ◌^◌, ◌==◌, if◌then◌else◌, some, none, List, length, take, drop, copy_at, bit_and, Result, ok,
  diverge,
}
use cannon_rs.Word.{add32}
use cannon_rs.Hash.{Keccak}
use cannon_rs.Page.{invalidate_full, page_address_mask, page_size}
use cannon_rs.Memory.{Memory, page_lookup, alloc_page, set_page}

-- `Read` of the standard library: `read` gives at most as many bytes as there is room for, and none
-- only at the end of what is left.
pub record Reader (R : Type 0) : Type 0 where
  pub read : ℕ → R → List ℕ × R
  pub contents : R → List ℕ
  pub bounded : (n : ℕ) (r : R) → length (read n r).0 ≤ n
  pub splits : (n : ℕ) (r : R) → 0 < n → contents r ≡ (read n r).0 ++ contents (read n r).1
  pub ends : (n : ℕ) (r : R) → 0 < n → length (read n r).0 ≡ 0 → contents r ≡ []

pub take_none : (n : ℕ) (xs : List ℕ) → 0 < n → length (take n xs) ≡ 0 → xs ≡ []
take_none zero xs h e = absurd (omega (arith, h))
take_none (suc n) [] h e = refl
take_none (suc n) (x ∷ xs) h e = absurd (omega (arith, e))

-- A byte slice reads as many bytes as there is room for.
abbrev pub slice_reader : Reader (List ℕ)
slice_reader = record {
  read = λ n bytes. (take n bytes, drop n bytes);
  contents = λ bytes. bytes;
  bounded = λ n bytes. omega (arith, length-take n bytes);
  splits = λ n bytes h. sym (take-drop n bytes);
  ends = take_none;
}

module _ (keccak256 : Keccak) where
  -- `page_lookup(page_index).map(Ok).unwrap_or_else(|| alloc_page(page_index))`.
  unfoldable pub lookup_or_alloc : ℕ → Memory → ℕ × Memory
  lookup_or_alloc page_index m =
      let found = page_lookup page_index m in
      elim found.0 [ some r ↦ (r, found.1) | none ↦ alloc_page keccak256 page_index found.1 ]

  -- One round of the loop: the page is invalidated in full and takes the bytes that were read.
  unfoldable pub range_round : ℕ → List ℕ → Memory → Memory
  unfolding lookup_or_alloc
  range_round address chunk m =
      let (r, m') = lookup_or_alloc (address / 2 ^ 12) m in
      let page = invalidate_full (m'.store r) in
      set_page r
        (record page { bytes = copy_at page.bytes (bit_and address page_address_mask) chunk }) m'

  -- `Memory::set_memory_range`, with fuel for the rounds: every round but the last reads a byte.
  unfoldable pub set_memory_range : {R : Type 0} → Reader R → ℕ → ℕ → R → Memory → Result Memory
  set_memory_range reader zero address source m = diverge
  set_memory_range reader (suc fuel) address source m =
      let (chunk, source') = reader.read (page_size - bit_and address page_address_mask) source in
      let m' = range_round address chunk m in
      let rest = set_memory_range reader fuel (add32 address (length chunk)) source' m' in
      if length chunk == 0 then ok m' else rest
