-- ===== src/Memory/Invariant.antt =====
-- The invariant of the shared pages of crates/mipsevm/src/memory.rs, the flat view of memory, and
-- what a page lookup does.
use cannon_rs.Prelude.{
  ℕ, ◌*◌, ◌/◌, ◌%◌, ◌^◌, ◌<◌, ◌≡◌, inl, inr, Option, none, some, Option-cases, slice, lookup,
  insert, lookup-insert, lookup-nil, List, [], ◌∷◌, arith,
}
use cannon_rs.Hash.{Digest}
use cannon_rs.Memory.{Slot, Memory, page_lookup, find_slot}

-- No key has two entries.
abbrev pub UniquePages : List (ℕ × ℕ) → Type 0
UniquePages [] = Unit
UniquePages ((k, r) ∷ pages) = (lookup k pages ≡ none) × UniquePages pages

pub insert-UniquePages :
    (k r : ℕ) (pages : List (ℕ × ℕ)) → UniquePages pages → UniquePages (insert k r pages)
unfolding insert
insert-UniquePages k r [] u = (lookup-nil {V = ℕ} k, tt)
insert-UniquePages k r ((j, s) ∷ pages) u =
    ground (arith, insert-UniquePages k r pages, lookup-insert k j r pages)

-- Every page in the map has its own reference below the next one, and a cache slot that holds a
-- page holds the page that the map has for its key.
pub record IsValid (m : Memory) : Type 0 where
  pub unique : UniquePages m.pages
  pub index_bounded : (i r : ℕ) → lookup i m.pages ≡ some r → i < 2 ^ 20
  pub refs_bounded : (i r : ℕ) → lookup i m.pages ≡ some r → r < m.next_ref
  pub refs_distinct : (i j r : ℕ) → lookup i m.pages ≡ some r → lookup j m.pages ≡ some r → i ≡ j
  pub slot_0 : (r : ℕ) → m.last_page_0.page ≡ some r → lookup m.last_page_0.key m.pages ≡ some r
  pub slot_1 : (r : ℕ) → m.last_page_1.page ≡ some r → lookup m.last_page_1.key m.pages ≡ some r

-- A byte of a page; where there is no page memory reads as zero.
unfoldable pub page_byte : Memory → Option ℕ → ℕ → ℕ
page_byte m none k = 0
page_byte m (some r) k = (m.store r).bytes k

-- The byte at an address.
unfoldable pub byte_at : Memory → ℕ → ℕ
byte_at m a = page_byte m (lookup (a / 4096) m.pages) (a % 4096)

-- The 32 bytes under a leaf of the tree over all of memory.
unfoldable pub memory_leaf : (ℕ → ℕ) → ℕ → Digest
memory_leaf bytes g = slice bytes (g % 2 ^ 27 * 32) 32

-- What `page_lookup` does: it returns what the map has, and moves nothing but the cache slots.
pub record LooksUp (i : ℕ) (m : Memory) : Type 0 where
  pub slot_0 : Slot
  pub slot_1 : Slot
  pub returns :
      page_lookup i m ≡ (lookup i m.pages, record m { last_page_0 = slot_0; last_page_1 = slot_1 })
  pub valid : IsValid (record m { last_page_0 = slot_0; last_page_1 = slot_1 })

find_slot_sound :
    (i r : ℕ) (m : Memory)
    → IsValid m
    → find_slot i m.last_page_0 m.last_page_1 ≡ some r
    → lookup i m.pages ≡ some r
unfolding find_slot
find_slot_sound i r m v h = ground (arith, v.slot_0 r, v.slot_1 r)

pub page_lookup-LooksUp : (i : ℕ) (m : Memory) → IsValid m → LooksUp i m
page_lookup-LooksUp i m v = elim (Option-cases (find_slot i m.last_page_0 m.last_page_1)) [
  | inr (r, hit) ↦ record {
    slot_0 = m.last_page_0;
    slot_1 = m.last_page_1;
    returns = unfold page_lookup in rw (hit, find_slot_sound i r m v hit, page_lookup);
    valid = v;
  }
  | inl miss ↦ elim (Option-cases (lookup i m.pages)) [
    | inl absent ↦ record {
      slot_0 = m.last_page_0;
      slot_1 = m.last_page_1;
      returns = unfold page_lookup in rw (miss, absent, page_lookup);
      valid = v;
    }
    | inr (r, found) ↦ record {
      slot_0 = record { key = i; page = some r };
      slot_1 = m.last_page_0;
      returns = unfold page_lookup in rw (miss, found, page_lookup);
      valid = record {
        unique = v.unique;
        index_bounded = v.index_bounded;
        refs_bounded = v.refs_bounded;
        refs_distinct = v.refs_distinct;
        slot_0 = λ r' e. ground arith;
        slot_1 = v.slot_0;
      };
    }
  ]
]
