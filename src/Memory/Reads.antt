-- ===== src/Memory/Reads.antt =====
-- `get_memory` of crates/mipsevm/src/memory.rs against the flat view of memory.
use cannon_rs.Prelude.{
  ℕ, ◌+◌, ◌/◌, ◌%◌, ◌<◌, ◌≡◌, ◌≢◌, refl, ap, sym, ◌∙◌, inl, inr, none, some, Option-cases, slice,
  slice_ext, lookup, arith, ok, err, unaligned_access,
}
use cannon_rs.Word.Bits.{bit_and_mask}
use cannon_rs.Word.Bytes.{from_be_bytes, from_be}
use cannon_rs.Memory.{Slot, Memory, page_lookup, read_word, get_memory}
use cannon_rs.Memory.Invariant.{IsValid, page_byte, byte_at, page_lookup-LooksUp}

-- Within a page the flat view is the page.
pub byte_at-page :
    (m : Memory) (a k r : ℕ)
    → lookup (a / 4096) m.pages ≡ some r
    → a % 4096 + k < 4096
    → byte_at m (a + k) ≡ (m.store r).bytes (a % 4096 + k)
unfolding byte_at page_byte
byte_at-page m a k r found fits =
    let e : (a + k) / 4096 ≡ a / 4096 = omega arith in
    let e' : (a + k) % 4096 ≡ a % 4096 + k = omega arith in rw (e, e', found)

pub byte_at-absent :
    (m : Memory) (a k : ℕ)
    → lookup (a / 4096) m.pages ≡ none
    → a % 4096 + k < 4096
    → byte_at m (a + k) ≡ 0
unfolding byte_at page_byte
byte_at-absent m a k absent fits = let e : (a + k) / 4096 ≡ a / 4096 = omega arith in rw (e, absent)

word_of_page :
    (m : Memory) (a r : ℕ)
    → a % 4 ≡ 0
    → lookup (a / 4096) m.pages ≡ some r
    → slice (m.store r).bytes (a % 4096) 4 ≡ slice (byte_at m) a 4
word_of_page m a r aligned found =
    slice_ext (m.store r).bytes (byte_at m) (a % 4096) a 4
      λ k h. sym (byte_at-page m a k r found (omega arith))

word_absent :
    (m : Memory) (a : ℕ)
    → a % 4 ≡ 0
    → lookup (a / 4096) m.pages ≡ none
    → from_be_bytes (slice (byte_at m) a 4) ≡ 0
word_absent m a aligned absent =
    ap from_be_bytes
      (slice_ext (byte_at m) (λ _. 0) a 0 4 λ k h. byte_at-absent m a k absent (omega arith))
    ∙ zeros
  where
    zeros : from_be_bytes (slice (λ _. 0) 0 4) ≡ 0
    zeros = unfold from_be in refl

-- What an aligned read does: it returns the big-endian word of the flat view, and moves nothing but
-- the cache slots.
pub record Reads (a : ℕ) (m : Memory) : Type 0 where
  pub slot_0 : Slot
  pub slot_1 : Slot
  pub returns :
      get_memory a m
      ≡ ok (
        from_be_bytes (slice (byte_at m) a 4),
        record m { last_page_0 = slot_0; last_page_1 = slot_1 },
      )
  pub valid : IsValid (record m { last_page_0 = slot_0; last_page_1 = slot_1 })

get_memory_step :
    (a : ℕ) (m : Memory)
    → a % 4 ≡ 0
    → get_memory a m ≡ read_word a (page_lookup (a / 4096) m).0 (page_lookup (a / 4096) m).1
get_memory_step a m aligned = unfold get_memory in ground (arith, bit_and_mask 2 a)

read_word_page :
    (a r : ℕ) (m : Memory)
    → read_word a (some r) m ≡ ok (from_be_bytes (slice (m.store r).bytes (a % 4096) 4), m)
unfolding read_word
read_word_page a r m =
    ap (λ k. ok (from_be_bytes (slice (m.store r).bytes k 4), m)) (bit_and_mask 12 a)

-- `get_memory` at an aligned address of a valid memory succeeds and returns the big-endian word of the
-- flat view, zero where there is no page. Only the two cache slots change, and the memory stays
-- valid.
pub get_memory-Reads : (a : ℕ) (m : Memory) → a % 4 ≡ 0 → IsValid m → Reads a m
get_memory-Reads a m aligned v =
    let looked = page_lookup-LooksUp (a / 4096) m v in
    elim (Option-cases (lookup (a / 4096) m.pages)) [
      | inl absent ↦ record {
        slot_0 = looked.slot_0;
        slot_1 = looked.slot_1;
        returns =
            get_memory_step a m aligned
            ∙ rw (looked.returns, absent, word_absent m a aligned absent)
                (unfold read_word in refl);
        valid = looked.valid;
      }
      | inr (r, found) ↦ record {
        slot_0 = looked.slot_0;
        slot_1 = looked.slot_1;
        returns =
            get_memory_step a m aligned
            ∙ rw (looked.returns, found, read_word_page a r _, word_of_page m a r aligned found);
        valid = looked.valid;
      }
    ]

-- A read that is not aligned is an error.
pub get_memory_unaligned :
    (a : ℕ) (m : Memory) → a % 4 ≢ 0 → get_memory a m ≡ err (unaligned_access a)
unfolding get_memory
get_memory_unaligned a m h = ground (arith, bit_and_mask 2 a)
