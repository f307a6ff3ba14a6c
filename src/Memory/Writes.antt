-- ===== src/Memory/Writes.antt =====
-- `set_memory` of crates/mipsevm/src/memory.rs against the flat view of memory and the node cache.
use cannon_rs.Prelude.{
  ℕ, ◌+◌, ◌*◌, ◌/◌, ◌%◌, ◌^◌, ◌<◌, ◌≡◌, ◌≢◌, refl, sym, ◌∙◌, inl, inr, none, some, Option-cases,
  copy_at, lookup, update, update_same, update_other, update_twice, lookup-insert_same,
  lookup-insert_other, arith, err, unaligned_access,
}
use cannon_rs.Word.Bits.{bit_and_mask}
use cannon_rs.Word.Bytes.{u32_to_be_bytes}
use cannon_rs.Hash.{Keccak}
use cannon_rs.Page.{default_page}
use cannon_rs.Page.Writes.{invalidated}
use cannon_rs.Page.Default.{default_page-IsCoherent}
use cannon_rs.Memory.{Memory, set_page, invalidate_page, set_memory, alloc_page}
use cannon_rs.Memory.Invariant.{IsValid, LooksUp, page_lookup-LooksUp, byte_at}
use cannon_rs.Memory.Coherent.{IsCoherent}
use cannon_rs.Memory.Marks.{Marks, Invalidates, invalidate_page-Invalidates}
use cannon_rs.Memory.Merkleize.Pages.{IsValid-same}
use cannon_rs.Memory.Changes.{Changes}
use cannon_rs.Memory.Views.{view_page, view_absent, page_start}
use cannon_rs.Memory.Stores.{
  Writes, set_memory_step, prepare_some, prepare_none, invalidate_step, write_word_lem,
  written_page, finish, slots-IsCoherent, alloc-IsValid, alloc-Marks, default_bytes,
}

module _ (keccak256 : Keccak) where
  -- A write to a page that exists.
  found-Writes :
      (a value r : ℕ) (m : Memory)
      → a % 4 ≡ 0
      → a < 2 ^ 32
      → IsValid m
      → IsCoherent keccak256 m
      → lookup (a / 4096) m.pages ≡ some r
      → Writes keccak256 a (u32_to_be_bytes value) m (set_memory keccak256 a value m)
  found-Writes a value r m aligned h v c found = record {
    after = m3;
    returns =
        set_memory_step keccak256 a value m aligned
        ∙ rw (first.returns, found, prepare_some keccak256 a r m1)
            (rw (
              invalidate_step keccak256 a r m1 aligned (rw (second.returns) found),
              second.returns,
              inv.returns,
              write_word_lem keccak256 a value r invalidated_memory (m.store r)
                  (update_same m.store r _),
            ));
    valid = IsValid-same m2 m3.nodes m3.store second.valid;
    coherent = finished.0;
    view = finished.1;
    marks = changes.marks;
  }
    where
      first : LooksUp (a / 4096) m
      first = page_lookup-LooksUp (a / 4096) m v

      m1 : Memory
      m1 = record m { last_page_0 = first.slot_0; last_page_1 = first.slot_1 }

      second : LooksUp (a / 4096) m1
      second = page_lookup-LooksUp (a / 4096) m1 first.valid

      m2 : Memory
      m2 = record m { last_page_0 = second.slot_0; last_page_1 = second.slot_1 }

      inv : Invalidates keccak256 a r m2 (invalidate_page a r m2)
      inv =
          invalidate_page-Invalidates keccak256 a r m2 h
            (slots-IsCoherent keccak256 m second.slot_0 second.slot_1 c) found

      invalidated_memory : Memory
      invalidated_memory = record m2 {
        nodes = inv.nodes;
        store = update m.store r (invalidated (a % 4096) (m.store r));
      }

      m3 : Memory
      m3 = set_page r (written_page keccak256 a value (m.store r)) invalidated_memory

      changes : Changes (a / 4096) r m m3
      changes = record {
        change = record {
          there = found;
          other_pages = λ j off. refl;
          unshared = λ j off e. off (v.refs_distinct j (a / 4096) r e found);
          other_refs = λ r' off.
              update_twice m.store r r' (invalidated (a % 4096) (m.store r))
                (written_page keccak256 a value (m.store r)) off;
        };
        marks = inv.marks.marks;
        marked = inv.marks.marked;
      }

      finished :
          IsCoherent keccak256 m3 × (byte_at m3 ≡ copy_at (byte_at m) a (u32_to_be_bytes value))
      finished =
          finish keccak256 a value r m m3 (m.store r) aligned changes
            (update_same invalidated_memory.store r (written_page keccak256 a value (m.store r)))
            (c.page (a / 4096) r found)
            (λ k small. sym (
              view_page m (a / 4096 * 4096 + k) r k (m.store r)
                (rw (page_start (a / 4096) k small) found) refl (omega arith)))
            c

  -- A write that allocates the page.
  absent-Writes :
      (a value : ℕ) (m : Memory)
      → a % 4 ≡ 0
      → a < 2 ^ 32
      → IsValid m
      → IsCoherent keccak256 m
      → lookup (a / 4096) m.pages ≡ none
      → Writes keccak256 a (u32_to_be_bytes value) m (set_memory keccak256 a value m)
  unfolding alloc_page
  absent-Writes a value m aligned h v c absent = record {
    after = m3;
    returns =
        set_memory_step keccak256 a value m aligned
        ∙ rw (
          first.returns,
          absent,
          prepare_none keccak256 a m1 h,
          write_word_lem keccak256 a value m.next_ref prepared (default_page keccak256) (
              update_same allocated.store m.next_ref
                (invalidated (a % 4096) (default_page keccak256))),
        );
    valid =
        alloc-IsValid keccak256 m1 (a / 4096) m3.nodes m3.store (omega arith) absent first.valid;
    coherent = finished.0;
    view = finished.1;
    marks = changes.marks;
  }
    where
      first : LooksUp (a / 4096) m
      first = page_lookup-LooksUp (a / 4096) m v

      m1 : Memory
      m1 = record m { last_page_0 = first.slot_0; last_page_1 = first.slot_1 }

      allocated : Memory
      allocated = (alloc_page keccak256 (a / 4096) m1).1

      prepared : Memory
      prepared = set_page m.next_ref (invalidated (a % 4096) (default_page keccak256)) allocated

      m3 : Memory
      m3 = set_page m.next_ref (written_page keccak256 a value (default_page keccak256)) prepared

      marks : Marks (a / 4096) m.nodes m3.nodes
      marks = alloc-Marks keccak256 a m1 h

      fresh : (j : ℕ) → lookup j m.pages ≢ some m.next_ref
      fresh j e = absurd (omega (arith, v.refs_bounded j m.next_ref e))

      changes : Changes (a / 4096) m.next_ref m m3
      changes = record {
        change = record {
          there = lookup-insert_same (a / 4096) m.next_ref m.pages;
          other_pages = λ j off. lookup-insert_other (a / 4096) j m.next_ref m.pages off;
          unshared = λ j off. fresh j;
          other_refs = λ r' off.
              update_twice allocated.store m.next_ref r'
                (invalidated (a % 4096) (default_page keccak256))
                (written_page keccak256 a value (default_page keccak256)) off
              ∙ update_other m.store m.next_ref r' (default_page keccak256) off;
        };
        marks = marks.marks;
        marked = marks.marked;
      }

      finished :
          IsCoherent keccak256 m3 × (byte_at m3 ≡ copy_at (byte_at m) a (u32_to_be_bytes value))
      finished =
          finish keccak256 a value m.next_ref m m3 (default_page keccak256) aligned changes
            (update_same prepared.store m.next_ref
              (written_page keccak256 a value (default_page keccak256)))
            (default_page-IsCoherent keccak256)
            (λ k small.
              default_bytes keccak256 k
              ∙ sym
                  (view_absent m (a / 4096 * 4096 + k) (rw (page_start (a / 4096) k small) absent)))
            c

  -- `set_memory` at an aligned address below 2 ^ 32 of a valid and coherent memory succeeds. The
  -- memory after it is valid and coherent, and its flat view is the one before with the four
  -- big-endian bytes of the value at the address.
  pub set_memory-Writes :
      (a value : ℕ) (m : Memory)
      → a % 4 ≡ 0
      → a < 2 ^ 32
      → IsValid m
      → IsCoherent keccak256 m
      → Writes keccak256 a (u32_to_be_bytes value) m (set_memory keccak256 a value m)
  set_memory-Writes a value m aligned h v c = elim (Option-cases (lookup (a / 4096) m.pages)) [
    | inl absent ↦ absent-Writes a value m aligned h v c absent
    | inr (r, found) ↦ found-Writes a value r m aligned h v c found
  ]

  -- A write that is not aligned is an error.
  pub set_memory_unaligned :
      (a value : ℕ) (m : Memory)
      → a % 4 ≢ 0
      → set_memory keccak256 a value m ≡ err (unaligned_access a)
  unfolding set_memory
  set_memory_unaligned a value m h = ground (arith, bit_and_mask 2 a)
