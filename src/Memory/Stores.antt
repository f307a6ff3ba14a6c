-- ===== src/Memory/Stores.antt =====
-- The steps of `set_memory` of crates/mipsevm/src/memory.rs, and what each leaves.
use cannon_rs.Prelude.{
  ℕ, suc, ◌+◌, ◌*◌, ◌/◌, ◌%◌, ◌^◌, ◌<◌, ◌≡◌, refl, sym, ap, Option, none, some, List, copy_at,
  copy_at_below, copy_at_above, lookup, insert, lookup-insert, update_same, subst, arith, Result,
  ◌⊎◌, ok, ◌>>=◌, bit_or,
}
use native.Mathlib.Decide.{dec_lt}
use cannon_rs.Word.Bits.{bit_and_mask, bit_or_fields}
use cannon_rs.Word.Bytes.{u32_to_be_bytes}
use cannon_rs.Hash.{Digest, Keccak}
use cannon_rs.Page.{CachedPage, default_page}
use cannon_rs.Page.Coherent
use cannon_rs.Page.Writes.{invalidated, invalidate_in_range, invalidated-IsCoherent}
use cannon_rs.Memory.{
  Memory, Slot, page_lookup, clear_branch, set_page, invalidate_page, invalidate, prepare_found,
  write_word, set_memory, alloc_page,
}
use cannon_rs.Memory.Invariant.{IsValid, insert-UniquePages, byte_at}
use cannon_rs.Memory.Coherent.{IsCoherent, digest}
use cannon_rs.Memory.Marks.{Marks, clear_branch-Marks, page_place}
use cannon_rs.Memory.Changes.{Changes, Changes-IsCoherent}
use cannon_rs.Memory.Views.{byte_at_pages, changed_view}

-- What a write of bytes at an address does: it returns, keeps the invariants, and the flat view
-- after it is the view before it with the bytes in place.
pub record Writes (keccak256 : Keccak) (a : ℕ) (ws : List ℕ) (m : Memory) (result : Result Memory)
    : Type 0 where
  pub after : Memory
  pub returns : result ≡ ok after
  pub valid : IsValid after
  pub coherent : IsCoherent keccak256 after
  pub view : byte_at after ≡ copy_at (byte_at m) a ws
  pub marks :
      (x : ℕ) → (lookup x after.nodes ≡ some none) ⊎ (lookup x after.nodes ≡ lookup x m.nodes)

module _ (keccak256 : Keccak) where
  pub set_memory_step :
      (a value : ℕ) (m : Memory)
      → a % 4 ≡ 0
      → set_memory keccak256 a value m ≡ (
          prepare_found keccak256 a (page_lookup (a / 4096) m).0 (page_lookup (a / 4096) m).1
          >>= λ (r, m'). ok (write_word a value r m'))
  set_memory_step a value m aligned = unfold set_memory in ground (arith, bit_and_mask 2 a)

  pub prepare_some :
      (a r : ℕ) (m : Memory)
      → prepare_found keccak256 a (some r) m ≡ (invalidate a m >>= λ m'. ok (r, m'))
  prepare_some a r m = unfold prepare_found in refl

  pub prepare_none :
      (a : ℕ) (m : Memory)
      → a < 2 ^ 32
      → prepare_found keccak256 a none m
        ≡ ok (
          m.next_ref,
          set_page m.next_ref
              (invalidated (a % 4096) (default_page keccak256))
              (alloc_page keccak256 (a / 4096) m).1,
        )
  prepare_none a m h =
      unfold prepare_found in
      rw (
        page_place a,
        update_same m.store m.next_ref (default_page keccak256),
        invalidate_in_range (a % 4096) (default_page keccak256) (omega arith),
      )

  pub invalidate_step :
      (a r : ℕ) (m : Memory)
      → a % 4 ≡ 0
      → (page_lookup (a / 4096) m).0 ≡ some r
      → invalidate a m ≡ invalidate_page a r (page_lookup (a / 4096) m).1
  invalidate_step a r m aligned found = unfold invalidate in rw (found, bit_and_mask 2 a, aligned)

  invalidated_bytes : (a : ℕ) (page : CachedPage) → (invalidated a page).bytes ≡ page.bytes
  unfolding invalidated
  invalidated_bytes a page = refl

  -- The page after the invalidation and the write.
  abbrev pub written_page : ℕ → ℕ → CachedPage → CachedPage
  written_page a value page = record (invalidated (a % 4096) page) {
    bytes = copy_at page.bytes (a % 4096) (u32_to_be_bytes value);
  }

  pub write_word_lem :
      (a value r : ℕ) (m : Memory) (page : CachedPage)
      → m.store r ≡ invalidated (a % 4096) page
      → write_word a value r m ≡ set_page r (written_page a value page) m
  unfolding write_word
  write_word_lem a value r m page e = rw (e, page_place a, invalidated_bytes (a % 4096) page)

  written_page-IsCoherent :
      (a value : ℕ) (page : CachedPage)
      → a % 4 ≡ 0
      → Coherent.IsCoherent keccak256 page
      → Coherent.IsCoherent keccak256 (written_page a value page)
  written_page-IsCoherent a value page aligned c =
      invalidated-IsCoherent keccak256 (a % 4096) page _ (omega arith)
        (λ j off. elim (dec_lt j (a % 4096)) [
          | yes below ↦ copy_at_below page.bytes (a % 4096) (u32_to_be_bytes value) j below
          | no ge ↦ copy_at_above page.bytes (a % 4096) (u32_to_be_bytes value) j (omega arith)
        ])
        c

  -- What the new page makes of the cache and of the view.
  pub finish :
      (a value r : ℕ) (m m' : Memory) (page : CachedPage)
      → a % 4 ≡ 0
      → Changes (a / 4096) r m m'
      → m'.store r ≡ written_page a value page
      → Coherent.IsCoherent keccak256 page
      → ((k : ℕ) → k < 4096 → page.bytes k ≡ byte_at m (a / 4096 * 4096 + k))
      → IsCoherent keccak256 m
      → IsCoherent keccak256 m' × (byte_at m' ≡ copy_at (byte_at m) a (u32_to_be_bytes value))
  finish a value r m m' page aligned changes wrote page_coherent was c = (
    Changes-IsCoherent keccak256 (a / 4096) r m m' changes
        (rw wrote (written_page-IsCoherent a value page aligned page_coherent)) c,
    changed_view a r (u32_to_be_bytes value) m m' page.bytes changes.change (omega arith)
        (ap (λ (p : CachedPage). p.bytes) wrote) was,
  )

  pub slots-IsCoherent :
      (m : Memory) (s0 s1 : Slot)
      → IsCoherent keccak256 m
      → IsCoherent keccak256 (record m { last_page_0 = s0; last_page_1 = s1 })
  slots-IsCoherent m s0 s1 c = record {
    page = c.page;
    cached = λ k d g h level at e. slots_digest (suc k + 7) g (c.cached k d g h level at e);
    hashed = c.hashed;
    absent = c.absent;
  }
    where
      view : byte_at (record m { last_page_0 = s0; last_page_1 = s1 }) ≡ byte_at m
      view = byte_at_pages m (record m { last_page_0 = s0; last_page_1 = s1 }) refl refl

      slots_digest :
          {h : Digest} (j g : ℕ)
          → h ≡ digest keccak256 m j g
          → h ≡ digest keccak256 (record m { last_page_0 = s0; last_page_1 = s1 }) j g
      slots_digest j g e = rw view e

  pub alloc-IsValid :
      (m : Memory) (i : ℕ) (nodes : List (ℕ × Option Digest)) (store : ℕ → CachedPage)
      → i < 2 ^ 20
      → lookup i m.pages ≡ none
      → IsValid m
      → IsValid (record m {
        nodes = nodes;
        store = store;
        pages = insert i m.next_ref m.pages;
        next_ref = suc m.next_ref;
      })
  alloc-IsValid m i nodes store h absent v = record {
    unique = insert-UniquePages i m.next_ref m.pages v.unique;
    index_bounded =
        λ j r e. ground (arith, lookup-insert i j m.next_ref m.pages, v.index_bounded j r);
    refs_bounded =
        λ j r e. ground (arith, lookup-insert i j m.next_ref m.pages, v.refs_bounded j r);
    refs_distinct = λ j k r e f. ground (
      arith,
      lookup-insert i j m.next_ref m.pages,
      lookup-insert i k m.next_ref m.pages,
      v.refs_bounded j r,
      v.refs_bounded k r,
      v.refs_distinct j k r,
    );
    slot_0 = λ r e. kept m.last_page_0.key r (v.slot_0 r e);
    slot_1 = λ r e. kept m.last_page_1.key r (v.slot_1 r e);
  }
    where
      kept : (k r : ℕ) → lookup k m.pages ≡ some r → lookup k (insert i m.next_ref m.pages) ≡ some r
      kept k r e = ground (arith, lookup-insert i k m.next_ref m.pages)

  pub alloc-Marks :
      (a : ℕ) (m : Memory)
      → a < 2 ^ 32
      → Marks (a / 4096) m.nodes (alloc_page keccak256 (a / 4096) m).1.nodes
  unfolding alloc_page
  alloc-Marks a m h =
      let e : 2 ^ 20 + a / 4096 ≡ bit_or (2 ^ 20) (a / 4096) =
        sym (bit_or_fields 20 1 (a / 4096) (omega arith)) in
      subst (λ (t : ℕ). Marks (a / 4096) m.nodes (clear_branch 64 t m.nodes)) e
        (clear_branch-Marks (a / 4096) m)

  pub default_bytes : (k : ℕ) → (default_page keccak256).bytes k ≡ 0
  unfolding default_page
  default_bytes k = refl
