-- ===== src/Memory/Fills.antt =====
-- `set_memory_range` of crates/mipsevm/src/memory.rs against the flat view: the bytes are written,
-- across pages and into pages that did not exist.
use cannon_rs.Prelude.{
  ℕ, zero, suc, ◌+◌, ◌-◌, ◌*◌, ◌/◌, ◌%◌, ◌^◌, ◌<◌, ◌≤◌, ◌≡◌, ◌≢◌, refl, sym, ap, subst, ◌∙◌,
  fun_ext, inl, inr, ◌⊎◌, true, false, ◌==◌, if◌then◌else◌, Option, none, some, Option-cases,
  Bool-cases, List, [], ◌∷◌, ◌++◌, length, append-nil, length-append, lookup, lookup-insert_same,
  lookup-insert_other, update_same, update_other, update_twice, copy_at, copy_at-append, ok, arith,
  ==_iff,
}
use cannon_rs.Word.{add32}
use cannon_rs.Hash.{Keccak}
use cannon_rs.Page.{CachedPage, invalidate_full, default_page}
use cannon_rs.Memory.{Memory, page_lookup, alloc_page, set_page}
use cannon_rs.Memory.Range.{Reader, lookup_or_alloc, range_round, set_memory_range}
use cannon_rs.Memory.Invariant.{IsValid, LooksUp, page_lookup-LooksUp, byte_at}
use cannon_rs.Memory.Marks.{page_place}
use cannon_rs.Memory.Views.{view_page, view_absent, page_start, changed_view}
use cannon_rs.Memory.Merkleize.Pages.{IsValid-same}
use cannon_rs.Memory.Stores.{alloc-IsValid, default_bytes}

-- Bytes were written to the flat view of a valid memory.
pub record Fills (a : ℕ) (ws : List ℕ) (m m' : Memory) : Type 0 where
  pub valid : IsValid m'
  pub view : byte_at m' ≡ copy_at (byte_at m) a ws

-- The page after a round.
abbrev pub filled_page : ℕ → List ℕ → CachedPage → CachedPage
filled_page a ws page = record (invalidate_full page) { bytes = copy_at page.bytes (a % 4096) ws }

no_bytes : (xs : List ℕ) → length xs ≡ 0 → xs ≡ []
no_bytes [] h = refl
no_bytes (x ∷ xs) h = absurd (omega (arith, h))

some_bytes : (xs : List ℕ) → xs ≢ [] → 0 < length xs
some_bytes [] h = absurd (h refl)
some_bytes (x ∷ xs) h = omega arith

module _ (keccak256 : Keccak) where
  located_at : ℕ → Option ℕ × Memory → ℕ × Memory
  located_at i found = elim found.0 [
    | some r ↦ (r, found.1)
    | none ↦ alloc_page keccak256 i found.1
  ]

  pub locate_found :
      (i r : ℕ) (m m1 : Memory)
      → page_lookup i m ≡ (some r, m1)
      → lookup_or_alloc keccak256 i m ≡ (r, m1)
  unfolding lookup_or_alloc located_at
  locate_found i r m m1 e = ap (located_at i) e

  pub locate_absent :
      (i : ℕ) (m m1 : Memory)
      → page_lookup i m ≡ (none, m1)
      → lookup_or_alloc keccak256 i m ≡ alloc_page keccak256 i m1
  unfolding lookup_or_alloc located_at
  locate_absent i m m1 e = ap (located_at i) e

  pub round_step :
      (a r : ℕ) (ws : List ℕ) (m m' : Memory) (page : CachedPage)
      → lookup_or_alloc keccak256 (a / 4096) m ≡ (r, m')
      → m'.store r ≡ page
      → range_round keccak256 a ws m ≡ set_page r (filled_page a ws page) m'
  unfolding range_round invalidate_full
  round_step a r ws m m' page e h = rw (e, page_place a, h) refl

  found-Fills :
      (a r : ℕ) (ws : List ℕ) (m : Memory)
      → a % 4096 + length ws ≤ 4096
      → IsValid m
      → lookup (a / 4096) m.pages ≡ some r
      → Fills a ws m (range_round keccak256 a ws m)
  found-Fills a r ws m fits v found = rw (round_step a r ws m m1 (m.store r) located refl) (record {
    valid = IsValid-same m1 m1.nodes _ first.valid;
    view =
        changed_view a r ws m (set_page r (filled_page a ws (m.store r)) m1) (m.store r).bytes
          (record {
            there = found;
            other_pages = λ j off. refl;
            unshared = λ j off e. off (v.refs_distinct j (a / 4096) r e found);
            other_refs = λ r' off. update_other m.store r r' (filled_page a ws (m.store r)) off;
          })
          fits
          (ap (λ (p : CachedPage). p.bytes) (update_same m.store r (filled_page a ws (m.store r))))
          (λ k small. sym (
            view_page m (a / 4096 * 4096 + k) r k (m.store r)
              (rw (page_start (a / 4096) k small) found) refl (omega arith)));
  })
    where
      first : LooksUp (a / 4096) m
      first = page_lookup-LooksUp (a / 4096) m v

      m1 : Memory
      m1 = record m { last_page_0 = first.slot_0; last_page_1 = first.slot_1 }

      located : lookup_or_alloc keccak256 (a / 4096) m ≡ (r, m1)
      located = locate_found (a / 4096) r m m1 (first.returns ∙ ap (λ o. (o, m1)) found)

  absent-Fills :
      (a : ℕ) (ws : List ℕ) (m : Memory)
      → a < 2 ^ 32
      → a % 4096 + length ws ≤ 4096
      → IsValid m
      → lookup (a / 4096) m.pages ≡ none
      → Fills a ws m (range_round keccak256 a ws m)
  unfolding alloc_page
  absent-Fills a ws m h fits v absent =
      rw
        (round_step a m.next_ref ws m allocated (default_page keccak256) located
          (update_same m.store m.next_ref (default_page keccak256)))
        (record {
          valid =
              alloc-IsValid keccak256 m1 (a / 4096) allocated.nodes _ (omega arith) absent
                first.valid;
          view =
              changed_view a m.next_ref ws m
                (set_page m.next_ref (filled_page a ws (default_page keccak256)) allocated)
                (default_page keccak256).bytes
                (record {
                  there = lookup-insert_same (a / 4096) m.next_ref m.pages;
                  other_pages = λ j off. lookup-insert_other (a / 4096) j m.next_ref m.pages off;
                  unshared = λ j off e. absurd (omega (arith, v.refs_bounded j m.next_ref e));
                  other_refs = λ r' off.
                      update_twice m.store m.next_ref r' (default_page keccak256)
                        (filled_page a ws (default_page keccak256)) off;
                })
                fits
                (ap (λ (p : CachedPage). p.bytes)
                  (update_same allocated.store m.next_ref
                    (filled_page a ws (default_page keccak256))))
                (λ k small.
                  default_bytes keccak256 k
                  ∙ sym (
                      view_absent m (a / 4096 * 4096 + k)
                        (rw (page_start (a / 4096) k small) absent)));
        })
    where
      first : LooksUp (a / 4096) m
      first = page_lookup-LooksUp (a / 4096) m v

      m1 : Memory
      m1 = record m { last_page_0 = first.slot_0; last_page_1 = first.slot_1 }

      allocated : Memory
      allocated = (alloc_page keccak256 (a / 4096) m1).1

      located : lookup_or_alloc keccak256 (a / 4096) m ≡ (m.next_ref, allocated)
      located = locate_absent (a / 4096) m m1 (first.returns ∙ ap (λ o. (o, m1)) absent)

  pub range_round-Fills :
      (a : ℕ) (ws : List ℕ) (m : Memory)
      → a < 2 ^ 32
      → a % 4096 + length ws ≤ 4096
      → IsValid m
      → Fills a ws m (range_round keccak256 a ws m)
  range_round-Fills a ws m h fits v = elim (Option-cases (lookup (a / 4096) m.pages)) [
    | inl absent ↦ absent-Fills a ws m h fits v absent
    | inr (r, found) ↦ found-Fills a r ws m fits v found
  ]

  -- Two writes, where the second starts at the end of the first, modulo 2 ^ 32.
  Fills-append :
      (a b : ℕ) (ws rest : List ℕ) (m m1 m2 : Memory)
      → (rest ≢ [] → b ≡ a + length ws)
      → Fills a ws m m1
      → Fills b rest m1 m2
      → Fills a (ws ++ rest) m m2
  unfolding copy_at
  Fills-append a b ws [] m m1 m2 place one two = record {
    valid = two.valid;
    view = two.view ∙ one.view ∙ ap (copy_at (byte_at m) a) (sym (append-nil ws));
  }
  Fills-append a b ws (x ∷ rest) m m1 m2 place one two = record {
    valid = two.valid;
    view =
        two.view
        ∙ ap (λ (f : ℕ → ℕ). copy_at f b (x ∷ rest)) one.view
        ∙ ap (λ (n : ℕ). copy_at (copy_at (byte_at m) a ws) n (x ∷ rest)) (place λ e. absurd (cc e))
        ∙ fun_ext (copy_at-append (byte_at m) a ws (x ∷ rest));
  }

  -- A range write with fuel for a round more than there are bytes, of bytes that end at 2 ^ 32 at the
  -- latest, succeeds on a valid memory, whatever pieces the reader gives: the memory after it is
  -- valid, and its flat view is the one before with all the bytes in place.
  pub set_memory_range-Fills :
      {R : Type 0} (reader : Reader R) (fuel a : ℕ) (source : R) (m : Memory)
      → length (reader.contents source) < fuel
      → a < 2 ^ 32
      → a + length (reader.contents source) ≤ 2 ^ 32
      → IsValid m
      → (m' : Memory) × (set_memory_range keccak256 reader fuel a source m ≡ ok m')
        × Fills a (reader.contents source) m m'
  unfolding set_memory_range
  set_memory_range-Fills reader zero a source m enough h fits v = absurd (omega (arith, enough))
  set_memory_range-Fills {R = R} reader (suc fuel) a source m enough h fits v = rw (page_place a) (
      filled (λ b rest m' p q r v'. set_memory_range-Fills reader fuel b rest m' p q r v')
        (Bool-cases (length chunk == 0)))
    where
      room : ℕ
      room = 4096 - a % 4096

      some_room : 0 < room
      some_room = omega arith

      chunk : List ℕ
      chunk = (reader.read room source).0

      left : R
      left = (reader.read room source).1

      m1 : Memory
      m1 = range_round keccak256 a chunk m

      one : Fills a chunk m m1
      one = range_round-Fills a chunk m h (omega (arith, reader.bounded room source)) v

      split : reader.contents source ≡ chunk ++ reader.contents left
      split = reader.splits room source some_room

      parts : length (reader.contents source) ≡ length chunk + length (reader.contents left)
      parts = ap length split ∙ length-append chunk (reader.contents left)

      filled :
          ((b : ℕ) (rest : R) (m' : Memory)
            → length (reader.contents rest) < fuel
            → b < 2 ^ 32
            → b + length (reader.contents rest) ≤ 2 ^ 32
            → IsValid m'
            → (m'' : Memory) × (set_memory_range keccak256 reader fuel b rest m' ≡ ok m'')
              × Fills b (reader.contents rest) m' m'')
          → (length chunk == 0 ≡ true) ⊎ (length chunk == 0 ≡ false)
          → (m' : Memory) × ((if length chunk == 0
                then ok m1
                else set_memory_range keccak256 reader fuel (add32 a (length chunk)) left m1)
              ≡ ok m')
            × Fills a (reader.contents source) m m'
      filled again (inl none_left) =
          let empty : length chunk ≡ 0 = (==_iff (length chunk) 0).0 none_left in
          let all : reader.contents source ≡ [] = reader.ends room source some_room empty in
          (
            m1,
            rw none_left refl,
            subst (λ bs. Fills a bs m m1) (no_bytes chunk empty ∙ sym all) one,
          )
      filled again (inr some_left) =
          let more : length chunk ≢ 0 = ground arith in
          let b = add32 a (length chunk) in
          let (m', returns, rest) =
            again b left m1 (omega (arith, parts)) (omega arith) (omega (arith, parts)) one.valid in
          (
            m',
            rw some_left returns,
            subst (λ bs. Fills a bs m m') (sym split)
                (Fills-append a b chunk (reader.contents left) m m1 m'
                  (λ e. omega (arith, some_bytes (reader.contents left) e, parts)) one rest),
          )
