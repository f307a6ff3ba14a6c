-- ===== src/Memory/Slices.antt =====
-- `MemoryReader` of crates/mipsevm/src/memory.rs against the flat view: reading to the end gives the
-- bytes of the range.
use cannon_rs.Prelude.{
  ℕ, zero, suc, ◌+◌, ◌-◌, ◌/◌, ◌%◌, ◌^◌, ◌<◌, ◌≤◌, ◌≡◌, refl, sym, ap, subst, ◌∙◌, inl, inr, false,
  ltb, ◌==◌, Option, none, some, Option-cases, [], ◌++◌, length, slice, slice_ext, slice_const,
  slice-append, length-slice, lookup, replicate, ok, arith,
}
use native.Mathlib.Decide.{ℕ_discrete}
use cannon_rs.Word.{add32, sub32}
use cannon_rs.Word.Bits.{bit_and_mask}
use cannon_rs.Page.{CachedPage}
use cannon_rs.Memory.{Memory, Slot, page_lookup}
use cannon_rs.Memory.Reader.{MemoryReader, read_end, page_bytes, read, read_to_end}
use cannon_rs.Memory.Invariant.{IsValid, LooksUp, page_lookup-LooksUp, byte_at}
use cannon_rs.Memory.Marks.{page_place}
use cannon_rs.Memory.Views.{view_page, view_absent, byte_at_pages}

-- The bytes of a page are those of the view.
pub page_bytes_lem :
    (m m1 : Memory) (a n : ℕ)
    → m1.store ≡ m.store
    → a % 4096 + n ≤ 4096
    → page_bytes m1 (lookup (a / 4096) m.pages) (a % 4096) n ≡ slice (byte_at m) a n
page_bytes_lem m m1 a n same fits = elim (Option-cases (lookup (a / 4096) m.pages)) [
  | inl absent ↦ ap (λ o. page_bytes m1 o (a % 4096) n) absent ∙ (unfold page_bytes in blank absent)
  | inr (r, found) ↦
      ap (λ o. page_bytes m1 o (a % 4096) n) found ∙ (unfold page_bytes in filled r found)
]
  where
    here : (k : ℕ) → k < n → (a + k) / 4096 ≡ a / 4096
    here k small = omega arith

    blank : lookup (a / 4096) m.pages ≡ none → replicate n 0 ≡ slice (byte_at m) a n
    blank absent =
        sym (slice_const 0 a n)
        ∙ slice_ext (λ _. 0) (byte_at m) a a n
            λ k small. sym (view_absent m (a + k) (rw (here k small) absent))

    filled :
        (r : ℕ)
        → lookup (a / 4096) m.pages ≡ some r
        → slice (m1.store r).bytes (a % 4096) n ≡ slice (byte_at m) a n
    filled r found = slice_ext (m1.store r).bytes (byte_at m) (a % 4096) a n λ k small.
        ap (λ (s : ℕ → CachedPage). (s r).bytes (a % 4096 + k)) same
        ∙ sym (
            view_page m (a + k) r (a % 4096 + k) (m.store r) (rw (here k small) found) refl
              (omega arith))

-- One read: at least one byte, if any is left, and no more than are left.
record Slices (r : MemoryReader) : Type 0 where
  pub count : ℕ
  pub slot_0 : Slot
  pub slot_1 : Slot
  pub some_read : 0 < count
  pub few_read : count ≤ r.count
  pub returns :
      read r
      ≡ ok (
        slice (byte_at r.memory) r.address count,
        record {
          memory = record (r.memory) { last_page_0 = slot_0; last_page_1 = slot_1 };
          address = r.address + count;
          count = r.count - count;
        },
      )
  pub valid : IsValid (record (r.memory) { last_page_0 = slot_0; last_page_1 = slot_1 })
  pub same_view :
      byte_at (record (r.memory) { last_page_0 = slot_0; last_page_1 = slot_1 }) ≡ byte_at r.memory

-- The end of the read in the page.
read_end_lem :
    (r : MemoryReader)
    → 0 < r.count
    → r.address + r.count < 2 ^ 32
    → (r.address % 4096 < read_end r)
      × (read_end r ≤ 4096)
      × (read_end r ≤ r.address % 4096 + r.count)
unfolding read_end
read_end_lem r some_left fits = ground (arith, bit_and_mask 12 (add32 r.address r.count))

read_step :
    (r : MemoryReader) (found : Option ℕ × Memory)
    → 0 < r.count
    → r.address + r.count < 2 ^ 32
    → page_lookup (r.address / 4096) r.memory ≡ found
    → read r
      ≡ ok (
        page_bytes found.1 found.0 (r.address % 4096) (read_end r - r.address % 4096),
        record {
          memory = found.1;
          address = r.address + (read_end r - r.address % 4096);
          count = r.count - (read_end r - r.address % 4096);
        },
      )
read_step r found some_left fits e =
    let ends = read_end_lem r some_left fits in
    let n = read_end r - r.address % 4096 in
    let unread : (r.count == 0) ≡ false = ground arith in
    let in_page : ltb (read_end r) (r.address % 4096) ≡ false = ground (arith, ends.0) in
    let next : add32 r.address n ≡ r.address + n = omega (arith, ends.2) in
    let left : sub32 r.count n ≡ r.count - n = omega (arith, ends.2) in
    subst
      (λ f.
        read r
        ≡ ok (
          page_bytes f.1 f.0 (r.address % 4096) n,
          record { memory = f.1; address = r.address + n; count = r.count - n },
        ))
      e (unfold read in rw (unread, page_place r.address, in_page, next, left) refl)

read-Slices :
    (r : MemoryReader) → 0 < r.count → r.address + r.count < 2 ^ 32 → IsValid r.memory → Slices r
read-Slices r some_left fits v = record {
  count = n;
  some_read = omega (arith, e.0);
  few_read = omega (arith, e.2);
  returns =
      read_step r (lookup (r.address / 4096) r.memory.pages, m1) some_left fits first.returns
      ∙ ap
          (λ bytes.
            ok (bytes, record { memory = m1; address = r.address + n; count = r.count - n }))
          (page_bytes_lem r.memory m1 r.address n refl (omega (arith, e.0, e.1)));
  valid = first.valid;
  same_view = byte_at_pages r.memory m1 refl refl;
  slot_0 = first.slot_0;
  slot_1 = first.slot_1;
}
  where
    e :
        (r.address % 4096 < read_end r)
        × (read_end r ≤ 4096)
        × (read_end r ≤ r.address % 4096 + r.count)
    e = read_end_lem r some_left fits

    n : ℕ
    n = read_end r - r.address % 4096

    first : LooksUp (r.address / 4096) r.memory
    first = page_lookup-LooksUp (r.address / 4096) r.memory v

    m1 : Memory
    m1 = record (r.memory) { last_page_0 = first.slot_0; last_page_1 = first.slot_1 }

read_nothing : (r : MemoryReader) → r.count ≡ 0 → read r ≡ ok ([], r)
unfolding read
read_nothing r h = ground arith

-- The rounds of the reader.
slots_only :
    (fuel : ℕ) (r : MemoryReader)
    → r.count < fuel
    → r.address + r.count < 2 ^ 32
    → IsValid r.memory
    → (slot_0 : Slot) × (slot_1 : Slot) × (read_to_end fuel r
        ≡ ok (
          slice (byte_at r.memory) r.address r.count,
          record (r.memory) { last_page_0 = slot_0; last_page_1 = slot_1 },
        ))
      × IsValid (record (r.memory) { last_page_0 = slot_0; last_page_1 = slot_1 })
unfolding read_to_end
slots_only zero r enough fits v = absurd (omega (arith, enough))
slots_only (suc fuel) r enough fits v = elim (ℕ_discrete r.count 0) [
  | yes nothing ↦ (
    r.memory.last_page_0,
    r.memory.last_page_1,
    rw (read_nothing r nothing)
        (ap (λ (n : ℕ). ok (slice (byte_at r.memory) r.address n, r.memory)) (sym nothing)),
    v,
  )
  | no something ↦
      let s = read-Slices r (omega (arith, something)) fits v in
      let m1 : Memory = record (r.memory) { last_page_0 = s.slot_0; last_page_1 = s.slot_1 } in
      let rest : MemoryReader = record {
        memory = m1;
        address = r.address + s.count;
        count = r.count - s.count;
      } in
      let (slot_0, slot_1, returns, valid) =
        slots_only fuel rest (omega (arith, s.some_read, enough, s.few_read))
          (omega (arith, s.few_read)) s.valid in
      let chunk = slice (byte_at r.memory) r.address s.count in
      let some_bytes : (length chunk == 0) ≡ false =
        ground (arith, length-slice (byte_at r.memory) r.address s.count, s.some_read) in
      let whole : s.count + (r.count - s.count) ≡ r.count = omega (arith, s.few_read) in
      let joined : chunk ++ slice (byte_at m1) (r.address + s.count) (r.count - s.count)
          ≡ slice (byte_at r.memory) r.address r.count =
        ap (λ (f : ℕ → ℕ). chunk ++ slice f (r.address + s.count) (r.count - s.count)) s.same_view
        ∙ sym (slice-append (byte_at r.memory) r.address s.count (r.count - s.count))
        ∙ ap (λ (n : ℕ). slice (byte_at r.memory) r.address n) whole in
      (
        slot_0,
        slot_1,
        rw (s.returns, some_bytes, returns)
            (ap (λ bs. ok (bs, record (r.memory) { last_page_0 = slot_0; last_page_1 = slot_1 }))
              joined),
        valid,
      )
]

-- Reading to the end a range that ends below 2 ^ 32, of a valid memory, with fuel for a round more
-- than there are bytes: the bytes are those of the flat view, nothing of the memory changes but its two
-- cache slots, and it stays valid with the same view.
pub read_to_end-Slices :
    (fuel : ℕ) (r : MemoryReader)
    → r.count < fuel
    → r.address + r.count < 2 ^ 32
    → IsValid r.memory
    → (slot_0 : Slot) × (slot_1 : Slot) × (read_to_end fuel r
        ≡ ok (
          slice (byte_at r.memory) r.address r.count,
          record (r.memory) { last_page_0 = slot_0; last_page_1 = slot_1 },
        ))
      × IsValid (record (r.memory) { last_page_0 = slot_0; last_page_1 = slot_1 })
      × (byte_at (record (r.memory) { last_page_0 = slot_0; last_page_1 = slot_1 })
          ≡ byte_at r.memory)
read_to_end-Slices fuel r enough fits v =
    let (slot_0, slot_1, returns, valid) = slots_only fuel r enough fits v in
    (
      slot_0,
      slot_1,
      returns,
      valid,
      byte_at_pages r.memory (record (r.memory) { last_page_0 = slot_0; last_page_1 = slot_1 }) refl
          refl,
    )
