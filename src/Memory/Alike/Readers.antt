-- ===== src/Memory/Alike/Readers.antt =====
-- `MemoryReader` of crates/mipsevm/src/memory.rs on two memories with the same bytes.
use cannon_rs.Prelude.{
  ℕ, zero, suc, ◌+◌, ◌-◌, ◌/◌, ◌%◌, ◌≤◌, ◌≡◌, refl, sym, ap, ◌∙◌, ltb, ◌==◌, List, length, slice,
  ok, bit_and, arith,
}
use cannon_rs.Hash.{Keccak}
use cannon_rs.Page.{page_address_mask}
use cannon_rs.Memory.Marks.{page_place}
use cannon_rs.Memory.Slices.{page_bytes_lem}
use cannon_rs.Word.{add32, sub32}
use cannon_rs.Word.Bits.{bit_and_mask}
use cannon_rs.Memory.{Memory, page_lookup}
use cannon_rs.Memory.Reader.{MemoryReader, read_end, page_bytes, read, read_to_end}
use cannon_rs.Memory.Invariant.{byte_at, page_lookup-LooksUp}
use cannon_rs.Memory.Views.{byte_at_pages}
use cannon_rs.Memory.Sound.{IsSound, page_lookup-IsSound}
use cannon_rs.Memory.Alike.{itself, beside, in_reader, Same, Alike, Alike-bind, Alike-if}

module _ (keccak256 : Keccak) where
  page_lookup-Same :
      (i : ℕ) (m m' : Memory)
      → Same keccak256 m m'
      → Same keccak256 (page_lookup i m).1 (page_lookup i m').1
  page_lookup-Same i m m' same =
      let l = page_lookup-LooksUp i m same.sound.valid in
      let k = page_lookup-LooksUp i m' same.other.valid in
      record {
        sound = page_lookup-IsSound keccak256 i m same.sound;
        other = page_lookup-IsSound keccak256 i m' same.other;
        view =
            rw (l.returns, k.returns)
              (byte_at_pages m' (record m' { last_page_0 = k.slot_0; last_page_1 = k.slot_1 }) refl
                  refl
                ∙ same.view
                ∙ sym (
                    byte_at_pages m (record m { last_page_0 = l.slot_0; last_page_1 = l.slot_1 })
                      refl refl));
      }

  found_bytes :
      (a n : ℕ) (m : Memory)
      → a % 4096 + n ≤ 4096
      → IsSound keccak256 m
      → page_bytes (page_lookup (a / 4096) m).1 (page_lookup (a / 4096) m).0 (a % 4096) n
        ≡ slice (byte_at m) a n
  found_bytes a n m fits s =
      let l = page_lookup-LooksUp (a / 4096) m s.valid in
      rw (l.returns) (
        page_bytes_lem m (record m { last_page_0 = l.slot_0; last_page_1 = l.slot_1 }) a n refl
          fits)

  end_in_page : (r : MemoryReader) → r.address % 4096 + (read_end r - r.address % 4096) ≤ 4096
  unfolding read_end
  end_in_page r = ground (arith, bit_and_mask 12 (add32 r.address r.count))

  Same-chunk :
      (r : MemoryReader) (m' : Memory)
      → Same keccak256 r.memory m'
      → page_bytes
          (page_lookup (r.address / 4096) m').1
          (page_lookup (r.address / 4096) m').0
          (bit_and r.address page_address_mask)
          (read_end r - bit_and r.address page_address_mask)
        ≡ page_bytes
            (page_lookup (r.address / 4096) r.memory).1
            (page_lookup (r.address / 4096) r.memory).0
            (bit_and r.address page_address_mask)
            (read_end r - bit_and r.address page_address_mask)
  Same-chunk r m' same =
      let n = read_end r - r.address % 4096 in
      rw (page_place r.address) (
        found_bytes r.address n m' (end_in_page r) same.other
        ∙ ap (λ (f : ℕ → ℕ). slice f r.address n) same.view
        ∙ sym (found_bytes r.address n r.memory (end_in_page r) same.sound))

  read-Alike :
      (r : MemoryReader) (m' : Memory)
      → Same keccak256 r.memory m'
      → Alike keccak256 (beside (List ℕ) in_reader) (read r) (read (record r { memory = m' }))
  unfolding read read_end
  read-Alike r m' same =
      let holder = beside (List ℕ) in_reader in
      Alike-if keccak256 holder (r.count == 0) _ _ _ _ (m', same, refl)
        (Alike-if keccak256 holder (ltb (read_end r) (bit_and r.address 4095)) _ _ _ _ refl (
          (page_lookup (r.address / 4096) m').1,
          page_lookup-Same (r.address / 4096) r.memory m' same,
          ap
              (λ (chunk : List ℕ). ok (
                chunk,
                record {
                  memory = (page_lookup (r.address / 4096) m').1;
                  address = add32 r.address (read_end r - bit_and r.address page_address_mask);
                  count = sub32 r.count (read_end r - bit_and r.address page_address_mask);
                },
              ))
              (Same-chunk r m' same),
        ))

  pub read_to_end-Alike :
      (fuel : ℕ) (r : MemoryReader) (m' : Memory)
      → Same keccak256 r.memory m'
      → Alike keccak256
          (beside (List ℕ) itself)
          (read_to_end fuel r)
          (read_to_end fuel (record r { memory = m' }))
  unfolding read_to_end
  read_to_end-Alike zero r m' same = refl
  read_to_end-Alike (suc fuel) r m' same =
      let holder = beside (List ℕ) itself in
      Alike-bind keccak256 (beside (List ℕ) in_reader) holder (read r) _ _ _ (read-Alike r m' same)
        λ p m1 same1.
          Alike-if keccak256 holder (length p.0 == 0) _ _ _ _ (m1, same1, refl)
            (Alike-bind keccak256 holder holder (read_to_end fuel p.1) _ _ _
              (read_to_end-Alike fuel p.1 m1 same1) λ q m2 same2. (m2, same2, refl))
