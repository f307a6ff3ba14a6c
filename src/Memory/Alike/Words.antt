-- ===== src/Memory/Alike/Words.antt =====
-- `get_memory` and `set_memory` of crates/mipsevm/src/memory.rs on two memories with the same bytes.
use cannon_rs.Prelude.{ℕ, ◌%◌, ◌^◌, ◌<◌, refl, sym, ap, ◌∙◌, slice, copy_at, ok}
use native.Mathlib.Decide.{ℕ_discrete}
use cannon_rs.Hash.{Keccak}
use cannon_rs.Word.Bytes.{from_be_bytes, u32_to_be_bytes}
use cannon_rs.Memory.{Memory, get_memory, set_memory}
use cannon_rs.Memory.Reads.{get_memory-Reads, get_memory_unaligned}
use cannon_rs.Memory.Writes.{set_memory-Writes, set_memory_unaligned}
use cannon_rs.Memory.Stores.{slots-IsCoherent}
use cannon_rs.Memory.Views.{byte_at_pages}
use cannon_rs.Memory.Alike.{itself, beside, Same, Alike}

module _ (keccak256 : Keccak) where
  pub get_memory-Alike :
      (a : ℕ) (m m' : Memory)
      → Same keccak256 m m'
      → Alike keccak256 (beside ℕ itself) (get_memory a m) (get_memory a m')
  get_memory-Alike a m m' same = elim (ℕ_discrete (a % 4) 0) [
    | yes aligned ↦
        let r = get_memory-Reads a m aligned same.sound.valid in
        let s = get_memory-Reads a m' aligned same.other.valid in
        rw (r.returns) (
          record m' { last_page_0 = s.slot_0; last_page_1 = s.slot_1 },
          record {
            sound = record {
              valid = r.valid;
              coherent = slots-IsCoherent keccak256 m r.slot_0 r.slot_1 same.sound.coherent;
            };
            other = record {
              valid = s.valid;
              coherent = slots-IsCoherent keccak256 m' s.slot_0 s.slot_1 same.other.coherent;
            };
            view =
                byte_at_pages m' (record m' { last_page_0 = s.slot_0; last_page_1 = s.slot_1 }) refl
                  refl
                ∙ same.view
                ∙ sym (
                    byte_at_pages m (record m { last_page_0 = r.slot_0; last_page_1 = r.slot_1 })
                      refl refl);
          },
          s.returns
              ∙ ap
                  (λ (f : ℕ → ℕ). ok (
                    from_be_bytes (slice f a 4),
                    record m' { last_page_0 = s.slot_0; last_page_1 = s.slot_1 },
                  ))
                  same.view,
        )
    | no unaligned ↦
        rw (get_memory_unaligned a m unaligned, get_memory_unaligned a m' unaligned) refl
  ]

  pub set_memory-Alike :
      (a value : ℕ) (m m' : Memory)
      → a < 2 ^ 32
      → Same keccak256 m m'
      → Alike keccak256 itself (set_memory keccak256 a value m) (set_memory keccak256 a value m')
  set_memory-Alike a value m m' fits same = elim (ℕ_discrete (a % 4) 0) [
    | yes aligned ↦
        let w =
          set_memory-Writes keccak256 a value m aligned fits same.sound.valid same.sound.coherent in
        let u =
          set_memory-Writes keccak256 a value m' aligned fits same.other.valid
            same.other.coherent in
        rw (w.returns) (
          u.after,
          record {
            sound = record { valid = w.valid; coherent = w.coherent };
            other = record { valid = u.valid; coherent = u.coherent };
            view =
                u.view
                ∙ ap (λ (f : ℕ → ℕ). copy_at f a (u32_to_be_bytes value)) same.view
                ∙ sym w.view;
          },
          u.returns,
        )
    | no unaligned ↦
        rw
          (
            set_memory_unaligned keccak256 a value m unaligned,
            set_memory_unaligned keccak256 a value m' unaligned,
          )
          refl
  ]
