-- ===== src/Memory/Sound.antt =====
-- The invariants of crates/mipsevm/src/memory.rs together, under every operation that the emulator
-- makes on memory.
use cannon_rs.Prelude.{
  ℕ, zero, suc, ◌*◌, ◌/◌, ◌%◌, ◌^◌, ◌<◌, length, Holds, Holds-bind, Holds-any, Holds-if, ltb, ◌==◌,
  not, bit_and, bail_if, io_error, arith,
}
use native.Mathlib.Decide.{ℕ_discrete}
use cannon_rs.Hash.{Keccak}
use cannon_rs.Memory.{
  Memory, page_lookup, get_memory, set_memory, merkle_proof, traverse_branch, flatten, merkle_root,
}
use cannon_rs.Memory.Reader.{MemoryReader, read, read_end, read_to_end}
use cannon_rs.Memory.Invariant.{IsValid, page_lookup-LooksUp}
use cannon_rs.Memory.Coherent.{IsCoherent}
use cannon_rs.Memory.Merkleize.Pages.{IsValid-same}
use cannon_rs.Memory.Merkleize.Root.{merkle_root-Merkleizes}
use cannon_rs.Memory.Reads.{get_memory-Reads, get_memory_unaligned}
use cannon_rs.Memory.Proof.{traverse_branch-Traverses}
use cannon_rs.Memory.Stores.{slots-IsCoherent}
use cannon_rs.Memory.Writes.{set_memory-Writes, set_memory_unaligned}

module _ (keccak256 : Keccak) where
  -- The pages are shared as they should be, and the caches are those of the flat view.
  pub record IsSound (m : Memory) : Type 0 where
    pub valid : IsValid m
    pub coherent : IsCoherent keccak256 m

  pub page_lookup-IsSound : (i : ℕ) (m : Memory) → IsSound m → IsSound (page_lookup i m).1
  page_lookup-IsSound i m s =
      let l = page_lookup-LooksUp i m s.valid in
      rw l.returns (record {
        valid = l.valid;
        coherent = slots-IsCoherent keccak256 m l.slot_0 l.slot_1 s.coherent;
      })

  pub get_memory-IsSound :
      (a : ℕ) (m : Memory) → IsSound m → Holds (λ p. IsSound p.1) (get_memory a m)
  get_memory-IsSound a m s = elim (ℕ_discrete (a % 4) 0) [
    | yes aligned ↦
        let r = get_memory-Reads a m aligned s.valid in
        rw r.returns (record {
          valid = r.valid;
          coherent = slots-IsCoherent keccak256 m r.slot_0 r.slot_1 s.coherent;
        })
    | no unaligned ↦ rw (get_memory_unaligned a m unaligned) tt
  ]

  pub set_memory-IsSound :
      (a value : ℕ) (m : Memory)
      → a < 2 ^ 32
      → IsSound m
      → Holds IsSound (set_memory keccak256 a value m)
  set_memory-IsSound a value m fits s = elim (ℕ_discrete (a % 4) 0) [
    | yes aligned ↦
        let w = set_memory-Writes keccak256 a value m aligned fits s.valid s.coherent in
        rw w.returns (record { valid = w.valid; coherent = w.coherent })
    | no unaligned ↦ rw (set_memory_unaligned keccak256 a value m unaligned) tt
  ]

  pub merkle_root-IsSound :
      (m : Memory) → IsSound m → Holds (λ p. IsSound p.1) (merkle_root keccak256 m)
  merkle_root-IsSound m s =
      let r = merkle_root-Merkleizes keccak256 m s.coherent in
      rw r.returns
        (record { valid = IsValid-same m r.nodes r.store s.valid; coherent = r.coherent })

  pub merkle_proof-IsSound :
      (a : ℕ) (m : Memory) → IsSound m → Holds (λ p. IsSound p.1) (merkle_proof keccak256 a m)
  unfolding merkle_proof
  merkle_proof-IsSound a m s =
      let t =
        traverse_branch-Traverses keccak256 28 27 0 1 a m (omega arith) (omega arith) (omega arith)
          s.coherent in
      Holds-bind (λ p. IsSound p.1) (λ p. IsSound p.1) (traverse_branch keccak256 28 1 a 0 m) _
        (rw t.returns
          (record { valid = IsValid-same m t.nodes t.store s.valid; coherent = t.coherent }))
        λ p s'.
          Holds-bind (λ _. Unit {0}) (λ p. IsSound p.1)
            (bail_if (not (length (flatten p.0) == 28 * 32)) io_error) _
            (Holds-any (λ _. Unit) _ λ _. tt) λ _ _. s'

  read-IsSound : (r : MemoryReader) → IsSound r.memory → Holds (λ p. IsSound p.1.memory) (read r)
  unfolding read
  read-IsSound r s =
      Holds-if (λ p. IsSound p.1.memory) (r.count == 0) _ _ s
        (Holds-if (λ p. IsSound p.1.memory) (ltb (read_end r) (bit_and r.address 4095)) _ _ tt
          (page_lookup-IsSound (r.address / 2 ^ 12) r.memory s))

  pub read_to_end-IsSound :
      (fuel : ℕ) (r : MemoryReader)
      → IsSound r.memory
      → Holds (λ p. IsSound p.1) (read_to_end fuel r)
  unfolding read_to_end
  read_to_end-IsSound zero r s = tt
  read_to_end-IsSound (suc fuel) r s =
      Holds-bind (λ p. IsSound p.1.memory) (λ p. IsSound p.1) (read r) _ (read-IsSound r s)
        λ p s'.
          Holds-if (λ p. IsSound p.1) (length p.0 == 0) _ _ s'
            (Holds-bind (λ q. IsSound q.1) (λ q. IsSound q.1) (read_to_end fuel p.1) _
              (read_to_end-IsSound fuel p.1 s') λ q s2. s2)
