-- ===== src/Memory/Alike.antt =====
-- Two memories with the same bytes, crates/mipsevm/src/memory.rs: results that are the same but for how
-- the bytes are kept.
pub mod Words
pub mod Nodes
pub mod Readers
use cannon_rs.Prelude.{
  ℕ, zero, suc, ◌+◌, ◌-◌, ◌*◌, ◌/◌, ◌%◌, ◌^◌, ◌<◌, ◌≤◌, ◌≡◌, refl, sym, ap, ◌∙◌, Bool, true, false,
  not, if◌then◌else◌, ltb, ◌==◌, List, ◌∷◌, length, slice, copy_at, Result, ok, err, panic, diverge,
  ◌>>=◌, bit_and, bail_if, io_error, Holds, arith,
}
use native.Mathlib.Decide.{ℕ_discrete}
use cannon_rs.Hash.{Keccak, Digest}
use cannon_rs.Page.{page_address_mask}
use cannon_rs.Merkle.{subtree}
use cannon_rs.Merkle.Verify.{descend, siblings}
use cannon_rs.Memory.Merkleize.Root.{merkle_root-Merkleizes}
use cannon_rs.Memory.Marks.{page_place}
use cannon_rs.Memory.Slices.{page_bytes_lem}
use cannon_rs.Memory.Merkleize.Pages.{byte_at_same, IsValid-same}
use cannon_rs.Memory.Proof.{traverse_branch-Traverses}
use cannon_rs.Word.{add32, sub32}
use cannon_rs.Word.Bytes.{from_be_bytes, u32_to_be_bytes}
use cannon_rs.Word.Bits.{bit_and_mask}
use cannon_rs.Memory.{
  Memory, get_memory, set_memory, merkle_proof, merkle_root, page_lookup, traverse_branch, flatten,
}
use cannon_rs.Memory.Reader.{MemoryReader, read_end, page_bytes, read, read_to_end}
use cannon_rs.Memory.Invariant.{byte_at, memory_leaf, page_lookup-LooksUp}
use cannon_rs.Memory.Reads.{get_memory-Reads, get_memory_unaligned}
use cannon_rs.Memory.Writes.{set_memory-Writes, set_memory_unaligned}
use cannon_rs.Memory.Stores.{slots-IsCoherent}
use cannon_rs.Memory.Views.{byte_at_pages}
use cannon_rs.Memory.Sound.{IsSound, page_lookup-IsSound}

-- Where a value keeps a memory.
pub record Holder (A : Type 0) : Type 0 where
  pub memory : A → Memory
  pub put : Memory → A → A

abbrev pub itself : Holder Memory
itself = record { memory = λ m. m; put = λ m' m. m' }

abbrev pub beside : (X : Type 0) → {A : Type 0} → Holder A → Holder (X × A)
beside X holder = record { memory = λ p. holder.memory p.1; put = λ m' p. (p.0, holder.put m' p.1) }

abbrev pub in_reader : Holder MemoryReader
in_reader = record { memory = λ r. r.memory; put = λ m' r. record r { memory = m' } }

module _ (keccak256 : Keccak) where
  -- Sound memories with the same bytes.
  pub record Same (m m' : Memory) : Type 0 where
    pub sound : IsSound keccak256 m
    pub other : IsSound keccak256 m'
    pub view : byte_at m' ≡ byte_at m

  -- Two results that are alike: both values, the same but for memories with the same bytes, or the same
  -- failure.
  abbrev pub Alike : {A : Type 0} → Holder A → Result A → Result A → Type 0
  Alike holder (ok a) r' = (m' : Memory) × Same (holder.memory a) m' × (r' ≡ ok (holder.put m' a))
  Alike holder (err e) r' = r' ≡ err e
  Alike holder panic r' = r' ≡ panic
  Alike holder diverge r' = r' ≡ diverge

  pub Alike-bind :
      {A B : Type 0} (from : Holder A) (to : Holder B) (r r' : Result A) (f f' : A → Result B)
      → Alike from r r'
      → ((a : A) (m' : Memory) → Same (from.memory a) m' → Alike to (f a) (f' (from.put m' a)))
      → Alike to (r >>= f) (r' >>= f')
  Alike-bind from to (ok a) r' f f' (m', same, e) next = rw e (next a m' same)
  Alike-bind from to (err e) r' f f' h next = rw h refl
  Alike-bind from to panic r' f f' h next = rw h refl
  Alike-bind from to diverge r' f f' h next = rw h refl

  pub Alike-then :
      {X B : Type 0} (to : Holder B) (r : Result X) (f f' : X → Result B)
      → ((x : X) → Alike to (f x) (f' x))
      → Alike to (r >>= f) (r >>= f')
  Alike-then to (ok x) f f' next = next x
  Alike-then to (err e) f f' next = refl
  Alike-then to panic f f' next = refl
  Alike-then to diverge f f' next = refl

  pub Alike-if :
      {A : Type 0} (holder : Holder A) (b : Bool) (r s r' s' : Result A)
      → Alike holder r r'
      → Alike holder s s'
      → Alike holder (if b then r else s) (if b then r' else s')
  Alike-if holder true r s r' s' h k = h
  Alike-if holder false r s r' s' h k = k

  -- A bind whose first value has a property.
  pub Alike-bind_where :
      {A B : Type 0} (from : Holder A) (to : Holder B) (P : A → Type 0) (r r' : Result A)
      (f f' : A → Result B)
      → Alike from r r'
      → Holds P r
      → ((a : A) (m' : Memory)
          → P a
          → Same (from.memory a) m'
          → Alike to (f a) (f' (from.put m' a)))
      → Alike to (r >>= f) (r' >>= f')
  Alike-bind_where from to P (ok a) r' f f' (m', same, e) p next = rw e (next a m' p same)
  Alike-bind_where from to P (err e) r' f f' h p next = rw h refl
  Alike-bind_where from to P panic r' f f' h p next = rw h refl
  Alike-bind_where from to P diverge r' f f' h p next = rw h refl
