-- ===== src/Memory/Typed.antt =====
-- The bytes of memory, crates/mipsevm/src/memory.rs, are u8 values under every operation, and the words
-- that are loaded are u32 values.
use cannon_rs.Prelude.{
  ℕ, zero, suc, fun_ext, Option, none, some, lookup, ◌*◌, ◌/◌, ◌%◌, ◌^◌, ◌<◌, ◌≡◌, refl, List, [],
  ◌∷◌, length, slice, copy_at, Holds, Holds-bind, Holds-then, Holds-if, ltb, ◌==◌, bail_if, not,
  bit_and, io_error, arith,
}
use native.Mathlib.Decide.{ℕ_discrete}
use cannon_rs.Hash.{Keccak}
use cannon_rs.Word.Bytes.{from_be, from_be_bytes, u32_to_be_bytes}
use cannon_rs.Hex.{AreBytes}
use cannon_rs.Memory.{
  Memory, Slot, page_lookup, get_memory, set_memory, merkle_proof, traverse_branch, flatten,
  merkle_root,
}
use cannon_rs.Memory.Reader.{MemoryReader, read, read_end, read_to_end}
use cannon_rs.Memory.Invariant.{byte_at, page_byte, page_lookup-LooksUp}
use cannon_rs.Memory.Merkleize.Pages.{byte_at_same, IsValid-same}
use cannon_rs.Memory.Merkleize.Root.{merkle_root-Merkleizes}
use cannon_rs.Memory.Reads.{get_memory-Reads, get_memory_unaligned}
use cannon_rs.Memory.Proof.{traverse_branch-Traverses}
use cannon_rs.Memory.Writes.{set_memory-Writes, set_memory_unaligned}
use cannon_rs.Memory.Sound.{IsSound, page_lookup-IsSound, get_memory-IsSound, merkle_root-IsSound}

-- The other cache slots give the same view.
slots_view :
    (m : Memory) (slot_0 slot_1 : Slot)
    → byte_at (record m { last_page_0 = slot_0; last_page_1 = slot_1 }) ≡ byte_at m
unfolding byte_at page_byte
slots_view m slot_0 slot_1 = fun_ext λ a. page_view (lookup (a / 4096) m.pages) (a % 4096)
  where
    page_view :
        (found : Option ℕ) (k : ℕ)
        → page_byte (record m { last_page_0 = slot_0; last_page_1 = slot_1 }) found k
          ≡ page_byte m found k
    page_view none k = refl
    page_view (some r) k = refl

word-lt :
    (bytes : ℕ → ℕ) (a : ℕ) → ((b : ℕ) → bytes b < 256) → from_be_bytes (slice bytes a 4) < 2 ^ 32
unfolding from_be
word-lt bytes a h = omega (arith, h a, h (suc a), h (suc (suc a)), h (suc (suc (suc a))))

pub copy_at-bytes :
    (b : ℕ → ℕ) (k : ℕ) (vs : List ℕ)
    → AreBytes vs
    → ((j : ℕ) → b j < 256)
    → (j : ℕ) → copy_at b k vs j < 256
unfolding copy_at
copy_at-bytes b k [] small h j = h j
copy_at-bytes b k (v ∷ vs) small h j =
    ground (arith, copy_at-bytes b (suc k) vs small.1 h j, small.0)

module _ (keccak256 : Keccak) where
  -- A sound memory whose bytes are u8 values.
  pub record IsTyped (m : Memory) : Type 0 where
    pub sound : IsSound keccak256 m
    pub bytes : (a : ℕ) → byte_at m a < 256

  same-IsTyped :
      (m m' : Memory) → IsSound keccak256 m' → byte_at m' ≡ byte_at m → IsTyped m → IsTyped m'
  same-IsTyped m m' s view t = record { sound = s; bytes = λ a. rw view (t.bytes a) }

  page_lookup-IsTyped : (i : ℕ) (m : Memory) → IsTyped m → IsTyped (page_lookup i m).1
  page_lookup-IsTyped i m t =
      let l = page_lookup-LooksUp i m t.sound.valid in
      same-IsTyped m (page_lookup i m).1 (page_lookup-IsSound keccak256 i m t.sound)
        (rw l.returns (slots_view m l.slot_0 l.slot_1)) t

  -- A word that is loaded is a u32.
  pub get_memory-IsTyped :
      (a : ℕ) (m : Memory) → IsTyped m → Holds (λ p. IsTyped p.1 × (p.0 < 2 ^ 32)) (get_memory a m)
  get_memory-IsTyped a m t = elim (ℕ_discrete (a % 4) 0) [
    | yes aligned ↦
        let r = get_memory-Reads a m aligned t.sound.valid in
        let s = get_memory-IsSound keccak256 a m t.sound in
        rw r.returns (
          same-IsTyped m _ (rw r.returns at s) (slots_view m r.slot_0 r.slot_1) t,
          word-lt (byte_at m) a t.bytes,
        )
    | no unaligned ↦ rw (get_memory_unaligned a m unaligned) tt
  ]

  pub set_memory-IsTyped :
      (a value : ℕ) (m : Memory)
      → a < 2 ^ 32
      → IsTyped m
      → Holds IsTyped (set_memory keccak256 a value m)
  set_memory-IsTyped a value m fits t = elim (ℕ_discrete (a % 4) 0) [
    | yes aligned ↦
        let w = set_memory-Writes keccak256 a value m aligned fits t.sound.valid t.sound.coherent in
        rw w.returns (record {
          sound = record { valid = w.valid; coherent = w.coherent };
          bytes = λ b.
              rw w.view
                (copy_at-bytes (byte_at m) a (u32_to_be_bytes value) (omega arith) t.bytes b);
        })
    | no unaligned ↦ rw (set_memory_unaligned keccak256 a value m unaligned) tt
  ]

  pub merkle_root-IsTyped :
      (m : Memory) → IsTyped m → Holds (λ p. IsTyped p.1) (merkle_root keccak256 m)
  merkle_root-IsTyped m t =
      let r = merkle_root-Merkleizes keccak256 m t.sound.coherent in
      let s = merkle_root-IsSound keccak256 m t.sound in
      rw r.returns
        (same-IsTyped m _ (rw r.returns at s) (byte_at_same m r.nodes r.store r.same_bytes) t)

  pub merkle_proof-IsTyped :
      (a : ℕ) (m : Memory) → IsTyped m → Holds (λ p. IsTyped p.1) (merkle_proof keccak256 a m)
  unfolding merkle_proof
  merkle_proof-IsTyped a m t =
      let w =
        traverse_branch-Traverses keccak256 28 27 0 1 a m (omega arith) (omega arith) (omega arith)
          t.sound.coherent in
      Holds-bind (λ p. IsTyped p.1) (λ p. IsTyped p.1) (traverse_branch keccak256 28 1 a 0 m) _
        (rw w.returns (
          same-IsTyped m (record m { nodes = w.nodes; store = w.store })
            (record { valid = IsValid-same m w.nodes w.store t.sound.valid; coherent = w.coherent })
            (byte_at_same m w.nodes w.store w.same_bytes) t))
        λ p t'.
          Holds-then (λ p. IsTyped p.1) (bail_if (not (length (flatten p.0) == 28 * 32)) io_error) _
            λ _. t'

  read-IsTyped : (r : MemoryReader) → IsTyped r.memory → Holds (λ p. IsTyped p.1.memory) (read r)
  unfolding read
  read-IsTyped r t =
      Holds-if (λ p. IsTyped p.1.memory) (r.count == 0) _ _ t
        (Holds-if (λ p. IsTyped p.1.memory) (ltb (read_end r) (bit_and r.address 4095)) _ _ tt
          (page_lookup-IsTyped (r.address / 2 ^ 12) r.memory t))

  pub read_to_end-IsTyped :
      (fuel : ℕ) (r : MemoryReader)
      → IsTyped r.memory
      → Holds (λ p. IsTyped p.1) (read_to_end fuel r)
  unfolding read_to_end
  read_to_end-IsTyped zero r t = tt
  read_to_end-IsTyped (suc fuel) r t =
      Holds-bind (λ p. IsTyped p.1.memory) (λ p. IsTyped p.1) (read r) _ (read-IsTyped r t)
        λ p t'.
          Holds-if (λ p. IsTyped p.1) (length p.0 == 0) _ _ t'
            (Holds-bind (λ q. IsTyped q.1) (λ q. IsTyped q.1) (read_to_end fuel p.1) _
              (read_to_end-IsTyped fuel p.1 t') λ q t2. t2)
