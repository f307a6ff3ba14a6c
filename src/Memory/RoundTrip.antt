-- ===== src/Memory/RoundTrip.antt =====
-- Loads and stores of crates/mipsevm/src/memory.rs together, and the memory that it starts from.
use cannon_rs.Prelude.{
  ℕ, ◌+◌, ◌%◌, ◌^◌, ◌<◌, ◌≡◌, ap, ◌∙◌, slice, slice_ext, slice-copy_at, copy_at, copy_at_below,
  copy_at_above, arith, ok, ◌==◌, if◌then◌else◌, lookup-nil, Option,
}
use native.Mathlib.Decide.{ℕ_discrete, dec_lt}
use cannon_rs.Word.Bytes.{u32_to_be_bytes, from_be_bytes, u32_from-to}
use cannon_rs.Hash.{Digest, Keccak}
use cannon_rs.Memory
use cannon_rs.Memory.{Memory, get_memory, set_memory}
use cannon_rs.Memory.Invariant.{IsValid, byte_at}
use cannon_rs.Memory.Coherent.{IsCoherent}
use cannon_rs.Memory.Reads.{get_memory-Reads}
use cannon_rs.Memory.Writes.{set_memory-Writes}

-- The word at `b` of the flat view after the write of four bytes at `a`.
written_word :
    (bytes : ℕ → ℕ) (a b value : ℕ)
    → a % 4 ≡ 0
    → b % 4 ≡ 0
    → value < 2 ^ 32
    → from_be_bytes (slice (copy_at bytes a (u32_to_be_bytes value)) b 4)
      ≡ (if a == b then value else from_be_bytes (slice bytes b 4))
written_word bytes a b value p q h = elim (ℕ_discrete a b) [
  | yes same ↦
      rw (← same)
        (ap from_be_bytes (slice-copy_at bytes a (u32_to_be_bytes value)) ∙ u32_from-to value h)
      ∙ yes_branch same
  | no other ↦
      ap from_be_bytes
        (slice_ext (copy_at bytes a (u32_to_be_bytes value)) bytes b b 4 (outside other))
      ∙ no_branch other
]
  where
    yes_branch : a ≡ b → value ≡ (if a == b then value else from_be_bytes (slice bytes b 4))
    yes_branch same = ground arith

    no_branch :
        (a ≡ b → ⊥)
        → from_be_bytes (slice bytes b 4)
          ≡ (if a == b then value else from_be_bytes (slice bytes b 4))
    no_branch other = ground arith

    outside :
        (a ≡ b → ⊥)
        → (k : ℕ) → k < 4
        → copy_at bytes a (u32_to_be_bytes value) (b + k) ≡ bytes (b + k)
    outside other k small = elim (dec_lt b a) [
      | yes below ↦ copy_at_below bytes a (u32_to_be_bytes value) (b + k) (omega arith)
      | no above ↦ copy_at_above bytes a (u32_to_be_bytes value) (b + k) (omega arith)
    ]

module _ (keccak256 : Keccak) where
  -- A store at an aligned address below 2 ^ 32 of a valid and coherent memory succeeds, and a load
  -- at an aligned address from the memory after it succeeds. The load returns the value stored if
  -- the addresses are the same, and the word that the flat view had before if they are not.
  pub get_memory-set_memory :
      (a b value : ℕ) (m : Memory)
      → a % 4 ≡ 0
      → b % 4 ≡ 0
      → a < 2 ^ 32
      → value < 2 ^ 32
      → IsValid m
      → IsCoherent keccak256 m
      → (m' : Memory) × (m'' : Memory) × (set_memory keccak256 a value m ≡ ok m')
        × (get_memory b m'
            ≡ ok (if a == b then value else from_be_bytes (slice (byte_at m) b 4), m''))
  get_memory-set_memory a b value m p q h small v c =
      let w = set_memory-Writes keccak256 a value m p h v c in
      let r = get_memory-Reads b w.after q w.valid in
      (
        w.after,
        record (w.after) { last_page_0 = r.slot_0; last_page_1 = r.slot_1 },
        w.returns,
        r.returns ∙ rw (w.view, written_word (byte_at m) a b value p q small),
      )

-- The memory that the program starts from satisfies both invariants.
pub default-IsValid : IsValid Memory.default
default-IsValid = record {
  unique = tt;
  index_bounded = λ i r e. absurd (cc (lookup-nil {V = ℕ} i));
  refs_bounded = λ i r e. absurd (cc (lookup-nil {V = ℕ} i));
  refs_distinct = λ i j r e f. absurd (cc (lookup-nil {V = ℕ} i));
  slot_0 = λ r e. absurd (cc);
  slot_1 = λ r e. absurd (cc);
}

pub default-IsCoherent : (keccak256 : Keccak) → IsCoherent keccak256 Memory.default
default-IsCoherent keccak256 = record {
  page = λ i r e. absurd (cc (lookup-nil {V = ℕ} i));
  cached = λ k d g h level at e. absurd (cc (lookup-nil {V = Option Digest} g));
  hashed = λ k d g i r h level at e. absurd (cc (lookup-nil {V = Option Digest} g));
  absent = λ k d g i level at e cov. lookup-nil i;
}
