-- ===== src/Patch/Elf.antt =====
-- `load_elf` of crates/mipsevm/src/patch.rs. The parser is the crate `elf`, so it is a parameter.
use cannon_rs.Prelude.{
  ℕ, suc, ◌+◌, ◌-◌, ◌^◌, ltb, leb, ◌==◌, false, if◌then◌else◌, Option, none, some, List, [], ◌∷◌,
  length, take, replicate, Result, ok, err, ◌>>=◌, ◌>>◌, bail_if, panic_if, elf_error, no_segments,
  segment_too_long, unsupported_filling, segment_out_of_range,
}
use cannon_rs.Word.{u32, u64, add32}
use cannon_rs.Hash.{Keccak, zero_digest}
use cannon_rs.Memory
use cannon_rs.Memory.{Memory}
use cannon_rs.Memory.Range.{slice_reader, set_memory_range}
use cannon_rs.State.{State}
use cannon_rs.Patch.MultiReader.{multi_reader}

-- A program header with what `segment_data` gives for it.
pub record Segment : Type 0 where
  pub p_type : ℕ
  pub p_vaddr : ℕ
  pub p_filesz : ℕ
  pub p_memsz : ℕ
  pub contents : Option (List ℕ)

-- What `minimal_parse` gives: the entry point and the headers, if there are any.
pub record ParsedElf : Type 0 where
  pub e_entry : ℕ
  pub segments : Option (List Segment)

abbrev pub ElfParser : Type 0
ElfParser = List ℕ → Option ParsedElf

abbrev pub or_error {ℓ} : {A : Type ℓ} → Option A → Result A
or_error none = err elf_error
or_error (some a) = ok a

-- `State::default()`.
unfoldable pub default_state : State
default_state = record {
  memory = Memory.default;
  preimage_key = zero_digest;
  preimage_offset = 0;
  pc = 0;
  next_pc = 0;
  lo = 0;
  hi = 0;
  heap = 0;
  exit_code = 0;
  exited = false;
  step = 0;
  registers = λ _. 0;
  last_hint = [];
}

-- The sizes that cannot be loaded: a segment that is longer in the file than in memory, and one that
-- is not to be loaded and would have to be filled.
unfoldable pub check_sizes : Segment → Result (Unit {0})
check_sizes s =
    if s.p_filesz == s.p_memsz
    then ok tt
    else if s.p_type == 1
    then (if ltb s.p_filesz s.p_memsz then ok tt else err segment_too_long)
    else err unsupported_filling

module _ (keccak256 : Keccak) where
  -- The write of a segment: the bytes of the file, and zeros up to the size in memory.
  unfoldable pub write_segment : Segment → List ℕ → Memory → Result Memory
  write_segment s section m =
      if s.p_filesz == s.p_memsz
      then set_memory_range keccak256 slice_reader (suc (length section)) (u32 s.p_vaddr) section m
      else set_memory_range keccak256 (multi_reader slice_reader slice_reader)
          (suc (length section + (s.p_memsz - s.p_filesz))) (u32 s.p_vaddr)
          (record { first = section; second = replicate (s.p_memsz - s.p_filesz) 0 }) m

  -- The round of a header that is not skipped. `[..p_filesz]` panics on less data.
  unfoldable pub load_contents : Segment → Option (List ℕ) → Memory → Result Memory
  unfolding check_sizes write_segment
  load_contents s contents m = or_error contents >>= λ bytes.
      panic_if (ltb (length bytes) s.p_filesz)
      >> (check_sizes s
          >> (bail_if (leb (2 ^ 32) (u64 (s.p_vaddr + s.p_memsz))) (segment_out_of_range s.p_vaddr)
              >> write_segment s (take s.p_filesz bytes) m))

  -- One round of the loop over the headers.
  unfoldable pub load_segment : Segment → Memory → Result Memory
  unfolding load_contents
  load_segment s m = if s.p_type == 0x70000003 then ok m else load_contents s s.contents m

  unfoldable pub load_segments : List Segment → Memory → Result Memory
  unfolding load_segment
  load_segments [] m = ok m
  load_segments (s ∷ segments) m = load_segment s m >>= λ m'. load_segments segments m'

  -- `load_elf`.
  unfoldable pub load_elf : ElfParser → List ℕ → Result State
  unfolding load_segments default_state
  load_elf minimal_parse raw = or_error (minimal_parse raw) >>= λ elf. elim elf.segments [
    | none ↦ err no_segments
    | some segments ↦
        (load_segments segments Memory.default >>= λ memory. ok (record default_state {
          pc = u32 elf.e_entry;
          next_pc = add32 (u32 elf.e_entry) 4;
          heap = 0x20000000;
          memory = memory;
        }))
  ]
