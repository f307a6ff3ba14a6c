-- ===== src/Patch/Started.antt =====
-- The state that a program starts from, crates/mipsevm/src/patch.rs: what `load_elf`, `patch_go` and
-- `patch_stack` leave is ready for the first step.
use cannon_rs.Prelude.{
  ℕ, zero, suc, ◌+◌, ◌-◌, ◌*◌, ◌^◌, ◌<◌, ◌≡◌, ◌==◌, Option, none, some, List, [], ◌∷◌, ◌++◌, length,
  take, replicate, Option-cases, inl, inr, no_segments, ok, err, Holds, Holds-bind, Holds-then,
  Holds-if, leb, ltb, bail_if, panic_if, ◌>>=◌, segment_out_of_range, arith,
}
use cannon_rs.Word.{u32, u64, add32}
use cannon_rs.Hash.{Keccak}
use cannon_rs.Hex.{AreBytes}
use cannon_rs.Page.{page_size}
use cannon_rs.Memory
use cannon_rs.Memory.{Memory, set_memory}
use cannon_rs.Memory.Range.{slice_reader}
use cannon_rs.Memory.Fresh.{IsFresh, default-IsFresh, set_memory-IsFresh, set_memory_range-IsFresh}
use cannon_rs.State.{State}
use cannon_rs.Vm.Typed.{HasWords, set_register-HasWords, with_memory-HasWords}
use cannon_rs.Patch.{
  Symbol, ret_bytes, dice_roll, stack_pointer, initial_stack, write_range, patch_symbol, patch_go,
  store_words, patch_stack,
}
use cannon_rs.Patch.MultiReader.{multi_reader}
use cannon_rs.Patch.Elf.{
  Segment, ParsedElf, ElfParser, default_state, check_sizes, write_segment, load_contents,
  load_segment, load_segments, load_elf,
}

take-bytes : (n : ℕ) (bytes : List ℕ) → AreBytes bytes → AreBytes (take n bytes)
take-bytes zero bytes h = tt
take-bytes (suc n) [] h = tt
take-bytes (suc n) (b ∷ bytes) h = (h.0, take-bytes n bytes h.1)

pub zero-bytes : (n : ℕ) → AreBytes (replicate n 0)
zero-bytes zero = tt
zero-bytes (suc n) = (omega arith, zero-bytes n)

append-bytes : (xs ys : List ℕ) → AreBytes xs → AreBytes ys → AreBytes (xs ++ ys)
append-bytes [] ys h k = k
append-bytes (x ∷ xs) ys h k = (h.0, append-bytes xs ys h.1 k)

-- The contents of the segments are bytes.
abbrev pub HoldBytes : Option (List Segment) → Type 0
HoldBytes none = Unit
HoldBytes (some []) = Unit
HoldBytes (some (s ∷ segments)) =
    (elim s.contents [ none ↦ Unit | some bytes ↦ AreBytes bytes ]) × HoldBytes (some segments)

-- A parser of ELF files gives the bytes of a file.
abbrev pub ParsesBytes : ElfParser → Type 0
ParsesBytes minimal_parse =
    (raw : List ℕ) (elf : ParsedElf) → minimal_parse raw ≡ some elf → HoldBytes elf.segments

module _ (keccak256 : Keccak) where
  abbrev Fresh : Memory → Type 0
  Fresh m = IsFresh keccak256 m

  -- A state that no step was made from: its fields have their types, its memory is fresh, and its key and
  -- its hint are bytes.
  abbrev pub IsStarted : State → Type 0
  IsStarted s = HasWords s × Fresh s.memory × AreBytes s.preimage_key × AreBytes s.last_hint

  write_segment-IsFresh :
      (s : Segment) (section : List ℕ) (m : Memory)
      → AreBytes section
      → Fresh m
      → Holds Fresh (write_segment keccak256 s section m)
  unfolding write_segment
  write_segment-IsFresh s section m small f =
      let zeros : List ℕ = replicate (s.p_memsz - s.p_filesz) 0 in
      Holds-if Fresh (s.p_filesz == s.p_memsz) _ _
        (set_memory_range-IsFresh keccak256 slice_reader (suc (length section)) (u32 s.p_vaddr)
          section m (omega arith) small f)
        (set_memory_range-IsFresh keccak256 (multi_reader slice_reader slice_reader)
          (suc (length section + (s.p_memsz - s.p_filesz))) (u32 s.p_vaddr)
          (record { first = section; second = zeros }) m (omega arith)
          (append-bytes section zeros small (zero-bytes (s.p_memsz - s.p_filesz))) f)

  load_contents-IsFresh :
      (s : Segment) (contents : Option (List ℕ)) (m : Memory)
      → (elim contents as (λ _. Type 0) [ none ↦ Unit | some bytes ↦ AreBytes bytes ])
      → Fresh m
      → Holds Fresh (load_contents keccak256 s contents m)
  unfolding load_contents
  load_contents-IsFresh s none m small f = tt
  load_contents-IsFresh s (some bytes) m small f =
      Holds-then Fresh (panic_if (ltb (length bytes) s.p_filesz)) _ λ _.
        Holds-then Fresh (check_sizes s) _ λ _.
          Holds-then Fresh
            (bail_if (leb (2 ^ 32) (u64 (s.p_vaddr + s.p_memsz))) (segment_out_of_range s.p_vaddr))
            _
            λ _.
              write_segment-IsFresh s (take s.p_filesz bytes) m (take-bytes s.p_filesz bytes small)
                f

  load_segments-IsFresh :
      (segments : List Segment) (m : Memory)
      → HoldBytes (some segments)
      → Fresh m
      → Holds Fresh (load_segments keccak256 segments m)
  unfolding load_segments load_segment
  load_segments-IsFresh [] m small f = f
  load_segments-IsFresh (s ∷ segments) m small f =
      Holds-bind Fresh Fresh (load_segment keccak256 s m) _
        (Holds-if Fresh (s.p_type == 0x70000003) _ _ f
          (load_contents-IsFresh s s.contents m small.0 f))
        λ m' f'. load_segments-IsFresh segments m' small.1 f'

  -- `load_elf`: the state that it returns is ready to start.
  pub load_elf-IsStarted :
      (minimal_parse : ElfParser) (raw : List ℕ)
      → ParsesBytes minimal_parse
      → Holds IsStarted (load_elf keccak256 minimal_parse raw)
  unfolding load_elf default_state
  load_elf-IsStarted minimal_parse raw law = elim (Option-cases (minimal_parse raw)) [
    | inl unparsed ↦ rw unparsed tt
    | inr (elf, parsed) ↦ rw parsed (started elf.segments elf.e_entry (law raw elf parsed))
  ]
    where
      started :
          (segments : Option (List Segment)) (entry : ℕ)
          → HoldBytes segments
          → Holds IsStarted (elim segments [
            | none ↦ err no_segments
            | some segments ↦
                (load_segments keccak256 segments Memory.default >>= λ memory.
                ok (record default_state {
                  pc = u32 entry;
                  next_pc = add32 (u32 entry) 4;
                  heap = 0x20000000;
                  memory = memory;
                }))
          ])
      started none entry small = tt
      started (some segments) entry small =
          Holds-bind Fresh IsStarted (load_segments keccak256 segments Memory.default) _
            (load_segments-IsFresh segments Memory.default small (default-IsFresh keccak256))
            λ m f. (ground arith, f, omega arith, tt)

  write_range-IsFresh :
      (a : ℕ) (bytes : List ℕ) (m : Memory)
      → a < 2 ^ 32
      → AreBytes bytes
      → Fresh m
      → Holds Fresh (write_range keccak256 a bytes m)
  write_range-IsFresh a bytes m h small f =
      set_memory_range-IsFresh keccak256 slice_reader (suc (length bytes)) a bytes m h small f

  pub patch_go-IsFresh :
      (symbols : List Symbol) (m : Memory) → Fresh m → Holds Fresh (patch_go keccak256 symbols m)
  unfolding patch_go patch_symbol
  patch_go-IsFresh [] m f = f
  patch_go-IsFresh (symbol ∷ symbols) m f =
      Holds-bind Fresh Fresh (patch_symbol keccak256 symbol m) _
        (Holds-if Fresh symbol.is_go_symbol _ _
          (write_range-IsFresh (u32 symbol.value) ret_bytes m (omega arith) (omega arith) f)
          (Holds-if Fresh symbol.is_mem_profile_rate _ _
            (set_memory-IsFresh keccak256 (u32 symbol.value) 0 m (omega arith) f) f))
        λ m' f'. patch_go-IsFresh symbols m' f'

  abbrev InRange : List (ℕ × ℕ) → Type 0
  InRange [] = Unit
  InRange ((address, value) ∷ words) = (address < 2 ^ 32) × InRange words

  store_words-IsFresh :
      (words : List (ℕ × ℕ)) (m : Memory)
      → InRange words
      → Fresh m
      → Holds Fresh (store_words keccak256 words m)
  unfolding store_words
  store_words-IsFresh [] m h f = f
  store_words-IsFresh ((address, value) ∷ words) m h f =
      Holds-bind Fresh Fresh (set_memory keccak256 address value m) _
        (set_memory-IsFresh keccak256 address value m h.0 f)
        λ m' f'. store_words-IsFresh words m' h.1 f'

  pub patch_stack-IsStarted : (s : State) → IsStarted s → Holds IsStarted (patch_stack keccak256 s)
  unfolding patch_stack
  patch_stack-IsStarted s (w, f, key, hint) =
      Holds-bind Fresh IsStarted
        (write_range keccak256 (stack_pointer - 4 * page_size) (replicate (page_size * 5) 0)
          s.memory)
        _
        (write_range-IsFresh (stack_pointer - 4 * page_size) (replicate (page_size * 5) 0) s.memory
          (omega arith) (zero-bytes (page_size * 5)) f)
        λ m1 f1.
          Holds-bind Fresh IsStarted (store_words keccak256 (initial_stack keccak256) m1) _
            (store_words-IsFresh (initial_stack keccak256) m1 (omega arith) f1)
            λ m2 f2.
              Holds-bind Fresh IsStarted
                (write_range keccak256 (stack_pointer + 4 * 9) dice_roll m2) _
                (write_range-IsFresh (stack_pointer + 4 * 9) dice_roll m2 (omega arith)
                  (omega arith) f2)
                λ m3 f3. (
                  set_register-HasWords 29 stack_pointer _ (omega arith)
                      (with_memory-HasWords m3 s w),
                  f3,
                  key,
                  hint,
                )
