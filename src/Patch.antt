-- ===== src/Patch.antt =====
-- crates/mipsevm/src/patch.rs: what `patch_go` and `patch_stack` write to the memory of a program. The
-- symbols of the ELF file are read by another crate: they are a list of names and values here.
pub mod MultiReader
pub mod Elf
pub mod Loaded
pub mod Started
use cannon_rs.Prelude.{
  ℕ, suc, ◌+◌, ◌-◌, ◌*◌, Bool, List, [], ◌∷◌, length, replicate, if◌then◌else◌, Result, ok, ◌>>=◌,
}
use cannon_rs.Word.{u32}
use cannon_rs.Hash.{Keccak}
use cannon_rs.Page.{page_size}
use cannon_rs.Memory.{Memory, set_memory}
use cannon_rs.Memory.Range.{slice_reader, set_memory_range}
use cannon_rs.State.{State}
use cannon_rs.Vm.Handlers.{set_register}

-- A symbol: whether it is one of `GO_SYMBOLS`, whether it is `runtime.MemProfileRate`, its value.
pub record Symbol : Type 0 where
  pub is_go_symbol : Bool
  pub is_mem_profile_rate : Bool
  pub value : ℕ

-- `jr $ra`, and the instruction in its slot.
abbrev pub ret_bytes : List ℕ
ret_bytes = 0x03 ∷ 0xE0 ∷ 0x00 ∷ 0x08 ∷ 0x00 ∷ 0x00 ∷ 0x00 ∷ 0x00 ∷ []

abbrev pub stack_pointer : ℕ
stack_pointer = 0x7FFFD000

-- `b"4;byfairdiceroll"`.
abbrev pub dice_roll : List ℕ
dice_roll =
    52 ∷ 59 ∷ 98 ∷ 121 ∷ 102 ∷ 97 ∷ 105 ∷ 114 ∷ 100 ∷ 105 ∷ 99 ∷ 101 ∷ 114 ∷ 111 ∷ 108 ∷ 108 ∷ []

module _ (keccak256 : Keccak) where
  -- A write of bytes. Every round of the loop but the last writes one byte or more.
  abbrev pub write_range : ℕ → List ℕ → Memory → Result Memory
  write_range address bytes m =
      set_memory_range keccak256 slice_reader (suc (length bytes)) address bytes m

  -- The patch of one symbol.
  unfoldable pub patch_symbol : Symbol → Memory → Result Memory
  patch_symbol symbol m =
      if symbol.is_go_symbol
      then write_range (u32 symbol.value) ret_bytes m
      else if symbol.is_mem_profile_rate
      then set_memory keccak256 (u32 symbol.value) 0 m
      else ok m

  -- `patch_go`.
  unfoldable pub patch_go : List Symbol → Memory → Result Memory
  unfolding patch_symbol
  patch_go [] m = ok m
  patch_go (symbol ∷ symbols) m = patch_symbol symbol m >>= λ m'. patch_go symbols m'

  -- The words at the start of the stack: argc, argv, envp and auxv.
  unfoldable pub store_words : List (ℕ × ℕ) → Memory → Result Memory
  store_words [] m = ok m
  store_words ((address, value) ∷ words) m =
      set_memory keccak256 address value m >>= λ m'. store_words words m'

  abbrev pub initial_stack : List (ℕ × ℕ)
  initial_stack =
      (stack_pointer + 4, 0x42)
      ∷ (stack_pointer + 4 * 2, 0x35)
      ∷ (stack_pointer + 4 * 3, 0)
      ∷ (stack_pointer + 4 * 4, 6)
      ∷ (stack_pointer + 4 * 5, 4096)
      ∷ (stack_pointer + 4 * 6, 25)
      ∷ (stack_pointer + 4 * 7, stack_pointer + 4 * 9)
      ∷ (stack_pointer + 4 * 8, 0)
      ∷ []

  -- `patch_stack`.
  unfoldable pub patch_stack : State → Result State
  unfolding store_words
  patch_stack s =
      write_range (stack_pointer - 4 * page_size) (replicate (page_size * 5) 0) s.memory
      >>= λ zeroed. store_words initial_stack zeroed >>= λ stacked.
          write_range (stack_pointer + 4 * 9) dice_roll stacked >>= λ memory.
          ok (set_register 29 stack_pointer (record s { memory = memory }))
