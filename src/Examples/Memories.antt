-- ===== src/Examples/Memories.antt =====
-- Concrete runs of the theorems on pages, on ranges of memory and on programs that are loaded.
use cannon_rs.Prelude.{
  replicate, length, length-replicate, ◌*◌, ℕ, ◌≡◌, refl, some, List, [], ◌∷◌, slice, ok, Settles,
  Succeeds, arith,
}
use cannon_rs.Word.{u32, add32}
use cannon_rs.Memory
use cannon_rs.Memory.{Memory, Slot}
use cannon_rs.Memory.Invariant.{IsValid, byte_at}
use cannon_rs.Memory.Range.{slice_reader, set_memory_range}
use cannon_rs.Memory.Fills.{Fills, set_memory_range-Fills}
use cannon_rs.Memory.Reader.{MemoryReader, read_to_end}
use cannon_rs.Memory.Slices.{read_to_end-Slices}
use cannon_rs.Memory.RoundTrip.{default-IsValid}
use cannon_rs.Memory.Usage.{Readable, usage, usage-Readable}
use cannon_rs.Patch.MultiReader.{MultiReader, multi_reader}
use cannon_rs.Patch.Elf.{Segment, ElfParser, load_elf}
use cannon_rs.Patch.Loaded.{Shows, overlay, load_elf-Loads}
use cannon_rs.Examples.{constant_hash}

abbrev three_bytes : MultiReader (List ℕ) (List ℕ)
three_bytes = record { first = 1 ∷ 2 ∷ []; second = 3 ∷ [] }

abbrev start_of_memory : MemoryReader
start_of_memory = record { memory = Memory.default; address = 4090; count = 10 }

abbrev pub example_segment : Segment
example_segment = record {
  p_type = 1;
  p_vaddr = 4094;
  p_filesz = 2;
  p_memsz = 6;
  contents = some (7 ∷ 8 ∷ 9 ∷ []);
}

abbrev pub example_parser : ElfParser
example_parser raw = some (record { e_entry = 4096; segments = some (example_segment ∷ []) })

set_memory_range-Fills_example :
    (m' : Memory) × (set_memory_range constant_hash
        (multi_reader slice_reader slice_reader)
        4
        4095
        three_bytes
        Memory.default
      ≡ ok m')
    × Fills 4095 (1 ∷ 2 ∷ 3 ∷ []) Memory.default m'
set_memory_range-Fills_example =
    set_memory_range-Fills constant_hash (multi_reader slice_reader slice_reader) 4 4095 three_bytes
      Memory.default (omega arith) (omega arith) (omega arith) default-IsValid

read_to_end-Slices_example :
    (slot_0 : Slot) × (slot_1 : Slot) × (read_to_end 11 start_of_memory
      ≡ ok (
        slice (byte_at Memory.default) 4090 10,
        record Memory.default { last_page_0 = slot_0; last_page_1 = slot_1 },
      ))
    × IsValid (record Memory.default { last_page_0 = slot_0; last_page_1 = slot_1 })
    × (byte_at (record Memory.default { last_page_0 = slot_0; last_page_1 = slot_1 })
        ≡ byte_at Memory.default)
read_to_end-Slices_example =
    read_to_end-Slices 11 start_of_memory (omega arith) (omega arith) default-IsValid

-- A memory of 300 pages, 1.2 MiB.
abbrev many_pages : Memory
many_pages = record Memory.default { pages = replicate 300 (0, 0) }

usage-Readable_example : Succeeds (Readable (length many_pages.pages * 4096)) (usage many_pages)
usage-Readable_example =
    let size : length many_pages.pages ≡ 300 = length-replicate {A = ℕ × ℕ} 300 (0, 0) in
    usage-Readable many_pages (omega (arith, size))

load_elf-Loads_example :
    Settles
      (λ s.
        Shows (overlay (example_segment ∷ []) (λ _. 0)) s.memory
        × (s.pc ≡ u32 4096)
        × (s.next_pc ≡ add32 (u32 4096) 4)
        × (s.step ≡ 0))
      (load_elf constant_hash example_parser [])
load_elf-Loads_example =
    load_elf-Loads constant_hash example_parser [] 4096 (example_segment ∷ []) refl
      (omega arith, tt)
