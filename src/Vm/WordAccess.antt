-- ===== src/Vm/WordAccess.antt =====
-- The instructions that load and store a word, through the whole of `inner_step` of
-- crates/mipsevm/src/mips/mips_vm.rs, against the flat view of memory.
use cannon_rs.Prelude.{
  Bool, leb, if◌then◌else◌, ℕ, ◌+◌, ◌/◌, ◌%◌, ◌^◌, ◌≡◌, ◌==◌, refl, ap, ◌∙◌, true, false, not, ◌&&◌,
  slice, copy_at, bit_and, Result, ok, arith,
}
use cannon_rs.Word.{u64, add32}
use cannon_rs.Word.Bits.{bit_and_shifted, bit_and_mask}
use cannon_rs.Word.Bytes.{from_be_bytes, u32_to_be_bytes}
use cannon_rs.Hash.{Keccak}
use cannon_rs.Memory.{Memory, get_memory, set_memory}
use cannon_rs.Memory.Invariant.{byte_at}
use cannon_rs.Memory.Sound.{IsSound}
use cannon_rs.Memory.Reads.{get_memory-Reads}
use cannon_rs.Memory.Stores.{slots-IsCoherent}
use cannon_rs.Memory.Views.{byte_at_pages}
use cannon_rs.Memory.Writes.{set_memory-Writes}
use cannon_rs.State.{State}
use cannon_rs.Vm.{PreimageOracle, InstrumentedState, track_mem_access, u32_max}
use cannon_rs.Vm.Alu.{sign_extend, execute, execute_memory}
use cannon_rs.Vm.Handlers.{advance, handle_rd, set_register}
use cannon_rs.Vm.Preserved.{aligned_fits}
use cannon_rs.Vm.Syscalls.{tracked_word}
use cannon_rs.Vm.Step.{
  rt_reg_of, fetch_operands, fetch_memory, write_back, complete, execute_instruction, inner_step,
}

-- The word address of an instruction that loads or stores: the base register with the offset.
abbrev pub word_address : ℕ → State → ℕ
word_address instruction s =
    bit_and
      (add32 (s.registers (bit_and (instruction / 2 ^ 21) 0x1F))
        (sign_extend (bit_and instruction 0xFFFF) 16))
      0xFFFFFFFC

aligned_address : (x : ℕ) → bit_and x 0xFFFFFFFC % 4 ≡ 0
aligned_address x = omega (arith, bit_and_shifted 2 0x3FFFFFFF x)

not_max : (x : ℕ) → (bit_and x 0xFFFFFFFC == u32_max) ≡ false
not_max x = ground (arith, bit_and_shifted 2 0x3FFFFFFF x)

-- The word of the flat view at an address.
abbrev pub word_at : Memory → ℕ → ℕ
word_at m a = from_be_bytes (slice (byte_at m) a 4)

register_fits : (x : ℕ) → leb 32 (bit_and x 0x1F) ≡ false
register_fits x = ground (arith, bit_and_mask 5 x)

module _ {Server : Type 0} (keccak256 : Keccak) (oracle : PreimageOracle Server) where
  abbrev Vm : Type 0
  Vm = InstrumentedState Server

  executed :
      (instruction mem : ℕ) (m1 m2 : Memory) (vm : Vm)
      → vm.mem_proof_enabled ≡ false
      → instruction / 2 ^ 26 ≡ 0x2B
      → get_memory (word_address instruction vm.state) vm.state.memory ≡ ok (mem, m1)
      → set_memory keccak256
          (word_address instruction vm.state)
          (vm.state.registers (rt_reg_of instruction))
          m1
        ≡ ok m2
      → execute_instruction keccak256 oracle instruction vm
        ≡ ok (record vm { state = advance (record (vm.state) { memory = m2 }) })
  unfolding execute_instruction fetch_operands fetch_memory complete execute execute_memory
      write_back handle_rd tracked_word track_mem_access
  executed instruction mem m1 m2 vm off is_sw loads stores =
      rw
        (
          is_sw,
          off,
          loads,
          not_max (
              add32 (vm.state.registers (bit_and (instruction / 2 ^ 21) 0x1F))
                (sign_extend (bit_and instruction 0xFFFF) 16)),
          stores,
        )
        refl

  -- A read leaves a sound memory with the same view.
  pub record Looks (a : ℕ) (m : Memory) : Type 0 where
    pub after : Memory
    pub returns : get_memory a m ≡ ok (word_at m a, after)
    pub sound : IsSound keccak256 after
    pub view : byte_at after ≡ byte_at m

  pub looks : (a : ℕ) (m : Memory) → a % 4 ≡ 0 → IsSound keccak256 m → Looks a m
  looks a m aligned s =
      let r = get_memory-Reads a m aligned s.valid in
      let m1 = record m { last_page_0 = r.slot_0; last_page_1 = r.slot_1 } in
      record {
        after = m1;
        returns = r.returns;
        sound = record {
          valid = r.valid;
          coherent = slots-IsCoherent keccak256 m r.slot_0 r.slot_1 s.coherent;
        };
        view = byte_at_pages m m1 refl refl;
      }

  pub running :
      (vm : Vm) (instruction : ℕ) (m : Memory)
      → vm.state.exited ≡ false
      → get_memory vm.state.pc vm.state.memory ≡ ok (instruction, m)
      → inner_step keccak256 oracle vm
        ≡ execute_instruction keccak256 oracle instruction
            (record vm { state = record (vm.state) { memory = m; step = u64 (vm.state.step + 1) } })
  unfolding inner_step
  running vm instruction m runs fetched = rw (fetched) (chosen _ _ vm.state.exited runs)
    where
      chosen : (r r' : Result Vm) (b : Bool) → b ≡ false → (if b then r else r') ≡ r'
      chosen r r' true h = cc h
      chosen r r' false h = refl

  -- A step of a running thread with a sound memory, without a proof of the memory access, whose program
  -- counter is aligned and at an instruction with the opcode of `sw`, succeeds: the four bytes of the view
  -- at the word address of the instruction become those of the register that it names, no other byte
  -- changes, the program counters move on, the step counter grows, and the memory is sound.
  pub inner_step_stores :
      (vm : Vm)
      → IsSound keccak256 vm.state.memory
      → vm.state.exited ≡ false
      → vm.mem_proof_enabled ≡ false
      → vm.state.pc % 4 ≡ 0
      → word_at vm.state.memory vm.state.pc / 2 ^ 26 ≡ 0x2B
      → (m' : Memory) × (inner_step keccak256 oracle vm
          ≡ ok (record vm {
            state = record (vm.state) {
              memory = m';
              pc = vm.state.next_pc;
              next_pc = add32 vm.state.next_pc 4;
              step = u64 (vm.state.step + 1);
            };
          }))
        × IsSound keccak256 m'
        × (byte_at m'
            ≡ copy_at
                (byte_at vm.state.memory)
                (word_address (word_at vm.state.memory vm.state.pc) vm.state)
                (u32_to_be_bytes
                  (vm.state.registers (rt_reg_of (word_at vm.state.memory vm.state.pc)))))
  unfolding advance
  inner_step_stores vm sound runs off aligned is_sw =
      let instruction = word_at vm.state.memory vm.state.pc in
      let address = word_address instruction vm.state in
      let value = vm.state.registers (rt_reg_of instruction) in
      let fetched = looks vm.state.pc vm.state.memory aligned sound in
      let at : address % 4 ≡ 0 = aligned_address _ in
      let loaded = looks address fetched.after at fetched.sound in
      let stored =
        set_memory-Writes keccak256 address value loaded.after at (aligned_fits _)
          loaded.sound.valid loaded.sound.coherent in
      let counted = record vm {
        state = record (vm.state) { memory = fetched.after; step = u64 (vm.state.step + 1) };
      } in
      (
        stored.after,
        running vm instruction fetched.after runs fetched.returns
            ∙ executed instruction (word_at fetched.after address) loaded.after stored.after counted
                off is_sw loaded.returns stored.returns,
        record { valid = stored.valid; coherent = stored.coherent },
        stored.view
            ∙ ap (λ (f : ℕ → ℕ). copy_at f address (u32_to_be_bytes value))
                (loaded.view ∙ fetched.view),
      )

  executed_load :
      (instruction mem : ℕ) (m1 : Memory) (vm : Vm)
      → vm.mem_proof_enabled ≡ false
      → instruction / 2 ^ 26 ≡ 0x23
      → get_memory (word_address instruction vm.state) vm.state.memory ≡ ok (mem, m1)
      → execute_instruction keccak256 oracle instruction vm
        ≡ ok (record vm {
          state = advance (
              if not (rt_reg_of instruction == 0) && true
              then set_register (rt_reg_of instruction) mem (record (vm.state) { memory = m1 })
              else record (vm.state) { memory = m1 });
        })
  unfolding execute_instruction fetch_operands fetch_memory complete execute execute_memory
      write_back handle_rd tracked_word track_mem_access
  executed_load instruction mem m1 vm off is_lw loads =
      rw (is_lw, off, loads, register_fits (instruction / 2 ^ 16)) refl

  placed :
      (b : Bool) (reg w w' : ℕ) (vm : Vm)
      → w ≡ w'
      → ◌≡◌ {A = Result Vm}
          (ok (record vm {
            state = advance (if not b && true then set_register reg w vm.state else vm.state);
          }))
          (ok (record vm {
            state = if b then advance vm.state else set_register reg w' (advance vm.state);
          }))
  unfolding advance
  placed true reg w w' vm e = refl
  placed false reg w w' vm e =
      ap (λ x. ok (record vm { state = set_register reg x (advance vm.state) })) e

  -- A step of a running thread with a sound memory, without a proof of the memory access, whose program
  -- counter is aligned and at an instruction with the opcode of `lw`, succeeds: the register that the
  -- instruction names, unless it is register 0, becomes the big-endian word of the view at the word
  -- address of the instruction, the program counters move on, the step counter grows, and the memory is
  -- sound with the same view.
  pub inner_step_loads :
      (vm : Vm)
      → IsSound keccak256 vm.state.memory
      → vm.state.exited ≡ false
      → vm.mem_proof_enabled ≡ false
      → vm.state.pc % 4 ≡ 0
      → word_at vm.state.memory vm.state.pc / 2 ^ 26 ≡ 0x23
      → (m' : Memory) × (inner_step keccak256 oracle vm ≡ (
          let instruction = word_at vm.state.memory vm.state.pc in
          let s = record (vm.state) {
            memory = m';
            pc = vm.state.next_pc;
            next_pc = add32 vm.state.next_pc 4;
            step = u64 (vm.state.step + 1);
          } in
          ok (record vm {
            state =
                if rt_reg_of instruction == 0
                then s
                else set_register
                    (rt_reg_of instruction)
                    (word_at vm.state.memory (word_address instruction vm.state))
                    s;
          })))
        × IsSound keccak256 m'
        × (byte_at m' ≡ byte_at vm.state.memory)
  unfolding advance
  inner_step_loads vm sound runs off aligned is_lw =
      let instruction = word_at vm.state.memory vm.state.pc in
      let address = word_address instruction vm.state in
      let fetched = looks vm.state.pc vm.state.memory aligned sound in
      let loaded = looks address fetched.after (aligned_address _) fetched.sound in
      let counted = record vm {
        state = record (vm.state) { memory = fetched.after; step = u64 (vm.state.step + 1) };
      } in
      (
        loaded.after,
        running vm instruction fetched.after runs fetched.returns
            ∙ executed_load instruction (word_at fetched.after address) loaded.after counted off
                is_lw loaded.returns
            ∙ placed (rt_reg_of instruction == 0) (rt_reg_of instruction)
                (word_at fetched.after address) (word_at vm.state.memory address)
                (record vm {
                  state = record (vm.state) {
                    memory = loaded.after;
                    step = u64 (vm.state.step + 1);
                  };
                })
                (ap (λ (f : ℕ → ℕ). from_be_bytes (slice f address 4)) fetched.view),
        loaded.sound,
        loaded.view ∙ fetched.view,
      )
