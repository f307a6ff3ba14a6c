-- ===== src/Vm/JumpStep.antt =====
-- The instructions `j` and `jal` through the whole of `inner_step` of crates/mipsevm/src/mips/mips_vm.rs,
-- with the instruction in the slot after a jump.
use cannon_rs.Prelude.{
  ℕ, ◌+◌, ◌*◌, ◌/◌, ◌%◌, ◌^◌, ◌≡◌, ◌≢◌, ◌==◌, ==_iff, ◌⊎◌, refl, sym, ap, ◌∙◌, Bool-cases, inl, inr,
  true, false, if◌then◌else◌, bit_and, bit_or, ok, err, subst, slice, update, jump_in_delay_slot,
  arith,
}
use cannon_rs.Word.{u64, add32, shl32}
use cannon_rs.Word.Bits.{bit_and_shifted, bit_and_mask, bit_or_fields}
use cannon_rs.Word.Bytes.{from_be_bytes}
use cannon_rs.Hash.{Keccak}
use cannon_rs.Memory.{Memory}
use cannon_rs.Memory.Invariant.{byte_at}
use cannon_rs.Memory.Sound.{IsSound}
use cannon_rs.Vm.{PreimageOracle, InstrumentedState}
use cannon_rs.Vm.Handlers.{handle_jump}
use cannon_rs.Vm.Step.{jump_instruction, execute_instruction, inner_step}
use cannon_rs.Vm.WordAccess.{word_at, looks, running}

-- The target of a jump in the region of 2 ^ 28 bytes of its slot.
abbrev pub jump_target : ℕ → ℕ → ℕ
jump_target instruction slot = slot / 2 ^ 28 % 16 * 2 ^ 28 + instruction % 2 ^ 26 * 4

target_lem :
    (instruction slot : ℕ)
    → bit_or (bit_and slot 0xF0000000) (shl32 (bit_and instruction 0x03FFFFFF) 2)
      ≡ jump_target instruction slot
target_lem instruction slot =
    let high : bit_and slot 0xF0000000 ≡ slot / 2 ^ 28 % 16 * 2 ^ 28 =
      bit_and_shifted 28 15 slot ∙ ap (λ (n : ℕ). n * 2 ^ 28) (bit_and_mask 4 (slot / 2 ^ 28)) in
    let low : shl32 (bit_and instruction 0x03FFFFFF) 2 ≡ instruction % 2 ^ 26 * 4 =
      omega (arith, bit_and_mask 26 instruction) in
    rw (high, low) (bit_or_fields 28 (slot / 2 ^ 28 % 16) (instruction % 2 ^ 26 * 4) (omega arith))

module _ {Server : Type 0} (keccak256 : Keccak) (oracle : PreimageOracle Server) where
  abbrev Vm : Type 0
  Vm = InstrumentedState Server

  -- The thread after a jump: the slot is next and the target after it, and `jal` has linked.
  abbrev pub jumped : ℕ → Memory → Vm → Vm
  jumped instruction m' vm = record vm {
    state = record (vm.state) {
      memory = m';
      pc = vm.state.next_pc;
      next_pc = jump_target instruction vm.state.next_pc;
      registers =
          if instruction / 2 ^ 26 == 3
          then update vm.state.registers 31 (add32 vm.state.pc 8)
          else vm.state.registers;
      step = u64 (vm.state.step + 1);
    };
  }

  executed :
      (instruction : ℕ) (vm : Vm)
      → (instruction / 2 ^ 26 ≡ 2) ⊎ (instruction / 2 ^ 26 ≡ 3)
      → execute_instruction keccak256 oracle instruction vm ≡ (
          if vm.state.next_pc == add32 vm.state.pc 4
          then ok (record vm {
            state = record (vm.state) {
              pc = vm.state.next_pc;
              next_pc = jump_target instruction vm.state.next_pc;
              registers =
                  if instruction / 2 ^ 26 == 3
                  then update vm.state.registers 31 (add32 vm.state.pc 8)
                  else vm.state.registers;
            };
          })
          else err (jump_in_delay_slot vm.state.pc))
  unfolding execute_instruction jump_instruction handle_jump
  executed instruction vm (inl is_j) = elim (Bool-cases (vm.state.next_pc == add32 vm.state.pc 4)) [
    | inl follows ↦ rw (is_j, follows, target_lem instruction vm.state.next_pc) refl
    | inr late ↦ rw (is_j, late) refl
  ]
  executed instruction vm (inr is_jal) =
      elim (Bool-cases (vm.state.next_pc == add32 vm.state.pc 4)) [
        | inl follows ↦ rw (is_jal, follows, target_lem instruction vm.state.next_pc) refl
        | inr late ↦ rw (is_jal, late) refl
      ]

  abbrev pub IsJump : ℕ → Type 0
  IsJump instruction = (instruction / 2 ^ 26 ≡ 2) ⊎ (instruction / 2 ^ 26 ≡ 3)

  -- A step of a running thread with a sound memory, whose program counter is aligned and at an instruction
  -- with the opcode of `j` or `jal`: if the next program counter follows, it succeeds; the slot is
  -- next, and the target comes after it, which is the word that the low 26 bits of the instruction name
  -- in the region of 2 ^ 28 bytes of the slot; `jal` has put the address after the slot into register 31,
  -- the step counter has grown, and the memory is sound with the same view. If the next program counter
  -- does not follow, the jump stands in a delay slot, and the step is an error.
  pub inner_step_jumps :
      (vm : Vm)
      → IsSound keccak256 vm.state.memory
      → vm.state.exited ≡ false
      → vm.state.pc % 4 ≡ 0
      → IsJump (word_at vm.state.memory vm.state.pc)
      → (m' : Memory) × (inner_step keccak256 oracle vm ≡ (
          if vm.state.next_pc == add32 vm.state.pc 4
          then ok (jumped (word_at vm.state.memory vm.state.pc) m' vm)
          else err (jump_in_delay_slot vm.state.pc)))
        × IsSound keccak256 m'
        × (byte_at m' ≡ byte_at vm.state.memory)
  inner_step_jumps vm sound runs aligned is_jump =
      let fetched = looks keccak256 oracle vm.state.pc vm.state.memory aligned sound in
      let instruction = word_at vm.state.memory vm.state.pc in
      (
        fetched.after,
        running keccak256 oracle vm instruction fetched.after runs fetched.returns
            ∙ executed instruction
                (record vm {
                  state = record (vm.state) {
                    memory = fetched.after;
                    step = u64 (vm.state.step + 1);
                  };
                })
                is_jump,
        fetched.sound,
        fetched.view,
      )

  -- Two steps from a jump, `j` or `jal`, whose slot follows it and holds a jump as well, at addresses that
  -- are aligned, of a running thread with a sound memory: unless the first jump goes to the instruction
  -- after its slot, the first step succeeds and the second one is the error of a jump in a delay slot.
  pub inner_step_twice :
      (vm : Vm)
      → IsSound keccak256 vm.state.memory
      → vm.state.exited ≡ false
      → vm.state.pc % 4 ≡ 0
      → vm.state.next_pc ≡ add32 vm.state.pc 4
      → vm.state.next_pc % 4 ≡ 0
      → IsJump (word_at vm.state.memory vm.state.pc)
      → IsJump (word_at vm.state.memory vm.state.next_pc)
      → jump_target (word_at vm.state.memory vm.state.pc) vm.state.next_pc
        ≢ add32 vm.state.next_pc 4
      → (after : Vm) × (inner_step keccak256 oracle vm ≡ ok after)
        × (inner_step keccak256 oracle after ≡ err (jump_in_delay_slot vm.state.next_pc))
  inner_step_twice vm sound runs aligned follows slot_aligned is_jump slot_jumps away =
      let (m', first, sound', view) = inner_step_jumps vm sound runs aligned is_jump in
      let after = jumped (word_at vm.state.memory vm.state.pc) m' vm in
      let in_order : (vm.state.next_pc == add32 vm.state.pc 4) ≡ true =
        (==_iff vm.state.next_pc (add32 vm.state.pc 4)).1 follows in
      let (m2, second, sound2, view2) = inner_step_jumps after sound' runs slot_aligned (
        subst (λ (f : ℕ → ℕ). IsJump (from_be_bytes (slice f vm.state.next_pc 4))) (sym view)
          slot_jumps) in
      let late : (jump_target (word_at vm.state.memory vm.state.pc) vm.state.next_pc
            == add32 vm.state.next_pc 4)
          ≡ false =
        ground (arith, away) in
      (after, first ∙ (rw in_order refl), second ∙ (rw late refl))
