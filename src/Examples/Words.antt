-- ===== src/Examples/Words.antt =====
-- Concrete runs of the theorems on the instructions that load and store a word: `sw` and `lw` of register 2
-- at the offset 4 from register 1, at the address 16.
use cannon_rs.Prelude.{ℕ, ◌+◌, ◌/◌, ◌^◌, ◌≡◌, ◌==◌, refl, if◌then◌else◌, ok, copy_at, arith}
use cannon_rs.Word.{u64, add32}
use cannon_rs.Word.Bytes.{u32_to_be_bytes, from_be_bytes}
use cannon_rs.Memory
use cannon_rs.Memory.{Memory, set_memory}
use cannon_rs.Memory.Invariant.{byte_at}
use cannon_rs.Memory.Sound.{IsSound}
use cannon_rs.Memory.Writes.{set_memory-Writes}
use cannon_rs.Memory.RoundTrip.{default-IsValid, default-IsCoherent}
use cannon_rs.Vm.{InstrumentedState}
use cannon_rs.Vm.Handlers.{set_register}
use cannon_rs.Vm.Step.{rt_reg_of, inner_step}
use cannon_rs.Vm.WordAccess.{word_address, word_at, inner_step_stores, inner_step_loads}
use cannon_rs.Examples.{constant_hash, example_state, example_vm, quiet_oracle}

abbrev program : ℕ → Memory
program instruction =
    (set_memory-Writes constant_hash 16 instruction Memory.default (omega arith) (omega arith)
      default-IsValid (default-IsCoherent constant_hash)).after

abbrev at_instruction : ℕ → InstrumentedState (Unit {0})
at_instruction instruction = record example_vm {
  state = record example_state { memory = program instruction };
}

program-IsSound : (instruction : ℕ) → IsSound constant_hash (program instruction)
program-IsSound instruction =
    let w =
      set_memory-Writes constant_hash 16 instruction Memory.default (omega arith) (omega arith)
        default-IsValid (default-IsCoherent constant_hash) in
    record { valid = w.valid; coherent = w.coherent }

store_opcode : word_at (program 0xAC220004) 16 / 2 ^ 26 ≡ 0x2B
unfolding copy_at cannon_rs.Word.Bytes.from_be
store_opcode =
    rw
      ((set_memory-Writes constant_hash 16 0xAC220004 Memory.default (omega arith) (omega arith)
        default-IsValid (default-IsCoherent constant_hash)).view)
      refl

load_opcode : word_at (program 0x8C220004) 16 / 2 ^ 26 ≡ 0x23
unfolding copy_at cannon_rs.Word.Bytes.from_be
load_opcode =
    rw
      ((set_memory-Writes constant_hash 16 0x8C220004 Memory.default (omega arith) (omega arith)
        default-IsValid (default-IsCoherent constant_hash)).view)
      refl

abbrev store_vm : InstrumentedState (Unit {0})
store_vm = at_instruction 0xAC220004

abbrev load_vm : InstrumentedState (Unit {0})
load_vm = at_instruction 0x8C220004

inner_step_stores_example :
    (m' : Memory) × (inner_step constant_hash quiet_oracle store_vm
      ≡ ok (record store_vm {
        state = record (store_vm.state) {
          memory = m';
          pc = 20;
          next_pc = add32 20 4;
          step = u64 (3 + 1);
        };
      }))
    × IsSound constant_hash m'
    × (byte_at m'
        ≡ copy_at
            (byte_at store_vm.state.memory)
            (word_address (word_at store_vm.state.memory 16) store_vm.state)
            (u32_to_be_bytes
              (store_vm.state.registers (rt_reg_of (word_at store_vm.state.memory 16)))))
inner_step_stores_example =
    inner_step_stores constant_hash quiet_oracle store_vm (program-IsSound 0xAC220004) refl refl
      refl store_opcode

inner_step_loads_example :
    (m' : Memory) × (inner_step constant_hash quiet_oracle load_vm ≡ (
      let instruction = word_at load_vm.state.memory 16 in
      let s = record (load_vm.state) {
        memory = m';
        pc = 20;
        next_pc = add32 20 4;
        step = u64 (3 + 1);
      } in
      ok (record load_vm {
        state =
            if rt_reg_of instruction == 0
            then s
            else set_register
                (rt_reg_of instruction)
                (word_at load_vm.state.memory (word_address instruction load_vm.state))
                s;
      })))
    × IsSound constant_hash m'
    × (byte_at m' ≡ byte_at load_vm.state.memory)
inner_step_loads_example =
    inner_step_loads constant_hash quiet_oracle load_vm (program-IsSound 0x8C220004) refl refl refl
      load_opcode
