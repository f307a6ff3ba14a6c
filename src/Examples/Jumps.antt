-- ===== src/Examples/Jumps.antt =====
-- Concrete runs of the theorems on jumps: `jal` to the address 64 at the address 16, and another one in its
-- slot.
use cannon_rs.Prelude.{
  ◌≡◌, ◌==◌, refl, inr, if◌then◌else◌, ok, err, copy_at, jump_in_delay_slot, arith,
}
use cannon_rs.Word.{add32}
use cannon_rs.Word.Bytes.{u32_to_be_bytes}
use cannon_rs.Memory
use cannon_rs.Memory.{Memory, set_memory}
use cannon_rs.Memory.Invariant.{byte_at}
use cannon_rs.Memory.Sound.{IsSound}
use cannon_rs.Memory.Stores.{Writes}
use cannon_rs.Memory.Writes.{set_memory-Writes}
use cannon_rs.Memory.RoundTrip.{default-IsValid, default-IsCoherent}
use cannon_rs.Vm.{InstrumentedState}
use cannon_rs.Vm.Step.{inner_step}
use cannon_rs.Vm.WordAccess.{word_at}
use cannon_rs.Vm.JumpStep.{jumped, inner_step_jumps, inner_step_twice}
use cannon_rs.Examples.{constant_hash, example_state, example_vm, quiet_oracle}

abbrev first_jump :
    Writes constant_hash 16
      (u32_to_be_bytes 0x0C000010)
      Memory.default
      (set_memory constant_hash 16 0x0C000010 Memory.default)
first_jump =
    set_memory-Writes constant_hash 16 0x0C000010 Memory.default (omega arith) (omega arith)
      default-IsValid (default-IsCoherent constant_hash)

abbrev second_jump :
    Writes constant_hash 20
      (u32_to_be_bytes 0x0C000010)
      first_jump.after
      (set_memory constant_hash 20 0x0C000010 first_jump.after)
second_jump =
    set_memory-Writes constant_hash 20 0x0C000010 first_jump.after (omega arith) (omega arith)
      first_jump.valid first_jump.coherent

abbrev jumping_vm : InstrumentedState (Unit {0})
jumping_vm = record example_vm { state = record example_state { memory = second_jump.after } }

jumping-IsSound : IsSound constant_hash second_jump.after
jumping-IsSound = record { valid = second_jump.valid; coherent = second_jump.coherent }

first_word : word_at second_jump.after 16 ≡ 0x0C000010
unfolding copy_at cannon_rs.Word.Bytes.from_be
first_word = rw (second_jump.view, first_jump.view) refl

second_word : word_at second_jump.after 20 ≡ 0x0C000010
unfolding copy_at cannon_rs.Word.Bytes.from_be
second_word = rw (second_jump.view) refl

inner_step_jumps_example :
    (m' : Memory) × (inner_step constant_hash quiet_oracle jumping_vm ≡ (
      if 20 == add32 16 4
      then ok (jumped constant_hash quiet_oracle (word_at second_jump.after 16) m' jumping_vm)
      else err (jump_in_delay_slot 16)))
    × IsSound constant_hash m'
    × (byte_at m' ≡ byte_at second_jump.after)
inner_step_jumps_example =
    inner_step_jumps constant_hash quiet_oracle jumping_vm jumping-IsSound refl refl
      (inr (rw first_word refl))

inner_step_twice_example :
    (after : InstrumentedState (Unit {0})) × (inner_step constant_hash quiet_oracle jumping_vm
      ≡ ok after)
    × (inner_step constant_hash quiet_oracle after ≡ err (jump_in_delay_slot 20))
inner_step_twice_example =
    inner_step_twice constant_hash quiet_oracle jumping_vm jumping-IsSound refl refl refl refl
      (inr (rw first_word refl)) (inr (rw second_word refl)) (rw first_word (ground arith))
