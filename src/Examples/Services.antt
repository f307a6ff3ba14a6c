-- ===== src/Examples/Services.antt =====
-- Concrete runs of the theorems on the types of the fields, on the oracles of the tests and on the process of the
-- server.
use cannon_rs.Word.Bytes.{u32_to_be_bytes}
use cannon_rs.Memory.{set_memory}
use cannon_rs.Memory.Invariant.{byte_at}
use cannon_rs.Memory.Sound.{IsSound}
use cannon_rs.Memory.Stores.{Writes}
use cannon_rs.Memory.Writes.{set_memory-Writes}
use cannon_rs.Memory.Typed.{copy_at-bytes}
use cannon_rs.Memory.Serial.{serialize, deserialize}
use cannon_rs.Memory.Restored.{deserialize-serialize}
use cannon_rs.Prelude.{
  ◌<◌, true, false, ◌++◌, ℕ, ◌≡◌, refl, some, List, [], ◌∷◌, ok, lookup, Holds, arith,
}
use cannon_rs.Memory
use cannon_rs.Memory.{Memory, alloc_page, merkle_root}
use cannon_rs.Memory.Invariant.{IsValid}
use cannon_rs.Memory.Range.{range_round}
use cannon_rs.Memory.Stale.{range_round-stale}
use cannon_rs.Memory.Fresh.{default-IsFresh}
use cannon_rs.Patch.Elf.{default_state}
use cannon_rs.State.{State}
use cannon_rs.Vm.{new_instrumented, InstrumentedState}
use cannon_rs.State.Form.{serialize_state, deserialize_state, IsSavable}
use cannon_rs.Patch.Started.{zero-bytes}
use cannon_rs.Memory.Alike
use cannon_rs.Memory.RoundTrip.{default-IsValid, default-IsCoherent}
use cannon_rs.Vm.Alike.Steps.{steps, all_witnessed, resumed_steps-Alike}
use cannon_rs.Vm.Typed.Steps.{TypedState}
use cannon_rs.Vm.Typed.Step.{Typed, inner_step-Typed}
use cannon_rs.Vm.Step.{inner_step}
use cannon_rs.Kernel.Run.{run_loop, Running}
use cannon_rs.Kernel.Proves.{Every, IsBacked, run_loop-Backed}
use cannon_rs.TestUtils.{claim_default, claim_hints}
use cannon_rs.TestUtils.Honest.{IsHonest, SameLocals, claim_hints-IsHonest}
use cannon_rs.Kernel.Decimal.{codes}
use cannon_rs.Examples.{constant_hash, constant_hash_length, quiet_oracle}
use cannon_rs.Examples.Commands.{example_hex, example_hex-Decodes, hex_text}
use cannon_rs.Examples.Runs.{example_abi, example_host, example_settings}

abbrev typed_state : State
typed_state = default_state

typed_state-TypedState : TypedState constant_hash quiet_oracle typed_state
unfolding default_state
typed_state-TypedState = (ground arith, (default-IsFresh constant_hash).typed)

inner_step-Typed_example :
    Holds
      (Typed constant_hash quiet_oracle)
      (inner_step constant_hash quiet_oracle (new_instrumented typed_state tt))
unfolding new_instrumented
inner_step-Typed_example =
    inner_step-Typed constant_hash quiet_oracle (new_instrumented typed_state tt)
      typed_state-TypedState

-- A page with the instruction that stores register 2 at the offset 4 from register 1, at the address 16.
abbrev stored_word :
    Writes constant_hash 16
      (u32_to_be_bytes 0xAC220004)
      Memory.default
      (set_memory constant_hash 16 0xAC220004 Memory.default)
stored_word =
    set_memory-Writes constant_hash 16 0xAC220004 Memory.default (omega arith) (omega arith)
      default-IsValid (default-IsCoherent constant_hash)

stored_word-bytes : (a : ℕ) → byte_at stored_word.after a < 256
stored_word-bytes a = rw (stored_word.view) (
    copy_at-bytes (byte_at Memory.default) 16 (u32_to_be_bytes 0xAC220004)
      (omega arith, (omega arith, (omega arith, (omega arith, tt))))
      ((default-IsFresh constant_hash).typed.bytes) a)

deserialize-serialize_example :
    (m' : Memory) × (deserialize constant_hash example_hex (serialize example_hex stored_word.after)
      ≡ ok m')
    × IsSound constant_hash m'
    × (byte_at m' ≡ byte_at stored_word.after)
deserialize-serialize_example =
    deserialize-serialize constant_hash example_hex stored_word.after example_hex-Decodes
      stored_word.valid stored_word-bytes

abbrev saved_vm : InstrumentedState (Unit {0})
saved_vm =
    new_instrumented (record default_state { memory = stored_word.after; pc = 16; next_pc = 20 }) tt

saved_vm-IsSavable : IsSavable saved_vm.state
unfolding default_state new_instrumented
saved_vm-IsSavable = record {
  valid = stored_word.valid;
  memory_bytes = stored_word-bytes;
  key_length = refl;
  key_bytes = zero-bytes 32;
  hint_bytes = tt;
}

resumed_steps-Alike_example :
    (s : State) × (deserialize_state constant_hash example_hex
        (serialize_state example_hex saved_vm.state)
      ≡ ok s)
    × Alike.Alike constant_hash
        (all_witnessed constant_hash quiet_oracle)
        (steps constant_hash quiet_oracle (true ∷ false ∷ []) saved_vm)
        (steps constant_hash quiet_oracle (true ∷ false ∷ []) (record saved_vm { state = s }))
unfolding new_instrumented default_state
resumed_steps-Alike_example =
    resumed_steps-Alike constant_hash quiet_oracle example_hex (true ∷ false ∷ []) saved_vm
      example_hex-Decodes saved_vm-IsSavable stored_word.coherent

abbrev typed_running : Running (Unit {0}) (Unit {0})
typed_running = record {
  ins_state = new_instrumented typed_state tt;
  server_proc = some tt;
  io_tasks = [];
}

run_loop-Backed_example :
    Holds
      (λ r.
        Every
          (IsBacked constant_hash constant_hash_length quiet_oracle example_abi example_host
            example_settings)
          r.io_tasks
        × TypedState constant_hash quiet_oracle r.ins_state.state)
      (run_loop constant_hash quiet_oracle example_abi example_host 6 example_settings
        typed_running)
unfolding new_instrumented
run_loop-Backed_example =
    run_loop-Backed constant_hash constant_hash_length quiet_oracle example_abi example_host
      example_settings 6 typed_running tt typed_state-TypedState

abbrev example_hint : List ℕ
example_hint = codes "fetch-state 0x" ++ hex_text (constant_hash [])

claim_hints-IsHonest_example :
    Holds
      (λ images. IsHonest constant_hash images × SameLocals constant_hash images)
      (claim_hints constant_hash example_hex (example_hint ∷ []) (claim_default constant_hash))
claim_hints-IsHonest_example =
    claim_hints-IsHonest constant_hash constant_hash_length example_hex (example_hint ∷ [])

-- A page at address 0, and a root that is cached.
abbrev rooted : Memory
rooted = record Memory.default {
  pages = (0, 0) ∷ [];
  next_ref = 1;
  nodes = (1, some (9 ∷ [])) ∷ [];
}

rooted-IsValid : IsValid rooted
unfolding lookup
rooted-IsValid = record {
  unique = ground arith;
  index_bounded = λ i r e. ground arith;
  refs_bounded = λ i r e. ground arith;
  refs_distinct = λ i j r e f. ground arith;
  slot_0 = λ r e. absurd (cc);
  slot_1 = λ r e. absurd (cc);
}

range_round-stale_example :
    merkle_root constant_hash (range_round constant_hash 4 (1 ∷ 2 ∷ []) rooted)
    ≡ ok (9 ∷ [], range_round constant_hash 4 (1 ∷ 2 ∷ []) rooted)
range_round-stale_example =
    range_round-stale constant_hash 4 0 (9 ∷ []) (1 ∷ 2 ∷ []) rooted rooted-IsValid
      (unfold lookup in refl) (unfold lookup in refl)
