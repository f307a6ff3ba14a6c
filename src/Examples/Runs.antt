-- ===== src/Examples/Runs.antt =====
-- Concrete runs of the theorems on the kernel and on whole steps.
use cannon_rs.Prelude.{
  none, leb, replicate, ◌-◌, ◌+◌, ◌%◌, ◌==◌, ◌≡◌, refl, true, false, some, List, [], ◌∷◌, ◌++◌,
  if◌then◌else◌, ok, panic, Holds, ◌>>=◌, arith,
}
use cannon_rs.Word.{u64}
use cannon_rs.Word.Bytes.{u64_to_be_bytes}
use cannon_rs.Memory.RoundTrip.{default-IsValid, default-IsCoherent}
use cannon_rs.Memory.Sound.{IsSound}
use cannon_rs.Memory
use cannon_rs.Vm.Step.{inner_step, step}
use cannon_rs.Vm.StepInvariant.{inner_step-IsSound, inner_step-counts}
use cannon_rs.Vm.StepWitness.{Witnessed, step-witness}
use cannon_rs.Vm.Witness.{
  AbiCalls, encode_preimage_oracle_input, encode_preimage_oracle_input-value,
}
use cannon_rs.Kernel.Decimal.{decimal, codes}
use cannon_rs.Kernel.Matchers.{Matcher, matches, create_matcher}
use cannon_rs.Kernel.Patterns.{create_matcher-decimal}
use cannon_rs.Kernel.Run.{Output, Host, Settings, Running, run_loop, prove_step}
use cannon_rs.Kernel.Loop.{Ends, run_loop-Ends, run_loop_enough}
use cannon_rs.Kernel.Proofs.{Proved, prove_step-Proved}
use cannon_rs.Examples.{
  constant_hash, constant_hash_length, example_state, quiet_oracle, example_vm,
}

abbrev pub example_abi : AbiCalls
example_abi = record {
  load_local_data = λ key value length offset. length ∷ offset ∷ key ++ value;
  load_keccak256_preimage_part = λ offset value. offset ∷ value;
  step_call = λ state proof. state ++ proof;
}

abbrev pub example_host : Host (Unit {0}) (List Output)
example_host = record {
  try_wait = λ child. ok (false, child);
  save = λ output files. ok (output ∷ files);
}

abbrev pub example_settings : Settings
example_settings = record {
  stop_at = Matcher.equal 5;
  proof_at = Matcher.multiple_of 2;
  snapshot_at = Matcher.always;
  proof_format = codes "%d.json.gz";
  snapshot_format = codes "state-%d.gz";
}

abbrev pub example_running : Running (Unit {0}) (Unit {0})
example_running = record { ins_state = example_vm; server_proc = some tt; io_tasks = [] }

default-IsSound : IsSound constant_hash Memory.default
default-IsSound = record { valid = default-IsValid; coherent = default-IsCoherent constant_hash }

create_matcher-decimal_example :
    ((create_matcher (some (61 ∷ decimal 25)) >>= λ m. matches m 50) ≡ ok (50 == 25))
    × ((create_matcher (some (37 ∷ decimal 25)) >>= λ m. matches m 50)
        ≡ (if 25 == 0 then panic else ok (50 % 25 == 0)))
create_matcher-decimal_example = create_matcher-decimal 25 50 (omega arith)

run_loop-Ends_example :
    Holds
      (Ends constant_hash quiet_oracle example_abi example_host example_settings example_running 4)
      (run_loop constant_hash quiet_oracle example_abi example_host 4 example_settings
        example_running)
run_loop-Ends_example =
    run_loop-Ends constant_hash quiet_oracle example_abi example_host 4 example_settings
      example_running (omega arith)

run_loop_enough_example :
    run_loop constant_hash quiet_oracle example_abi example_host 10 example_settings example_running
    ≡ run_loop constant_hash quiet_oracle example_abi example_host 3 example_settings
        example_running
run_loop_enough_example =
    run_loop_enough constant_hash quiet_oracle example_abi example_host 2 7 5 example_settings
      example_running refl refl (omega arith)

prove_step-Proved_example :
    Holds
      (Proved constant_hash constant_hash_length quiet_oracle example_abi example_host
        example_state)
      (prove_step constant_hash quiet_oracle example_abi example_host example_settings example_vm)
prove_step-Proved_example =
    prove_step-Proved constant_hash constant_hash_length quiet_oracle example_abi example_host
      example_settings example_vm default-IsSound (omega arith) refl

step-witness_example :
    Holds
      (Witnessed constant_hash constant_hash_length example_state)
      (step constant_hash quiet_oracle true example_vm)
step-witness_example =
    step-witness constant_hash constant_hash_length quiet_oracle example_vm
      (default-IsCoherent constant_hash) (omega arith) refl

inner_step-IsSound_example :
    Holds
      (λ vm. IsSound constant_hash vm.state.memory)
      (inner_step constant_hash quiet_oracle example_vm)
inner_step-IsSound_example =
    inner_step-IsSound constant_hash quiet_oracle example_vm default-IsSound

inner_step-counts_example :
    Holds (λ vm. vm.state.step ≡ u64 (3 + 1)) (inner_step constant_hash quiet_oracle example_vm)
inner_step-counts_example = inner_step-counts constant_hash quiet_oracle example_vm refl

encode_preimage_oracle_input-value_example :
    encode_preimage_oracle_input example_abi (record {
      state = [];
      mem_proof = [];
      preimage_key = some (1 ∷ 0 ∷ []);
      preimage_value = some (u64_to_be_bytes 2 ++ (5 ∷ 6 ∷ []));
      preimage_offset = some 4;
    })
    ≡ ok (
        if 1 == 1
        then (if leb 2 32
            then some (
                example_abi.load_local_data (1 ∷ 0 ∷ []) ((5 ∷ 6 ∷ []) ++ replicate (32 - 2) 0) 2 4)
            else none)
        else if 1 == 2
        then some (example_abi.load_keccak256_preimage_part 4 (5 ∷ 6 ∷ []))
        else none)
encode_preimage_oracle_input-value_example =
    encode_preimage_oracle_input-value example_abi [] [] (1 ∷ 0 ∷ []) (5 ∷ 6 ∷ []) 4
