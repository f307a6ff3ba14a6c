-- ===== src/Kernel/Run.antt =====
-- `Kernel::run` of crates/cannon/src/kernel.rs, without the feature `tracing`.
use cannon_rs.Prelude.{
  ℕ, zero, suc, ◌%◌, ◌==◌, if◌then◌else◌, Bool, true, false, Option, none, some, List, [], ◌∷◌,
  ◌++◌, length, Result, ok, err, panic, diverge, ◌>>=◌, io_error, server_exited, no_step_witness,
}
use cannon_rs.Hash.{Digest, Keccak}
use cannon_rs.State.{State, encode_witness, state_hash}
use cannon_rs.Vm.{PreimageOracle, InstrumentedState}
use cannon_rs.Vm.Step.{StepWitness, step}
use cannon_rs.Vm.Witness.{AbiCalls, encode_preimage_oracle_input, encode_step_input}
use cannon_rs.Kernel.Decimal.{Text, codes, replace_step}
use cannon_rs.Kernel.Matchers.{Matcher, matches, create_matcher}

-- `Kernel`, with the server's process. `input` and `info_at` are not read without `tracing`.
pub record Kernel (Server Child : Type 0) : Type 0 where
  pub ins_state : InstrumentedState Server
  pub server_proc : Option Child
  pub input : Text
  pub output : Option Text
  pub proof_at : Option Text
  pub proof_format : Option Text
  pub snapshot_at : Option Text
  pub snapshot_format : Option Text
  pub stop_at : Option Text
  pub info_at : Option Text

-- `Proof` of crates/cannon/src/types.rs.
pub record Proof : Type 0 where
  pub step : ℕ
  pub pre : Digest
  pub post : Digest
  pub state_data : List ℕ
  pub proof_data : List ℕ
  pub step_input : List ℕ
  pub oracle_key : Option (List ℕ)
  pub oracle_value : Option (List ℕ)
  pub oracle_offset : Option ℕ
  pub oracle_input : Option (List ℕ)

-- What a spawned task has been given.
pub data Task : Type 0 where
  snapshot_task : Text → State → Task
  proof_task : Text → ℕ → Digest → Digest → StepWitness → Task

-- What the kernel gives to the serializers, the compressor and the file system.
pub data Output : Type 0 where
  snapshot : Text → State → Output
  proof : Text → Proof → Output
  final_state : Text → State → Output
  printed : State → Output

-- Other crates and the operating system: `try_wait` tells whether the process has exited, and `save`
-- serializes, compresses and writes.
pub record Host (Child Files : Type 0) : Type 0 where
  pub try_wait : Child → Result (Bool × Child)
  pub save : Output → Files → Result Files

-- The matchers and the formats of paths.
pub record Settings : Type 0 where
  pub stop_at : Matcher
  pub proof_at : Matcher
  pub snapshot_at : Matcher
  pub proof_format : Text
  pub snapshot_format : Text

-- What changes in the loop.
pub record Running (Server Child : Type 0) : Type 0 where
  pub ins_state : InstrumentedState Server
  pub server_proc : Option Child
  pub io_tasks : List Task

abbrev default_format : Text
default_format = codes "%d.json.gz"

unfoldable pub or_default : Option Text → Text
or_default none = default_format
or_default (some text) = text

module _ {Server Child Files : Type 0} (keccak256 : Keccak) (oracle : PreimageOracle Server)
    (abi : AbiCalls) (host : Host Child Files) where
  -- The head of `run`: an invalid pattern is an error.
  unfoldable pub settings_of : Kernel Server Child → Result Settings
  unfolding or_default
  settings_of k = do
    stop_at ← create_matcher k.stop_at
    proof_at ← create_matcher k.proof_at
    snapshot_at ← create_matcher k.snapshot_at
    ok (record {
      stop_at = stop_at;
      proof_at = proof_at;
      snapshot_at = snapshot_at;
      proof_format = or_default k.proof_format;
      snapshot_format = or_default k.snapshot_format;
    })

  -- The task of a snapshot, if the pattern matches the step.
  unfoldable pub snapshot_tasks : Settings → State → Result (List Task)
  snapshot_tasks settings s = matches settings.snapshot_at s.step >>= λ wanted.
      ok
        (if wanted then snapshot_task (replace_step settings.snapshot_format s.step) s ∷ [] else [])

  -- A step with a proof: the hashes of the states before and after, and the witness.
  unfoldable pub prove_step :
      Settings → InstrumentedState Server → Result (List Task × InstrumentedState Server)
  prove_step settings vm = do
    (before, state) ← encode_witness keccak256 vm.state
    (witness, vm') ← step keccak256 oracle true (record vm { state = state })
    step_witness ← elim witness [ none ↦ err no_step_witness | some w ↦ ok w ]
    (after, state') ← encode_witness keccak256 vm'.state
    ok (
      proof_task (replace_step settings.proof_format vm.state.step) vm.state.step
            (state_hash keccak256 before) (state_hash keccak256 after) step_witness
          ∷ [],
      record vm' { state = state' },
    )

  -- One step, with a proof if the pattern matches.
  unfoldable pub step_tasks :
      Settings → InstrumentedState Server → Result (List Task × InstrumentedState Server)
  unfolding prove_step
  step_tasks settings vm = matches settings.proof_at vm.state.step >>= λ wanted.
      if wanted
      then prove_step settings vm
      else (step keccak256 oracle false vm >>= λ (witness, vm'). ok ([], vm'))

  -- The check of the server's process, every 10 million steps.
  unfoldable pub check_server : ℕ → Option Child → Result (Option Child)
  check_server n none = ok none
  check_server n (some child) =
      if n % 10000000 == 0
      then (host.try_wait child >>= λ (exited, child').
          if exited then err server_exited else ok (some child'))
      else ok (some child)

  -- One round of the loop, after `stop_at`.
  unfoldable pub run_round : Settings → Running Server Child → Result (Running Server Child)
  unfolding snapshot_tasks step_tasks check_server
  run_round settings r = do
    snapshots ← snapshot_tasks settings r.ins_state.state
    (proofs, vm) ← step_tasks settings r.ins_state
    server_proc ← check_server r.ins_state.state.step r.server_proc
    ok (record {
      ins_state = vm;
      server_proc = server_proc;
      io_tasks = r.io_tasks ++ (snapshots ++ proofs);
    })

  -- `while !exited { ... }`, for at most as many rounds as there is fuel.
  unfoldable pub run_loop : ℕ → Settings → Running Server Child → Result (Running Server Child)
  unfolding run_round
  run_loop zero settings r = diverge
  run_loop (suc fuel) settings r =
      let next = run_round settings r >>= λ r'. run_loop fuel settings r' in
      if r.ins_state.state.exited
      then ok r
      else (matches settings.stop_at r.ins_state.state.step >>= λ stop. if stop then ok r else next)

  -- The body of a spawned task.
  unfoldable pub task_output : Task → Result Output
  task_output (snapshot_task path s) = ok (snapshot path s)
  task_output (proof_task path n pre post w) = encode_preimage_oracle_input abi w >>= λ input. ok (
      proof path (record {
        step = n;
        pre = pre;
        post = post;
        state_data = w.state;
        proof_data = w.mem_proof;
        step_input = encode_step_input abi w;
        oracle_key = w.preimage_key;
        oracle_value = w.preimage_value;
        oracle_offset = w.preimage_offset;
        oracle_input = input;
      }))

  -- `task.await??`: a task that panicked is an error here.
  unfoldable pub joined : {A : Type 0} → Result A → Result A
  joined (ok a) = ok a
  joined (err e) = err e
  joined panic = err io_error
  joined diverge = diverge

  unfoldable pub await_tasks : List Task → Files → Result Files
  unfolding joined task_output
  await_tasks [] files = ok files
  await_tasks (task ∷ tasks) files =
      joined (task_output task >>= λ output. host.save output files) >>= λ files'.
      await_tasks tasks files'

  -- The final state: to the file, if it has a name, or to the console.
  unfoldable pub output_state : Option Text → State → Files → Result Files
  output_state none s files = host.save (printed s) files
  output_state (some path) s files =
      if length path == 0 then ok files else host.save (final_state path s) files

  -- `Kernel::run`.
  unfoldable pub run : ℕ → Kernel Server Child → Files → Result Files
  unfolding settings_of run_loop output_state await_tasks
  run fuel k files = do
    settings ← settings_of k
    r ←
        run_loop fuel settings
          (record { ins_state = k.ins_state; server_proc = k.server_proc; io_tasks = [] })
    files' ← output_state k.output r.ins_state.state files
    await_tasks r.io_tasks files'
