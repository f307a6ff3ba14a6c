-- ===== src/Kernel/Soundness.antt =====
-- The memory over a whole run of the loop of `Kernel::run`, crates/cannon/src/kernel.rs.
use cannon_rs.Prelude.{
  ℕ, zero, suc, true, false, List, Result, ok, Holds, Holds-bind, Holds-any, Holds-if,
}
use cannon_rs.Hash.{Keccak}
use cannon_rs.Memory.Sound.{IsSound}
use cannon_rs.State.{encode_witness}
use cannon_rs.Vm.{PreimageOracle, InstrumentedState}
use cannon_rs.Vm.Step.{step}
use cannon_rs.Vm.Steps.{encode_witness-IsSound, step-IsSound}
use cannon_rs.Vm.Witness.{AbiCalls}
use cannon_rs.Kernel.Matchers.{matches}
use cannon_rs.Kernel.Run.{
  Task, Host, Settings, Running, snapshot_tasks, prove_step, step_tasks, check_server, run_round,
  run_loop,
}
use cannon_rs.Kernel.Outputs.{witness_of}

anything : {A : Type 0} (r : Result A) → Holds (λ _. Unit {0}) r
anything r = Holds-any (λ _. Unit) r λ _. tt

module _ {Server Child Files : Type 0} (keccak256 : Keccak) (oracle : PreimageOracle Server)
    (abi : AbiCalls) (host : Host Child Files) where
  abbrev SoundVm : List Task × InstrumentedState Server → Type 0
  SoundVm p = IsSound keccak256 p.1.state.memory

  abbrev SoundRunning : Running Server Child → Type 0
  SoundRunning r = IsSound keccak256 r.ins_state.state.memory

  prove_step-IsSound :
      (settings : Settings) (vm : InstrumentedState Server)
      → IsSound keccak256 vm.state.memory
      → Holds SoundVm (prove_step keccak256 oracle abi host settings vm)
  unfolding prove_step
  prove_step-IsSound settings vm h =
      Holds-bind (λ q. IsSound keccak256 q.1.memory) SoundVm (encode_witness keccak256 vm.state) _
        (encode_witness-IsSound keccak256 oracle vm.state h)
        λ q h1.
          Holds-bind (λ p. IsSound keccak256 p.1.state.memory) SoundVm
            (step keccak256 oracle true (record vm { state = q.1 })) _
            (step-IsSound keccak256 oracle true (record vm { state = q.1 }) h1)
            λ p h2.
              Holds-bind (λ _. Unit {0}) SoundVm (witness_of p.0) _ (anything (witness_of p.0))
                λ w _.
                  Holds-bind (λ a. IsSound keccak256 a.1.memory) SoundVm
                    (encode_witness keccak256 p.1.state) _
                    (encode_witness-IsSound keccak256 oracle p.1.state h2) λ a h3. h3

  step_tasks-IsSound :
      (settings : Settings) (vm : InstrumentedState Server)
      → IsSound keccak256 vm.state.memory
      → Holds SoundVm (step_tasks keccak256 oracle abi host settings vm)
  unfolding step_tasks
  step_tasks-IsSound settings vm h =
      Holds-bind (λ _. Unit {0}) SoundVm (matches settings.proof_at vm.state.step) _
        (anything (matches settings.proof_at vm.state.step))
        λ wanted _. Holds-if SoundVm wanted _ _ (prove_step-IsSound settings vm h) (
          Holds-bind (λ p. IsSound keccak256 p.1.state.memory) SoundVm
            (step keccak256 oracle false vm) _ (step-IsSound keccak256 oracle false vm h)
            λ p h'. h')

  run_round-IsSound :
      (settings : Settings) (r : Running Server Child)
      → SoundRunning r
      → Holds SoundRunning (run_round keccak256 oracle abi host settings r)
  unfolding run_round
  run_round-IsSound settings r h =
      Holds-bind (λ _. Unit {0}) SoundRunning
        (snapshot_tasks keccak256 oracle abi host settings r.ins_state.state) _
        (anything (snapshot_tasks keccak256 oracle abi host settings r.ins_state.state))
        λ snapshots _.
          Holds-bind SoundVm SoundRunning
            (step_tasks keccak256 oracle abi host settings r.ins_state) _
            (step_tasks-IsSound settings r.ins_state h)
            λ p h'.
              Holds-bind (λ _. Unit {0}) SoundRunning
                (check_server keccak256 oracle abi host r.ins_state.state.step r.server_proc) _
                (anything
                  (check_server keccak256 oracle abi host r.ins_state.state.step r.server_proc))
                λ server _. h'

  -- If the memory is sound before the loop and the loop ends, it is sound after it, whatever the
  -- patterns of the kernel are and whatever the program does.
  pub run_loop-IsSound :
      (fuel : ℕ) (settings : Settings) (r : Running Server Child)
      → IsSound keccak256 r.ins_state.state.memory
      → Holds
          (λ r'. IsSound keccak256 r'.ins_state.state.memory)
          (run_loop keccak256 oracle abi host fuel settings r)
  unfolding run_loop
  run_loop-IsSound zero settings r h = tt
  run_loop-IsSound (suc fuel) settings r h =
      Holds-if SoundRunning r.ins_state.state.exited (ok r) _ h (
        Holds-bind (λ _. Unit {0}) SoundRunning (matches settings.stop_at r.ins_state.state.step) _
          (anything (matches settings.stop_at r.ins_state.state.step))
          λ stop _. Holds-if SoundRunning stop (ok r) _ h (
            Holds-bind SoundRunning SoundRunning (run_round keccak256 oracle abi host settings r) _
              (run_round-IsSound settings r h) λ r' h'. run_loop-IsSound fuel settings r' h'))
