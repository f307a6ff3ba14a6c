-- ===== src/Kernel/Outputs.antt =====
-- What the loop of `Kernel::run`, crates/cannon/src/kernel.rs, does over all its rounds.
use cannon_rs.Prelude.{
  ℕ, zero, suc, ◌+◌, ◌≡◌, refl, ◌∙◌, ap, ap₂, subst, ◌⊎◌, Bool, true, false, if◌then◌else◌, Option,
  none, some, List, [], ◌∷◌, ◌++◌, Result, ok, err, panic, diverge, ◌>>=◌, Holds, Holds-bind,
  Holds-any, no_step_witness,
}
use cannon_rs.Word.{u64}
use cannon_rs.Hash.{Keccak}
use cannon_rs.State.{State, encode_witness}
use cannon_rs.Vm.{PreimageOracle, InstrumentedState}
use cannon_rs.Vm.Step.{StepWitness, step}
use cannon_rs.Vm.Steps.{step-counts_from, encode_witness-frame}
use cannon_rs.Vm.Witness.{AbiCalls}
use cannon_rs.Kernel.Matchers.{Matcher, matches}
use cannon_rs.Kernel.Run.{
  Task, snapshot_task, proof_task, Host, Settings, Running, snapshot_tasks, prove_step, step_tasks,
  check_server, run_round,
}

-- What an output is of: its kind and its step.
pub data Label : Type 0 where
  snapshot_of proof_of : ℕ → Label

abbrev pub labels : List Task → List Label
labels [] = []
labels (snapshot_task path s ∷ tasks) = snapshot_of s.step ∷ labels tasks
labels (proof_task path n pre post w ∷ tasks) = proof_of n ∷ labels tasks

labels-append : (xs ys : List Task) → labels (xs ++ ys) ≡ labels xs ++ labels ys
labels-append [] ys = refl
labels-append (snapshot_task path s ∷ xs) ys = ap (◌∷◌ (snapshot_of s.step)) (labels-append xs ys)
labels-append (proof_task path n pre post w ∷ xs) ys = ap (◌∷◌ (proof_of n)) (labels-append xs ys)

-- Whether a test succeeds, and says yes.
abbrev pub says : Result Bool → Bool
says (ok b) = b
says (err e) = false
says panic = false
says diverge = false

abbrev pub fits : Matcher → ℕ → Bool
fits m n = says (matches m n)

-- The outputs that the patterns want of a step, and of `count` steps from one on.
abbrev pub wanted_at : Settings → ℕ → List Label
wanted_at settings n =
    (if fits settings.snapshot_at n then snapshot_of n ∷ [] else [])
    ++ (if fits settings.proof_at n then proof_of n ∷ [] else [])

unfoldable pub wanted : Settings → ℕ → ℕ → List Label
wanted settings n zero = []
wanted settings n (suc count) = wanted_at settings n ++ wanted settings (suc n) count

-- Why the loop ends.
abbrev pub Stops : Settings → State → Type 0
Stops settings s = (s.exited ≡ true) ⊎ (matches settings.stop_at s.step ≡ ok true)

Holds-says : (r : Result Bool) → Holds (λ b. b ≡ says r) r
Holds-says (ok b) = refl
Holds-says (err e) = tt
Holds-says panic = tt
Holds-says diverge = tt

labels-if :
    (b : Bool) (t : Task) → labels (if b then t ∷ [] else []) ≡ (if b then labels (t ∷ []) else [])
labels-if true t = refl
labels-if false t = refl

-- The witness that `ok_or` takes out.
abbrev pub witness_of : Option StepWitness → Result StepWitness
witness_of witness = elim witness [ none ↦ err no_step_witness | some w ↦ ok w ]

module _ {Server Child Files : Type 0} (keccak256 : Keccak) (oracle : PreimageOracle Server)
    (abi : AbiCalls) (host : Host Child Files) where
  snapshot_tasks-labels :
      (settings : Settings) (s : State)
      → Holds
          (λ ts.
            labels ts ≡ (if fits settings.snapshot_at s.step then snapshot_of s.step ∷ [] else []))
          (snapshot_tasks keccak256 oracle abi host settings s)
  unfolding snapshot_tasks
  snapshot_tasks-labels settings s =
      Holds-bind (λ b. b ≡ fits settings.snapshot_at s.step) _ (matches settings.snapshot_at s.step)
        _ (Holds-says (matches settings.snapshot_at s.step))
        λ b e. labels-if b _ ∙ ap (λ c. if c then snapshot_of s.step ∷ [] else []) e

  abbrev Counted :
      InstrumentedState Server → List Label → List Task × InstrumentedState Server → Type 0
  Counted vm ls p = (labels p.0 ≡ ls) × (p.1.state.step ≡ u64 (vm.state.step + 1))

  prove_step-Counted :
      (settings : Settings) (vm : InstrumentedState Server)
      → vm.state.exited ≡ false
      → Holds
          (Counted vm (proof_of vm.state.step ∷ []))
          (prove_step keccak256 oracle abi host settings vm)
  unfolding prove_step
  prove_step-Counted settings vm runs =
      Holds-bind (λ q. (q.1.step ≡ vm.state.step) × (q.1.exited ≡ vm.state.exited))
        (Counted vm (proof_of vm.state.step ∷ [])) (encode_witness keccak256 vm.state) _
        (encode_witness-frame keccak256 vm.state)
        λ q same.
          Holds-bind (λ p. p.1.state.step ≡ u64 (vm.state.step + 1))
            (Counted vm (proof_of vm.state.step ∷ []))
            (step keccak256 oracle true (record vm { state = q.1 })) _
            (step-counts_from keccak256 oracle vm.state.step true (record vm { state = q.1 })
              (same.1 ∙ runs) same.0)
            λ p e.
              Holds-bind (λ _. Unit {0}) (Counted vm (proof_of vm.state.step ∷ [])) (witness_of p.0)
                _ (Holds-any (λ _. Unit {0}) (witness_of p.0) λ _. tt)
                λ w _.
                  Holds-bind (λ a. (a.1.step ≡ p.1.state.step) × (a.1.exited ≡ p.1.state.exited))
                    (Counted vm (proof_of vm.state.step ∷ [])) (encode_witness keccak256 p.1.state)
                    _ (encode_witness-frame keccak256 p.1.state) λ a same'. (refl, same'.0 ∙ e)

  chosen-Counted :
      (b : Bool) (settings : Settings) (vm : InstrumentedState Server)
      → vm.state.exited ≡ false
      → Holds (Counted vm (if b then proof_of vm.state.step ∷ [] else [])) (
          if b
          then prove_step keccak256 oracle abi host settings vm
          else (step keccak256 oracle false vm >>= λ (witness, vm'). ok ([], vm')))
  chosen-Counted true settings vm runs = prove_step-Counted settings vm runs
  chosen-Counted false settings vm runs =
      Holds-bind (λ p. p.1.state.step ≡ u64 (vm.state.step + 1)) (Counted vm [])
        (step keccak256 oracle false vm) _
        (step-counts_from keccak256 oracle vm.state.step false vm runs refl) λ p e. (refl, e)

  step_tasks-Counted :
      (settings : Settings) (vm : InstrumentedState Server)
      → vm.state.exited ≡ false
      → Holds
          (Counted vm
            (if fits settings.proof_at vm.state.step then proof_of vm.state.step ∷ [] else []))
          (step_tasks keccak256 oracle abi host settings vm)
  unfolding step_tasks
  step_tasks-Counted settings vm runs =
      Holds-bind (λ b. b ≡ fits settings.proof_at vm.state.step) _
        (matches settings.proof_at vm.state.step) _
        (Holds-says (matches settings.proof_at vm.state.step))
        λ b e.
          subst
            (λ c. Holds (Counted vm (if c then proof_of vm.state.step ∷ [] else [])) (
              if b
              then prove_step keccak256 oracle abi host settings vm
              else (step keccak256 oracle false vm >>= λ (witness, vm'). ok ([], vm'))))
            e (chosen-Counted b settings vm runs)

  -- After a round, the counter is one more and the tasks of the step stand at the end.
  abbrev pub Round : Settings → Running Server Child → Running Server Child → Type 0
  Round settings r r' =
      (r'.ins_state.state.step ≡ u64 (r.ins_state.state.step + 1))
      × (labels r'.io_tasks ≡ labels r.io_tasks ++ wanted_at settings r.ins_state.state.step)

  pub run_round-Round :
      (settings : Settings) (r : Running Server Child)
      → r.ins_state.state.exited ≡ false
      → Holds (Round settings r) (run_round keccak256 oracle abi host settings r)
  unfolding run_round
  run_round-Round settings r runs =
      let s = r.ins_state.state in
      Holds-bind
        (λ ts.
          labels ts ≡ (if fits settings.snapshot_at s.step then snapshot_of s.step ∷ [] else []))
        (Round settings r) (snapshot_tasks keccak256 oracle abi host settings s) _
        (snapshot_tasks-labels settings s)
        λ snapshots e.
          Holds-bind
            (Counted r.ins_state
              (if fits settings.proof_at s.step then proof_of s.step ∷ [] else []))
            (Round settings r) (step_tasks keccak256 oracle abi host settings r.ins_state) _
            (step_tasks-Counted settings r.ins_state runs)
            λ p c.
              Holds-bind (λ _. Unit {0}) (Round settings r)
                (check_server keccak256 oracle abi host s.step r.server_proc) _
                (Holds-any (λ _. Unit {0})
                  (check_server keccak256 oracle abi host s.step r.server_proc) λ _. tt)
                λ server _. (
                  c.1,
                  labels-append r.io_tasks (snapshots ++ p.0)
                      ∙ ap (◌++◌ (labels r.io_tasks))
                          (labels-append snapshots p.0 ∙ ap₂ ◌++◌ e c.0),
                )
