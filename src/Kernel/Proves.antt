-- ===== src/Kernel/Proves.antt =====
-- The proofs and the types over a whole run of the loop of `Kernel::run`, crates/cannon/src/kernel.rs.
use cannon_rs.Prelude.{
  ℕ, zero, suc, ◌≡◌, refl, ◌∙◌, sym, ap, subst, Bool, true, false, if◌then◌else◌, List, [], ◌∷◌,
  ◌++◌, length, ok, Holds, Holds-bind, Holds-then, Holds-if, Holds-both, Holds-value, Holds-weaken,
}
use cannon_rs.Hash.{Keccak}
use cannon_rs.State.{State, encode_witness}
use cannon_rs.Vm.{PreimageOracle, InstrumentedState}
use cannon_rs.Vm.Step.{step}
use cannon_rs.Vm.Witness.{AbiCalls}
use cannon_rs.Vm.Typed.Steps.{TypedState, encode_witness-Typed, step-Typed}
use cannon_rs.Kernel.Decimal.{Text, replace_step}
use cannon_rs.Kernel.Matchers.{matches}
use cannon_rs.Kernel.Run.{
  Task, snapshot_task, proof_task, Host, Settings, Running, snapshot_tasks, prove_step, step_tasks,
  check_server, run_round, run_loop,
}
use cannon_rs.Kernel.Outputs.{witness_of}
use cannon_rs.Kernel.Proofs.{Proved, prove_step-Proved}

abbrev pub Every : (Task → Type 0) → List Task → Type 0
Every P [] = Unit
Every P (t ∷ ts) = P t × Every P ts

Every-append :
    (P : Task → Type 0) (xs ys : List Task) → Every P xs → Every P ys → Every P (xs ++ ys)
Every-append P [] ys h k = k
Every-append P (x ∷ xs) ys h k = (h.0, Every-append P xs ys h.1 k)

module _ (keccak256 : Keccak) (digest_length : (bytes : List ℕ) → length (keccak256 bytes) ≡ 32)
    {Server Child Files : Type 0} (oracle : PreimageOracle Server) (abi : AbiCalls)
    (host : Host Child Files) (settings : Settings) where
  abbrev Typed : State → Type 0
  Typed s = TypedState keccak256 oracle s

  -- What a task of the loop is worth: a snapshot is of a state whose fields have their types, and a proof
  -- is the one task of a proof step from such a state, which it proves.
  abbrev pub IsBacked : Task → Type 0
  IsBacked (snapshot_task path s) = Typed s
  IsBacked (proof_task path n pre post w) =
      (vm : InstrumentedState Server) × (vm' : InstrumentedState Server) × Typed vm.state
      × (vm.state.step ≡ n)
      × (prove_step keccak256 oracle abi host settings vm
          ≡ ok (proof_task path n pre post w ∷ [], vm'))
      × Proved keccak256 digest_length oracle abi host vm.state
          (proof_task path n pre post w ∷ [], vm')

  abbrev Backed : List Task × InstrumentedState Server → Type 0
  Backed p = Every IsBacked p.0 × Typed p.1.state

  prove_step-Typed :
      (vm : InstrumentedState Server)
      → Typed vm.state
      → Holds (λ p. Typed p.1.state) (prove_step keccak256 oracle abi host settings vm)
  unfolding prove_step
  prove_step-Typed vm t =
      Holds-bind (λ q. Typed q.1) (λ p. Typed p.1.state) (encode_witness keccak256 vm.state) _
        (encode_witness-Typed keccak256 oracle vm.state t)
        λ q t1.
          Holds-bind (λ p. Typed p.1.state) (λ p. Typed p.1.state)
            (step keccak256 oracle true (record vm { state = q.1 })) _
            (step-Typed keccak256 oracle true (record vm { state = q.1 }) t1)
            λ p t2.
              Holds-then (λ p. Typed p.1.state) (witness_of p.0) _
                λ w.
                  Holds-bind (λ a. Typed a.1) (λ p. Typed p.1.state)
                    (encode_witness keccak256 p.1.state) _
                    (encode_witness-Typed keccak256 oracle p.1.state t2) λ a t3. t3

  IsBacked-tasks :
      (vm : InstrumentedState Server) (p : List Task × InstrumentedState Server)
      → Typed vm.state
      → prove_step keccak256 oracle abi host settings vm ≡ ok p
      → Proved keccak256 digest_length oracle abi host vm.state p
      → Every IsBacked p.0
  IsBacked-tasks vm p t returns (path, pre, post, w, task, before, after, proof) =
      subst (Every IsBacked) (sym task) (
        (
          vm,
          p.1,
          t,
          refl,
          returns ∙ ap (λ ts. ok (ts, p.1)) task,
          (path, pre, post, w, refl, before, after, proof),
        ),
        tt,
      )

  prove_step-Backed :
      (vm : InstrumentedState Server)
      → Typed vm.state
      → Holds Backed (prove_step keccak256 oracle abi host settings vm)
  prove_step-Backed vm t =
      let r = prove_step keccak256 oracle abi host settings vm in
      Holds-weaken
        (λ p.
          (r ≡ ok p)
          × (Proved keccak256 digest_length oracle abi host vm.state p × Typed p.1.state))
        Backed r
        (Holds-both (λ p. r ≡ ok p) _ r (Holds-value r)
          (Holds-both (Proved keccak256 digest_length oracle abi host vm.state)
            (λ p. Typed p.1.state) r
            (prove_step-Proved keccak256 digest_length oracle abi host settings vm t.1.sound t.0.pc
              t.0.preimage_key)
            (prove_step-Typed vm t)))
        λ p h. (IsBacked-tasks vm p t h.0 h.1.0, h.1.1)

  step_tasks-Backed :
      (vm : InstrumentedState Server)
      → Typed vm.state
      → Holds Backed (step_tasks keccak256 oracle abi host settings vm)
  unfolding step_tasks
  step_tasks-Backed vm t = Holds-then Backed (matches settings.proof_at vm.state.step) _ λ wanted.
      Holds-if Backed wanted _ _ (prove_step-Backed vm t) (
        Holds-bind (λ p. Typed p.1.state) Backed (step keccak256 oracle false vm) _
          (step-Typed keccak256 oracle false vm t) λ p t'. (tt, t'))

  chosen-Backed :
      (b : Bool) (path : Text) (s : State)
      → Typed s
      → Every IsBacked (if b then snapshot_task path s ∷ [] else [])
  chosen-Backed true path s t = (t, tt)
  chosen-Backed false path s t = tt

  snapshot_tasks-Backed :
      (s : State)
      → Typed s
      → Holds (Every IsBacked) (snapshot_tasks keccak256 oracle abi host settings s)
  unfolding snapshot_tasks
  snapshot_tasks-Backed s t =
      Holds-then (Every IsBacked) (matches settings.snapshot_at s.step) _
        λ wanted. chosen-Backed wanted (replace_step settings.snapshot_format s.step) s t

  abbrev BackedRun : Running Server Child → Type 0
  BackedRun r = Every IsBacked r.io_tasks × Typed r.ins_state.state

  run_round-Backed :
      (r : Running Server Child)
      → BackedRun r
      → Holds BackedRun (run_round keccak256 oracle abi host settings r)
  unfolding run_round
  run_round-Backed r h =
      Holds-bind (Every IsBacked) BackedRun
        (snapshot_tasks keccak256 oracle abi host settings r.ins_state.state) _
        (snapshot_tasks-Backed r.ins_state.state h.1)
        λ snapshots k.
          Holds-bind Backed BackedRun (step_tasks keccak256 oracle abi host settings r.ins_state) _
            (step_tasks-Backed r.ins_state h.1)
            λ p h'.
              Holds-then BackedRun
                (check_server keccak256 oracle abi host r.ins_state.state.step r.server_proc) _
                λ server. (
                  Every-append IsBacked r.io_tasks (snapshots ++ p.0) h.0
                      (Every-append IsBacked snapshots p.0 k h'.0),
                  h'.1,
                )

  -- If the loop starts from a state whose fields have their types, over a sound memory of bytes, with
  -- tasks that are backed, and it ends, then so it is at its end: every snapshot is of such a state, and
  -- every proof task, whatever the program did before its step, is the result of a proof step from such a
  -- state, and proves it: its hashes are those of the states before and after the step, and its
  -- witness is of the state before, with digests of 32 bytes.
  pub run_loop-Backed :
      (fuel : ℕ) (r : Running Server Child)
      → Every IsBacked r.io_tasks
      → Typed r.ins_state.state
      → Holds
          (λ r'. Every IsBacked r'.io_tasks × Typed r'.ins_state.state)
          (run_loop keccak256 oracle abi host fuel settings r)
  unfolding run_loop
  run_loop-Backed zero r h t = tt
  run_loop-Backed (suc fuel) r h t =
      Holds-if BackedRun r.ins_state.state.exited (ok r) _ (h, t)
        (Holds-then BackedRun (matches settings.stop_at r.ins_state.state.step) _ λ stop.
          Holds-if BackedRun stop (ok r) _ (h, t)
            (Holds-bind BackedRun BackedRun (run_round keccak256 oracle abi host settings r) _
              (run_round-Backed r (h, t)) λ r' h'. run_loop-Backed fuel r' h'.0 h'.1))
