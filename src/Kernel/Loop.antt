-- ===== src/Kernel/Loop.antt =====
-- Where the loop of `Kernel::run`, crates/cannon/src/kernel.rs, ends, and that its fuel is enough.
use cannon_rs.Prelude.{
  ℕ, zero, suc, ◌+◌, ◌^◌, ◌<◌, ◌≤◌, ◌≡◌, refl, ◌∙◌, sym, ap, ap₂, inl, inr, true, ◌++◌, append-nil,
  append_assoc, ok, Holds, Holds-bind, Holds-branch, Holds-any, if_agree, Holds-weaken, Holds-value,
  bind_agree, arith,
}
use cannon_rs.Hash.{Keccak}
use cannon_rs.Vm.{PreimageOracle}
use cannon_rs.Vm.Witness.{AbiCalls}
use cannon_rs.Kernel.Matchers.{Matcher, matches}
use cannon_rs.Kernel.Run.{Host, Settings, Running, run_round, run_loop}
use cannon_rs.Kernel.Outputs.{labels, wanted, wanted_at, Stops, Round, run_round-Round}

at_stop : (step n : ℕ) → step ≡ n → matches (Matcher.equal n) step ≡ ok true
unfolding matches
at_stop step n e = ground arith

module _ {Server Child Files : Type 0} (keccak256 : Keccak) (oracle : PreimageOracle Server)
    (abi : AbiCalls) (host : Host Child Files) where
  -- The loop went through `count` steps, left the outputs wanted of them, and stopped for a reason.
  abbrev pub Ends : Settings → Running Server Child → ℕ → Running Server Child → Type 0
  Ends settings r fuel r' =
      (count : ℕ) × (count ≤ fuel)
      × (r'.ins_state.state.step ≡ r.ins_state.state.step + count)
      × (labels r'.io_tasks ≡ labels r.io_tasks ++ wanted settings r.ins_state.state.step count)
      × Stops settings r'.ins_state.state

  stop-Ends :
      (fuel : ℕ) (settings : Settings) (r : Running Server Child)
      → Stops settings r.ins_state.state
      → Ends settings r fuel r
  stop-Ends fuel settings r why =
      (0, omega arith, omega arith, unfold wanted in sym (append-nil (labels r.io_tasks)), why)

  Round-Ends :
      (fuel : ℕ) (settings : Settings) (r r' r'' : Running Server Child)
      → r.ins_state.state.step + suc fuel < 2 ^ 64
      → Round keccak256 oracle abi host settings r r'
      → Ends settings r' fuel r''
      → Ends settings r (suc fuel) r''
  unfolding wanted
  Round-Ends fuel settings r r' r'' bound (counted, added) (count, few, last, outputs, why) =
      let next : r'.ins_state.state.step ≡ suc r.ins_state.state.step = omega (arith, counted) in
      (
        suc count,
        omega arith,
        omega (arith, last, next),
        outputs
            ∙ ap₂ ◌++◌ added (ap (λ n. wanted settings n count) next)
            ∙ append_assoc (labels r.io_tasks) (wanted_at settings r.ins_state.state.step)
                (wanted settings (suc r.ins_state.state.step) count),
        why,
      )

  -- If the loop ends, then within its fuel, after so many steps as the counter has grown, with the
  -- thread exited or the step at which it is to stop; and its tasks are those that the patterns want
  -- of the steps it went through, each step's snapshot before its proof, in the order of the steps.
  pub run_loop-Ends :
      (fuel : ℕ) (settings : Settings) (r : Running Server Child)
      → r.ins_state.state.step + fuel < 2 ^ 64
      → Holds (Ends settings r fuel) (run_loop keccak256 oracle abi host fuel settings r)
  unfolding run_loop
  run_loop-Ends zero settings r bound = tt
  run_loop-Ends (suc fuel) settings r bound =
      let step = r.ins_state.state.step in
      let E : Running Server Child → Type 0 = Ends settings r (suc fuel) in
      Holds-branch E r.ins_state.state.exited (ok r) _
        (λ exited. stop-Ends (suc fuel) settings r (inl exited))
        λ runs.
          Holds-bind (λ b. matches settings.stop_at step ≡ ok b) E (matches settings.stop_at step) _
            (Holds-value (matches settings.stop_at step))
            λ stop tested.
              Holds-branch E stop (ok r) _
                (λ t. stop-Ends (suc fuel) settings r (inr (tested ∙ ap ok t)))
                λ goes.
                  Holds-bind (Round keccak256 oracle abi host settings r) E
                    (run_round keccak256 oracle abi host settings r) _
                    (run_round-Round keccak256 oracle abi host settings r runs)
                    λ r' h.
                      Holds-weaken (Ends settings r' fuel) E
                        (run_loop keccak256 oracle abi host fuel settings r')
                        (run_loop-Ends fuel settings r' (omega (arith, h.0)))
                        (λ r'' ends. Round-Ends fuel settings r r' r'' bound h ends)

  -- With `=n` for the step to stop at, and a thread at the step `n - k`, the fuel of `k + 1` rounds is
  -- enough: no larger fuel makes a difference.
  pub run_loop_enough :
      (k extra n : ℕ) (settings : Settings) (r : Running Server Child)
      → settings.stop_at ≡ Matcher.equal n
      → r.ins_state.state.step + k ≡ n
      → n < 2 ^ 64
      → run_loop keccak256 oracle abi host (suc (k + extra)) settings r
        ≡ run_loop keccak256 oracle abi host (suc k) settings r
  unfolding run_loop
  run_loop_enough zero extra n settings r stop_at at bound =
      let stops : matches settings.stop_at r.ins_state.state.step ≡ ok true =
        rw stop_at (at_stop r.ins_state.state.step n (omega (arith, at))) in
      if_agree r.ins_state.state.exited (ok r) _ _ (λ runs. rw stops refl)
  run_loop_enough (suc k) extra n settings r stop_at at bound =
      let one_more : suc k + extra ≡ suc (k + extra) = omega arith in
      rw one_more (
        if_agree r.ins_state.state.exited (ok r) _ _ λ runs.
          bind_agree (λ _. Unit {0}) (matches settings.stop_at r.ins_state.state.step) _ _
            (Holds-any (λ _. Unit {0}) (matches settings.stop_at r.ins_state.state.step) λ _. tt)
            λ stop _. if_agree stop (ok r) _ _ λ goes.
              bind_agree (Round keccak256 oracle abi host settings r)
                (run_round keccak256 oracle abi host settings r) _ _
                (run_round-Round keccak256 oracle abi host settings r runs)
                λ r' h.
                  run_loop_enough k extra n settings r' stop_at (omega (arith, h.0, at)) bound)
