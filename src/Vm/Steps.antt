-- ===== src/Vm/Steps.antt =====
-- `step` of crates/mipsevm/src/mips/instrumented.rs, with and without a proof.
use cannon_rs.Prelude.{
  ℕ, ◌+◌, ◌≡◌, ◌∙◌, subst, Bool, true, false, Holds, Holds-bind, Holds-any, arith,
}
use cannon_rs.Word.{u64}
use cannon_rs.Hash.{Keccak}
use cannon_rs.Memory.{merkle_proof, merkle_root}
use cannon_rs.Memory.Sound.{IsSound, merkle_proof-IsSound, merkle_root-IsSound}
use cannon_rs.State.{State, encode_witness}
use cannon_rs.Vm.{PreimageOracle, InstrumentedState}
use cannon_rs.Vm.Step.{begin_step, inner_step, step}
use cannon_rs.Vm.StepInvariant.{inner_step-counts, inner_step-IsSound}

-- The encoding changes the caches of the memory alone.
pub encode_witness-frame :
    (keccak256 : Keccak) (s : State)
    → Holds (λ p. (p.1.step ≡ s.step) × (p.1.exited ≡ s.exited)) (encode_witness keccak256 s)
unfolding encode_witness
encode_witness-frame keccak256 s = ground arith

module _ {Server : Type 0} (keccak256 : Keccak) (oracle : PreimageOracle Server) where
  counts_from :
      (n : ℕ) (vm : InstrumentedState Server)
      → vm.state.exited ≡ false
      → vm.state.step ≡ n
      → Holds (λ vm'. vm'.state.step ≡ u64 (n + 1)) (inner_step keccak256 oracle vm)
  counts_from n vm runs e =
      subst (λ k. Holds (λ vm'. vm'.state.step ≡ u64 (k + 1)) (inner_step keccak256 oracle vm)) e
        (inner_step-counts keccak256 oracle vm runs)

  -- A step counts itself.
  pub step-counts :
      (proof : Bool) (vm : InstrumentedState Server)
      → vm.state.exited ≡ false
      → Holds (λ p. p.1.state.step ≡ u64 (vm.state.step + 1)) (step keccak256 oracle proof vm)
  unfolding step begin_step
  step-counts false vm runs =
      Holds-bind (λ vm'. vm'.state.step ≡ u64 (vm.state.step + 1))
        (λ p. p.1.state.step ≡ u64 (vm.state.step + 1))
        (inner_step keccak256 oracle (begin_step keccak256 oracle false vm)) _
        (inner_step-counts keccak256 oracle (begin_step keccak256 oracle false vm) runs) λ vm' e. e
  step-counts true vm runs =
      Holds-bind (λ _. Unit {0}) (λ p. p.1.state.step ≡ u64 (vm.state.step + 1))
        (merkle_proof keccak256 vm.state.pc vm.state.memory) _
        (Holds-any (λ _. Unit {0}) (merkle_proof keccak256 vm.state.pc vm.state.memory) λ _. tt)
        λ p _.
          Holds-bind (λ q. (q.1.step ≡ vm.state.step) × (q.1.exited ≡ vm.state.exited))
            (λ p. p.1.state.step ≡ u64 (vm.state.step + 1))
            (encode_witness keccak256 (record (vm.state) { memory = p.1 })) _
            (encode_witness-frame keccak256 (record (vm.state) { memory = p.1 }))
            λ q same.
              Holds-bind (λ vm'. vm'.state.step ≡ u64 (vm.state.step + 1))
                (λ p. p.1.state.step ≡ u64 (vm.state.step + 1))
                (inner_step keccak256 oracle
                  (record (begin_step keccak256 oracle true vm) { state = q.1 }))
                _ (counts_from vm.state.step _ (same.1 ∙ runs) same.0) λ vm' e. e

  pub step-counts_from :
      (n : ℕ) (proof : Bool) (vm : InstrumentedState Server)
      → vm.state.exited ≡ false
      → vm.state.step ≡ n
      → Holds (λ p. p.1.state.step ≡ u64 (n + 1)) (step keccak256 oracle proof vm)
  step-counts_from n proof vm runs e =
      subst (λ k. Holds (λ p. p.1.state.step ≡ u64 (k + 1)) (step keccak256 oracle proof vm)) e
        (step-counts proof vm runs)

  pub encode_witness-IsSound :
      (s : State)
      → IsSound keccak256 s.memory
      → Holds (λ p. IsSound keccak256 p.1.memory) (encode_witness keccak256 s)
  unfolding encode_witness
  encode_witness-IsSound s h =
      Holds-bind (λ p. IsSound keccak256 p.1) (λ p. IsSound keccak256 p.1.memory)
        (merkle_root keccak256 s.memory) _ (merkle_root-IsSound keccak256 s.memory h) λ p h'. h'

  -- A step, with a proof or without, that succeeds keeps the memory sound.
  pub step-IsSound :
      (proof : Bool) (vm : InstrumentedState Server)
      → IsSound keccak256 vm.state.memory
      → Holds (λ p. IsSound keccak256 p.1.state.memory) (step keccak256 oracle proof vm)
  unfolding step begin_step
  step-IsSound false vm h =
      Holds-bind (λ vm'. IsSound keccak256 vm'.state.memory)
        (λ p. IsSound keccak256 p.1.state.memory)
        (inner_step keccak256 oracle (begin_step keccak256 oracle false vm)) _
        (inner_step-IsSound keccak256 oracle (begin_step keccak256 oracle false vm) h) λ vm' h'. h'
  step-IsSound true vm h =
      Holds-bind (λ p. IsSound keccak256 p.1) (λ p. IsSound keccak256 p.1.state.memory)
        (merkle_proof keccak256 vm.state.pc vm.state.memory) _
        (merkle_proof-IsSound keccak256 vm.state.pc vm.state.memory h)
        λ p h1.
          Holds-bind (λ q. IsSound keccak256 q.1.memory) (λ p. IsSound keccak256 p.1.state.memory)
            (encode_witness keccak256 (record (vm.state) { memory = p.1 })) _
            (encode_witness-IsSound (record (vm.state) { memory = p.1 }) h1)
            λ q h2.
              Holds-bind (λ vm'. IsSound keccak256 vm'.state.memory)
                (λ p. IsSound keccak256 p.1.state.memory)
                (inner_step keccak256 oracle
                  (record (begin_step keccak256 oracle true vm) { state = q.1 }))
                _
                (inner_step-IsSound keccak256 oracle
                  (record (begin_step keccak256 oracle true vm) { state = q.1 }) h2)
                λ vm' h3. h3
