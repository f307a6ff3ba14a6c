-- ===== src/Vm/Typed/Steps.antt =====
-- `step` of crates/mipsevm/src/mips/instrumented.rs, with a proof or without, keeps the types of the state.
use cannon_rs.Prelude.{Bool, true, false, Holds, Holds-bind}
use cannon_rs.Hash.{Keccak}
use cannon_rs.Memory.{merkle_proof, merkle_root}
use cannon_rs.Memory.Typed.{IsTyped, merkle_proof-IsTyped, merkle_root-IsTyped}
use cannon_rs.State.{State, encode_witness}
use cannon_rs.Vm.{PreimageOracle, InstrumentedState}
use cannon_rs.Vm.Step.{inner_step, begin_step, step}
use cannon_rs.Vm.Typed.{HasWords, with_memory-HasWords}
use cannon_rs.Vm.Typed.Step.{inner_step-Typed}

module _ {Server : Type 0} (keccak256 : Keccak) (oracle : PreimageOracle Server) where
  abbrev pub TypedState : State → Type 0
  TypedState s = HasWords s × IsTyped keccak256 s.memory

  pub encode_witness-Typed :
      (s : State) → TypedState s → Holds (λ p. TypedState p.1) (encode_witness keccak256 s)
  unfolding encode_witness
  encode_witness-Typed s t =
      Holds-bind (λ p. IsTyped keccak256 p.1) (λ p. TypedState p.1) (merkle_root keccak256 s.memory)
        _ (merkle_root-IsTyped keccak256 s.memory t.1) λ p t'. (with_memory-HasWords p.1 s t.0, t')

  pub step-Typed :
      (proof : Bool) (vm : InstrumentedState Server)
      → TypedState vm.state
      → Holds (λ p. TypedState p.1.state) (step keccak256 oracle proof vm)
  unfolding step begin_step
  step-Typed false vm t =
      Holds-bind (λ vm'. TypedState vm'.state) (λ p. TypedState p.1.state)
        (inner_step keccak256 oracle (begin_step keccak256 oracle false vm)) _
        (inner_step-Typed keccak256 oracle (begin_step keccak256 oracle false vm) t) λ vm' t'. t'
  step-Typed true vm t =
      Holds-bind (λ p. IsTyped keccak256 p.1) (λ p. TypedState p.1.state)
        (merkle_proof keccak256 vm.state.pc vm.state.memory) _
        (merkle_proof-IsTyped keccak256 vm.state.pc vm.state.memory t.1)
        λ p t1.
          Holds-bind (λ q. TypedState q.1) (λ p. TypedState p.1.state)
            (encode_witness keccak256 (record (vm.state) { memory = p.1 })) _
            (encode_witness-Typed (record (vm.state) { memory = p.1 })
              (with_memory-HasWords p.1 vm.state t.0, t1))
            λ q t2.
              Holds-bind (λ vm'. TypedState vm'.state) (λ p. TypedState p.1.state)
                (inner_step keccak256 oracle
                  (record (begin_step keccak256 oracle true vm) { state = q.1 }))
                _
                (inner_step-Typed keccak256 oracle
                  (record (begin_step keccak256 oracle true vm) { state = q.1 }) t2)
                λ vm' t3. t3
