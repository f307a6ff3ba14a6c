-- ===== src/Vm/Alike/Steps.antt =====
-- Whole steps, `step` of crates/mipsevm/src/mips/instrumented.rs, of two threads that differ only in how the
-- bytes of memory are kept, and of a thread whose state was saved and loaded, crates/mipsevm/src/state.rs.
use cannon_rs.Prelude.{ℕ, ◌≡◌, refl, Bool, true, false, Option, List, [], ◌∷◌, Result, ok, ◌>>=◌}
use cannon_rs.Hash.{Keccak, Digest}
use cannon_rs.Hex.{HexCodec, Decodes}
use cannon_rs.Memory.{Memory, merkle_proof, merkle_root}
use cannon_rs.Memory.Alike
use cannon_rs.Memory.Alike.{Holder, itself, beside, Same, Alike-bind}
use cannon_rs.Memory.Alike.Nodes.{merkle_proof-Alike, merkle_root-Alike}
use cannon_rs.Memory.Coherent.{IsCoherent}
use cannon_rs.State.{State, encode_witness, encode_fields}
use cannon_rs.State.Form.{
  serialize_state, deserialize_state, IsSavable, deserialize-serialize_state,
}
use cannon_rs.Vm.{PreimageOracle, InstrumentedState}
use cannon_rs.Vm.Step.{StepWitness, begin_step, inner_step, step}
use cannon_rs.Vm.Alike.{in_state, in_vm}
use cannon_rs.Vm.Alike.Step.{inner_step-Alike}

module _ (keccak256 : Keccak) where
  encode_witness-Alike :
      (s : State) (m' : Memory)
      → Same keccak256 s.memory m'
      → Alike.Alike keccak256
          (beside (List ℕ) in_state)
          (encode_witness keccak256 s)
          (encode_witness keccak256 (record s { memory = m' }))
  unfolding encode_witness encode_fields
  encode_witness-Alike s m' same =
      Alike-bind keccak256 (beside Digest itself) (beside (List ℕ) in_state)
        (merkle_root keccak256 s.memory) _ _ _ (merkle_root-Alike keccak256 s.memory m' same)
        λ p m1 same1. (m1, same1, refl)

  module _ {Server : Type 0} (oracle : PreimageOracle Server) where
    abbrev Vm : Type 0
    Vm = InstrumentedState Server

    abbrev put : Memory → Vm → Vm
    put m' vm = (in_vm Server).put m' vm

    abbrev witnessed : Holder (Option StepWitness × Vm)
    witnessed = beside (Option StepWitness) (in_vm Server)

    step-Alike :
        (proof : Bool) (vm : Vm) (m' : Memory)
        → Same keccak256 vm.state.memory m'
        → Alike.Alike keccak256 witnessed
            (step keccak256 oracle proof vm)
            (step keccak256 oracle proof (put m' vm))
    unfolding step begin_step
    step-Alike false vm m' same =
        Alike-bind keccak256 (in_vm Server) witnessed
          (inner_step keccak256 oracle (begin_step keccak256 oracle false vm)) _ _ _
          (inner_step-Alike keccak256 oracle (begin_step keccak256 oracle false vm) m' same)
          λ vm1 m1 same1. (m1, same1, refl)
    step-Alike true vm m' same =
        Alike-bind keccak256 (beside (List ℕ) itself) witnessed
          (merkle_proof keccak256 vm.state.pc vm.state.memory) _ _ _
          (merkle_proof-Alike keccak256 vm.state.pc vm.state.memory m' same)
          λ p m1 same1.
            Alike-bind keccak256 (beside (List ℕ) in_state) witnessed
              (encode_witness keccak256 (record (vm.state) { memory = p.1 })) _ _ _
              (encode_witness-Alike (record (vm.state) { memory = p.1 }) m1 same1)
              λ q m2 same2.
                Alike-bind keccak256 (in_vm Server) witnessed
                  (inner_step keccak256 oracle
                    (record (begin_step keccak256 oracle true vm) { state = q.1 }))
                  _ _ _
                  (inner_step-Alike keccak256 oracle
                    (record (begin_step keccak256 oracle true vm) { state = q.1 }) m2 same2)
                  λ vm1 m3 same3. (m3, same3, refl)

    -- Steps in a row, with a proof or without, and their witnesses.
    unfoldable pub steps : List Bool → Vm → Result (List (Option StepWitness) × Vm)
    steps [] vm = ok ([], vm)
    steps (proof ∷ proofs) vm = step keccak256 oracle proof vm >>= λ (witness, vm').
        steps proofs vm' >>= λ (witnesses, after). ok (witness ∷ witnesses, after)

    abbrev pub all_witnessed : Holder (List (Option StepWitness) × Vm)
    all_witnessed = beside (List (Option StepWitness)) (in_vm Server)

    steps-Alike :
        (proofs : List Bool) (vm : Vm) (m' : Memory)
        → Same keccak256 vm.state.memory m'
        → Alike.Alike keccak256 all_witnessed (steps proofs vm) (steps proofs (put m' vm))
    unfolding steps
    steps-Alike [] vm m' same = (m', same, refl)
    steps-Alike (proof ∷ proofs) vm m' same =
        Alike-bind keccak256 witnessed all_witnessed (step keccak256 oracle proof vm) _ _ _
          (step-Alike proof vm m' same)
          λ p m1 same1.
            Alike-bind keccak256 all_witnessed all_witnessed (steps proofs p.1) _ _ _
              (steps-Alike proofs p.1 m1 same1) λ q m2 same2. (m2, same2, refl)

    -- If the hexadecimal codec decodes what it encodes, a state that can be saved and whose memory is
    -- coherent loads again, and a thread that goes on from the loaded state does what it does from the
    -- state itself, whatever the program and the server do: any number of steps, with proofs or without,
    -- gives the same witnesses and the same thread but for memories with the same bytes, or the same failure.
    pub resumed_steps-Alike :
        (hex : HexCodec) (proofs : List Bool) (vm : Vm)
        → Decodes hex
        → IsSavable vm.state
        → IsCoherent keccak256 vm.state.memory
        → (s : State) × (deserialize_state keccak256 hex (serialize_state hex vm.state) ≡ ok s)
          × Alike.Alike keccak256 all_witnessed
              (steps proofs vm)
              (steps proofs (record vm { state = s }))
    resumed_steps-Alike hex proofs vm law savable coherent =
        let (m, returns, sound, view) =
          deserialize-serialize_state keccak256 hex vm.state law savable in
        (
          record (vm.state) { memory = m },
          returns,
          steps-Alike proofs vm m (record {
            sound = record { valid = savable.valid; coherent = coherent };
            other = sound;
            view = view;
          }),
        )
