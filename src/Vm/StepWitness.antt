-- ===== src/Vm/StepWitness.antt =====
-- The witness of a step, `step` of crates/mipsevm/src/mips/instrumented.rs with a proof.
use cannon_rs.Prelude.{
  ℕ, ◌*◌, ◌/◌, ◌^◌, ◌<◌, ◌≡◌, refl, ◌∙◌, ap, true, Option, some, List, ◌∷◌, ◌++◌, length, slice, ok,
  Holds, Holds-bind, Holds-any,
}
use cannon_rs.Hash.{Digest, Keccak}
use cannon_rs.Merkle.{subtree}
use cannon_rs.Merkle.Verify.{verify}
use cannon_rs.Memory.{Memory, flatten}
use cannon_rs.Memory.Invariant.{byte_at, memory_leaf}
use cannon_rs.Memory.Coherent.{IsCoherent, digest}
use cannon_rs.Memory.Verified.{proof_lem}
use cannon_rs.State.{State, encode_fields, encode_witness}
use cannon_rs.State.Encoding.{encode_witness-hash}
use cannon_rs.Vm.{PreimageOracle, InstrumentedState}
use cannon_rs.Vm.Step.{StepWitness, begin_step, inner_step, step}

module _ (keccak256 : Keccak)
    (digest_length : (bytes : List ℕ) → length (keccak256 bytes) ≡ 32) where
  -- A witness of a state: its bytes are the root of the memory and the fields, and the first 28
  -- nodes of its memory proof lead from the 32 bytes around the program counter to that root.
  pub record WitnessesState (s : State) (w : StepWitness) (access : List ℕ) : Type 0 where
    pub leaf : Digest
    pub branch : List Digest
    pub state_bytes : w.state ≡ digest keccak256 s.memory 27 1 ++ encode_fields s
    pub proof_bytes : w.mem_proof ≡ flatten (leaf ∷ branch) ++ access
    pub holds_bytes : leaf ≡ slice (byte_at s.memory) (s.pc / 32 * 32) 32
    pub levels : length branch ≡ 27
    pub verifies : verify keccak256 (s.pc / 32) leaf branch ≡ digest keccak256 s.memory 27 1

  -- What the step with a proof returns, with the thread after it.
  abbrev pub Witnessed :
      {Server : Type 0} → State → Option StepWitness × InstrumentedState Server → Type 0
  Witnessed s p = (w : StepWitness) × (p.0 ≡ some w) × WitnessesState s w p.1.mem_proof

  -- The state is encoded after the proof of the instruction, with the same bytes.
  encode_after :
      (s : State) (after : Memory)
      → byte_at after ≡ byte_at s.memory
      → IsCoherent keccak256 after
      → length s.preimage_key ≡ 32
      → (s' : State) × (encode_witness keccak256 (record s { memory = after })
          ≡ ok (digest keccak256 s.memory 27 1 ++ encode_fields s, s'))
  unfolding encode_fields
  encode_after s after same c k =
      let (w, s', returns, bytes, whole, hashed) =
        encode_witness-hash keccak256 digest_length (record s { memory = after }) c k in
      (
        s',
        returns
            ∙ ap (λ v. ok (v, s'))
                (bytes ∙ ap (λ b. subtree keccak256 (memory_leaf b) 27 1 ++ encode_fields s) same),
      )

  module _ {Server : Type 0} (oracle : PreimageOracle Server) where
    -- A step with a proof, from a thread with a coherent memory, a program counter below 2 ^ 32 and a
    -- preimage key of 32 bytes, that succeeds returns a witness of the state before it.
    pub step-witness :
        (vm : InstrumentedState Server)
        → IsCoherent keccak256 vm.state.memory
        → vm.state.pc < 2 ^ 32
        → length vm.state.preimage_key ≡ 32
        → Holds (Witnessed vm.state) (step keccak256 oracle true vm)
    unfolding step begin_step
    step-witness vm c fits k =
        let s = vm.state in
        let p = proof_lem keccak256 digest_length s.pc s.memory fits c in
        let (s', encoded) = encode_after s p.after p.same_view p.coherent k in
        rw (p.returns, encoded)
          (Holds-bind (λ _. Unit {0}) (Witnessed s) (inner_step keccak256 oracle _) _
            (Holds-any (λ _. Unit {0}) (inner_step keccak256 oracle _) λ _. tt)
            λ vm' _. (
              _,
              refl,
              record {
                leaf = p.leaf;
                branch = p.branch;
                state_bytes = refl;
                proof_bytes = refl;
                holds_bytes = p.holds_bytes;
                levels = p.levels;
                verifies = p.verifies;
              },
            ))
