-- ===== src/Kernel/Proofs.antt =====
-- The proofs that `Kernel::run` of crates/cannon/src/kernel.rs writes.
use cannon_rs.Prelude.{
  ℕ, ◌*◌, ◌/◌, slice, ◌^◌, ◌<◌, ◌≡◌, refl, sym, ◌∙◌, ap, true, List, [], ◌∷◌, ◌++◌, length, ok,
  Holds, Holds-bind, Holds-both,
}
use cannon_rs.Hash.{Digest, Keccak}
use cannon_rs.Merkle.{subtree}
use cannon_rs.Memory.{Memory}
use cannon_rs.Memory.Invariant.{byte_at, memory_leaf}
use cannon_rs.Memory.Coherent.{digest}
use cannon_rs.Memory.Merkleize.Pages.{IsValid-same, byte_at_same}
use cannon_rs.Memory.Merkleize.Root.{merkle_root-Merkleizes}
use cannon_rs.Memory.Sound.{IsSound}
use cannon_rs.State.{State, encode_fields, encode_witness, state_hash}
use cannon_rs.Vm.{PreimageOracle, InstrumentedState}
use cannon_rs.Vm.Step.{StepWitness, step}
use cannon_rs.Vm.Steps.{step-IsSound}
use cannon_rs.Vm.StepWitness.{WitnessesState, Witnessed, step-witness}
use cannon_rs.Vm.Witness.{AbiCalls}
use cannon_rs.Kernel.Run.{Task, proof_task, Host, Settings, prove_step}
use cannon_rs.Kernel.Decimal.{Text}

-- The bytes that commit to a state.
abbrev pub committed : Keccak → State → List ℕ
committed keccak256 s = digest keccak256 s.memory 27 1 ++ encode_fields s

-- The encoding of a state with a coherent memory: only caches change.
pub record Encodes (keccak256 : Keccak) (s : State) : Type 0 where
  pub after : Memory
  pub returns : encode_witness keccak256 s ≡ ok (committed keccak256 s, record s { memory = after })
  pub same_view : byte_at after ≡ byte_at s.memory
  pub sound : IsSound keccak256 after

pub encode_witness-Encodes :
    (keccak256 : Keccak) (s : State) → IsSound keccak256 s.memory → Encodes keccak256 s
encode_witness-Encodes keccak256 s h =
    let r = merkle_root-Merkleizes keccak256 s.memory h.coherent in
    record {
      after = record s.memory { nodes = r.nodes; store = r.store };
      returns = unfold encode_witness in rw r.returns refl;
      same_view = byte_at_same s.memory r.nodes r.store r.same_bytes;
      sound = record {
        valid = IsValid-same s.memory r.nodes r.store h.valid;
        coherent = r.coherent;
      };
    }

-- Two states that differ in the caches alone are committed to by the same bytes.
pub committed_same :
    (keccak256 : Keccak) (s : State) (after : Memory)
    → byte_at after ≡ byte_at s.memory
    → committed keccak256 (record s { memory = after }) ≡ committed keccak256 s
unfolding encode_fields
committed_same keccak256 s after same =
    ap (λ b. subtree keccak256 (memory_leaf b) 27 1 ++ encode_fields s) same

module _ (keccak256 : Keccak)
    (digest_length : (bytes : List ℕ) → length (keccak256 bytes) ≡ 32) where
  -- The witness of a state is one of the same state with other caches.
  WitnessesState-same :
      (s : State) (after : Memory) (w : StepWitness) (access : List ℕ)
      → byte_at after ≡ byte_at s.memory
      → WitnessesState keccak256 digest_length (record s { memory = after }) w access
      → WitnessesState keccak256 digest_length s w access
  WitnessesState-same s after w access same h = record {
    leaf = h.leaf;
    branch = h.branch;
    state_bytes = h.state_bytes ∙ committed_same keccak256 s after same;
    proof_bytes = h.proof_bytes;
    holds_bytes = h.holds_bytes ∙ ap (λ b. slice b (s.pc / 32 * 32) 32) same;
    levels = h.levels;
    verifies = h.verifies ∙ ap (λ b. subtree keccak256 (memory_leaf b) 27 1) same;
  }

  module _ {Server Child Files : Type 0} (oracle : PreimageOracle Server) (abi : AbiCalls)
      (host : Host Child Files) where
    -- The task of a proof: its witness is of the state before, and its hashes are those of the states
    -- before and after.
    abbrev pub Proved : State → List Task × InstrumentedState Server → Type 0
    Proved s p =
        (path : Text) × (pre : Digest) × (post : Digest) × (w : StepWitness) × (p.0
          ≡ proof_task path s.step pre post w ∷ [])
        × (pre ≡ state_hash keccak256 w.state)
        × (post ≡ state_hash keccak256 (committed keccak256 p.1.state))
        × WitnessesState keccak256 digest_length s w p.1.mem_proof

    -- A step with a proof that succeeds, of a thread with a sound memory, a program counter below
    -- 2 ^ 32 and a preimage key of 32 bytes.
    pub prove_step-Proved :
        (settings : Settings) (vm : InstrumentedState Server)
        → IsSound keccak256 vm.state.memory
        → vm.state.pc < 2 ^ 32
        → length vm.state.preimage_key ≡ 32
        → Holds (Proved vm.state) (prove_step keccak256 oracle abi host settings vm)
    unfolding prove_step
    prove_step-Proved settings vm h fits k =
        let s = vm.state in
        let e = encode_witness-Encodes keccak256 s h in
        let vm0 = record vm { state = record s { memory = e.after } } in
        rw e.returns (
          Holds-bind
            (λ p.
              Witnessed keccak256 digest_length vm0.state p × IsSound keccak256 p.1.state.memory)
            (Proved s) (step keccak256 oracle true vm0) _
            (Holds-both (Witnessed keccak256 digest_length vm0.state)
              (λ p. IsSound keccak256 p.1.state.memory) (step keccak256 oracle true vm0)
              (step-witness keccak256 digest_length oracle vm0 e.sound.coherent fits k)
              (step-IsSound keccak256 oracle true vm0 e.sound))
            λ p h'.
              let (w, taken, witnesses) = h'.0 in
              let e' = encode_witness-Encodes keccak256 p.1.state h'.1 in
              rw (taken, e'.returns)
                (
                  _,
                  _,
                  _,
                  w,
                  refl,
                  ap (state_hash keccak256) (
                      sym (witnesses.state_bytes ∙ committed_same keccak256 s e.after e.same_view)),
                  ap (state_hash keccak256)
                      (sym (committed_same keccak256 p.1.state e'.after e'.same_view)),
                  WitnessesState-same s e.after w p.1.mem_proof e.same_view witnesses,
                ))
