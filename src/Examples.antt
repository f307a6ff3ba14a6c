-- ===== src/Examples.antt =====
-- Concrete runs: each theorem of the development at an input where its hypotheses hold. The hash of
-- the examples is constant, of 32 bytes; the memory is the one the program starts from.
mod Channels
mod Runs
mod Memories
mod Commands
mod Services
mod Words
mod Jumps
use cannon_rs.Prelude.{
  ◌==◌, ◌-◌, ℕ, ◌+◌, ◌*◌, ◌/◌, ◌%◌, ◌^◌, ◌≤◌, ◌<◌, ◌≡◌, ◌≢◌, refl, false, List, [], ◌∷◌, ◌++◌,
  length, replicate, drop, copy_at, copy_at_below, copy_at_above, inr, ltb, jump_in_delay_slot,
  branch_in_delay_slot, ok, panic, err, Holds, bit_and, arith, if◌then◌else◌,
}
use cannon_rs.Word.{add32, shl32}
use cannon_rs.Word.Bytes.{u32_to_be_bytes}
use cannon_rs.Hash.{Keccak, Digest}
use cannon_rs.Merkle.{subtree}
use cannon_rs.Merkle.Verify.{verify, descend, siblings, verify-siblings}
use cannon_rs.Page
use cannon_rs.Page.{CachedPage, default_page}
use cannon_rs.Page.Coherent
use cannon_rs.Page.Coherent.{merkleize_subtree-Merkleizes}
use cannon_rs.Page.Writes.{invalidated, invalidated-IsCoherent}
use cannon_rs.Page.Default.{default_page-IsCoherent}
use cannon_rs.Memory
use cannon_rs.Memory.{Memory, get_memory, set_memory, merkle_root, merkle_proof}
use cannon_rs.Memory.Coherent.{Merkleizes, digest}
use cannon_rs.Memory.Merkleize.Root.{merkle_root-Merkleizes}
use cannon_rs.Memory.Reads.{Reads, get_memory-Reads}
use cannon_rs.Memory.Stores.{Writes}
use cannon_rs.Memory.Writes.{set_memory-Writes}
use cannon_rs.Memory.RoundTrip.{get_memory-set_memory, default-IsValid, default-IsCoherent}
use cannon_rs.Memory.Verified.{Proves, merkle_proof-verify}
use cannon_rs.State.{State, encode_fields, encode_witness, state_hash, vm_status}
use cannon_rs.State.Encoding.{encode_witness-hash}
use cannon_rs.Types.{vm_status_as_u8}
use cannon_rs.Vm.{PreimageOracle, InstrumentedState}
use cannon_rs.Vm.Alu.{sign_extend, execute_function, execute_special2}
use cannon_rs.Vm.Handlers.{should_branch, handle_jump, handle_branch, handle_hi_lo}
use cannon_rs.Vm.Syscalls.{mmap, preimage_read}
use cannon_rs.Vm.Step.{inner_step}
use cannon_rs.Vm.StepInvariant.{inner_step-Zeroed}
use cannon_rs.Vm.Products.{multu_product, divu_quotient}
use cannon_rs.Vm.LeadingOnes.{count_ends}
use cannon_rs.Vm.Extend.{sign_extend_lem, execute_function-shifts}
use cannon_rs.Vm.Signs.{sra_by_zero}
use cannon_rs.Vm.Bounds.{mmap_aligned, preimage_read_bounded}

abbrev pub constant_hash : Keccak
constant_hash bytes = replicate 32 7

pub constant_hash_length : (bytes : List ℕ) → length (constant_hash bytes) ≡ 32
constant_hash_length bytes = refl

abbrev three : ℕ
three = 3

abbrev pub example_page : CachedPage
example_page = default_page constant_hash

abbrev pub example_state : State
example_state = record {
  memory = Memory.default;
  preimage_key = replicate 32 1;
  preimage_offset = 0;
  pc = 16;
  next_pc = 20;
  lo = 0;
  hi = 0;
  heap = 0x20000000;
  exit_code = 0;
  exited = false;
  step = 3;
  registers = λ i. i * 5;
  last_hint = [];
}

abbrev pub quiet_oracle : PreimageOracle (Unit {0})
quiet_oracle = record {
  hint = λ bytes server. ok server;
  get = λ key server. ok (1 ∷ 2 ∷ 3 ∷ [], server);
}

abbrev pub example_vm : InstrumentedState (Unit {0})
example_vm = record {
  state = example_state;
  std_out = [];
  std_err = [];
  last_mem_access = 0xFFFFFFFF;
  mem_proof_enabled = false;
  mem_proof = [];
  preimage_oracle = tt;
  last_preimage = [];
  last_preimage_key = [];
  last_preimage_offset = 0;
}

merkle_proof-verify_example :
    (root : Digest) × (m' : Memory) × (merkle_root constant_hash Memory.default ≡ ok (root, m'))
    × Proves constant_hash constant_hash_length 68 m' root (merkle_proof constant_hash 68 m')
merkle_proof-verify_example =
    merkle_proof-verify constant_hash constant_hash_length 68 Memory.default (omega arith)
      (default-IsCoherent constant_hash)

merkle_root-Merkleizes_example :
    Merkleizes constant_hash 27 1 Memory.default (merkle_root constant_hash Memory.default)
merkle_root-Merkleizes_example =
    merkle_root-Merkleizes constant_hash Memory.default (default-IsCoherent constant_hash)

get_memory-set_memory_example :
    (m' : Memory) × (m'' : Memory) × (set_memory constant_hash 4096 77 Memory.default ≡ ok m')
    × (get_memory 4096 m' ≡ ok (77, m''))
get_memory-set_memory_example =
    get_memory-set_memory constant_hash 4096 4096 77 Memory.default (omega arith) (omega arith)
      (omega arith) (omega arith) default-IsValid (default-IsCoherent constant_hash)

set_memory-Writes_example :
    Writes constant_hash 4100
      (u32_to_be_bytes 258)
      Memory.default
      (set_memory constant_hash 4100 258 Memory.default)
set_memory-Writes_example =
    set_memory-Writes constant_hash 4100 258 Memory.default (omega arith) (omega arith)
      default-IsValid (default-IsCoherent constant_hash)

inner_step-Zeroed_example :
    Holds (λ vm. vm.state.registers 0 ≡ 0) (inner_step constant_hash quiet_oracle example_vm)
inner_step-Zeroed_example = inner_step-Zeroed constant_hash quiet_oracle example_vm refl

encode_witness-hash_example :
    (w : List ℕ) × (s' : State) × (encode_witness constant_hash example_state ≡ ok (w, s'))
    × (w ≡ digest constant_hash Memory.default 27 1 ++ encode_fields example_state)
    × (length w ≡ 226)
    × (state_hash constant_hash w ≡ vm_status_as_u8 (vm_status false 0) ∷ drop 1 (constant_hash w))
encode_witness-hash_example =
    encode_witness-hash constant_hash constant_hash_length example_state
      (default-IsCoherent constant_hash) refl

merkleize_subtree-Merkleizes_example :
    Coherent.Merkleizes constant_hash 7 1 example_page
      (Page.merkleize_subtree constant_hash 8 1 example_page)
merkleize_subtree-Merkleizes_example =
    merkleize_subtree-Merkleizes constant_hash 7 0 8 1 example_page (omega arith) (omega arith)
      (omega arith) (default_page-IsCoherent constant_hash)

multu_product_example :
    (s' : State) × (handle_hi_lo 0x19 0xFFFFFFFF 3 0 example_state ≡ ok s')
    × (s'.hi * 2 ^ 32 + s'.lo ≡ 0xFFFFFFFF * 3)
multu_product_example = multu_product 0xFFFFFFFF 3 0 example_state (omega arith) (omega arith)

divu_quotient_example :
    (three ≡ 0 → handle_hi_lo 0x1B 17 three 0 example_state ≡ panic)
    × (three ≢ 0
        → (s' : State) × (handle_hi_lo 0x1B 17 three 0 example_state ≡ ok s')
          × (s'.lo * 3 + s'.hi ≡ 17)
          × (s'.hi < 3))
divu_quotient_example = divu_quotient 17 three 0 example_state

execute_function-shifts_example : execute_function 3 0x00021083 0 0x80000010 ≡ (
    let shamt = bit_and (0x00021083 / 2 ^ 6) 0x1F in
    ok (
      if shamt == 0
      then 0
      else if ltb 0x80000010 (2 ^ 31)
      then 0x80000010 / 2 ^ shamt
      else 0x80000010 / 2 ^ shamt + (2 ^ 32 - 2 ^ (32 - shamt))))
execute_function-shifts_example = execute_function-shifts 0x00021083 0 0x80000010 (omega arith)
