-- ===== src/Vm/Alike.antt =====
-- Steps of two threads that differ only in how the bytes of memory are kept,
-- crates/mipsevm/src/mips/mips_vm.rs: what the parts of a step do on both.
pub mod Syscalls
pub mod Step
pub mod Steps
use cannon_rs.Prelude.{
  ℕ, zero, suc, ◌+◌, ◌/◌, ◌%◌, ◌*◌, ◌^◌, ◌<◌, ◌≡◌, refl, sym, ap, ◌∙◌, Bool, true, false, not, ◌&&◌,
  ◌||◌, if◌then◌else◌, leb, ltb, ◌==◌, List, take, drop, length, Result, ok, err, panic, diverge,
  ◌>>=◌, ◌>>◌, map_ok, bit_and, bail_if, panic_if, jump_in_delay_slot, branch_in_delay_slot,
  invalid_register, different_memory_access, arith,
}
use cannon_rs.Prelude.Int.{rem_ℤ, quot_ℤ}
use cannon_rs.Word.{u64, add32, shl32, sext64, as_i32, i32_as_u32}
use cannon_rs.Hash.{Keccak}
use cannon_rs.Memory.{Memory, get_memory, set_memory, merkle_proof}
use cannon_rs.Memory.Alike
use cannon_rs.Memory.Alike.{Holder, itself, beside, Same, Alike-bind, Alike-then, Alike-if}
use cannon_rs.Memory.Alike.Words.{get_memory-Alike, set_memory-Alike}
use cannon_rs.Memory.Alike.Nodes.{merkle_proof-Alike}
use cannon_rs.State.{State}
use cannon_rs.Vm.{
  PreimageOracle, InstrumentedState, track_mem_access, fetch_preimage, read_preimage, u32_max,
  bytes_eq,
}
use cannon_rs.Vm.Alu.{sign_extend}
use cannon_rs.Vm.Handlers.{
  advance, set_register, set_product, handle_rd, handle_jump, handle_branch, hi_lo, handle_hi_lo,
  should_branch,
}
use cannon_rs.Vm.Syscalls.{Outcome, tracked_word}

abbrev pub in_state : Holder State
in_state = record { memory = λ s. s.memory; put = λ m' s. record s { memory = m' } }

abbrev pub in_vm : (Server : Type 0) → Holder (InstrumentedState Server)
in_vm Server = record {
  memory = λ vm. vm.state.memory;
  put = λ m' vm. record vm { state = record (vm.state) { memory = m' } };
}

module _ (keccak256 : Keccak) where
  chosen-Alike :
      (b : Bool) (s t : State) (m' : Memory)
      → Same keccak256 s.memory m'
      → Same keccak256 t.memory m'
      → Alike.Alike keccak256 in_state
          (ok (if b then s else t))
          (ok (if b then record s { memory = m' } else record t { memory = m' }))
  chosen-Alike true s t m' h k = (m', h, refl)
  chosen-Alike false s t m' h k = (m', k, refl)

  advanced-Alike :
      (b : Bool) (s t : State) (m' : Memory)
      → Same keccak256 s.memory m'
      → Same keccak256 t.memory m'
      → Alike.Alike keccak256 in_state
          (ok (advance (if b then s else t)))
          (ok (advance (if b then record s { memory = m' } else record t { memory = m' })))
  unfolding advance
  advanced-Alike true s t m' h k = (m', h, refl)
  advanced-Alike false s t m' h k = (m', k, refl)

  pub handle_jump-Alike :
      (link dest : ℕ) (s : State) (m' : Memory)
      → Same keccak256 s.memory m'
      → Alike.Alike keccak256 in_state
          (handle_jump link dest s)
          (handle_jump link dest (record s { memory = m' }))
  unfolding handle_jump
  handle_jump-Alike link dest s m' same =
      Alike-then keccak256 in_state
        (bail_if (not (s.next_pc == add32 s.pc 4)) (jump_in_delay_slot s.pc)) _ _
        λ _. chosen-Alike (link == 0) _ _ m' same same

  pub handle_branch-Alike :
      (opcode instruction rt_reg rs : ℕ) (s : State) (m' : Memory)
      → Same keccak256 s.memory m'
      → Alike.Alike keccak256 in_state
          (handle_branch opcode instruction rt_reg rs s)
          (handle_branch opcode instruction rt_reg rs (record s { memory = m' }))
  unfolding handle_branch
  handle_branch-Alike opcode instruction rt_reg rs s m' same =
      Alike-then keccak256 in_state
        (bail_if (not (s.next_pc == add32 s.pc 4)) (branch_in_delay_slot s.pc)) _ _
        λ _. (m', same, refl)

  pub handle_rd-Alike :
      (reg val : ℕ) (conditional : Bool) (s : State) (m' : Memory)
      → Same keccak256 s.memory m'
      → Alike.Alike keccak256 in_state
          (handle_rd reg val conditional s)
          (handle_rd reg val conditional (record s { memory = m' }))
  unfolding handle_rd
  handle_rd-Alike reg val conditional s m' same =
      Alike-then keccak256 in_state (bail_if (leb 32 reg) (invalid_register reg)) _ _
        λ _. advanced-Alike (not (reg == 0) && conditional) _ _ m' same same

  hi_lo-Alike :
      (fun rs rt : ℕ) (s : State) (m' : Memory)
      → Same keccak256 s.memory m'
      → Alike.Alike keccak256
          (beside ℕ in_state)
          (hi_lo fun rs rt s)
          (hi_lo fun rs rt (record s { memory = m' }))
  unfolding hi_lo
  hi_lo-Alike fun rs rt s m' same =
      let holder = beside ℕ in_state in
      let pick : (b : Bool) (r t r' t' : Result (ℕ × State)) → _ → _ → _ =
        Alike-if keccak256 holder in
      pick (fun == 0x10) _ _ _ _ (m', same, refl)
        (pick (fun == 0x11) _ _ _ _ (m', same, refl)
          (pick (fun == 0x12) _ _ _ _ (m', same, refl)
            (pick (fun == 0x13) _ _ _ _ (m', same, refl)
              (pick (fun == 0x18) _ _ _ _ (m', same, refl)
                (pick (fun == 0x19) _ _ _ _ (m', same, refl)
                  (pick (fun == 0x1A) _ _ _ _
                    (Alike-then keccak256 holder
                      (panic_if (rt == 0 || (rs == 0x80000000 && rt == 0xFFFFFFFF))) _ _
                      λ _. (m', same, refl))
                    (pick (fun == 0x1B) _ _ _ _
                      (Alike-then keccak256 holder (panic_if (rt == 0)) _ _ λ _. (m', same, refl))
                      (m', same, refl))))))))

  pub handle_hi_lo-Alike :
      (fun rs rt reg : ℕ) (s : State) (m' : Memory)
      → Same keccak256 s.memory m'
      → Alike.Alike keccak256 in_state
          (handle_hi_lo fun rs rt reg s)
          (handle_hi_lo fun rs rt reg (record s { memory = m' }))
  unfolding handle_hi_lo
  handle_hi_lo-Alike fun rs rt reg s m' same =
      Alike-bind keccak256 (beside ℕ in_state) in_state (hi_lo fun rs rt s) _ _ _
        (hi_lo-Alike fun rs rt s m' same) λ p m1 same1. advanced-Alike (reg == 0) _ _ m1 same1 same1

  module _ {Server : Type 0} (oracle : PreimageOracle Server) where
    abbrev Vm : Type 0
    Vm = InstrumentedState Server

    abbrev put : Memory → Vm → Vm
    put m' vm = (in_vm Server).put m' vm

    pub track-Alike :
        (address : ℕ) (vm : Vm) (m' : Memory)
        → Same keccak256 vm.state.memory m'
        → Alike.Alike keccak256
            (in_vm Server)
            (track_mem_access keccak256 oracle address vm)
            (track_mem_access keccak256 oracle address (put m' vm))
    unfolding track_mem_access
    track-Alike address vm m' same =
        Alike-if keccak256 (in_vm Server)
          (vm.mem_proof_enabled && not (vm.last_mem_access == address)) _ _ _ _
          (Alike-if keccak256 (in_vm Server) (not (vm.last_mem_access == u32_max)) _ _ _ _ refl (
            Alike-bind keccak256 (beside (List ℕ) itself) (in_vm Server)
              (merkle_proof keccak256 address vm.state.memory) _ _ _
              (merkle_proof-Alike keccak256 address vm.state.memory m' same)
              λ p m1 same1. (m1, same1, refl)))
          (m', same, refl)

    pub word-Alike :
        (address : ℕ) (vm : Vm) (m' : Memory)
        → Same keccak256 vm.state.memory m'
        → Alike.Alike keccak256
            (beside ℕ (in_vm Server))
            (tracked_word keccak256 oracle address vm)
            (tracked_word keccak256 oracle address (put m' vm))
    unfolding tracked_word
    word-Alike address vm m' same =
        Alike-bind keccak256 (in_vm Server) (beside ℕ (in_vm Server))
          (track_mem_access keccak256 oracle address vm) _ _ _ (track-Alike address vm m' same)
          λ vm1 m1 same1.
            Alike-bind keccak256 (beside ℕ itself) (beside ℕ (in_vm Server))
              (get_memory address vm1.state.memory) _ _ _
              (get_memory-Alike keccak256 address vm1.state.memory m1 same1)
              λ p m2 same2. (m2, same2, refl)

    fetch_preimage-Alike :
        (key : List ℕ) (vm : Vm) (m' : Memory)
        → Same keccak256 vm.state.memory m'
        → Alike.Alike keccak256
            (in_vm Server)
            (fetch_preimage keccak256 oracle key vm)
            (fetch_preimage keccak256 oracle key (put m' vm))
    unfolding fetch_preimage
    fetch_preimage-Alike key vm m' same =
        Alike-if keccak256 (in_vm Server) (bytes_eq key vm.last_preimage_key) _ _ _ _
          (m', same, refl)
          (Alike-then keccak256 (in_vm Server) (oracle.get key vm.preimage_oracle) _ _
            λ _. (m', same, refl))

    pub preimage-Alike :
        (key : List ℕ) (offset : ℕ) (vm : Vm) (m' : Memory)
        → Same keccak256 vm.state.memory m'
        → Alike.Alike keccak256
            (beside (List ℕ) (in_vm Server))
            (read_preimage keccak256 oracle key offset vm)
            (read_preimage keccak256 oracle key offset (put m' vm))
    unfolding read_preimage
    preimage-Alike key offset vm m' same =
        Alike-bind keccak256 (in_vm Server) (beside (List ℕ) (in_vm Server))
          (fetch_preimage keccak256 oracle key vm) _ _ _ (fetch_preimage-Alike key vm m' same)
          λ vm1 m1 same1.
            Alike-if keccak256 (beside (List ℕ) (in_vm Server))
              (ltb (length vm1.last_preimage) offset) _ _ _ _ refl (m1, same1, refl)

    -- The results of a handler, put into the thread's context.
    pub with_state-Alike :
        (vm : Vm) (m' : Memory) (r r' : Result State)
        → Alike.Alike keccak256 in_state r r'
        → Alike.Alike keccak256
            (in_vm Server)
            (map_ok (λ s. record vm { state = s }) r)
            (map_ok (λ s. record (put m' vm) { state = s }) r')
    with_state-Alike vm m' (ok s) r' (m1, same, e) = (m1, same, rw e refl)
    with_state-Alike vm m' (err e) r' h = rw h refl
    with_state-Alike vm m' panic r' h = rw h refl
    with_state-Alike vm m' diverge r' h = rw h refl
