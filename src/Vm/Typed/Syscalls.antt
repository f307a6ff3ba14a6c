-- ===== src/Vm/Typed/Syscalls.antt =====
-- The system calls of crates/mipsevm/src/mips/mips_vm.rs keep the types of the fields of the state.
use cannon_rs.Prelude.{
  ℕ, suc, ◌-◌, ◌^◌, ◌<◌, ◌≤◌, ◌≡◌, ltb, ◌==◌, if◌then◌else◌, List, ◌++◌, length, length-append,
  length-take, length-drop, take, drop, bit_and, Result, ok, err, panic, diverge, Holds, Holds-bind,
  Holds-then, Holds-if, not, ◌&&◌, ◌>>=◌, arith,
}
use cannon_rs.Hash.{Keccak}
use cannon_rs.Memory.{get_memory, set_memory, merkle_proof}
use cannon_rs.Memory.Reader.{read_to_end}
use cannon_rs.State.{State}
use cannon_rs.Types.{Syscall}
use cannon_rs.Word.Bytes.{u32_to_be_bytes}
use cannon_rs.Vm.{
  PreimageOracle, InstrumentedState, track_mem_access, fetch_preimage, read_preimage, u32_max,
}
use cannon_rs.Vm.Hints.{process_hints}
use cannon_rs.Vm.Syscalls.{
  Outcome, tracked_word, preimage_read, sys_read, memory_bytes, hint_write, preimage_write,
  sys_write, mmap, fcntl, finish, dispatch,
}
use cannon_rs.Vm.Typed.{HasWords, set_register-HasWords, with_memory-HasWords, advance-HasWords}

module _ {Server : Type 0} (keccak256 : Keccak) (oracle : PreimageOracle Server) where
  abbrev Vm : Type 0
  Vm = InstrumentedState Server

  abbrev pub VmWords : Vm → Type 0
  VmWords vm = HasWords vm.state

  -- The results for the registers 2 and 7 are u32 values.
  abbrev Done : Outcome Server → Type 0
  Done o = VmWords o.vm × (o.v0 < 2 ^ 32) × (o.v1 < 2 ^ 32)

  pub track-HasWords :
      (address : ℕ) (vm : Vm)
      → VmWords vm
      → Holds VmWords (track_mem_access keccak256 oracle address vm)
  unfolding track_mem_access
  track-HasWords address vm w =
      Holds-if VmWords (vm.mem_proof_enabled && not (vm.last_mem_access == address)) _ _
        (Holds-if VmWords (not (vm.last_mem_access == u32_max)) _ _ tt (
          Holds-then VmWords (merkle_proof keccak256 address vm.state.memory) _
            λ p. with_memory-HasWords p.1 vm.state w))
        w

  pub word-HasWords :
      (address : ℕ) (vm : Vm)
      → VmWords vm
      → Holds (λ p. VmWords p.1) (tracked_word keccak256 oracle address vm)
  unfolding tracked_word
  word-HasWords address vm w =
      Holds-bind VmWords (λ p. VmWords p.1) (track_mem_access keccak256 oracle address vm) _
        (track-HasWords address vm w)
        λ vm' w'.
          Holds-then (λ p. VmWords p.1) (get_memory address vm'.state.memory) _
            λ p. with_memory-HasWords p.1 vm'.state w'

  preimage-HasWords :
      (key : List ℕ) (offset : ℕ) (vm : Vm)
      → VmWords vm
      → Holds (λ p. VmWords p.1) (read_preimage keccak256 oracle key offset vm)
  unfolding read_preimage fetch_preimage
  preimage-HasWords key offset vm w = ground arith

  bytes-HasWords :
      (a1 a2 : ℕ) (vm : Vm)
      → VmWords vm
      → Holds (λ p. VmWords p.1) (memory_bytes keccak256 oracle a1 a2 vm)
  unfolding memory_bytes
  bytes-HasWords a1 a2 vm w =
      Holds-then (λ p. VmWords p.1) (read_to_end (suc a2) _) _
        λ p. with_memory-HasWords p.1 vm.state w

  preimage_read-Done :
      (a1 a2 : ℕ) (vm : Vm) → VmWords vm → Holds Done (preimage_read keccak256 oracle a1 a2 vm)
  unfolding preimage_read
  preimage_read-Done a1 a2 vm w =
      Holds-bind (λ p. VmWords p.1) Done (tracked_word keccak256 oracle (bit_and a1 0xFFFFFFFC) vm)
        _ (word-HasWords (bit_and a1 0xFFFFFFFC) vm w)
        λ p w1.
          Holds-bind (λ q. VmWords q.1) Done
            (read_preimage keccak256 oracle p.1.state.preimage_key p.1.state.preimage_offset p.1) _
            (preimage-HasWords p.1.state.preimage_key p.1.state.preimage_offset p.1 w1)
            λ q w2.
              Holds-then Done (set_memory keccak256 (bit_and a1 0xFFFFFFFC) _ q.1.state.memory) _
                λ memory. ground (arith, w2.registers)

  hint_write-Done :
      (a1 a2 : ℕ) (vm : Vm)
      → a2 < 2 ^ 32
      → VmWords vm
      → Holds Done (hint_write keccak256 oracle a1 a2 vm)
  unfolding hint_write
  hint_write-Done a1 a2 vm fits w =
      Holds-bind (λ p. VmWords p.1) Done (memory_bytes keccak256 oracle a1 a2 vm) _
        (bytes-HasWords a1 a2 vm w)
        λ p w1. Holds-then Done (process_hints oracle _ _ _) _ λ q. ground (arith, w1.registers)

  -- The key keeps its 32 bytes: as many as leave it at the left come in at the right.
  length-shifted :
      (key : List ℕ) (count alignment word : ℕ)
      → length key ≡ 32
      → count ≤ 4 - alignment
      → length (drop count key ++ take count (drop alignment (u32_to_be_bytes word))) ≡ 32
  length-shifted key count alignment word h few =
      let bytes = u32_to_be_bytes word in
      omega (
        arith,
        length-append (drop count key) (take count (drop alignment bytes)),
        length-drop count key,
        length-take count (drop alignment bytes),
        length-drop alignment bytes,
      )

  preimage_write-Done :
      (a1 a2 : ℕ) (vm : Vm) → VmWords vm → Holds Done (preimage_write keccak256 oracle a1 a2 vm)
  unfolding preimage_write
  preimage_write-Done a1 a2 vm w =
      Holds-bind (λ p. VmWords p.1) Done (tracked_word keccak256 oracle (bit_and a1 0xFFFFFFFC) vm)
        _ (word-HasWords (bit_and a1 0xFFFFFFFC) vm w)
        λ p w1.
          let space = 4 - bit_and a1 0x3 in
          let count = if ltb space a2 then space else a2 in
          let few : count ≤ space = ground arith in
          ground (
            arith,
            w1.registers,
            length-shifted p.1.state.preimage_key count (bit_and a1 0x3) p.0 w1.preimage_key few,
          )

  sys_read-Done :
      (a0 a1 a2 : ℕ) (vm : Vm)
      → a2 < 2 ^ 32
      → VmWords vm
      → Holds Done (sys_read keccak256 oracle a0 a1 a2 vm)
  unfolding sys_read
  sys_read-Done a0 a1 a2 vm fits w = ground (arith, w.registers, preimage_read-Done a1 a2 vm w)

  sys_write-Done :
      (a0 a1 a2 : ℕ) (vm : Vm)
      → a2 < 2 ^ 32
      → VmWords vm
      → Holds Done (sys_write keccak256 oracle a0 a1 a2 vm)
  unfolding sys_write
  sys_write-Done a0 a1 a2 vm fits w = ground (
    arith,
    bytes-HasWords a1 a2 vm w,
    hint_write-Done a1 a2 vm fits w,
    preimage_write-Done a1 a2 vm w,
  )

  mmap-HasWords :
      (a0 a1 : ℕ) (s : State)
      → a0 < 2 ^ 32
      → HasWords s
      → ((mmap a0 a1 s).0 < 2 ^ 32) × HasWords (mmap a0 a1 s).1
  unfolding mmap
  mmap-HasWords a0 a1 s fits w = ground (arith, w.registers)

  fcntl-lt : (a0 a1 : ℕ) → ((fcntl a0 a1).0 < 2 ^ 32) × ((fcntl a0 a1).1 < 2 ^ 32)
  unfolding fcntl
  fcntl-lt a0 a1 = ground arith

  finish-HasWords : (o : Outcome Server) → Done o → VmWords (finish keccak256 oracle o)
  unfolding finish
  finish-HasWords o d =
      advance-HasWords _
        (set_register-HasWords 7 o.v1 _ d.2 (set_register-HasWords 2 o.v0 o.vm.state d.1 d.0))

  finished :
      (r : Result (Outcome Server))
      → Holds Done r
      → Holds VmWords (r >>= λ o. ok (finish keccak256 oracle o))
  finished r h = Holds-bind Done VmWords r (λ o. ok (finish keccak256 oracle o)) h finish-HasWords

  results :
      (v0 v1 : ℕ) (vm : Vm)
      → VmWords vm
      → v0 < 2 ^ 32
      → v1 < 2 ^ 32
      → VmWords (finish keccak256 oracle (record { v0 = v0; v1 = v1; vm = vm }))
  results v0 v1 vm w h k = finish-HasWords (record { v0 = v0; v1 = v1; vm = vm }) (w, h, k)

  pub dispatch-HasWords :
      (syscall : Result Syscall) (vm : Vm)
      → VmWords vm
      → Holds VmWords (dispatch keccak256 oracle syscall vm)
  unfolding dispatch
  dispatch-HasWords (ok Syscall.mmap) vm w =
      let (v0, s') = mmap (vm.state.registers 4) (vm.state.registers 5) vm.state in
      let r =
        mmap-HasWords (vm.state.registers 4) (vm.state.registers 5) vm.state (w.registers 4) w in
      results v0 0 (record vm { state = s' }) r.1 r.0 (omega arith)
  dispatch-HasWords (ok Syscall.brk) vm w = results 0x40000000 0 vm w (omega arith) (omega arith)
  dispatch-HasWords (ok Syscall.clone) vm w = results 1 0 vm w (omega arith) (omega arith)
  dispatch-HasWords (ok Syscall.exit_group) vm w = ground (arith, w.registers)
  dispatch-HasWords (ok Syscall.fcntl) vm w =
      let (v0, v1) = fcntl (vm.state.registers 4) (vm.state.registers 5) in
      let r = fcntl-lt (vm.state.registers 4) (vm.state.registers 5) in results v0 v1 vm w r.0 r.1
  dispatch-HasWords (ok Syscall.read) vm w =
      finished
        (sys_read keccak256 oracle (vm.state.registers 4) (vm.state.registers 5)
          (vm.state.registers 6) vm)
        (sys_read-Done (vm.state.registers 4) (vm.state.registers 5) (vm.state.registers 6) vm
          (w.registers 6) w)
  dispatch-HasWords (ok Syscall.write) vm w =
      finished
        (sys_write keccak256 oracle (vm.state.registers 4) (vm.state.registers 5)
          (vm.state.registers 6) vm)
        (sys_write-Done (vm.state.registers 4) (vm.state.registers 5) (vm.state.registers 6) vm
          (w.registers 6) w)
  dispatch-HasWords (err e) vm w = results 0 0 vm w (omega arith) (omega arith)
  dispatch-HasWords panic vm w = results 0 0 vm w (omega arith) (omega arith)
  dispatch-HasWords diverge vm w = results 0 0 vm w (omega arith) (omega arith)
