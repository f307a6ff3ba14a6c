-- ===== src/Vm/Preserved/Syscalls.antt =====
-- What the system calls of crates/mipsevm/src/mips/mips_vm.rs keep.
use cannon_rs.Prelude.{ℕ, Result, ok, err, panic, diverge, ◌>>=◌, Holds, Holds-bind, bit_and, arith}
use cannon_rs.Hash.{Keccak}
use cannon_rs.Memory.{set_memory}
use cannon_rs.Types.{Syscall}
use cannon_rs.Vm.{PreimageOracle, InstrumentedState, read_preimage}
use cannon_rs.Vm.Syscalls.{
  Outcome, tracked_word, preimage_read, sys_read, hint_write, preimage_write, sys_write, mmap,
  fcntl, finish, dispatch,
}
use cannon_rs.Vm.Handlers.{advance}
use cannon_rs.Vm.Preserved
use cannon_rs.Vm.Preserved.{
  anything, MemoryInvariant, aligned_fits, target_fits, framed, track-Kept, word-Kept,
  preimage-Kept, bytes-Kept, with_state-Kept,
}

module _ {Server : Type 0} (keccak256 : Keccak) (oracle : PreimageOracle Server)
    (invariant : MemoryInvariant keccak256) where
  abbrev Vm : Type 0
  Vm = InstrumentedState Server

  abbrev Kept : Vm → Type 0
  Kept vm = Preserved.Kept keccak256 oracle invariant vm

  abbrev Done : Outcome Server → Type 0
  Done o = Kept o.vm

  preimage_read-Done :
      (a1 a2 : ℕ) (vm : Vm) → Kept vm → Holds Done (preimage_read keccak256 oracle a1 a2 vm)
  unfolding preimage_read
  preimage_read-Done a1 a2 vm z =
      Holds-bind (λ p. Kept p.1) Done (tracked_word keccak256 oracle (bit_and a1 0xFFFFFFFC) vm) _
        (word-Kept keccak256 oracle invariant (bit_and a1 0xFFFFFFFC) vm z)
        λ p z1.
          Holds-bind (λ q. Kept q.1) Done
            (read_preimage keccak256 oracle p.1.state.preimage_key p.1.state.preimage_offset p.1) _
            (preimage-Kept keccak256 oracle invariant p.1.state.preimage_key
              p.1.state.preimage_offset p.1 z1)
            λ q z2.
              Holds-bind (λ m. invariant.Keeps m (q.1.state.registers 0) q.1.state.step) Done
                (set_memory keccak256 (bit_and a1 0xFFFFFFFC) _ q.1.state.memory) _
                (invariant.stores (bit_and a1 0xFFFFFFFC) _ q.1.state.memory (q.1.state.registers 0)
                  q.1.state.step (aligned_fits a1) z2)
                λ memory z3. z3

  hint_write-Done :
      (a1 a2 : ℕ) (vm : Vm) → Kept vm → Holds Done (hint_write keccak256 oracle a1 a2 vm)
  unfolding hint_write
  hint_write-Done a1 a2 vm z = ground (arith, bytes-Kept keccak256 oracle invariant a1 a2 vm z)

  preimage_write-Done :
      (a1 a2 : ℕ) (vm : Vm) → Kept vm → Holds Done (preimage_write keccak256 oracle a1 a2 vm)
  unfolding preimage_write
  preimage_write-Done a1 a2 vm z =
      ground (arith, word-Kept keccak256 oracle invariant (bit_and a1 0xFFFFFFFC) vm z)

  sys_read-Done :
      (a0 a1 a2 : ℕ) (vm : Vm) → Kept vm → Holds Done (sys_read keccak256 oracle a0 a1 a2 vm)
  unfolding sys_read
  sys_read-Done a0 a1 a2 vm z = ground (arith, preimage_read-Done a1 a2 vm z)

  sys_write-Done :
      (a0 a1 a2 : ℕ) (vm : Vm) → Kept vm → Holds Done (sys_write keccak256 oracle a0 a1 a2 vm)
  unfolding sys_write
  sys_write-Done a0 a1 a2 vm z = ground (
    arith,
    bytes-Kept keccak256 oracle invariant a1 a2 vm z,
    hint_write-Done a1 a2 vm z,
    preimage_write-Done a1 a2 vm z,
  )

  finish-Kept : (o : Outcome Server) → Done o → Kept (finish keccak256 oracle o)
  unfolding finish advance
  finish-Kept o z = ground arith

  finished :
      (r : Result (Outcome Server))
      → Holds Done r
      → Holds Kept (r >>= λ o. ok (finish keccak256 oracle o))
  finished r h = Holds-bind Done Kept r (λ o. ok (finish keccak256 oracle o)) h finish-Kept

  pub dispatch-Kept :
      (syscall : Result Syscall) (vm : Vm)
      → Kept vm
      → Holds Kept (dispatch keccak256 oracle syscall vm)
  unfolding dispatch mmap fcntl finish advance
  dispatch-Kept (ok Syscall.mmap) vm z = ground arith
  dispatch-Kept (ok Syscall.brk) vm z = ground arith
  dispatch-Kept (ok Syscall.clone) vm z = ground arith
  dispatch-Kept (ok Syscall.exit_group) vm z = z
  dispatch-Kept (ok Syscall.fcntl) vm z = ground arith
  dispatch-Kept (ok Syscall.read) vm z =
      finished
        (sys_read keccak256 oracle (vm.state.registers 4) (vm.state.registers 5)
          (vm.state.registers 6) vm)
        (sys_read-Done (vm.state.registers 4) (vm.state.registers 5) (vm.state.registers 6) vm z)
  dispatch-Kept (ok Syscall.write) vm z =
      finished
        (sys_write keccak256 oracle (vm.state.registers 4) (vm.state.registers 5)
          (vm.state.registers 6) vm)
        (sys_write-Done (vm.state.registers 4) (vm.state.registers 5) (vm.state.registers 6) vm z)
  dispatch-Kept (err e) vm z = ground arith
  dispatch-Kept panic vm z = ground arith
  dispatch-Kept diverge vm z = ground arith
