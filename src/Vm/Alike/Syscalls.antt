-- ===== src/Vm/Alike/Syscalls.antt =====
-- System calls of two threads that differ only in how the bytes of memory are kept, `handle_syscall` of
-- crates/mipsevm/src/mips/mips_vm.rs.
use cannon_rs.Prelude.{
  ℕ, suc, ◌≡◌, refl, inl, inr, Bool-cases, ◌==◌, List, ◌++◌, length, bit_and, Result, ok, err,
  panic, diverge, ◌>>=◌,
}
use cannon_rs.Word.{u8}
use cannon_rs.Types.{Fd, fd_try_from, Syscall}
use cannon_rs.Hash.{Keccak}
use cannon_rs.Memory.{Memory, set_memory}
use cannon_rs.Memory.Reader.{MemoryReader, read_to_end}
use cannon_rs.Memory.Alike
use cannon_rs.Memory.Alike.{Holder, itself, beside, Same, Alike-bind, Alike-then, Alike-if}
use cannon_rs.Memory.Alike.Words.{set_memory-Alike}
use cannon_rs.Memory.Alike.Readers.{read_to_end-Alike}
use cannon_rs.Vm.{PreimageOracle, InstrumentedState, read_preimage}
use cannon_rs.Vm.Handlers.{advance}
use cannon_rs.Vm.Hints.{process_hints}
use cannon_rs.Vm.Syscalls.{
  Outcome, tracked_word, preimage_read, sys_read, memory_bytes, hint_write, preimage_write,
  sys_write, mmap, finish, dispatch,
}
use cannon_rs.Vm.Preserved.{aligned_fits}
use cannon_rs.Vm.Alike.{in_vm, word-Alike, preimage-Alike}

module _ {Server : Type 0} (keccak256 : Keccak) (oracle : PreimageOracle Server) where
  abbrev Vm : Type 0
  Vm = InstrumentedState Server

  abbrev in_outcome : Holder (Outcome Server)
  in_outcome = record {
    memory = λ o. o.vm.state.memory;
    put = λ m' o. record o { vm = (in_vm Server).put m' o.vm };
  }

  abbrev put : Memory → Vm → Vm
  put m' vm = (in_vm Server).put m' vm

  abbrev Ends : Result (Outcome Server) → Result (Outcome Server) → Type 0
  Ends r r' = Alike.Alike keccak256 in_outcome r r'

  preimage_read-Alike :
      (a1 a2 : ℕ) (vm : Vm) (m' : Memory)
      → Same keccak256 vm.state.memory m'
      → Ends
          (preimage_read keccak256 oracle a1 a2 vm)
          (preimage_read keccak256 oracle a1 a2 (put m' vm))
  unfolding preimage_read
  preimage_read-Alike a1 a2 vm m' same =
      Alike-bind keccak256 (beside ℕ (in_vm Server)) in_outcome
        (tracked_word keccak256 oracle (bit_and a1 0xFFFFFFFC) vm) _ _ _
        (word-Alike keccak256 oracle (bit_and a1 0xFFFFFFFC) vm m' same)
        λ p m1 same1.
          Alike-bind keccak256 (beside (List ℕ) (in_vm Server)) in_outcome
            (read_preimage keccak256 oracle p.1.state.preimage_key p.1.state.preimage_offset p.1) _
            _ _
            (preimage-Alike keccak256 oracle p.1.state.preimage_key p.1.state.preimage_offset p.1 m1
              same1)
            λ q m2 same2.
              Alike-bind keccak256 itself in_outcome
                (set_memory keccak256 (bit_and a1 0xFFFFFFFC) _ q.1.state.memory) _ _ _
                (set_memory-Alike keccak256 (bit_and a1 0xFFFFFFFC) _ q.1.state.memory m2
                  (aligned_fits a1) same2)
                λ memory m3 same3. (m3, same3, refl)

  bytes-Alike :
      (a1 a2 : ℕ) (vm : Vm) (m' : Memory)
      → Same keccak256 vm.state.memory m'
      → Alike.Alike keccak256
          (beside (List ℕ) (in_vm Server))
          (memory_bytes keccak256 oracle a1 a2 vm)
          (memory_bytes keccak256 oracle a1 a2 (put m' vm))
  unfolding memory_bytes
  bytes-Alike a1 a2 vm m' same =
      let reader : MemoryReader = record { memory = vm.state.memory; address = a1; count = a2 } in
      Alike-bind keccak256 (beside (List ℕ) itself) (beside (List ℕ) (in_vm Server))
        (read_to_end (suc a2) reader) _ _ _ (read_to_end-Alike keccak256 (suc a2) reader m' same)
        λ p m1 same1. (m1, same1, refl)

  hint_write-Alike :
      (a1 a2 : ℕ) (vm : Vm) (m' : Memory)
      → Same keccak256 vm.state.memory m'
      → Ends (hint_write keccak256 oracle a1 a2 vm) (hint_write keccak256 oracle a1 a2 (put m' vm))
  unfolding hint_write
  hint_write-Alike a1 a2 vm m' same =
      Alike-bind keccak256 (beside (List ℕ) (in_vm Server)) in_outcome
        (memory_bytes keccak256 oracle a1 a2 vm) _ _ _ (bytes-Alike a1 a2 vm m' same)
        λ p m1 same1.
          let last_hint = p.1.state.last_hint ++ p.0 in
          Alike-then keccak256 in_outcome
            (process_hints oracle (suc (length last_hint)) last_hint p.1.preimage_oracle) _ _
            λ _. (m1, same1, refl)

  preimage_write-Alike :
      (a1 a2 : ℕ) (vm : Vm) (m' : Memory)
      → Same keccak256 vm.state.memory m'
      → Ends
          (preimage_write keccak256 oracle a1 a2 vm)
          (preimage_write keccak256 oracle a1 a2 (put m' vm))
  unfolding preimage_write
  preimage_write-Alike a1 a2 vm m' same =
      Alike-bind keccak256 (beside ℕ (in_vm Server)) in_outcome
        (tracked_word keccak256 oracle (bit_and a1 0xFFFFFFFC) vm) _ _ _
        (word-Alike keccak256 oracle (bit_and a1 0xFFFFFFFC) vm m' same)
        λ p m1 same1. (m1, same1, refl)

  sys_read-Alike :
      (a0 a1 a2 : ℕ) (vm : Vm) (m' : Memory)
      → Same keccak256 vm.state.memory m'
      → Ends
          (sys_read keccak256 oracle a0 a1 a2 vm)
          (sys_read keccak256 oracle a0 a1 a2 (put m' vm))
  unfolding sys_read
  sys_read-Alike a0 a1 a2 vm m' same = by_fd (fd_try_from (u8 a0)) refl
    where
      by_fd :
          (fd : Result Fd)
          → fd_try_from (u8 a0) ≡ fd
          → Ends
              (sys_read keccak256 oracle a0 a1 a2 vm)
              (sys_read keccak256 oracle a0 a1 a2 (put m' vm))
      by_fd (ok Fd.preimage_read) h = rw (sys_read, h) (preimage_read-Alike a1 a2 vm m' same)
      by_fd (ok Fd.std_in) h = rw (sys_read, h) (m', same, refl)
      by_fd (ok Fd.hint_read) h = rw (sys_read, h) (m', same, refl)
      by_fd (ok Fd.stdout) h = rw (sys_read, h) (m', same, refl)
      by_fd (ok Fd.std_err) h = rw (sys_read, h) (m', same, refl)
      by_fd (ok Fd.hint_write) h = rw (sys_read, h) (m', same, refl)
      by_fd (ok Fd.preimage_write) h = rw (sys_read, h) (m', same, refl)
      by_fd (err e) h = rw (sys_read, h) (m', same, refl)
      by_fd panic h = rw (sys_read, h) (m', same, refl)
      by_fd diverge h = rw (sys_read, h) (m', same, refl)

  sys_write-Alike :
      (a0 a1 a2 : ℕ) (vm : Vm) (m' : Memory)
      → Same keccak256 vm.state.memory m'
      → Ends
          (sys_write keccak256 oracle a0 a1 a2 vm)
          (sys_write keccak256 oracle a0 a1 a2 (put m' vm))
  unfolding sys_write
  sys_write-Alike a0 a1 a2 vm m' same = by_fd (fd_try_from (u8 a0)) refl
    where
      by_fd :
          (fd : Result Fd)
          → fd_try_from (u8 a0) ≡ fd
          → Ends
              (sys_write keccak256 oracle a0 a1 a2 vm)
              (sys_write keccak256 oracle a0 a1 a2 (put m' vm))
      by_fd (ok Fd.hint_write) h = rw (sys_write, h) (hint_write-Alike a1 a2 vm m' same)
      by_fd (ok Fd.preimage_write) h = rw (sys_write, h) (preimage_write-Alike a1 a2 vm m' same)
      by_fd (ok Fd.stdout) h =
          rw (sys_write, h)
            (Alike-bind keccak256 (beside (List ℕ) (in_vm Server)) in_outcome
              (memory_bytes keccak256 oracle a1 a2 vm) _ _ _ (bytes-Alike a1 a2 vm m' same)
              λ p m1 same1. (m1, same1, refl))
      by_fd (ok Fd.std_err) h =
          rw (sys_write, h)
            (Alike-bind keccak256 (beside (List ℕ) (in_vm Server)) in_outcome
              (memory_bytes keccak256 oracle a1 a2 vm) _ _ _ (bytes-Alike a1 a2 vm m' same)
              λ p m1 same1. (m1, same1, refl))
      by_fd (ok Fd.std_in) h = rw (sys_write, h) (m', same, refl)
      by_fd (ok Fd.hint_read) h = rw (sys_write, h) (m', same, refl)
      by_fd (ok Fd.preimage_read) h = rw (sys_write, h) (m', same, refl)
      by_fd (err e) h = rw (sys_write, h) (m', same, refl)
      by_fd panic h = rw (sys_write, h) (m', same, refl)
      by_fd diverge h = rw (sys_write, h) (m', same, refl)

  finished-Alike :
      (r r' : Result (Outcome Server))
      → Ends r r'
      → Alike.Alike keccak256
          (in_vm Server)
          (r >>= λ o. ok (finish keccak256 oracle o))
          (r' >>= λ o. ok (finish keccak256 oracle o))
  unfolding finish advance
  finished-Alike r r' h =
      Alike-bind keccak256 in_outcome (in_vm Server) r r' _ _ h λ o m1 same1. (m1, same1, refl)

  pub dispatch-Alike :
      (syscall : Result Syscall) (vm : Vm) (m' : Memory)
      → Same keccak256 vm.state.memory m'
      → Alike.Alike keccak256
          (in_vm Server)
          (dispatch keccak256 oracle syscall vm)
          (dispatch keccak256 oracle syscall (put m' vm))
  unfolding dispatch finish advance mmap
  dispatch-Alike (ok Syscall.mmap) vm m' same = elim (Bool-cases (vm.state.registers 4 == 0)) [
    | inl e ↦ rw e (m', same, refl)
    | inr e ↦ rw e (m', same, refl)
  ]
  dispatch-Alike (ok Syscall.brk) vm m' same = (m', same, refl)
  dispatch-Alike (ok Syscall.clone) vm m' same = (m', same, refl)
  dispatch-Alike (ok Syscall.exit_group) vm m' same = (m', same, refl)
  dispatch-Alike (ok Syscall.read) vm m' same = finished-Alike _ _ (
      sys_read-Alike (vm.state.registers 4) (vm.state.registers 5) (vm.state.registers 6) vm m'
        same)
  dispatch-Alike (ok Syscall.write) vm m' same = finished-Alike _ _ (
      sys_write-Alike (vm.state.registers 4) (vm.state.registers 5) (vm.state.registers 6) vm m'
        same)
  dispatch-Alike (ok Syscall.fcntl) vm m' same = (m', same, refl)
  dispatch-Alike (err e) vm m' same = (m', same, refl)
  dispatch-Alike panic vm m' same = (m', same, refl)
  dispatch-Alike diverge vm m' same = (m', same, refl)
