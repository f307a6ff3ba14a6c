-- ===== src/Vm/Syscalls.antt =====
-- `handle_syscall` of crates/mipsevm/src/mips/mips_vm.rs, a function for each system call.
use cannon_rs.Prelude.{
  ℕ, suc, ◌+◌, ◌-◌, true, ltb, ◌==◌, if◌then◌else◌, List, ◌++◌, length, take, drop, bit_and, Result,
  ok, ◌>>=◌,
}
use cannon_rs.Word.{u8, add32, sub32}
use cannon_rs.Word.Bytes.{u32_to_be_bytes, from_be_bytes}
use cannon_rs.Types.{Fd, fd_try_from, Syscall, syscall_try_from, mips_ebadf, mips_einval}
use cannon_rs.Hash.{Keccak}
use cannon_rs.Page.{page_address_mask, page_size}
use cannon_rs.Memory.{get_memory, set_memory}
use cannon_rs.Memory.Reader.{read_to_end}
use cannon_rs.State.{State}
use cannon_rs.Vm.{PreimageOracle, InstrumentedState, track_mem_access, read_preimage, u32_max}
use cannon_rs.Vm.Handlers.{advance, set_register}
use cannon_rs.Vm.Hints.{process_hints}

-- What a system call leaves: the values for the registers 2 and 7, and the thread context.
pub record Outcome (Server : Type 0) : Type 0 where
  pub v0 : ℕ
  pub v1 : ℕ
  pub vm : InstrumentedState Server

-- `Syscall::Mmap`: the size is rounded up to pages; at address 0 the heap grows by it.
unfoldable pub mmap : ℕ → ℕ → State → ℕ × State
mmap a0 a1 s =
    let masked_size = bit_and a1 page_address_mask in
    let sz = if masked_size == 0 then a1 else add32 a1 (sub32 page_size masked_size) in
    if a0 == 0 then (s.heap, record s { heap = add32 s.heap sz }) else (a0, s)

-- `Syscall::Fcntl`: the values of v0 and v1.
unfoldable pub fcntl : ℕ → ℕ → ℕ × ℕ
fcntl a0 a1 =
    if a1 == 3
    then elim (fd_try_from (u8 a0)) [
      | ok Fd.std_in ↦ (0, 0)
      | ok Fd.preimage_read ↦ (0, 0)
      | ok Fd.hint_read ↦ (0, 0)
      | ok _ ↦ (1, 0)
      | _ ↦ (u32_max, mips_ebadf)
    ]
    else (u32_max, mips_einval)

-- `out_mem[at..at + chunk.len()].copy_from_slice(chunk)`.
unfoldable pub splice : List ℕ → ℕ → List ℕ → List ℕ
splice out_mem at chunk = take at out_mem ++ (chunk ++ drop (at + length chunk) out_mem)

module _ {Server : Type 0} (keccak256 : Keccak) (oracle : PreimageOracle Server) where
  abbrev Vm : Type 0
  Vm = InstrumentedState Server

  -- The word at an address, with the access tracked.
  unfoldable pub tracked_word : ℕ → Vm → Result (ℕ × Vm)
  tracked_word address vm = track_mem_access keccak256 oracle address vm >>= λ tracked.
      get_memory address tracked.state.memory >>= λ (word, memory).
      ok (word, record tracked { state = record (tracked.state) { memory = memory } })

  -- `Syscall::Read` of `Fd::PreimageRead`: at most as many bytes as the word has left, and as were
  -- asked for, are copied to memory.
  unfoldable pub preimage_read : ℕ → ℕ → Vm → Result (Outcome Server)
  unfolding tracked_word splice
  preimage_read a1 a2 vm = do
    let effective_address = bit_and a1 0xFFFFFFFC
    (word, vm1) ← tracked_word effective_address vm
    (bytes, vm2) ←
        read_preimage keccak256 oracle vm1.state.preimage_key vm1.state.preimage_offset vm1
    let alignment = bit_and a1 0x3
    let space = 4 - alignment
    let len1 = if ltb space (length bytes) then space else length bytes
    let data_len = if ltb a2 len1 then a2 else len1
    let out_mem = splice (u32_to_be_bytes word) alignment (take data_len bytes)
    memory ← set_memory keccak256 effective_address (from_be_bytes out_mem) vm2.state.memory
    ok (record {
      v0 = data_len;
      v1 = 0;
      vm = record vm2 {
        state = record (vm2.state) {
          memory = memory;
          preimage_offset = add32 vm2.state.preimage_offset data_len;
        };
      };
    })

  -- `Syscall::Read`.
  unfoldable pub sys_read : ℕ → ℕ → ℕ → Vm → Result (Outcome Server)
  unfolding preimage_read
  sys_read a0 a1 a2 vm = elim (fd_try_from (u8 a0)) [
    | ok Fd.std_in ↦ ok (record { v0 = 0; v1 = 0; vm = vm })
    | ok Fd.preimage_read ↦ preimage_read a1 a2 vm
    | ok Fd.hint_read ↦ ok (record { v0 = a2; v1 = 0; vm = vm })
    | _ ↦ ok (record { v0 = u32_max; v1 = mips_ebadf; vm = vm })
  ]

  -- The bytes of memory that a write call names. Every round of the reader takes a byte or more.
  unfoldable pub memory_bytes : ℕ → ℕ → Vm → Result (List ℕ × Vm)
  memory_bytes a1 a2 vm =
      read_to_end (suc a2) (record { memory = vm.state.memory; address = a1; count = a2 })
      >>= λ (bytes, memory). ok (bytes, record vm { state = record (vm.state) { memory = memory } })

  -- `Syscall::Write` of `Fd::HintWrite`.
  unfoldable pub hint_write : ℕ → ℕ → Vm → Result (Outcome Server)
  unfolding memory_bytes
  hint_write a1 a2 vm = do
    (bytes, vm1) ← memory_bytes a1 a2 vm
    let last_hint = vm1.state.last_hint ++ bytes
    (rest, server) ← process_hints oracle (suc (length last_hint)) last_hint vm1.preimage_oracle
    ok (record {
      v0 = a2;
      v1 = 0;
      vm = record vm1 { preimage_oracle = server; state = record (vm1.state) { last_hint = rest } };
    })

  -- `Syscall::Write` of `Fd::PreimageWrite`: the key moves left and takes bytes of the word.
  unfoldable pub preimage_write : ℕ → ℕ → Vm → Result (Outcome Server)
  unfolding tracked_word
  preimage_write a1 a2 vm = do
    (word, vm1) ← tracked_word (bit_and a1 0xFFFFFFFC) vm
    let alignment = bit_and a1 0x3
    let space = 4 - alignment
    let count = if ltb space a2 then space else a2
    let key =
        drop count vm1.state.preimage_key ++ take count (drop alignment (u32_to_be_bytes word))
    ok (record {
      v0 = count;
      v1 = 0;
      vm = record vm1 { state = record (vm1.state) { preimage_key = key; preimage_offset = 0 } };
    })

  -- `Syscall::Write`.
  unfoldable pub sys_write : ℕ → ℕ → ℕ → Vm → Result (Outcome Server)
  unfolding memory_bytes hint_write preimage_write
  sys_write a0 a1 a2 vm = elim (fd_try_from (u8 a0)) [
    | ok Fd.stdout ↦
        (memory_bytes a1 a2 vm >>= λ (bytes, vm').
        ok (record { v0 = a2; v1 = 0; vm = record vm' { std_out = vm'.std_out ++ bytes } }))
    | ok Fd.std_err ↦
        (memory_bytes a1 a2 vm >>= λ (bytes, vm').
        ok (record { v0 = a2; v1 = 0; vm = record vm' { std_err = vm'.std_err ++ bytes } }))
    | ok Fd.hint_write ↦ hint_write a1 a2 vm
    | ok Fd.preimage_write ↦ preimage_write a1 a2 vm
    | _ ↦ ok (record { v0 = u32_max; v1 = mips_ebadf; vm = vm })
  ]

  -- The end of `handle_syscall`: the results go to the registers 2 and 7, and the pc moves on.
  unfoldable pub finish : Outcome Server → Vm
  finish o = record (o.vm) {
    state = advance (set_register 7 o.v1 (set_register 2 o.v0 o.vm.state));
  }

  -- The match on the system call. An unknown number leaves v0 and v1 zero.
  unfoldable pub dispatch : Result Syscall → Vm → Result Vm
  unfolding finish mmap fcntl sys_read sys_write
  dispatch syscall vm =
      let s = vm.state in
      let a0 = s.registers 4 in
      let a1 = s.registers 5 in
      let a2 = s.registers 6 in
      elim syscall [
        | ok Syscall.mmap ↦
            (let (v0, s') = mmap a0 a1 s in
              ok (finish (record { v0 = v0; v1 = 0; vm = record vm { state = s' } })))
        | ok Syscall.brk ↦ ok (finish (record { v0 = 0x40000000; v1 = 0; vm = vm }))
        | ok Syscall.clone ↦ ok (finish (record { v0 = 1; v1 = 0; vm = vm }))
        | ok Syscall.exit_group ↦
            ok (record vm { state = record s { exited = true; exit_code = u8 a0 } })
        | ok Syscall.read ↦ (sys_read a0 a1 a2 vm >>= λ o. ok (finish o))
        | ok Syscall.write ↦ (sys_write a0 a1 a2 vm >>= λ o. ok (finish o))
        | ok Syscall.fcntl ↦
            (let (v0, v1) = fcntl a0 a1 in ok (finish (record { v0 = v0; v1 = v1; vm = vm })))
        | _ ↦ ok (finish (record { v0 = 0; v1 = 0; vm = vm }))
      ]

  -- `handle_syscall`.
  unfoldable pub handle_syscall : Vm → Result Vm
  unfolding dispatch
  handle_syscall vm = dispatch (syscall_try_from (vm.state.registers 2)) vm
