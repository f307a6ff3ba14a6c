-- ===== src/Types.antt =====
-- The enums of crates/mipsevm/src/types.rs: file descriptors, system calls and the status byte.
use cannon_rs.Prelude.{ℕ, ◌==◌, if◌then◌else◌, Result, ok, err, invalid_fd, invalid_syscall}

-- `Fd`.
pub data Fd : Type 0 where
  std_in stdout std_err hint_read hint_write preimage_read preimage_write : Fd

-- `Fd::try_from(n: u8)`.
unfoldable pub fd_try_from : ℕ → Result Fd
fd_try_from n =
    if n == 0
    then ok Fd.std_in
    else if n == 1
    then ok Fd.stdout
    else if n == 2
    then ok Fd.std_err
    else if n == 3
    then ok Fd.hint_read
    else if n == 4
    then ok Fd.hint_write
    else if n == 5
    then ok Fd.preimage_read
    else if n == 6
    then ok Fd.preimage_write
    else err (invalid_fd n)

-- `Syscall`.
pub data Syscall : Type 0 where
  mmap brk clone exit_group read write fcntl : Syscall

-- `Syscall::try_from(n: u32)`.
unfoldable pub syscall_try_from : ℕ → Result Syscall
syscall_try_from n =
    if n == 4090
    then ok Syscall.mmap
    else if n == 4045
    then ok Syscall.brk
    else if n == 4120
    then ok Syscall.clone
    else if n == 4246
    then ok Syscall.exit_group
    else if n == 4003
    then ok Syscall.read
    else if n == 4004
    then ok Syscall.write
    else if n == 4055
    then ok Syscall.fcntl
    else err (invalid_syscall n)

-- `VMStatus`, and its `as u8`.
pub data VmStatus : Type 0 where
  valid invalid panicked unfinished : VmStatus

abbrev pub vm_status_as_u8 : VmStatus → ℕ
vm_status_as_u8 VmStatus.valid = 0
vm_status_as_u8 VmStatus.invalid = 1
vm_status_as_u8 VmStatus.panicked = 2
vm_status_as_u8 VmStatus.unfinished = 3

abbrev pub mips_ebadf : ℕ
mips_ebadf = 0x9

abbrev pub mips_einval : ℕ
mips_einval = 0x16
