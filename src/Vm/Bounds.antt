-- ===== src/Vm/Bounds.antt =====
-- Bounds of the system calls of crates/mipsevm/src/mips/mips_vm.rs.
use cannon_rs.Prelude.{ℕ, ◌+◌, ◌%◌, ◌^◌, ◌≤◌, ◌<◌, ◌≡◌, Holds, arith}
use cannon_rs.Word.Bits.{bit_and_mask}
use cannon_rs.Hash.{Keccak}
use cannon_rs.State.{State}
use cannon_rs.Vm.{PreimageOracle, InstrumentedState}
use cannon_rs.Vm.Syscalls.{mmap, preimage_read}

-- `mmap` at address 0 with a heap on a page boundary returns the start of the old heap, and leaves
-- the heap on a page boundary.
pub mmap_aligned :
    (a1 : ℕ) (s : State)
    → s.heap % 4096 ≡ 0
    → a1 < 2 ^ 32
    → ((mmap 0 a1 s).0 ≡ s.heap) × ((mmap 0 a1 s).1.heap % 4096 ≡ 0)
unfolding mmap
mmap_aligned a1 s h small = ground (arith, bit_and_mask 12 a1)

module _ {Server : Type 0} (keccak256 : Keccak) (oracle : PreimageOracle Server) where
  -- A preimage read that succeeds reports at most as many bytes as were asked for, and no more
  -- than the word has from the address on.
  pub preimage_read_bounded :
      (a1 a2 : ℕ) (vm : InstrumentedState Server)
      → Holds (λ o. (o.v0 ≤ a2) × (o.v0 + a1 % 4 ≤ 4)) (preimage_read keccak256 oracle a1 a2 vm)
  unfolding preimage_read
  preimage_read_bounded a1 a2 vm = ground (arith, bit_and_mask 2 a1)
