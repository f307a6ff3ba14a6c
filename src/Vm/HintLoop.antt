-- ===== src/Vm/HintLoop.antt =====
-- The hint loop of crates/mipsevm/src/mips/mips_vm.rs on a buffer that starts with a prefix.
use cannon_rs.Prelude.{ℕ, List, ◌++◌}
use cannon_rs.Word.Bytes.{u32_to_be_bytes}
use cannon_rs.Vm.{PreimageOracle}

module _ {Server : Type 0} (oracle : PreimageOracle Server) where
  -- A hint and its length in four bytes.
  abbrev pub framed : ℕ → List ℕ → List ℕ
  framed n bytes = u32_to_be_bytes n ++ bytes
