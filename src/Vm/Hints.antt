-- ===== src/Vm/Hints.antt =====
-- The hint loop of the write system call, crates/mipsevm/src/mips/mips_vm.rs.
use cannon_rs.Prelude.{
  ℕ, zero, suc, ◌+◌, ltb, leb, if◌then◌else◌, List, length, take, drop, Result, ok, panic, diverge,
  ◌>>=◌,
}
use cannon_rs.Word.{u32, sub32}
use cannon_rs.Word.Bytes.{from_be_bytes}
use cannon_rs.Vm.{PreimageOracle}

module _ {Server : Type 0} (oracle : PreimageOracle Server) where
  -- `while self.state.last_hint.len() >= 4 { ... }`: the buffer that is left, and the server. Every
  -- round takes four bytes or more, so the length of the buffer is fuel enough. A hint that
  -- reaches past the end of the buffer panics.
  unfoldable pub process_hints : ℕ → List ℕ → Server → Result (List ℕ × Server)
  process_hints zero last_hint server = diverge
  process_hints (suc fuel) last_hint server =
      let hint_len = from_be_bytes (take 4 last_hint) in
      let hint = take hint_len (drop 4 last_hint) in
      let next = oracle.hint hint server >>= λ server'.
      process_hints fuel (drop (4 + hint_len) last_hint) server' in
      if ltb (length last_hint) 4
      then ok (last_hint, server)
      else if leb (sub32 (u32 (length last_hint)) 4) hint_len
      then (if ltb (length last_hint) (4 + hint_len) then panic else next)
      else ok (last_hint, server)
