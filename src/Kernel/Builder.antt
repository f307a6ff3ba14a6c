-- ===== src/Kernel/Builder.antt =====
-- `KernelBuilder` of crates/cannon/src/builder.rs, and the preimage oracle of
-- crates/cannon/src/proc_oracle.rs over the client ends of its channels.
use cannon_rs.Prelude.{ℕ, ◌==◌, if◌then◌else◌, Option, none, List, [], ◌∷◌, Result, ok, ◌>>=◌}
use cannon_rs.State.{State}
use cannon_rs.Vm.{new_instrumented}
use cannon_rs.Preimage.Channel.{Io}
use cannon_rs.Preimage.Keys.{Key}
use cannon_rs.Preimage.Hints.{hint}
use cannon_rs.Preimage.Oracle.{get}
use cannon_rs.Kernel.Decimal.{Text}
use cannon_rs.Kernel.Run.{Kernel}

pub record KernelBuilder : Type 0 where
  pub preimage_server : Text
  pub input : Text
  pub output : Option Text
  pub proof_at : Option Text
  pub proof_format : Option Text
  pub snapshot_at : Option Text
  pub snapshot_format : Option Text
  pub stop_at : Option Text
  pub info_at : Option Text

-- `KernelBuilder::default()`.
abbrev pub default_builder : KernelBuilder
default_builder = record {
  preimage_server = [];
  input = [];
  output = none;
  proof_at = none;
  proof_format = none;
  snapshot_at = none;
  snapshot_format = none;
  stop_at = none;
  info_at = none;
}

abbrev pub with_preimage_server : Text → KernelBuilder → KernelBuilder
with_preimage_server preimage_server b = record b { preimage_server = preimage_server }

abbrev pub with_input : Text → KernelBuilder → KernelBuilder
with_input input b = record b { input = input }

abbrev pub with_output : Option Text → KernelBuilder → KernelBuilder
with_output output b = record b { output = output }

abbrev pub with_proof_at : Option Text → KernelBuilder → KernelBuilder
with_proof_at proof_at b = record b { proof_at = proof_at }

abbrev pub with_proof_format : Option Text → KernelBuilder → KernelBuilder
with_proof_format proof_format b = record b { proof_format = proof_format }

abbrev pub with_snapshot_at : Option Text → KernelBuilder → KernelBuilder
with_snapshot_at snapshot_at b = record b { snapshot_at = snapshot_at }

abbrev pub with_snapshot_format : Option Text → KernelBuilder → KernelBuilder
with_snapshot_format snapshot_format b = record b { snapshot_format = snapshot_format }

abbrev pub with_stop_at : Option Text → KernelBuilder → KernelBuilder
with_stop_at stop_at b = record b { stop_at = stop_at }

abbrev pub with_info_at : Option Text → KernelBuilder → KernelBuilder
with_info_at info_at b = record b { info_at = info_at }

-- `text.split(' ')`: the first piece, and the others.
unfoldable pub split_spaces : Text → Text × List Text
split_spaces [] = ([], [])
split_spaces (c ∷ text) =
    let (piece, pieces) = split_spaces text in
    if c == 32 then ([], piece ∷ pieces) else (c ∷ piece, pieces)

-- The file system with the decompressor and the deserializer of a state, and the start of the
-- server's process with the channels to it.
pub record Launcher (Server Child : Type 0) : Type 0 where
  pub read_state : Text → Result State
  pub start : Text → List Text → Result (Server × Option Child)

-- `KernelBuilder::build`.
unfoldable pub build :
    {Server Child : Type 0} → Launcher Server Child → KernelBuilder → Result (Kernel Server Child)
unfolding split_spaces new_instrumented
build launcher b = do
  state ← launcher.read_state b.input
  let (cmd, args) = split_spaces b.preimage_server
  (oracle, server_proc) ← launcher.start cmd args
  ok (record {
    ins_state = new_instrumented state oracle;
    server_proc = server_proc;
    input = b.input;
    output = b.output;
    proof_at = b.proof_at;
    proof_format = b.proof_format;
    snapshot_at = b.snapshot_at;
    snapshot_format = b.snapshot_format;
    stop_at = b.stop_at;
    info_at = b.info_at;
  })

-- `ProcessPreimageOracle::hint` and `get`: the programs at the client ends.
unfoldable pub process_hint : List ℕ → Io (Unit {0})
process_hint value = hint value

unfoldable pub process_get : List ℕ → Io (List ℕ)
process_get key = get (Key.raw key)
