-- ===== src/Command.antt =====
-- The command line, bin/src: the subcommands load-elf, witness and run, and the compression that they
-- share with the kernel, crates/cannon/src/gz.rs.
pub mod Gzip
pub mod Dump
pub mod Journey
pub mod Proving
use cannon_rs.Prelude.{
  ℕ, ◌==◌, ltb, leb, if◌then◌else◌, Bool, true, false, Option, none, some, List, [], ◌∷◌, Result,
  ok, err, panic, diverge, ◌>>=◌, io_error, invalid_patch_kind,
}
use cannon_rs.Hash.{Digest, Keccak}
use cannon_rs.Hex.{HexCodec}
use cannon_rs.Memory.{Memory, page_count}
use cannon_rs.Memory.Usage.{Usage, usage}
use cannon_rs.State.{State, encode_witness, state_hash}
use cannon_rs.State.Form.{StateForm, serialize_state, deserialize_state}
use cannon_rs.Patch.{Symbol, patch_go, patch_stack}
use cannon_rs.Patch.Elf.{ElfParser, load_elf}
use cannon_rs.Vm.{PreimageOracle, bytes_eq}
use cannon_rs.Vm.Witness.{AbiCalls}
use cannon_rs.Kernel.Decimal.{Text, codes}
use cannon_rs.Kernel.Run.{Host, run}
use cannon_rs.Kernel.Builder.{
  Launcher, KernelBuilder, default_builder, build, with_preimage_server, with_input, with_output,
  with_proof_at, with_proof_format, with_snapshot_at, with_snapshot_format, with_stop_at,
  with_info_at,
}
use cannon_rs.Command.Gzip.{GzStreams, compress_bytes, decompress_bytes}

-- What the commands write to the console: a state, a hash, or the last line of load-elf.
pub data Line (Content : Type 0) : Type 0 where
  state_json : Content → Line Content
  witness_hash : Digest → Line Content
  loaded : Digest → Usage → ℕ → Line Content

-- The file system, the console and the crates for JSON, gzip, hexadecimal text and ELF files. What a
-- file holds is a `Content`.
pub record Machine (Content Encoder Files : Type 0) : Type 0 where
  pub read : Text → Files → Result Content
  pub create : Text → Files → Result Files
  pub write_all : Text → Content → Files → Result Files
  pub print : Line Content → Files → Files
  pub of_bytes : List ℕ → Content
  pub as_bytes : Content → List ℕ
  pub to_json : StateForm → Result Content
  pub from_json : Content → Result StateForm
  pub gzip : GzStreams Content Encoder
  pub hex : HexCodec
  pub minimal_parse : ElfParser
  pub symbol_table : List ℕ → Result (List Symbol)

-- `PatchKind`, its `from_str` and its `fmt`.
pub data PatchKind : Type 0 where
  go stack : PatchKind

unfoldable pub patch_kind_from_str : Text → Result PatchKind
unfolding bytes_eq
patch_kind_from_str text =
    if bytes_eq text (codes "go")
    then ok PatchKind.go
    else if bytes_eq text (codes "stack")
    then ok PatchKind.stack
    else err invalid_patch_kind

unfoldable pub display_patch_kind : PatchKind → Text
display_patch_kind PatchKind.go = codes "Go"
display_patch_kind PatchKind.stack = codes "Stack"

pub record LoadElfArgs : Type 0 where
  pub path : Text
  pub patch_kind : List PatchKind
  pub output : Option Text

pub record WitnessArgs : Type 0 where
  pub input : Text
  pub output : Option Text

pub record RunArgs : Type 0 where
  pub preimage_server : Text
  pub input : Text
  pub output : Option Text
  pub proof_at : Option Text
  pub proof_format : Option Text
  pub snapshot_at : Option Text
  pub snapshot_format : Option Text
  pub stop_at : Option Text
  pub info_at : Option Text

-- `CannonSubcommand`.
pub data CannonSubcommand : Type 0 where
  run_command : RunArgs → CannonSubcommand
  witness_command : WitnessArgs → CannonSubcommand
  load_elf_command : LoadElfArgs → CannonSubcommand

-- `map_err` to an error of its own.
abbrev pub or_io_error {ℓ} : {A : Type ℓ} → Result A → Result A
or_io_error (ok a) = ok a
or_io_error (err e) = err io_error
or_io_error panic = panic
or_io_error diverge = diverge

-- `replace('"', "")`.
unfoldable pub without_quotes : Text → Text
without_quotes [] = []
without_quotes (c ∷ text) = let rest = without_quotes text in if c == 34 then rest else c ∷ rest

-- The builder that the `run` subcommand sets up.
unfoldable pub builder_of : RunArgs → KernelBuilder
unfolding without_quotes
builder_of args = with_info_at args.info_at (
    with_stop_at args.stop_at (
      with_snapshot_format args.snapshot_format (
        with_snapshot_at args.snapshot_at (
          with_proof_format args.proof_format (
            with_proof_at args.proof_at (
              with_output args.output (
                with_input args.input (
                  with_preimage_server (without_quotes args.preimage_server) default_builder))))))))

module _ {Content Encoder Files : Type 0} (keccak256 : Keccak)
    (machine : Machine Content Encoder Files) where
  -- The loop over `patch_kind`.
  unfoldable pub apply_patches : List PatchKind → List ℕ → State → Result State
  apply_patches [] elf_raw s = ok s
  apply_patches (PatchKind.go ∷ kinds) elf_raw s = do
    symbols ← machine.symbol_table elf_raw
    memory ← patch_go keccak256 symbols s.memory
    apply_patches kinds elf_raw (record s { memory = memory })
  apply_patches (PatchKind.stack ∷ kinds) elf_raw s =
      patch_stack keccak256 s >>= λ s'. apply_patches kinds elf_raw s'

  -- The output of a state: none, to the console for `-`, or to a file.
  unfoldable pub dump_state : Option Text → State → Files → Result Files
  unfolding bytes_eq
  dump_state none s files = ok files
  dump_state (some path) s files =
      if bytes_eq path (codes "-")
      then (machine.to_json (serialize_state machine.hex s) >>= λ json.
          ok (machine.print (state_json json) files))
      else (machine.create path files >>= λ created.
          machine.to_json (serialize_state machine.hex s) >>= λ json.
          compress_bytes machine.gzip json >>= λ gz_state. machine.write_all path gz_state created)

  -- The last line of load-elf, which is evaluated only if lines at the level INFO are shown.
  unfoldable pub report_loaded : Bool → State → Files → Result Files
  report_loaded false patched files = ok files
  report_loaded true patched files = do
    (witness, encoded) ← encode_witness keccak256 patched
    size ← usage encoded.memory
    ok (
        machine.print (loaded (state_hash keccak256 witness) size (page_count encoded.memory))
          files)

  -- `dispatch` of load-elf.
  unfoldable pub load_elf_dispatch : Bool → LoadElfArgs → Files → Result Files
  unfolding apply_patches dump_state report_loaded
  load_elf_dispatch info args files = do
    elf_raw ← machine.read args.path files
    state ← load_elf keccak256 machine.minimal_parse (machine.as_bytes elf_raw)
    patched ← apply_patches args.patch_kind (machine.as_bytes elf_raw) state
    dumped ← dump_state args.output patched files
    report_loaded info patched dumped

  -- The state in a file: the head of the witness subcommand, and of `KernelBuilder::build`.
  unfoldable pub read_state : Text → Files → Result State
  read_state path files = do
    state_raw ← machine.read path files
    json ← decompress_bytes machine.gzip state_raw
    form ← machine.from_json json
    deserialize_state keccak256 machine.hex form

  -- `dispatch` of witness.
  unfoldable pub witness_dispatch : WitnessArgs → Files → Result Files
  unfolding read_state
  witness_dispatch args files = do
    state ← read_state args.input files
    (witness, after) ← encode_witness keccak256 state
    elim args.output [
      | none ↦ ok (machine.print (witness_hash (state_hash keccak256 witness)) files)
      | some path ↦ or_io_error (
          machine.create path files >>= λ created.
          machine.write_all path (machine.of_bytes witness) created)
    ]

  module _ {Server Child : Type 0} (oracle : PreimageOracle Server) (abi : AbiCalls)
      (host : Host Child Files) (start : Text → List Text → Result (Server × Option Child)) where
    -- `dispatch` of run.
    unfoldable pub run_dispatch : ℕ → RunArgs → Files → Result Files
    unfolding builder_of build
    run_dispatch fuel args files =
        build (record { read_state = λ path. read_state path files; start = start })
          (builder_of args)
        >>= λ kernel. run keccak256 oracle abi host fuel kernel files

    -- `main`, with the arguments parsed. The level is INFO if the verbosity is 2.
    unfoldable pub main : ℕ → ℕ → CannonSubcommand → Files → Result Files
    unfolding run_dispatch witness_dispatch load_elf_dispatch
    main fuel v (run_command args) files = run_dispatch fuel args files
    main fuel v (witness_command args) files = witness_dispatch args files
    main fuel v (load_elf_command args) files = load_elf_dispatch (leb 2 v) args files
