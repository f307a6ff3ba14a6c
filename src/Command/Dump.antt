-- ===== src/Command/Dump.antt =====
-- A state that load-elf writes to a file, and the commands that read the file, bin/src/subcommands.
use cannon_rs.Prelude.{◌≡◌, refl, false, none, some, ok, >>=-eq-ok}
use cannon_rs.Hash.{Keccak}
use cannon_rs.Hex.{Decodes}
use cannon_rs.Memory.{Memory}
use cannon_rs.Memory.Invariant.{byte_at}
use cannon_rs.Memory.Sound.{IsSound}
use cannon_rs.State.{State, state_hash}
use cannon_rs.State.Form.{StateForm, serialize_state, IsSavable, deserialize-serialize_state}
use cannon_rs.Vm.{bytes_eq}
use cannon_rs.Kernel.Decimal.{Text, codes}
use cannon_rs.Kernel.Proofs.{committed, committed_same, encode_witness-Encodes}
use cannon_rs.Command.Gzip.{compress_bytes, decompress_bytes, Decompresses}
use cannon_rs.Command.{Machine, Line, witness_hash, dump_state, read_state, witness_dispatch}

-- What the file system and the formats promise.
pub record IsLawful {Content Encoder Files : Type 0} (machine : Machine Content Encoder Files)
    : Type 0 where
  pub reads_back :
      (path : Text) (content : Content) (files created written : Files)
      → machine.create path files ≡ ok created
      → machine.write_all path content created ≡ ok written
      → machine.read path written ≡ ok content
  pub parses :
      (form : StateForm) (json : Content)
      → machine.to_json form ≡ ok json
      → machine.from_json json ≡ ok form
  pub decompresses : Decompresses machine.gzip
  pub decodes : Decodes machine.hex
  pub print_keeps :
      (path : Text) (line : Line Content) (files : Files)
      → machine.read path (machine.print line files) ≡ machine.read path files

module _ {Content Encoder Files : Type 0} (keccak256 : Keccak)
    (machine : Machine Content Encoder Files) (law : IsLawful machine) where
  -- Compression that succeeds is undone.
  decompress-compress :
      (bytes compressed : Content)
      → compress_bytes machine.gzip bytes ≡ ok compressed
      → decompress_bytes machine.gzip compressed ≡ ok bytes
  unfolding compress_bytes decompress_bytes
  decompress-compress bytes compressed h =
      let (encoder, written, finished) =
        >>=-eq-ok (machine.gzip.write_all bytes machine.gzip.new_encoder) _ h in
      law.decompresses bytes compressed encoder written finished

  -- A file that `dump_state` wrote, read again: the state is the same but for the caches of its memory,
  -- which is sound.
  pub read-dump_state :
      (path : Text) (s : State) (files dumped later : Files)
      → bytes_eq path (codes "-") ≡ false
      → IsSavable s
      → dump_state keccak256 machine (some path) s files ≡ ok dumped
      → machine.read path later ≡ machine.read path dumped
      → (m : Memory) × (read_state keccak256 machine path later ≡ ok (record s { memory = m }))
        × IsSound keccak256 m
        × (byte_at m ≡ byte_at s.memory)
  unfolding dump_state read_state
  read-dump_state path s files dumped later named savable h same_file =
      let h1 = rw named at h in
      let (created, is_created, h2) = >>=-eq-ok (machine.create path files) _ h1 in
      let (json, is_json, h3) = >>=-eq-ok (machine.to_json (serialize_state machine.hex s)) _ h2 in
      let (gz_state, is_gz, written) = >>=-eq-ok (compress_bytes machine.gzip json) _ h3 in
      let (m, returns, sound, view) =
        deserialize-serialize_state keccak256 machine.hex s law.decodes savable in
      (
        m,
        rw
            (
              same_file,
              law.reads_back path gz_state files created dumped is_created written,
              decompress-compress json gz_state is_gz,
              law.parses (serialize_state machine.hex s) json is_json,
            )
            returns,
        sound,
        view,
      )

  -- The witness command, on a file that is as `dump_state` wrote it for a state, succeeds, and prints the hash of the
  -- bytes that commit to that state: the root of the reference tree over its memory, and its fields.
  pub witness-dump_state :
      (path : Text) (s : State) (files dumped later : Files)
      → bytes_eq path (codes "-") ≡ false
      → IsSavable s
      → dump_state keccak256 machine (some path) s files ≡ ok dumped
      → machine.read path later ≡ machine.read path dumped
      → witness_dispatch keccak256 machine (record { input = path; output = none }) later
        ≡ ok (machine.print (witness_hash (state_hash keccak256 (committed keccak256 s))) later)
  unfolding witness_dispatch
  witness-dump_state path s files dumped later named savable h same_file =
      let (m, returns, sound, view) =
        read-dump_state path s files dumped later named savable h same_file in
      let e = encode_witness-Encodes keccak256 (record s { memory = m }) sound in
      rw (returns, e.returns, committed_same keccak256 s m view) refl
