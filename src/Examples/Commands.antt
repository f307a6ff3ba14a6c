-- ===== src/Examples/Commands.antt =====
-- Concrete runs of the theorems on the command line, over an example of the file system and of the formats.
use cannon_rs.Prelude.{
  ℕ, ◌+◌, ◌*◌, ◌/◌, ◌%◌, ◌-◌, ◌<◌, ◌≡◌, refl, ltb, true, false, if◌then◌else◌, Option, none, some,
  List, [], ◌∷◌, Result, ok, err, io_error, Holds, ◌>>=◌, arith, inl, inr, Bool, Bool-cases, sym,
  panic, diverge, subst,
}
use cannon_rs.Hash.{Digest}
use cannon_rs.Hex.{HexCodec, AreBytes, Decodes}
use cannon_rs.Memory.Usage.{Usage}
use cannon_rs.State.Form.{StateForm}
use cannon_rs.Vm.{bytes_eq, new_instrumented}
use cannon_rs.State.{State}
use cannon_rs.Vm.Typed.Steps.{TypedState}
use cannon_rs.Kernel.Decimal.{Text, codes}
use cannon_rs.Kernel.Run.{Kernel, Host, run_loop}
use cannon_rs.Kernel.Builder.{build}
use cannon_rs.Kernel.Proves.{Every, IsBacked}
use cannon_rs.Patch.Started.{ParsesBytes, HoldBytes}
use cannon_rs.Patch.Elf.{ParsedElf}
use cannon_rs.TestUtils.Honest.{bytes_eq_refl}
use cannon_rs.Command.Gzip.{GzStreams}
use cannon_rs.Command.{
  Machine, Line, witness_hash, loaded, PatchKind, LoadElfArgs, RunArgs, load_elf_dispatch,
  witness_dispatch, builder_of, read_state,
}
use cannon_rs.Command.Dump.{IsLawful}
use cannon_rs.Command.Journey.{load_elf-witness}
use cannon_rs.Command.Proving.{launcher, reloaded-Typed, load_elf-run_loop}
use cannon_rs.Examples.{constant_hash, constant_hash_length, quiet_oracle}
use cannon_rs.Examples.Memories.{example_parser}
use cannon_rs.Examples.Runs.{example_abi, example_settings}

abbrev digit : ℕ → ℕ
digit n = if ltb n 10 then 48 + n else 87 + n

abbrev digit_value : ℕ → ℕ
digit_value c = if ltb c 58 then c - 48 else c - 87

abbrev pub hex_text : List ℕ → List ℕ
hex_text [] = []
hex_text (b ∷ bytes) = digit (b / 16) ∷ digit (b % 16) ∷ hex_text bytes

abbrev from_digits : List ℕ → Option (List ℕ)
from_digits [] = some []
from_digits (c ∷ []) = none
from_digits (c ∷ d ∷ text) = elim (from_digits text) [
  | none ↦ none
  | some bytes ↦ some ((digit_value c * 16 + digit_value d) ∷ bytes)
]

abbrev without_prefix : List ℕ → Option (List ℕ)
without_prefix (c ∷ d ∷ text) = from_digits text
without_prefix text = none

abbrev pub example_hex : HexCodec
example_hex = record { encode = hex_text; decode = without_prefix }

digit_value-digit : (n : ℕ) → n < 16 → digit_value (digit n) ≡ n
digit_value-digit n h = ground arith

from_digits-hex_text : (bytes : List ℕ) → AreBytes bytes → from_digits (hex_text bytes) ≡ some bytes
from_digits-hex_text [] h = refl
from_digits-hex_text (b ∷ bytes) h =
    let high : digit_value (digit (b / 16)) ≡ b / 16 =
      digit_value-digit (b / 16) (omega (arith, h.0)) in
    let low : digit_value (digit (b % 16)) ≡ b % 16 = digit_value-digit (b % 16) (omega arith) in
    let value : (b / 16) * 16 + b % 16 ≡ b = omega arith in
    rw (from_digits-hex_text bytes h.1, high, low, value) refl

pub example_hex-Decodes : Decodes example_hex
example_hex-Decodes bytes h = from_digits-hex_text bytes h

-- What the files of the example hold.
data Content : Type 0 where
  raw : List ℕ → Content
  form : StateForm → Content
  zipped : Content → Content

record Disk : Type 0 where
  stored : Text → Option Content
  lines : List (Line Content)

abbrev opened : Option Content → Result Content
opened none = err io_error
opened (some content) = ok content

abbrev store : Text → Content → Disk → Disk
store path content disk = record disk {
  stored = λ p. if bytes_eq p path then some content else disk.stored p;
}

abbrev raw_bytes : Content → List ℕ
raw_bytes (raw bytes) = bytes
raw_bytes (form f) = []
raw_bytes (zipped content) = []

abbrev form_of : Content → Result StateForm
form_of (raw bytes) = err io_error
form_of (form f) = ok f
form_of (zipped content) = err io_error

abbrev unzipped : Content → Result Content
unzipped (raw bytes) = err io_error
unzipped (form f) = err io_error
unzipped (zipped content) = ok content

abbrev example_machine : Machine Content Content Disk
example_machine = record {
  read = λ path disk. opened (disk.stored path);
  create = λ path disk. ok (store path (raw []) disk);
  write_all = λ path content disk. ok (store path content disk);
  print = λ line disk. record disk { lines = line ∷ disk.lines };
  of_bytes = raw;
  as_bytes = raw_bytes;
  to_json = λ f. ok (form f);
  from_json = form_of;
  gzip = record {
    new_encoder = raw [];
    write_all = λ content encoder. ok content;
    finish = λ encoder. ok (zipped encoder);
    read_to_end = unzipped;
  };
  hex = example_hex;
  minimal_parse = example_parser;
  symbol_table = λ elf. ok [];
}

value_of : {A : Type 0} {a b : A} → ◌≡◌ {A = Result A} (ok a) (ok b) → a ≡ b
value_of h = cc h

example_machine-IsLawful : IsLawful example_machine
example_machine-IsLawful = record {
  reads_back = λ path content files created written is_created is_written.
      rw (sym (value_of is_written), bytes_eq_refl path) refl;
  parses = λ f json h. rw (sym (value_of h)) refl;
  decompresses = λ bytes compressed encoder h k. rw (sym (value_of k), sym (value_of h)) refl;
  decodes = example_hex-Decodes;
  print_keeps = λ path line files. refl;
}

example_parser-ParsesBytes : ParsesBytes example_parser
example_parser-ParsesBytes elf_raw elf h =
    subst (λ e. HoldBytes e.segments) (content_of h)
      ((omega arith, (omega arith, (omega arith, tt))), tt)
  where
    content_of : {a b : ParsedElf} → some a ≡ some b → a ≡ b
    content_of e = cc e

abbrev example_disk : Disk
example_disk = record { stored = λ p. some (raw (127 ∷ [])); lines = [] }

abbrev load_args : LoadElfArgs
load_args = record {
  path = codes "a.elf";
  patch_kind = PatchKind.go ∷ [];
  output = some (codes "b.gz");
}

abbrev run_args : RunArgs
run_args = record {
  preimage_server = [];
  input = codes "b.gz";
  output = none;
  proof_at = none;
  proof_format = none;
  snapshot_at = none;
  snapshot_format = none;
  stop_at = none;
  info_at = none;
}

abbrev pub is_ok : {A : Type 0} → Result A → Bool
is_ok (ok a) = true
is_ok (err e) = false
is_ok panic = false
is_ok diverge = false

pub returned : {A : Type 0} (result : Result A) → is_ok result ≡ true → (a : A) × (result ≡ ok a)
returned (ok a) h = (a, refl)
returned (err e) h = cc
returned panic h = cc
returned diverge h = cc

loads : is_ok (load_elf_dispatch constant_hash example_machine true load_args example_disk) ≡ true
unfolding load_elf_dispatch cannon_rs.Command.Gzip.compress_bytes cannon_rs.Memory.Range.range_round
    cannon_rs.Memory.Range.set_memory_range cannon_rs.Memory.Usage.usage
    cannon_rs.Memory.bit_length_in cannon_rs.Memory.find_slot cannon_rs.Memory.invalidate
    cannon_rs.Memory.merkle_root cannon_rs.Memory.merkleize_subtree cannon_rs.Memory.set_memory
    cannon_rs.Page.invalidate_full cannon_rs.Page.merkleize_subtree cannon_rs.Page.store_hash
    cannon_rs.Patch.Elf.load_elf cannon_rs.Patch.MultiReader.read_multi cannon_rs.Patch.patch_go
    cannon_rs.Prelude.insert cannon_rs.Prelude.lookup cannon_rs.State.encode_witness
loads = refl

abbrev loaded_disk : Disk
loaded_disk =
    (returned (load_elf_dispatch constant_hash example_machine true load_args example_disk) loads).0

is_loaded :
    load_elf_dispatch constant_hash example_machine true load_args example_disk ≡ ok loaded_disk
is_loaded =
    (returned (load_elf_dispatch constant_hash example_machine true load_args example_disk) loads).1

load_elf-witness_example :
    (hash : Digest) × (size : Usage) × (pages : ℕ) × (dumped : Disk) × (loaded_disk
      ≡ example_machine.print (loaded hash size pages) dumped)
    × (witness_dispatch constant_hash example_machine
          (record { input = codes "b.gz"; output = none })
          loaded_disk
        ≡ ok (example_machine.print (witness_hash hash) loaded_disk))
load_elf-witness_example =
    load_elf-witness constant_hash example_machine load_args (codes "b.gz") example_disk loaded_disk
      example_machine-IsLawful example_parser-ParsesBytes refl (unfold bytes_eq in refl) is_loaded

abbrev no_process : Text → List Text → Result (Unit {0} × Option (Unit {0}))
no_process cmd args = ok (tt, none)

abbrev example_console : Host (Unit {0}) Disk
example_console = record { try_wait = λ child. ok (false, child); save = λ output disk. ok disk }

reloaded :
    (s : State) × (read_state constant_hash example_machine (codes "b.gz") loaded_disk ≡ ok s)
    × TypedState constant_hash quiet_oracle s
reloaded =
    reloaded-Typed constant_hash example_machine quiet_oracle no_process (codes "b.gz") load_args
      example_disk loaded_disk example_machine-IsLawful example_parser-ParsesBytes refl
      (unfold bytes_eq in refl) is_loaded

abbrev example_kernel : Kernel (Unit {0}) (Unit {0})
example_kernel = record {
  ins_state = new_instrumented (reloaded.0) tt;
  server_proc = none;
  input = codes "b.gz";
  output = none;
  proof_at = none;
  proof_format = none;
  snapshot_at = none;
  snapshot_format = none;
  stop_at = none;
  info_at = none;
}

is_built :
    build
      (launcher constant_hash example_machine quiet_oracle no_process loaded_disk)
      (builder_of run_args)
    ≡ ok example_kernel
unfolding build builder_of
is_built = rw (reloaded.1) refl

load_elf-run_loop_example :
    Holds
      (λ r.
        Every
          (IsBacked constant_hash constant_hash_length quiet_oracle example_abi example_console
            example_settings)
          r.io_tasks
        × TypedState constant_hash quiet_oracle r.ins_state.state)
      (run_loop constant_hash quiet_oracle example_abi example_console 6 example_settings (record {
        ins_state = example_kernel.ins_state;
        server_proc = example_kernel.server_proc;
        io_tasks = [];
      }))
load_elf-run_loop_example =
    load_elf-run_loop constant_hash example_machine quiet_oracle no_process constant_hash_length
      example_abi example_console load_args run_args example_disk loaded_disk example_kernel 6
      example_settings example_machine-IsLawful example_parser-ParsesBytes refl
      (unfold bytes_eq in refl) is_loaded is_built
