-- ===== src/Command/Journey.antt =====
-- A program from its ELF file on, bin/src/subcommands: what load-elf writes and reports, and what the other
-- commands make of it.
use cannon_rs.Prelude.{
  ℕ, ◌≡◌, ap, ◌∙◌, Bool, true, false, none, some, List, [], ◌∷◌, Result, ok, Holds, Holds-bind,
  Holds-then, ◌>>=◌, >>=-eq-ok, subst,
}
use cannon_rs.Hash.{Digest, Keccak}
use cannon_rs.Memory.{page_count}
use cannon_rs.Memory.Usage.{Usage, usage}
use cannon_rs.Memory.Fresh.{IsFresh}
use cannon_rs.State.{State, state_hash}
use cannon_rs.State.Form.{IsSavable}
use cannon_rs.Vm.{bytes_eq}
use cannon_rs.Kernel.Decimal.{Text, codes}
use cannon_rs.Kernel.Proofs.{committed, encode_witness-Encodes}
use cannon_rs.Patch.{patch_go, patch_stack}
use cannon_rs.Patch.Elf.{load_elf}
use cannon_rs.Patch.Started.{
  IsStarted, ParsesBytes, load_elf-IsStarted, patch_go-IsFresh, patch_stack-IsStarted,
}
use cannon_rs.Vm.Typed.{with_memory-HasWords}
use cannon_rs.Command.{
  Machine, witness_hash, loaded, PatchKind, LoadElfArgs, apply_patches, dump_state, report_loaded,
  load_elf_dispatch, witness_dispatch,
}
use cannon_rs.Command.Dump.{IsLawful, witness-dump_state}

module _ {Content Encoder Files : Type 0} (keccak256 : Keccak)
    (machine : Machine Content Encoder Files) where
  abbrev Started : State → Type 0
  Started s = IsStarted keccak256 s

  apply_patches-IsStarted :
      (kinds : List PatchKind) (elf_raw : List ℕ) (s : State)
      → Started s
      → Holds Started (apply_patches keccak256 machine kinds elf_raw s)
  unfolding apply_patches
  apply_patches-IsStarted [] elf_raw s h = h
  apply_patches-IsStarted (PatchKind.go ∷ kinds) elf_raw s (w, f, key, hint) =
      Holds-then Started (machine.symbol_table elf_raw) _ λ symbols.
        Holds-bind (λ m. IsFresh keccak256 m) Started (patch_go keccak256 symbols s.memory) _
          (patch_go-IsFresh keccak256 symbols s.memory f)
          λ m f'.
            apply_patches-IsStarted kinds elf_raw (record s { memory = m })
              (with_memory-HasWords m s w, f', key, hint)
  apply_patches-IsStarted (PatchKind.stack ∷ kinds) elf_raw s h =
      Holds-bind Started Started (patch_stack keccak256 s) _ (patch_stack-IsStarted keccak256 s h)
        λ s' h'. apply_patches-IsStarted kinds elf_raw s' h'

  pub savable : (s : State) → Started s → IsSavable s
  savable s (w, f, key, hint) = record {
    valid = f.typed.sound.valid;
    memory_bytes = f.typed.bytes;
    key_length = w.preimage_key;
    key_bytes = key;
    hint_bytes = hint;
  }

  -- The state that load-elf dumps and reports.
  loaded_state : LoadElfArgs → Content → Result State
  loaded_state args elf_raw =
      load_elf keccak256 machine.minimal_parse (machine.as_bytes elf_raw) >>= λ s.
      apply_patches keccak256 machine args.patch_kind (machine.as_bytes elf_raw) s

  loaded_state-IsStarted :
      (args : LoadElfArgs) (elf_raw : Content)
      → ParsesBytes machine.minimal_parse
      → Holds Started (loaded_state args elf_raw)
  unfolding loaded_state
  loaded_state-IsStarted args elf_raw law =
      Holds-bind Started Started
        (load_elf keccak256 machine.minimal_parse (machine.as_bytes elf_raw)) _
        (load_elf-IsStarted keccak256 machine.minimal_parse (machine.as_bytes elf_raw) law)
        λ s h. apply_patches-IsStarted args.patch_kind (machine.as_bytes elf_raw) s h

  -- What is dumped in a run that succeeds: a state that is ready to start.
  pub record Dumps (args : LoadElfArgs) (info : Bool) (files after : Files) : Type 0 where
    pub state : State
    pub dumped : Files
    pub started : Started state
    pub is_dumped : dump_state keccak256 machine args.output state files ≡ ok dumped
    pub is_reported : report_loaded keccak256 machine info state dumped ≡ ok after

  pub load_elf_dispatch-Dumps :
      (args : LoadElfArgs) (info : Bool) (files after : Files)
      → ParsesBytes machine.minimal_parse
      → load_elf_dispatch keccak256 machine info args files ≡ ok after
      → Dumps args info files after
  unfolding load_elf_dispatch
  load_elf_dispatch-Dumps args info files after law h =
      let (elf_raw, is_read, h1) = >>=-eq-ok (machine.read args.path files) _ h in
      let raw = machine.as_bytes elf_raw in
      let (s, is_loaded, h2) = >>=-eq-ok (load_elf keccak256 machine.minimal_parse raw) _ h1 in
      let (patched, is_patched, h3) =
        >>=-eq-ok (apply_patches keccak256 machine args.patch_kind raw s) _ h2 in
      let (dumped, is_dumped, reported) =
        >>=-eq-ok (dump_state keccak256 machine args.output patched files) _ h3 in
      record {
        state = patched;
        dumped = dumped;
        started = subst (Holds Started) is_patched (
            apply_patches-IsStarted args.patch_kind raw s (
              subst (Holds Started) is_loaded
                (load_elf-IsStarted keccak256 machine.minimal_parse raw law)));
        is_dumped = is_dumped;
        is_reported = reported;
      }

  -- The line that load-elf reports has the hash of the bytes that commit to the state.
  report_loaded-hash :
      (s : State) (files after : Files)
      → IsStarted keccak256 s
      → report_loaded keccak256 machine true s files ≡ ok after
      → (size : Usage) × (pages : ℕ) × (after
          ≡ machine.print (loaded (state_hash keccak256 (committed keccak256 s)) size pages) files)
  unfolding report_loaded
  report_loaded-hash s files after h reported =
      let e = encode_witness-Encodes keccak256 s h.1.typed.sound in
      let (size, is_size, printed) = >>=-eq-ok (usage e.after) _ (rw e.returns at reported) in
      (size, page_count e.after, cc printed)

  -- The report changes no file.
  pub report_loaded-keeps :
      IsLawful machine
      → (path : Text) (s : State) (files after : Files) → IsStarted keccak256 s
      → report_loaded keccak256 machine true s files ≡ ok after
      → machine.read path after ≡ machine.read path files
  report_loaded-keeps law path s files after h reported =
      let (size, pages, printed) = report_loaded-hash s files after h reported in
      ap (machine.read path) printed ∙ law.print_keeps path _ files

  -- If the file system and the formats keep their promises, the ELF parser gives bytes, and load-elf, with a
  -- file for its output and the reporting on, succeeds, then the witness command on that file succeeds, and
  -- prints the very hash that load-elf reported.
  pub load_elf-witness :
      (args : LoadElfArgs) (path : Text) (files after : Files)
      → IsLawful machine
      → ParsesBytes machine.minimal_parse
      → args.output ≡ some path
      → bytes_eq path (codes "-") ≡ false
      → load_elf_dispatch keccak256 machine true args files ≡ ok after
      → (hash : Digest) × (size : Usage) × (pages : ℕ) × (dumped : Files) × (after
          ≡ machine.print (loaded hash size pages) dumped)
        × (witness_dispatch keccak256 machine (record { input = path; output = none }) after
            ≡ ok (machine.print (witness_hash hash) after))
  load_elf-witness args path files after law parses named is_file h =
      let d = load_elf_dispatch-Dumps args true files after parses h in
      let (size, pages, printed) =
        report_loaded-hash d.state d.dumped after d.started d.is_reported in
      (
        state_hash keccak256 (committed keccak256 d.state),
        size,
        pages,
        d.dumped,
        printed,
        witness-dump_state keccak256 machine law path d.state files d.dumped after is_file
            (savable d.state d.started)
            (subst (λ output. dump_state keccak256 machine output d.state files ≡ ok d.dumped) named
              d.is_dumped)
            (report_loaded-keeps law path d.state d.dumped after d.started d.is_reported),
      )
