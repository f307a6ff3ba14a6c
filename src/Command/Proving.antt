-- ===== src/Command/Proving.antt =====
-- The run command after load-elf, bin/src/subcommands: the kernel starts from the state that was dumped, and
-- its proofs prove.
use cannon_rs.Prelude.{
  ℕ, ◌≡◌, sym, ap, true, false, Option, some, List, [], length, Result, ok, Holds, >>=-eq-ok, subst,
}
use cannon_rs.Hash.{Keccak}
use cannon_rs.State.{State}
use cannon_rs.Vm.{PreimageOracle, bytes_eq, new_instrumented}
use cannon_rs.Vm.Witness.{AbiCalls}
use cannon_rs.Vm.Typed.{with_memory-HasWords}
use cannon_rs.Vm.Typed.Steps.{TypedState}
use cannon_rs.Kernel.Decimal.{Text, codes}
use cannon_rs.Kernel.Run.{Kernel, Host, Settings, run_loop}
use cannon_rs.Kernel.Builder.{Launcher, build}
use cannon_rs.Kernel.Proves.{Every, IsBacked, run_loop-Backed}
use cannon_rs.Patch.Started.{ParsesBytes}
use cannon_rs.Command.{
  Machine, LoadElfArgs, RunArgs, builder_of, dump_state, load_elf_dispatch, read_state,
}
use cannon_rs.Command.Dump.{IsLawful, read-dump_state}
use cannon_rs.Command.Journey.{savable, load_elf_dispatch-Dumps, report_loaded-keeps}

module _ {Content Encoder Files : Type 0} (keccak256 : Keccak)
    (machine : Machine Content Encoder Files) {Server Child : Type 0}
    (oracle : PreimageOracle Server)
    (start : Text → List Text → Result (Server × Option Child)) where
  -- The launcher of the run command over the files as they are.
  abbrev pub launcher : Files → Launcher Server Child
  launcher files = record {
    read_state = λ path. read_state keccak256 machine path files;
    start = start;
  }

  -- The kernel starts from the state in its input file.
  build-state :
      (args : RunArgs) (s : State) (files : Files) (kernel : Kernel Server Child)
      → read_state keccak256 machine args.input files ≡ ok s
      → build (launcher files) (builder_of args) ≡ ok kernel
      → kernel.ins_state.state ≡ s
  unfolding build builder_of new_instrumented
  build-state args s files kernel is_read h =
      let h1 = rw is_read at h in
      let (server, started, built) = >>=-eq-ok (start _ _) _ h1 in
      ap (λ (k : Kernel Server Child). k.ins_state.state) (sym (kernel_of built))
    where
      kernel_of :
          {a b : Kernel Server Child} → ◌≡◌ {A = Result (Kernel Server Child)} (ok a) (ok b) → a ≡ b
      kernel_of e = cc e

  -- The state that is loaded again has its types.
  pub reloaded-Typed :
      (path : Text) (args : LoadElfArgs) (files after : Files)
      → IsLawful machine
      → ParsesBytes machine.minimal_parse
      → args.output ≡ some path
      → bytes_eq path (codes "-") ≡ false
      → load_elf_dispatch keccak256 machine true args files ≡ ok after
      → (s : State) × (read_state keccak256 machine path after ≡ ok s)
        × TypedState keccak256 oracle s
  reloaded-Typed path args files after law parses named is_file h =
      let d = load_elf_dispatch-Dumps keccak256 machine args true files after parses h in
      let (m, returns, sound, view) =
        read-dump_state keccak256 machine law path d.state files d.dumped after is_file
          (savable keccak256 machine d.state d.started)
          (subst (λ output. dump_state keccak256 machine output d.state files ≡ ok d.dumped) named
            d.is_dumped)
          (report_loaded-keeps keccak256 machine law path d.state d.dumped after d.started
            d.is_reported) in
      (
        record (d.state) { memory = m },
        returns,
        (
          with_memory-HasWords m d.state d.started.0,
          record { sound = sound; bytes = λ a. rw view (d.started.1.typed.bytes a) },
        ),
      )

  module _ (digest_length : (bytes : List ℕ) → length (keccak256 bytes) ≡ 32) (abi : AbiCalls)
      (host : Host Child Files) where
    -- From an ELF file to proofs, with digests of 32 bytes: if the file system and the formats keep their
    -- promises, the ELF parser gives bytes, load-elf with a file for its output and the reporting on
    -- succeeds, and the run command builds a kernel from that file, then whatever the program and the server
    -- do, if the loop ends, its tasks are backed (every snapshot is of a state whose fields have their types
    -- over a sound memory of bytes, every proof task is the result of a proof step from such a state and
    -- proves it), and the state at the end is such a state.
    pub load_elf-run_loop :
        (load_args : LoadElfArgs) (run_args : RunArgs) (files after : Files)
        (kernel : Kernel Server Child) (fuel : ℕ) (settings : Settings)
        → IsLawful machine
        → ParsesBytes machine.minimal_parse
        → load_args.output ≡ some run_args.input
        → bytes_eq run_args.input (codes "-") ≡ false
        → load_elf_dispatch keccak256 machine true load_args files ≡ ok after
        → build (launcher after) (builder_of run_args) ≡ ok kernel
        → Holds
            (λ r.
              Every (IsBacked keccak256 digest_length oracle abi host settings) r.io_tasks
              × TypedState keccak256 oracle r.ins_state.state)
            (run_loop keccak256 oracle abi host fuel settings (record {
              ins_state = kernel.ins_state;
              server_proc = kernel.server_proc;
              io_tasks = [];
            }))
    load_elf-run_loop load_args run_args files after kernel fuel settings law parses named is_file h
          built =
        let (s, is_read, typed) =
          reloaded-Typed run_args.input load_args files after law parses named is_file h in
        run_loop-Backed keccak256 digest_length oracle abi host settings fuel _ tt (
          subst (TypedState keccak256 oracle)
            (sym (build-state run_args s after kernel is_read built)) typed)
