-- ===== src/Lib.antt =====
-- The fault proof emulator of cannon-rs: a MIPS thread whose memory is committed to by a Merkle
-- tree, that steps one instruction at a time and can give a witness for each step
-- (crates/mipsevm), the channels over which it asks a server for preimages (crates/preimage), the
-- kernel that runs it (crates/cannon), and the command line that loads a program, prints its
-- witness and runs it (bin).
--
-- Parts, and the files that model them. Memory (crates/mipsevm/src/memory.rs) is Memory.antt,
-- with the range write in Memory/Range.antt, the reader in Memory/Reader.antt, the serialized
-- form in Memory/Serial.antt and the readable size in Memory/Usage.antt; it keeps pages
-- (crates/mipsevm/src/page.rs, Page.antt) that cache their own nodes, and hashes with Hash.antt
-- (crates/mipsevm/src/utils.rs). The thread state (crates/mipsevm/src/state.rs) is State.antt,
-- its serialized form State/Form.antt with the byte strings of ser.rs in Hex.antt, the enums of
-- types.rs Types.antt. The step (crates/mipsevm/src/mips/mips_vm.rs, instrumented.rs) is Vm.antt
-- with Vm/Alu.antt (execute, sign_extend), Vm/Handlers.antt (branches, jumps, hi and lo, register
-- write back), Vm/Hints.antt (the hint loop), Vm/Syscalls.antt (one function for each system
-- call), Vm/Step.antt (inner_step and step) and Vm/Witness.antt (crates/mipsevm/src/witness.rs).
-- Loading a program (crates/mipsevm/src/patch.rs) is Patch.antt, Patch/Elf.antt and
-- Patch/MultiReader.antt. The ends of the channels (crates/preimage/src/hints.rs, oracle.rs,
-- types.rs, file_chan.rs) are under Preimage: Keys.antt, Channel.antt, Hints.antt, Oracle.antt.
-- The kernel (crates/cannon/src/kernel.rs, types.rs) is under Kernel: Matchers.antt for the step
-- patterns, Run.antt for run, Builder.antt for crates/cannon/src/builder.rs, Server.antt for the
-- start of the server in proc_oracle.rs. The subcommands (bin/src/subcommands, bin/src/cannon.rs)
-- are Command.antt, with the compression of crates/cannon/src/gz.rs in Command/Gzip.antt. The two
-- oracles of the tests (crates/mipsevm/src/test_utils/mod.rs) are TestUtils.antt. Functions keep
-- their names; a function by clauses beside one of them is a part of its body.
--
-- How they interact. The kernel calls step, and the encoding of the witness around it; step calls
-- inner_step, which loads and stores through Memory and asks the preimage oracle, an interface
-- that crates/cannon implements with the client ends of the two channels; load_elf and the
-- snapshots fill and read Memory by ranges. The load-elf command writes the state that load_elf
-- and the patches leave to a file; the witness command and the kernel's builder read it; the run
-- command runs the kernel.
--
-- State is passed explicitly: a method on &mut self takes the record and returns the new one.
-- Pages are shared in the code (Rc and RefCell), so a page is a reference into a store, and the
-- map and the two cache slots hold references. Arrays are functions of the index, hash maps
-- association lists, byte strings and texts lists of numbers. A Result has four forms: a value,
-- an error, a panic, and the end of the fuel. Words are native numbers below 2 ^ 32 or 2 ^ 64
-- with the wrap-around written out, since the profiles of Cargo.toml leave the overflow checks
-- off. The two ends of a channel are programs that take turns in any order on two pipes of bytes;
-- a write_all goes on until all its bytes are taken, a single write may be cut short by the
-- operating system, which is a number of the channel, a read gives what the pipe holds, and a
-- read of an empty pipe waits while its writing end is open. A task that the kernel spawns is a
-- value, and runs when it is awaited.
--
-- Fuel: clear_branch has 64 rounds for the digits of a u64; Memory.merkleize_subtree 21 levels
-- down to the pages, Page.merkleize_subtree 8, traverse_branch 28; count_leading_ones 33 rounds;
-- usage_loop 7; the hint loop, the reader and the range write one round more than there are
-- bytes; run_loop as many rounds as it is given. The theorems on the Merkle functions, the
-- reader, the range write, usage and count_leading_ones give a value, so the fuel is enough
-- there; the one on load_elf excludes the end of the fuel, and that on run_loop shows when more
-- fuel makes no difference.
--
-- Specifications: Merkle.antt is the reference tree over any leaves, Merkle/Verify.antt the check
-- of a proof, Memory/Invariant.antt the flat view of memory as a function from addresses to bytes
-- and the invariant of the shared pages, Memory/Coherent.antt and Page/Coherent.antt the
-- invariants of the caches, Memory/Sound.antt the invariants together; Memory/Typed.antt adds
-- that the view holds bytes, Vm/Typed.antt that the fields of a state are within their machine
-- types, Memory/Fresh.antt says of a memory that nothing above its pages is cached, as a program
-- that is loaded finds it (Patch/Started.antt). Memory/Range.antt has the interface of readers
-- with its laws; Vm/Preserved.antt shows of any property of memory, register 0 and the step
-- counter that a step keeps it if the operations on memory do; Memory/Alike.antt and
-- Vm/Alike.antt compare the operations and the steps on two memories with the same bytes,
-- whatever their pages, nodes and caches are; Vm/WordAccess.antt follows a load and a store of a
-- word through a whole step. Command/Dump.antt says what the file system and the formats promise
-- (IsLawful): a file that was written reads back, the text of a state parses, what is compressed
-- decompresses, and a line on the console changes no file.
--
-- Parameters: keccak256, of another crate; the preimage server and the spawn of its process; the
-- ELF parser and its symbols; the ABI encoding of the calls, which a macro generates; the JSON
-- text of a serialized state, the digits of hexadecimal text and the gzip streams; the file
-- system and the console; in the kernel one function that saves an output and one that asks
-- whether the server's process has exited. Not modelled: the feature tracing, the parsing of the
-- arguments and the set-up of the log, which are calls of other crates, with the log lines other
-- than the last one of load-elf, which computes the state hash; the formatting of the memory
-- usage; the failure of a reader in the range write, since the readers of the program are byte
-- slices and their chain, which do not fail; and the contract runner of the tests
-- (crates/mipsevm/src/test_utils/evm.rs), which drives an interpreter of another crate with
-- compiled contracts.
pub mod Prelude
pub mod Word
pub mod Types
pub mod Hash
pub mod Hex
pub mod TestUtils
pub mod Merkle
pub mod Page
pub mod Memory
pub mod State
pub mod Preimage
pub mod Vm
pub mod Patch
pub mod Kernel
pub mod Command
pub mod Examples
