-- ===== src/Kernel.antt =====
-- crates/cannon/src: the kernel that runs the emulator, with its step patterns and its outputs.
pub mod Decimal
pub mod Matchers
pub mod Patterns
pub mod Run
pub mod Builder
pub mod Server
pub mod Outputs
pub mod Loop
pub mod Proofs
pub mod Soundness
pub mod Proves
