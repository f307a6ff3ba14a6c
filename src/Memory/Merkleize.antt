-- ===== src/Memory/Merkleize.antt =====
-- `Memory::merkleize_subtree` of crates/mipsevm/src/memory.rs at every node that it accepts.
pub mod Pages
pub mod Nodes
pub mod Root
