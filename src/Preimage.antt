-- ===== src/Preimage.antt =====
-- crates/preimage/src: the keys of preimages, and the two ends of the channels for hints and for
-- preimages.
pub mod Keys
pub mod Channel
pub mod Hints
pub mod Oracle
pub mod Turns
pub mod Requests
pub mod Delivery
pub mod Failures
pub mod ShortWrites
