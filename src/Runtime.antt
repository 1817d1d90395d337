-- ===== src/Runtime.antt =====
-- crates/ticktape-runtime.
pub mod Timer
pub mod Commit
pub mod Node
