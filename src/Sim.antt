-- ===== src/Sim.antt =====
-- crates/ticktape-sim: the deterministic simulator's random numbers and its disk.
pub mod Rng
pub mod Storage
mod Tests
