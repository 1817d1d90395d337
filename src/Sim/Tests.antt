-- ===== src/Sim/Tests.antt =====
-- The first number of SplitMix64 for the seed 0.
use ticktape.Base.{◌≡◌, refl}
use ticktape.Sim.Rng.{new, next_u64}

splitmix : (next_u64 (new 0)).0 ≡ 0xE220_A839_7B1D_CDAF
unfolding next_u64 new
splitmix = refl
