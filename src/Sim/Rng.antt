-- ===== src/Sim/Rng.antt =====
-- crates/ticktape-sim/src/rng.rs: the SplitMix64 generator. The wrapping operations are written out.
use ticktape.Base.{ℕ, ◌+◌, ◌*◌, ◌/◌, ◌%◌, ◌^◌, ◌<◌, Bool, ltb, arith}
use Prim.Native.Nat.{bit_xor}

pub record Rng : Type 0 where
  pub state : ℕ

unfoldable pub new : ℕ → Rng
new seed = record { state = seed }

-- `z ^ (z >> shift)`, times `factor`.
abbrev mixed : ℕ → ℕ → ℕ → ℕ
mixed z shift factor = bit_xor z (z / 2 ^ shift) * factor % 2 ^ 64

-- The number, and the generator after it.
unfoldable pub next_u64 : Rng → ℕ × Rng
next_u64 rng =
    let state = (rng.state + 0x9E37_79B9_7F4A_7C15) % 2 ^ 64 in
    let z = mixed (mixed state 30 0xBF58_476D_1CE4_E5B9) 27 0x94D0_49BB_1331_11EB in
    (bit_xor z (z / 2 ^ 31), record { state = state })

-- A number below `n`.
pub below : Rng → ℕ → ℕ × Rng
below rng n = let (x, rng') = next_u64 rng in (x % n, rng')

pub chance : Rng → ℕ → ℕ → Bool × Rng
chance rng num den = let (x, rng') = below rng den in (ltb x num, rng')

pub below-lt : (rng : Rng) (n : ℕ) → 0 < n → (below rng n).0 < n
unfolding below
below-lt rng n h = omega arith
