-- ===== src/Core/Crc32c.antt =====
-- crates/ticktape-core/src/crc32c.rs: the software checksum with its table, and the hardware loops.
mod Bits
pub mod Division
pub mod Hardware
mod Tests
use ticktape.Base.{
  ℕ, zero, suc, ◌+◌, ◌-◌, ◌/◌, ◌%◌, ◌^◌, ◌<◌, ◌≡◌, refl, List, [], ◌∷◌, ◌==◌, if◌then◌else◌, get_or,
  arith,
}
use Prim.Native.Nat.{bit_and, bit_xor}

abbrev pub poly : ℕ
poly = 0x82F6_3B78

-- `crc >> 1`, folded with the polynomial when the low bit was set.
pub table_round : ℕ → ℕ
table_round crc = if bit_and crc 1 == 0 then crc / 2 else bit_xor (crc / 2) poly

pub table_rounds : ℕ → ℕ → ℕ
unfolding table_round
table_rounds zero crc = crc
table_rounds (suc n) crc = table_rounds n (table_round crc)

pub build_from : ℕ → ℕ → List ℕ
unfolding table_rounds
build_from zero i = []
build_from (suc n) i = table_rounds 8 i ∷ build_from n (i + 1)

pub build_table : List ℕ
unfolding build_from
build_table = build_from 256 0

pub crc_step : ℕ → ℕ → ℕ
unfolding build_table
crc_step crc byte = bit_xor (crc / 2 ^ 8) (get_or build_table (bit_and (bit_xor crc byte) 0xFF) 0)

pub crc_fold : ℕ → List ℕ → ℕ
unfolding crc_step
crc_fold crc [] = crc
crc_fold crc (byte ∷ rest) = crc_fold (crc_step crc byte) rest

abbrev pub u32_max : ℕ
u32_max = 0xFFFF_FFFF

-- `!x` on 32 bits is `u32_max - x`.
unfoldable pub crc32c_sw : List ℕ → ℕ
unfolding crc_fold
crc32c_sw bytes = u32_max - crc_fold u32_max bytes

-- Every checksum is a u32.
pub crc32c_sw-lt : (bytes : List ℕ) → crc32c_sw bytes < 256 ^ 4
unfolding crc32c_sw
crc32c_sw-lt bytes = omega arith
