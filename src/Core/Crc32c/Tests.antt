-- ===== src/Core/Crc32c/Tests.antt =====
-- Runs of crc32c.rs: the test vectors of RFC 3720.
use ticktape.Base.{ℕ, ◌%◌, ◌/◌, ◌^◌, ◌≡◌, refl, ap₂, none, some, [], ◌∷◌, arith}
use ticktape.Core.Bytes.{from_le_bytes}
use ticktape.Core.Crc32c.{crc32c_sw}
use ticktape.Core.Crc32c.Division.{divide_byte}
use ticktape.Core.Crc32c.Hardware.{Instructions, IsCastagnoli, crc32c, crc32c-eq-sw}

check_digits :
    crc32c_sw (b'1' ∷ b'2' ∷ b'3' ∷ b'4' ∷ b'5' ∷ b'6' ∷ b'7' ∷ b'8' ∷ b'9' ∷ []) ≡ 0xE306_9283
unfolding crc32c_sw
check_digits = refl

check_empty : crc32c_sw [] ≡ 0
unfolding crc32c_sw
check_empty = refl

-- A processor as the manuals describe it.
u16_step : ℕ → ℕ → ℕ
u16_step crc v = divide_byte (divide_byte crc (v % 256)) (v / 256)

u32_step : ℕ → ℕ → ℕ
u32_step crc v = u16_step (u16_step crc (v % 256 ^ 2)) (v / 256 ^ 2)

u64_step : ℕ → ℕ → ℕ
u64_step crc v = u32_step (u32_step crc (v % 256 ^ 4)) (v / 256 ^ 4)

abbrev manual : Instructions
manual = record { crc_u8 = divide_byte; crc_u16 = u16_step; crc_u32 = u32_step; crc_u64 = u64_step }

manual-IsCastagnoli : IsCastagnoli manual
unfolding u16_step u32_step u64_step from_le_bytes
manual-IsCastagnoli = record {
  byte = λ crc b h. refl;
  half =
      λ crc a b ha hb. ap₂ (λ x y. divide_byte (divide_byte crc x) y) (omega arith) (omega arith);
  word = λ crc a b c d h. ap₂ (λ x y. u16_step (u16_step crc x) y) (omega arith) (omega arith);
  double =
      λ crc a b c d e f g h v. ap₂ (λ x y. u32_step (u32_step crc x) y) (omega arith) (omega arith);
}

crc32c-eq-sw_example :
    crc32c (some manual) (b'1' ∷ b'2' ∷ b'3' ∷ []) ≡ crc32c none (b'1' ∷ b'2' ∷ b'3' ∷ [])
crc32c-eq-sw_example =
    crc32c-eq-sw manual (b'1' ∷ b'2' ∷ b'3' ∷ []) manual-IsCastagnoli (omega arith)
