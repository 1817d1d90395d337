-- ===== src/Core/Crc32c/Hardware.antt =====
-- The hardware paths of crc32c.rs and the dispatcher. The CRC instructions of the processor are a
-- parameter: `Instructions` has the four widths, for ARMv8 and for SSE4.2 alike.
use ticktape.Base.{
  ℕ, ◌-◌, ◌≡◌, refl, sym, ap, Option, none, some, List, [], ◌∷◌, All, arith, ◌∙◌, ◌≤◌, length,
}
use ticktape.Core.Bytes.{IsByte, from_le_bytes}
use ticktape.Core.Crc32c.{crc_step, crc_fold, crc32c_sw, u32_max}
use ticktape.Core.Crc32c.Division.{divide_byte, crc_step-divide_byte}

pub record Instructions : Type 0 where
  pub crc_u8 : ℕ → ℕ → ℕ
  pub crc_u16 : ℕ → ℕ → ℕ
  pub crc_u32 : ℕ → ℕ → ℕ
  pub crc_u64 : ℕ → ℕ → ℕ

-- What the processor manuals say: the byte instruction divides a byte by the Castagnoli polynomial,
-- digit by digit, and a wider one takes the bytes of its operand in turn, lowest first.
pub record IsCastagnoli (cpu : Instructions) : Type 0 where
  pub byte : (crc b : ℕ) → IsByte b → cpu.crc_u8 crc b ≡ divide_byte crc b
  pub half :
      (crc a b : ℕ)
      → IsByte a
      → IsByte b
      → cpu.crc_u16 crc (from_le_bytes (a ∷ b ∷ [])) ≡ cpu.crc_u8 (cpu.crc_u8 crc a) b
  pub word :
      (crc a b c d : ℕ)
      → All IsByte (a ∷ b ∷ c ∷ d ∷ [])
      → cpu.crc_u32 crc (from_le_bytes (a ∷ b ∷ c ∷ d ∷ []))
        ≡ cpu.crc_u16 (cpu.crc_u16 crc (from_le_bytes (a ∷ b ∷ []))) (from_le_bytes (c ∷ d ∷ []))
  pub double :
      (crc a b c d e f g h : ℕ)
      → All IsByte (a ∷ b ∷ c ∷ d ∷ e ∷ f ∷ g ∷ h ∷ [])
      → cpu.crc_u64 crc (from_le_bytes (a ∷ b ∷ c ∷ d ∷ e ∷ f ∷ g ∷ h ∷ []))
        ≡ cpu.crc_u32
            (cpu.crc_u32 crc (from_le_bytes (a ∷ b ∷ c ∷ d ∷ [])))
            (from_le_bytes (e ∷ f ∷ g ∷ h ∷ []))

module _ (cpu : Instructions) where
  open cpu use {crc_u8, crc_u16, crc_u32, crc_u64}

  -- The remainder of fewer than eight bytes: four, then two, then one.
  tail1 : ℕ → List ℕ → ℕ
  tail1 crc [] = crc
  tail1 crc (b ∷ rest) = crc_u8 crc b

  tail2 : ℕ → List ℕ → ℕ
  unfolding tail1
  tail2 crc (a ∷ b ∷ rest) = tail1 (crc_u16 crc (from_le_bytes (a ∷ b ∷ []))) rest
  tail2 crc rest = tail1 crc rest

  tail4 : ℕ → List ℕ → ℕ
  unfolding tail2
  tail4 crc (a ∷ b ∷ c ∷ d ∷ rest) = tail2 (crc_u32 crc (from_le_bytes (a ∷ b ∷ c ∷ d ∷ []))) rest
  tail4 crc rest = tail2 crc rest

  -- `chunks_exact(8)`, then the remainder.
  chunks8 : ℕ → List ℕ → ℕ
  unfolding tail4
  chunks8 crc (a ∷ b ∷ c ∷ d ∷ e ∷ f ∷ g ∷ h ∷ rest) =
      chunks8 (crc_u64 crc (from_le_bytes (a ∷ b ∷ c ∷ d ∷ e ∷ f ∷ g ∷ h ∷ []))) rest
  chunks8 crc rest = tail4 crc rest

  pub crc32c_hardware : List ℕ → ℕ
  unfolding chunks8
  crc32c_hardware bytes = u32_max - chunks8 u32_max bytes

-- The dispatcher: `some cpu` where the instructions were detected.
pub crc32c : Option Instructions → List ℕ → ℕ
unfolding crc32c_hardware
crc32c none bytes = crc32c_sw bytes
crc32c (some cpu) bytes = crc32c_hardware cpu bytes

module _ (cpu : Instructions) (spec : IsCastagnoli cpu) where
  byte-step : (crc b : ℕ) → IsByte b → cpu.crc_u8 crc b ≡ crc_step crc b
  byte-step crc b h = spec.byte crc b h ∙ sym (crc_step-divide_byte crc b h)

  half-fold :
      (crc a b : ℕ)
      → IsByte a
      → IsByte b
      → cpu.crc_u16 crc (from_le_bytes (a ∷ b ∷ [])) ≡ crc_fold crc (a ∷ b ∷ [])
  unfolding crc_fold
  half-fold crc a b ha hb =
      spec.half crc a b ha hb
      ∙ byte-step (cpu.crc_u8 crc a) b hb
      ∙ ap (λ k. crc_step k b) (byte-step crc a ha)

  word-fold :
      (crc a b c d : ℕ)
      → All IsByte (a ∷ b ∷ c ∷ d ∷ [])
      → cpu.crc_u32 crc (from_le_bytes (a ∷ b ∷ c ∷ d ∷ [])) ≡ crc_fold crc (a ∷ b ∷ c ∷ d ∷ [])
  unfolding crc_fold
  word-fold crc a b c d h =
      spec.word crc a b c d h
      ∙ half-fold (cpu.crc_u16 crc (from_le_bytes (a ∷ b ∷ []))) c d h.1.1.0 h.1.1.1.0
      ∙ ap (λ k. crc_fold k (c ∷ d ∷ [])) (half-fold crc a b h.0 h.1.0)

  double-fold :
      (crc a b c d e f g h : ℕ)
      → All IsByte (a ∷ b ∷ c ∷ d ∷ e ∷ f ∷ g ∷ h ∷ [])
      → cpu.crc_u64 crc (from_le_bytes (a ∷ b ∷ c ∷ d ∷ e ∷ f ∷ g ∷ h ∷ []))
        ≡ crc_fold crc (a ∷ b ∷ c ∷ d ∷ e ∷ f ∷ g ∷ h ∷ [])
  unfolding crc_fold
  double-fold crc a b c d e f g h (va, (vb, (vc, (vd, rest)))) =
      spec.double crc a b c d e f g h (va, (vb, (vc, (vd, rest))))
      ∙ word-fold (cpu.crc_u32 crc (from_le_bytes (a ∷ b ∷ c ∷ d ∷ []))) e f g h rest
      ∙ ap (λ k. crc_fold k (e ∷ f ∷ g ∷ h ∷ [])) (word-fold crc a b c d (va, (vb, (vc, (vd, tt)))))

  -- The narrow tails, over a remainder of known length.
  tail2-fold :
      (crc : ℕ) (bytes : List ℕ)
      → length bytes ≤ 3
      → All IsByte bytes
      → tail2 cpu crc bytes ≡ crc_fold crc bytes
  unfolding tail2 crc_fold
  tail2-fold crc [] n v = refl
  tail2-fold crc (a ∷ []) n v = byte-step crc a v.0
  tail2-fold crc (a ∷ b ∷ []) n v = half-fold crc a b v.0 v.1.0
  tail2-fold crc (a ∷ b ∷ c ∷ []) n v =
      ap (λ k. cpu.crc_u8 k c) (half-fold crc a b v.0 v.1.0) ∙ byte-step _ c v.1.1.0
  tail2-fold crc (a ∷ b ∷ c ∷ d ∷ rest) n v = absurd (omega arith)

  tail4-fold :
      (crc : ℕ) (bytes : List ℕ)
      → length bytes ≤ 7
      → All IsByte bytes
      → tail4 cpu crc bytes ≡ crc_fold crc bytes
  unfolding tail4
  tail4-fold crc [] n v = tail2-fold crc [] (omega arith) v
  tail4-fold crc (a ∷ []) n v = tail2-fold crc (a ∷ []) (omega arith) v
  tail4-fold crc (a ∷ b ∷ []) n v = tail2-fold crc (a ∷ b ∷ []) (omega arith) v
  tail4-fold crc (a ∷ b ∷ c ∷ []) n v = tail2-fold crc (a ∷ b ∷ c ∷ []) (omega arith) v
  tail4-fold crc (a ∷ b ∷ c ∷ d ∷ rest) n (va, (vb, (vc, (vd, v)))) =
      tail2-fold _ rest (omega arith) v
      ∙ ap (λ k. crc_fold k rest) (word-fold crc a b c d (va, (vb, (vc, (vd, tt)))))
      ∙ unfold crc_fold in refl

  chunks8-fold :
      (crc : ℕ) (bytes : List ℕ) → All IsByte bytes → chunks8 cpu crc bytes ≡ crc_fold crc bytes
  unfolding chunks8 crc_fold
  chunks8-fold crc (a ∷ b ∷ c ∷ d ∷ e ∷ f ∷ g ∷ h ∷ rest)
        (va, (vb, (vc, (vd, (ve, (vf, (vg, (vh, v)))))))) =
      chunks8-fold (cpu.crc_u64 crc (from_le_bytes (a ∷ b ∷ c ∷ d ∷ e ∷ f ∷ g ∷ h ∷ []))) rest v
      ∙ ap (λ k. crc_fold k rest)
          (double-fold crc a b c d e f g h (va, (vb, (vc, (vd, (ve, (vf, (vg, (vh, tt)))))))))
  chunks8-fold crc rest v = tail4-fold crc rest (omega arith) v

-- With CRC instructions that divide a byte by the Castagnoli polynomial, digit by digit, and a
-- wider operand byte by byte, crc32c gives every string of bytes the checksum that it has without
-- them, from the software table.
pub crc32c-eq-sw :
    (cpu : Instructions) (bytes : List ℕ)
    → IsCastagnoli cpu
    → All IsByte bytes
    → crc32c (some cpu) bytes ≡ crc32c none bytes
unfolding crc32c crc32c_sw
crc32c-eq-sw cpu bytes spec v = ap (λ k. u32_max - k) (chunks8-fold cpu spec u32_max bytes v)
