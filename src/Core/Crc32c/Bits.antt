-- ===== src/Core/Crc32c/Bits.antt =====
-- Laws of the bitwise operations that crc32c.rs works with: `bit_and` and `bit_xor`.
use ticktape.Base.{
  ℕ, zero, suc, ◌+◌, ◌*◌, ◌/◌, ◌%◌, ◌≤◌, ◌≡◌, refl, sym, ap, ◌∙◌, ◌⊎◌, inl, inr, arith,
}
use Prim.Native.Nat.{min, bit_and, bit_xor, digits, differ, bit_and-bitwise, bit_xor-bitwise}

-- The count of digits to go does not matter once the first number has no more.
digits-fuel :
    (z : ℕ → ℕ) (f : ℕ → ℕ → ℕ) (n m a b : ℕ) → a ≤ n → a ≤ m → digits z f n a b ≡ digits z f m a b
digits-fuel z f zero zero a b p q = refl
digits-fuel z f zero (suc m) zero b p q = refl
digits-fuel z f zero (suc m) (suc a) b p q = absurd (omega arith)
digits-fuel z f (suc n) zero zero b p q = refl
digits-fuel z f (suc n) zero (suc a) b p q = absurd (omega arith)
digits-fuel z f (suc n) (suc m) zero b p q = refl
digits-fuel z f (suc n) (suc m) (suc a) b p q =
    ap (λ k. k * 2 + f (suc a % 2) (b % 2))
      (digits-fuel z f n m (suc a / 2) (b / 2) (omega arith) (omega arith))

-- The lowest digit and the others.
bit_and_step : (a b : ℕ) → bit_and a b ≡ bit_and (a / 2) (b / 2) * 2 + min (a % 2) (b % 2)
bit_and_step zero b = omega (arith, bit_and-bitwise 0 b, bit_and-bitwise 0 (b / 2))
bit_and_step (suc a) b = omega (
  arith,
  bit_and-bitwise (suc a) b,
  bit_and-bitwise (suc a / 2) (b / 2),
  digits-fuel (λ b. zero) min a (suc a / 2) (suc a / 2) (b / 2) (omega arith) (omega arith),
)

pub xor_zero_left : (b : ℕ) → bit_xor 0 b ≡ b
xor_zero_left b = bit_xor-bitwise 0 b

bit_xor_step : (a b : ℕ) → bit_xor a b ≡ bit_xor (a / 2) (b / 2) * 2 + differ (a % 2) (b % 2)
bit_xor_step zero b = omega (arith, xor_zero_left b, xor_zero_left (b / 2))
bit_xor_step (suc a) b = omega (
  arith,
  bit_xor-bitwise (suc a) b,
  bit_xor-bitwise (suc a / 2) (b / 2),
  digits-fuel (λ b. b) differ a (suc a / 2) (suc a / 2) (b / 2) (omega arith) (omega arith),
)

bit_and-zero : (n a : ℕ) → a ≤ n → bit_and a 0 ≡ 0
bit_and-zero n zero h = bit_and-bitwise 0 0
bit_and-zero zero (suc a) h = absurd (omega arith)
bit_and-zero (suc n) (suc a) h =
    omega (arith, bit_and_step (suc a) 0, bit_and-zero n (suc a / 2) (omega arith))

pub bit_and-one : (a : ℕ) → bit_and a 1 ≡ a % 2
bit_and-one a = omega (arith, bit_and_step a 1, bit_and-zero (a / 2) (a / 2) (omega arith))

-- A mask of two digits, then of four, then of eight.
bit_and-three : (a : ℕ) → bit_and a 3 ≡ a % 4
bit_and-three a = omega (arith, bit_and_step a 3, bit_and-one (a / 2))

bit_and-fifteen : (a : ℕ) → bit_and a 15 ≡ a % 16
bit_and-fifteen a =
    omega (arith, bit_and_step a 15, bit_and_step (a / 2) 7, bit_and-three (a / 2 / 2))

pub bit_and-byte : (a : ℕ) → bit_and a 0xFF ≡ a % 256
bit_and-byte a = omega (
  arith,
  bit_and_step a 255,
  bit_and_step (a / 2) 127,
  bit_and_step (a / 2 / 2) 63,
  bit_and_step (a / 2 / 2 / 2) 31,
  bit_and-fifteen (a / 2 / 2 / 2 / 2),
)

-- A digit is zero or one.
pub digit_cases : (a : ℕ) → (a % 2 ≡ 0) ⊎ (a % 2 ≡ 1)
digit_cases a = omega arith

differ-digit_le : (a b : ℕ) → differ (a % 2) (b % 2) ≤ 1
differ-digit_le a b = elim (digit_cases a) [
  | inl p ↦ elim (digit_cases b) [
    | inl q ↦ rw (p, q) (omega arith)
    | inr q ↦ rw (p, q) (omega arith)
  ]
  | inr p ↦ elim (digit_cases b) [
    | inl q ↦ rw (p, q) (omega arith)
    | inr q ↦ rw (p, q) (omega arith)
  ]
]

differ_self : (a : ℕ) → differ a a ≡ 0
differ_self zero = refl
differ_self (suc a) = differ_self a

differ_zero : (a : ℕ) → differ a 0 ≡ a
differ_zero zero = refl
differ_zero (suc a) = refl

differ_comm : (a b : ℕ) → differ a b ≡ differ b a
differ_comm zero b = sym (differ_zero b)
differ_comm (suc a) zero = refl
differ_comm (suc a) (suc b) = differ_comm a b

differ-digits_assoc :
    (a b c : ℕ) → differ (differ (a % 2) (b % 2)) (c % 2) ≡ differ (a % 2) (differ (b % 2) (c % 2))
differ-digits_assoc a b c = elim (digit_cases a) [
  | inl p ↦ rw (p) refl
  | inr p ↦ elim (digit_cases b) [
    | inl q ↦ rw (p, q) refl
    | inr q ↦ elim (digit_cases c) [ inl r ↦ rw (p, q, r) refl | inr r ↦ rw (p, q, r) refl ]
  ]
]

pub xor_half : (a b : ℕ) → bit_xor a b / 2 ≡ bit_xor (a / 2) (b / 2)
xor_half a b = omega (arith, bit_xor_step a b, differ-digit_le a b)

pub xor_low : (a b : ℕ) → bit_xor a b % 2 ≡ differ (a % 2) (b % 2)
xor_low a b = omega (arith, bit_xor_step a b, differ-digit_le a b)

-- A number is its lowest digit and the others.
pub same_digits : (a b : ℕ) → a / 2 ≡ b / 2 → a % 2 ≡ b % 2 → a ≡ b
same_digits a b p q = omega arith

pub xor_self : (n a : ℕ) → a ≤ n → bit_xor a a ≡ 0
xor_self n zero h = xor_zero_left 0
xor_self zero (suc a) h = absurd (omega arith)
xor_self (suc n) (suc a) h = omega (
  arith,
  bit_xor_step (suc a) (suc a),
  xor_self n (suc a / 2) (omega arith),
  differ_self (suc a % 2),
)

pub xor_zero_right : (n a : ℕ) → a ≤ n → bit_xor a 0 ≡ a
xor_zero_right n zero h = xor_zero_left 0
xor_zero_right zero (suc a) h = absurd (omega arith)
xor_zero_right (suc n) (suc a) h =
    same_digits _ _ (xor_half (suc a) 0 ∙ xor_zero_right n (suc a / 2) (omega arith))
      (xor_low (suc a) 0 ∙ differ_zero (suc a % 2))

pub xor_comm : (n a b : ℕ) → a + b ≤ n → bit_xor a b ≡ bit_xor b a
xor_comm n zero b h = xor_zero_left b ∙ sym (xor_zero_right b b (omega arith))
xor_comm zero (suc a) b h = absurd (omega arith)
xor_comm (suc n) (suc a) b h =
    same_digits _ _
      (xor_half (suc a) b ∙ xor_comm n (suc a / 2) (b / 2) (omega arith) ∙ sym (xor_half b (suc a)))
      (xor_low (suc a) b ∙ differ_comm (suc a % 2) (b % 2) ∙ sym (xor_low b (suc a)))

pub xor_assoc : (n a b c : ℕ) → a ≤ n → bit_xor (bit_xor a b) c ≡ bit_xor a (bit_xor b c)
xor_assoc n zero b c h = ap (λ k. bit_xor k c) (xor_zero_left b) ∙ sym (xor_zero_left (bit_xor b c))
xor_assoc zero (suc a) b c h = absurd (omega arith)
xor_assoc (suc n) (suc a) b c h =
    same_digits _ _
      (xor_half (bit_xor (suc a) b) c
        ∙ ap (λ k. bit_xor k (c / 2)) (xor_half (suc a) b)
        ∙ xor_assoc n (suc a / 2) (b / 2) (c / 2) (omega arith)
        ∙ ap (bit_xor (suc a / 2)) (sym (xor_half b c))
        ∙ sym (xor_half (suc a) (bit_xor b c)))
      (xor_low (bit_xor (suc a) b) c
        ∙ ap (λ k. differ k (c % 2)) (xor_low (suc a) b)
        ∙ differ-digits_assoc (suc a) b c
        ∙ ap (differ (suc a % 2)) (sym (xor_low b c))
        ∙ sym (xor_low (suc a) (bit_xor b c)))
