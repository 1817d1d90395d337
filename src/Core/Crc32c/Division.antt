-- ===== src/Core/Crc32c/Division.antt =====
-- crates/ticktape-core/src/crc32c.rs: the table's step is the polynomial division that the
-- processor manuals give for their CRC instructions.
use ticktape.Base.{
  ℕ, zero, suc, ◌+◌, ◌*◌, ◌/◌, ◌%◌, ◌<◌, ◌≡◌, refl, sym, ap, ap₂, ◌∙◌, inl, inr, get_or, arith,
}
use Prim.Native.Nat.{bit_xor, differ}
use ticktape.Core.Bytes.{IsByte}
use ticktape.Core.Crc32c.{table_round, table_rounds, build_from, build_table, crc_step}
use ticktape.Core.Crc32c.Bits.{
  bit_and-one, bit_and-byte, digit_cases, xor_zero_left, xor_half, xor_self, xor_zero_right,
  xor_comm, xor_assoc, xor_low, same_digits,
}

-- One digit of the division by the reflected polynomial 0x1EDC6F41: the digit that is shifted out
-- times the polynomial, subtracted without carries.
pub divide_digit : ℕ → ℕ
divide_digit x = bit_xor (x / 2) (x % 2 * 0x82F6_3B78)

pub divide : ℕ → ℕ → ℕ
unfolding divide_digit
divide zero x = x
divide (suc n) x = divide n (divide_digit x)

-- A byte is added to the remainder without carries, and its eight digits are divided.
unfoldable pub divide_byte : ℕ → ℕ → ℕ
unfolding divide
divide_byte crc b = divide 8 (bit_xor crc b)

xor_zero : (a : ℕ) → bit_xor a 0 ≡ a
xor_zero a = xor_zero_right a a (omega arith)

comm : (a b : ℕ) → bit_xor a b ≡ bit_xor b a
comm a b = xor_comm (a + b) a b (omega arith)

assoc : (a b c : ℕ) → bit_xor (bit_xor a b) c ≡ bit_xor a (bit_xor b c)
assoc a b c = xor_assoc a a b c (omega arith)

-- The table's round is a digit of the division.
table_round-divide_digit : (x : ℕ) → table_round x ≡ divide_digit x
unfolding table_round divide_digit
table_round-divide_digit x =
    rw (bit_and-one x)
      (elim (digit_cases x) [ inl p ↦ rw (p) (sym (xor_zero (x / 2))) | inr p ↦ rw (p) refl ])

table_rounds-divide : (n x : ℕ) → table_rounds n x ≡ divide n x
unfolding table_rounds divide
table_rounds-divide zero x = refl
table_rounds-divide (suc n) x =
    ap (table_rounds n) (table_round-divide_digit x) ∙ table_rounds-divide n (divide_digit x)

get_or-build_from : (n i j : ℕ) → j < n → get_or (build_from n i) j 0 ≡ table_rounds 8 (i + j)
unfolding build_from
get_or-build_from zero i j h = absurd (omega arith)
get_or-build_from (suc n) i zero h = ap (table_rounds 8) (omega arith)
get_or-build_from (suc n) i (suc j) h =
    get_or-build_from n (i + 1) j (omega arith) ∙ ap (table_rounds 8) (omega arith)

get_or-build_table : (j : ℕ) → j < 256 → get_or build_table j 0 ≡ divide 8 j
unfolding build_table
get_or-build_table j h =
    get_or-build_from 256 0 j h ∙ ap (table_rounds 8) (omega arith) ∙ table_rounds-divide 8 j

-- Of two sums without carries, the inner terms change places.
middle : (a b p q : ℕ) → bit_xor (bit_xor a b) (bit_xor p q) ≡ bit_xor (bit_xor a p) (bit_xor b q)
middle a b p q =
    assoc a b (bit_xor p q)
    ∙ ap (bit_xor a) (sym (assoc b p q) ∙ ap (λ k. bit_xor k q) (comm b p) ∙ assoc p b q)
    ∙ sym (assoc a p (bit_xor b q))

zero_times : (c : ℕ) → 0 * c ≡ 0
zero_times c = omega arith

digit_times : (a b c : ℕ) → bit_xor a b % 2 * c ≡ bit_xor (a % 2 * c) (b % 2 * c)
digit_times a b c = rw (xor_low a b) (elim (digit_cases a) [
  | inl p ↦
      rw (p) (sym (ap (λ k. bit_xor k (b % 2 * c)) (zero_times c) ∙ xor_zero_left (b % 2 * c)))
  | inr p ↦ elim (digit_cases b) [
    | inl q ↦ rw (p, q) (sym (ap (bit_xor (1 * c)) (zero_times c) ∙ xor_zero (1 * c)))
    | inr q ↦ rw (p, q) (zero_times c ∙ sym (xor_self (1 * c) (1 * c) (omega arith)))
  ]
])

divide_digit-xor :
    (a b : ℕ) → divide_digit (bit_xor a b) ≡ bit_xor (divide_digit a) (divide_digit b)
unfolding divide_digit
divide_digit-xor a b =
    ap₂ bit_xor (xor_half a b) (digit_times a b 0x82F6_3B78)
    ∙ middle (a / 2) (b / 2) (a % 2 * 0x82F6_3B78) (b % 2 * 0x82F6_3B78)

-- The division is linear.
divide-xor : (n a b : ℕ) → divide n (bit_xor a b) ≡ bit_xor (divide n a) (divide n b)
unfolding divide
divide-xor zero a b = refl
divide-xor (suc n) a b =
    ap (divide n) (divide_digit-xor a b) ∙ divide-xor n (divide_digit a) (divide_digit b)

-- Halves and lowest digits of even numbers and of sums.
half : (m : ℕ) → m * 2 / 2 ≡ m
half m = omega arith

even : (m : ℕ) → m * 2 % 2 ≡ 0
even m = omega arith

low : (m : ℕ) → m * 2 % 2 * 0x82F6_3B78 ≡ 0
low m = ap (λ k. k * 0x82F6_3B78) (even m)

none_left : (l : ℕ) → l < 1 → l ≡ 0
none_left l p = omega arith

sum_zero : (h l : ℕ) → l < 1 → h ≡ h + l
sum_zero h l p = omega arith

sum_half : (m l : ℕ) → m + l / 2 ≡ (m * 2 + l) / 2
sum_half m l = omega arith

sum_low : (m l : ℕ) → l % 2 ≡ (m * 2 + l) % 2
sum_low m l = omega arith

-- n digits that are zero below the number.
shifted : ℕ → ℕ → ℕ
shifted zero m = m
shifted (suc n) m = shifted n m * 2

divide_digit-twice : (m : ℕ) → divide_digit (m * 2) ≡ m
unfolding divide_digit
divide_digit-twice m =
    ap (λ x. bit_xor x (m * 2 % 2 * 0x82F6_3B78)) (half m) ∙ ap (bit_xor m) (low m) ∙ xor_zero m

-- Digits that are zero are shifted out.
divide-shifted : (n m : ℕ) → divide n (shifted n m) ≡ m
unfolding divide shifted
divide-shifted zero m = refl
divide-shifted (suc n) m = ap (divide n) (divide_digit-twice (shifted n m)) ∙ divide-shifted n m

-- Digits that do not meet are added.
shifted-xor : (n h l : ℕ) → l < shifted n 1 → bit_xor (shifted n h) l ≡ shifted n h + l
unfolding shifted
shifted-xor zero h l p = ap (bit_xor h) (none_left l p) ∙ xor_zero h ∙ sum_zero h l p
shifted-xor (suc n) h l p =
    same_digits _ _
      (xor_half (shifted n h * 2) l
        ∙ ap (λ k. bit_xor k (l / 2)) (half (shifted n h))
        ∙ shifted-xor n h (l / 2) (omega arith)
        ∙ sum_half (shifted n h) l)
      (xor_low (shifted n h * 2) l
        ∙ ap (λ k. differ k (l % 2)) (even (shifted n h))
        ∙ sum_low (shifted n h) l)

shifted-byte : (m : ℕ) → shifted 8 m ≡ m * 256
unfolding shifted
shifted-byte m = omega arith

split_byte : (x : ℕ) → bit_xor (shifted 8 (x / 256)) (x % 256) ≡ x
split_byte x =
    shifted-xor 8 (x / 256) (x % 256) (omega (arith, shifted-byte 1))
    ∙ omega (arith, shifted-byte (x / 256))

-- The bytes above the lowest are shifted down, and the lowest is divided.
divide-byte : (x : ℕ) → divide 8 x ≡ bit_xor (x / 256) (divide 8 (x % 256))
divide-byte x =
    ap (divide 8) (sym (split_byte x))
    ∙ divide-xor 8 (shifted 8 (x / 256)) (x % 256)
    ∙ ap (λ k. bit_xor k (divide 8 (x % 256))) (divide-shifted 8 (x / 256))

halved : ℕ → ℕ → ℕ
halved zero m = m
halved (suc n) m = halved n (m / 2)

halved-xor : (n a b : ℕ) → halved n (bit_xor a b) ≡ bit_xor (halved n a) (halved n b)
unfolding halved
halved-xor zero a b = refl
halved-xor (suc n) a b = ap (halved n) (xor_half a b) ∙ halved-xor n (a / 2) (b / 2)

halved-byte : (m : ℕ) → halved 8 m ≡ m / 256
unfolding halved
halved-byte m = omega arith

no_high_byte : (b : ℕ) → IsByte b → b / 256 ≡ 0
no_high_byte b h = omega arith

high_byte : (crc b : ℕ) → IsByte b → bit_xor crc b / 256 ≡ crc / 256
high_byte crc b h =
    sym (halved-byte (bit_xor crc b))
    ∙ halved-xor 8 crc b
    ∙ ap₂ bit_xor (halved-byte crc) (halved-byte b ∙ no_high_byte b h)
    ∙ xor_zero (crc / 256)

-- A step of the table is the division of a byte.
pub crc_step-divide_byte : (crc b : ℕ) → IsByte b → crc_step crc b ≡ divide_byte crc b
unfolding crc_step divide_byte
crc_step-divide_byte crc b h =
    ap (bit_xor (crc / 256)) (ap (λ j. get_or build_table j 0) (bit_and-byte (bit_xor crc b)))
    ∙ ap₂ bit_xor (sym (high_byte crc b h)) (get_or-build_table (bit_xor crc b % 256) (omega arith))
    ∙ sym (divide-byte (bit_xor crc b))
