-- ===== src/Core/Codec/Utf8.antt =====
-- String::from_utf8 of Rust's standard library: the well-formed byte sequences of UTF-8.
use ticktape.Base.{ℕ, Bool, true, false, ◌&&◌, List, [], ◌∷◌, leb, ltb, ◌==◌, if◌then◌else◌}

abbrev between : ℕ → ℕ → ℕ → Bool
between lo hi b = leb lo b && leb b hi

abbrev is_continuation : ℕ → Bool
is_continuation b = between 0x80 0xbf b

-- The range of the byte after a lead byte of three or four: no overlong form, no surrogate, nothing
-- above U+10FFFF.
abbrev second3 : ℕ → ℕ → Bool
second3 a b =
    if a == 0xe0
    then between 0xa0 0xbf b
    else if a == 0xed
    then between 0x80 0x9f b
    else is_continuation b

abbrev second4 : ℕ → ℕ → Bool
second4 a b =
    if a == 0xf0
    then between 0x90 0xbf b
    else if a == 0xf4
    then between 0x80 0x8f b
    else is_continuation b

-- What is left to read of a character: nothing, or continuation bytes. The first of a long form has
-- a range of its own, which depends on the lead byte.
pub data Pending : Type 0 where
  start : Pending
  one two : Pending
  after3 after4 : ℕ → Pending

lead : ℕ → Bool × Pending
lead b =
    if ltb b 0x80
    then (true, start)
    else if between 0xc2 0xdf b
    then (true, one)
    else if between 0xe0 0xef b
    then (true, after3 b)
    else if between 0xf0 0xf4 b
    then (true, after4 b)
    else (false, start)

advance : Pending → ℕ → Bool × Pending
unfolding lead
advance start b = lead b
advance one b = (is_continuation b, start)
advance two b = (is_continuation b, one)
advance (after3 a) b = (second3 a b, one)
advance (after4 a) b = (second4 a b, two)

scan : Pending → List ℕ → Bool
unfolding advance
scan start [] = true
scan p [] = false
scan p (b ∷ bs) = (advance p b).0 && scan (advance p b).1 bs

unfoldable pub is_utf8 : List ℕ → Bool
unfolding scan
is_utf8 bs = scan start bs
