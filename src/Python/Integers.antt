-- ===== src/Python/Integers.antt =====
-- Python's integers: differences, comparison and `int` of a text.
use Prim.Native.String.{[], ◌∷◌}
use gekko.Base.{
  ℕ, suc, ◌+◌, ◌-◌, ◌*◌, ◌≤◌, ◌<◌, Char, code, String, Bool, Option, none, some, leb, ltb, ◌&&◌,
  if◌then◌else◌,
}
use gekko.Python.Json.{ℤ, pos, negsuc}

-- a - b for natural numbers, as an integer.
abbrev pub sub_ℕ : ℕ → ℕ → ℤ
sub_ℕ a b = if leb b a then pos (a - b) else negsuc (b - a - 1)

-- z - n
abbrev pub minus : ℤ → ℕ → ℤ
minus (pos a) n = sub_ℕ a n
minus (negsuc a) n = negsuc (a + n)

abbrev pub pos_part : ℤ → ℕ
pos_part (pos n) = n
pos_part (negsuc n) = 0

abbrev pub neg_part : ℤ → ℕ
neg_part (pos n) = 0
neg_part (negsuc n) = suc n

infix 50 ◌<ℤ◌ ◌≤ℤ◌
abbrev pub ◌<ℤ◌ : ℤ → ℤ → Type 0
a <ℤ b = pos_part a + neg_part b < pos_part b + neg_part a

abbrev pub ◌≤ℤ◌ : ℤ → ℤ → Type 0
a ≤ℤ b = pos_part a + neg_part b ≤ pos_part b + neg_part a

abbrev pub ltb_ℤ : ℤ → ℤ → Bool
ltb_ℤ a b = ltb (pos_part a + neg_part b) (pos_part b + neg_part a)

unfoldable pub is_digit : Char → Bool
is_digit c = leb b'0' (code c) && leb (code c) b'9'

unfoldable pub digits_from : ℕ → String → Option ℕ
digits_from acc [] = some acc
digits_from acc (c ∷ s) =
    let more = digits_from (acc * 10 + (code c - b'0')) s in if is_digit c then more else none

-- `int(text)` for the decimal digits that a time stamp consists of; `none` is a `ValueError`.
unfoldable pub int_of_text : String → Option ℕ
unfolding digits_from is_digit
int_of_text [] = none
int_of_text (c ∷ s) = digits_from 0 (c ∷ s)
