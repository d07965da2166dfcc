-- ===== src/Python/Decimal.antt =====
-- `str` of a number and `int` of its digits.
use Prim.Native.String.{[], ◌∷◌, char_at}
use gekko.Base.{
  ℕ, zero, suc, ◌+◌, ◌-◌, ◌*◌, ◌/◌, ◌%◌, ◌<◌, code, Char, String, Bool, true, some, ◌==◌, ◌&&◌, ltb,
  ◌≡◌, refl, ap, ◌∙◌, inl, inr, arith, ℕ_discrete, Bool-cases,
}
use gekko.Base.Bounded.{passes, passes_lem}
use gekko.Python.Text.{nat_eq, text_length, decimal_fuel, decimal}
use gekko.Python.Integers.{is_digit, digits_from, int_of_text}

abbrev digit : ℕ → Char
digit d = char_at "0123456789" d

stands_for : ℕ → Bool
stands_for d = is_digit (digit d) && (code (digit d) - b'0' == d)

digits : passes stands_for 10 ≡ true
unfolding passes stands_for is_digit ℕ_discrete
digits = refl

digits_from-digit :
    (acc d : ℕ) (s : String) → d < 10 → digits_from acc (digit d ∷ s) ≡ digits_from (acc * 10 + d) s
unfolding digits_from stands_for
digits_from-digit acc d s h =
    let good = passes_lem stands_for 10 d h digits in
    let is : is_digit (digit d) ≡ true = ground arith in
    let value : code (digit d) - 48 ≡ d = ground arith in rw (is, value) refl

digits_from-decimal_fuel :
    (f n : ℕ) (s : String) → n < f → digits_from 0 (decimal_fuel f n s) ≡ digits_from n s
unfolding decimal_fuel
digits_from-decimal_fuel zero n s h = absurd (omega (arith, h))
digits_from-decimal_fuel (suc f) n s h = elim (Bool-cases (ltb n 10)) [
  | inl small ↦
      rw small
        (digits_from-digit 0 (n % 10) s (omega arith) ∙ ap (λ m. digits_from m s) (ground arith))
  | inr large ↦ rw large (
      digits_from-decimal_fuel f (n / 10) (digit (n % 10) ∷ s) (ground arith)
      ∙ digits_from-digit (n / 10) (n % 10) s (omega arith)
      ∙ ap (λ m. digits_from m s) (omega arith))
]

nonempty : (f n : ℕ) (c : Char) (s : String) → 0 < text_length (decimal_fuel f n (c ∷ s))
unfolding decimal_fuel
nonempty zero n c s = omega arith
nonempty (suc f) n c s = elim (Bool-cases (ltb n 10)) [
  | inl small ↦ rw small (omega arith)
  | inr large ↦ rw large (nonempty f (n / 10) (digit (n % 10)) (c ∷ s))
]

int_of_text-digits_from : (s : String) → 0 < text_length s → int_of_text s ≡ digits_from 0 s
unfolding int_of_text
int_of_text-digits_from [] h = absurd (omega (arith, h))
int_of_text-digits_from (c ∷ s) h = refl

decimal-nonempty : (n : ℕ) → 0 < text_length (decimal n)
unfolding decimal
decimal-nonempty n = elim (Bool-cases (ltb n 10)) [
  | inl small ↦ rw small (omega arith)
  | inr large ↦ rw large (nonempty n (n / 10) (digit (n % 10)) "")
]

-- The digits of a number are read as that number.
pub int_of_text-decimal : (n : ℕ) → int_of_text (decimal n) ≡ some n
unfolding decimal digits_from
int_of_text-decimal n =
    int_of_text-digits_from (decimal n) (decimal-nonempty n)
    ∙ digits_from-decimal_fuel (suc n) n "" (omega arith)
