-- ===== src/Python/Dumps/Numbers.antt =====
-- `json.dumps`: the digits of a number determine it, where something else follows them.
use Prim.Native.String.{[], ◌∷◌, char_at}
use text.Mathlib.TextEquality.{Char-path}
use gekko.Base.{
  ℕ, zero, suc, ◌/◌, ◌%◌, ◌<◌, ◌&&◌, code, String, Bool, true, false, some, List, [], ◌∷◌, ◌++◌,
  leb, ltb, ◌≡◌, refl, ap, inl, inr, arith, Bool-cases,
}
use gekko.Base.Bounded.{passes, passes_lem}
use gekko.Python.Text.{codes, decimal_fuel, decimal}
use gekko.Python.Integers.{int_of_text}
use gekko.Python.Decimal.{int_of_text-decimal}
use gekko.Python.Dumps.{digits}

abbrev pub is_digit_code : ℕ → Bool
is_digit_code c = leb b'0' c && leb c b'9'

abbrev pub AllDigits : List ℕ → Type 0
AllDigits [] = Unit
AllDigits (c ∷ cs) = (is_digit_code c ≡ true) × AllDigits cs

-- No digit comes next.
abbrev pub Ends : List ℕ → Type 0
Ends [] = Unit
Ends (c ∷ cs) = is_digit_code c ≡ false

digit_code : ℕ → Bool
digit_code d = is_digit_code (code (char_at "0123456789" d))

digit_codes : passes digit_code 10 ≡ true
unfolding passes digit_code
digit_codes = refl

digit-is_digit_code : (d : ℕ) → d < 10 → is_digit_code (code (char_at "0123456789" d)) ≡ true
unfolding digit_code
digit-is_digit_code d h = passes_lem digit_code 10 d h digit_codes

decimal_fuel-AllDigits :
    (f n : ℕ) (s : String) → AllDigits (codes s) → AllDigits (codes (decimal_fuel f n s))
unfolding decimal_fuel
decimal_fuel-AllDigits zero n s h = h
decimal_fuel-AllDigits (suc f) n s h =
    let here : AllDigits (codes (char_at "0123456789" (n % 10) ∷ s)) =
      (digit-is_digit_code (n % 10) (omega arith), h) in
    elim (Bool-cases (ltb n 10)) [
      | inl small ↦ rw small here
      | inr large ↦
          rw large (decimal_fuel-AllDigits f (n / 10) (char_at "0123456789" (n % 10) ∷ s) here)
    ]

pub digits-AllDigits : (n : ℕ) → AllDigits (digits n)
unfolding decimal
digits-AllDigits n = decimal_fuel-AllDigits (suc n) n "" tt

codes-injective : (s t : String) → codes s ≡ codes t → s ≡ t
codes-injective [] [] h = refl
codes-injective [] (d ∷ t) h = cc
codes-injective (c ∷ s) [] h = cc
codes-injective (c ∷ s) (d ∷ t) h =
    let first : c ≡ d = Char-path c d (cc h) in λ i. first i ∷ codes-injective s t (cc h) i

-- Two runs of digits that are followed by something else are equal.
runs_equal :
    (ds es r r' : List ℕ)
    → AllDigits ds
    → AllDigits es
    → Ends r
    → Ends r'
    → ds ++ r ≡ es ++ r'
    → (ds ≡ es) × (r ≡ r')
runs_equal [] [] r r' _ _ _ _ h = (refl, h)
runs_equal [] (e ∷ es) [] r' _ _ _ _ h = cc
runs_equal [] (e ∷ es) (c ∷ r) r' _ (is, _) ends _ h =
    let same : c ≡ e = cc h in absurd (cc (ap is_digit_code same, is, ends))
runs_equal (d ∷ ds) [] r [] _ _ _ _ h = cc
runs_equal (d ∷ ds) [] r (c ∷ r') (is, _) _ _ ends h =
    let same : d ≡ c = cc h in absurd (cc (ap is_digit_code same, is, ends))
runs_equal (d ∷ ds) (e ∷ es) r r' (_, all) (_, all') ends ends' h =
    let first : d ≡ e = cc h in
    let (more, rest) = runs_equal ds es r r' all all' ends ends' (cc h) in
    ((λ i. first i ∷ more i), rest)

pub digits_prefix :
    (n m : ℕ) (r r' : List ℕ)
    → Ends r
    → Ends r'
    → digits n ++ r ≡ digits m ++ r'
    → (n ≡ m) × (r ≡ r')
digits_prefix n m r r' ends ends' h =
    let (same, rest) =
      runs_equal (digits n) (digits m) r r' (digits-AllDigits n) (digits-AllDigits m) ends ends'
        h in
    let texts = codes-injective (decimal n) (decimal m) same in
    (cc (int_of_text-decimal n, int_of_text-decimal m, ap int_of_text texts), rest)

first_digit :
    (n : ℕ) (s : String)
    → int_of_text s ≡ some n
    → AllDigits (codes s)
    → (c : ℕ) × (cs : List ℕ) × (codes s ≡ c ∷ cs) × (is_digit_code c ≡ true)
unfolding int_of_text
first_digit n [] read all = cc
first_digit n (c ∷ s) read (is, _) = (code c, codes s, refl, is)

pub digits_first :
    (n : ℕ) → (c : ℕ) × (cs : List ℕ) × (digits n ≡ c ∷ cs) × (is_digit_code c ≡ true)
digits_first n = first_digit n (decimal n) (int_of_text-decimal n) (digits-AllDigits n)
