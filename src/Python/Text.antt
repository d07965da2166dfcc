-- ===== src/Python/Text.antt =====
-- Texts: `str.partition`, `str.split`, `in` and what the regular expressions are made of.
use Prim.Native.String
use Prim.Native.String.{[], ◌∷◌, char_at}
use text.Mathlib.TextLemmas.{nil-append, cons-append}
use gekko.Base.{
  ℕ, zero, suc, ◌+◌, ◌/◌, ◌%◌, ◌≤◌, ltb, Char, code, String, Bool, true, false, ◌||◌, List, [], ◌∷◌,
  ◌++◌, ◌≡◌, ap, arith, Eq, ◌==◌, if◌then◌else◌, ℕ_discrete,
}

instance abbrev pub nat_eq : Eq ℕ
nat_eq = record { dec = ℕ_discrete }

abbrev pub ◌<>◌ : String → String → String
◌<>◌ = String.◌++◌

infixr 65 ◌<>◌
-- The code points of a text.
abbrev pub codes : String → List ℕ
codes [] = []
codes (c ∷ s) = code c ∷ codes s

-- `len(s)`
abbrev pub text_length : String → ℕ
text_length [] = 0
text_length (c ∷ s) = suc (text_length s)

abbrev pub is_empty : String → Bool
is_empty [] = true
is_empty (c ∷ s) = false

-- `"=" * n` and the like
abbrev pub repeat : Char → ℕ → String
repeat c zero = ""
repeat c (suc n) = c ∷ repeat c n

pub codes-append : (s t : String) → codes (s <> t) ≡ codes s ++ codes t
codes-append [] t = rw nil-append
codes-append (c ∷ s) t = rw cons-append (ap (◌∷◌ (code c)) (codes-append s t))

pub text_length-append : (s t : String) → text_length (s <> t) ≡ text_length s + text_length t
text_length-append [] t = rw nil-append (omega arith)
text_length-append (c ∷ s) t = rw cons-append (omega (arith, text_length-append s t))

abbrev pub keep_first : Char → String × String → String × String
keep_first c (before, after) = (c ∷ before, after)

-- The text before the first `sep` and the text after it: `partition` without the separator.
unfoldable pub partition : ℕ → String → String × String
unfolding ℕ_discrete
partition sep [] = ("", "")
partition sep (c ∷ s) = if code c == sep then ("", s) else keep_first c (partition sep s)

abbrev on_head : Char → List String → List String
on_head c [] = (c ∷ []) ∷ []
on_head c (part ∷ parts) = (c ∷ part) ∷ parts

-- `s.split(sep)` for a separator of one character.
unfoldable pub split : ℕ → String → List String
unfolding ℕ_discrete
split sep [] = "" ∷ []
split sep (c ∷ s) = let parts = split sep s in if code c == sep then "" ∷ parts else on_head c parts

-- The character does not stand in the text.
abbrev pub Lacks : ℕ → String → Type 0
Lacks sep [] = Unit
Lacks sep (c ∷ s) = ((code c == sep) ≡ false) × Lacks sep s

pub split-append :
    (sep : ℕ) (c : Char) (s t : String)
    → Lacks sep s
    → (code c == sep) ≡ true
    → split sep (s <> (c ∷ t)) ≡ s ∷ split sep t
unfolding split
split-append sep c [] t _ same = rw (nil-append, split, same)
split-append sep c (d ∷ s) t (other, more) same =
    rw (cons-append, other) (ap (on_head d) (split-append sep c s t more same))

-- The text begins with `t`.
unfoldable pub begins_with : String → String → Bool
unfolding ℕ_discrete
begins_with [] s = true
begins_with (d ∷ t) [] = false
begins_with (d ∷ t) (c ∷ s) = if code d == code c then begins_with t s else false

-- `t in s`
unfoldable pub is_infix : String → String → Bool
unfolding begins_with
is_infix t [] = begins_with t []
is_infix t (c ∷ s) = begins_with t (c ∷ s) || is_infix t s

-- `s[:n]`
abbrev pub take : ℕ → String → String
take n [] = []
take zero (c ∷ s) = []
take (suc n) (c ∷ s) = c ∷ take n s

pub take_bounds :
    (n : ℕ) (s : String) → (text_length (take n s) ≤ n) × (text_length (take n s) ≤ text_length s)
take_bounds n [] = omega arith
take_bounds zero (c ∷ s) = omega arith
take_bounds (suc n) (c ∷ s) = omega (arith, take_bounds n s)

-- The digits of a number in front of a text; a number has fewer digits than itself plus one.
unfoldable pub decimal_fuel : ℕ → ℕ → String → String
decimal_fuel zero n s = s
decimal_fuel (suc f) n s =
    let here : String = char_at "0123456789" (n % 10) ∷ s in
    let more = decimal_fuel f (n / 10) here in if ltb n 10 then here else more

-- `str(n)`
unfoldable pub decimal : ℕ → String
unfolding decimal_fuel
decimal n = decimal_fuel (suc n) n ""
