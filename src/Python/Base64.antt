-- ===== src/Python/Base64.antt =====
-- The base64 codec of Python's standard library, with the alphabet that is safe in URLs.
pub mod Letters
pub mod Roundtrip
pub mod Errors
use Prim.Native.String.{[], ◌∷◌, char_at}
use gekko.Base.{
  ℕ, suc, ◌+◌, ◌-◌, ◌*◌, ◌/◌, ◌%◌, Char, String, Bool, true, false, Option, none, some, List, [],
  ◌∷◌, ◌==◌, ◌&&◌, leb, if◌then◌else◌, ℕ_discrete,
}
use gekko.Python.Errors.{Result, ok, raise, value_error, ◌>>=◌}
use gekko.Python.Text.{nat_eq, codes}

abbrev alphabet : String
alphabet = "ABCDEFGHIJKLMNOPQRSTUVWXYZabcdefghijklmnopqrstuvwxyz0123456789-_"

pub letter : ℕ → Char
letter i = char_at alphabet i

-- The value of a character. `urlsafe_b64decode` turns `-` and `_` into `+` and `/`, which
-- are thus accepted as well.
pub sextet : ℕ → Option ℕ
unfolding ℕ_discrete
sextet c =
    if leb b'A' c && leb c b'Z'
    then some (c - 65)
    else if leb b'a' c && leb c b'z'
    then some (c - 71)
    else if leb b'0' c && leb c b'9'
    then some (c + 4)
    else if c == b'-'
    then some 62
    else if c == b'+'
    then some 62
    else if c == b'_'
    then some 63
    else if c == b'/'
    then some 63
    else none

-- `urlsafe_b64encode`, padded with `=`.
unfoldable pub encode : List ℕ → String
unfolding letter
encode [] = ""
encode (a ∷ []) = letter (a / 4) ∷ letter (a % 4 * 16) ∷ "=="
encode (a ∷ b ∷ []) = letter (a / 4) ∷ letter (a % 4 * 16 + b / 16) ∷ letter (b % 16 * 4) ∷ "="
encode (a ∷ b ∷ c ∷ rest) =
    letter (a / 4)
    ∷ letter (a % 4 * 16 + b / 16)
    ∷ letter (b % 16 * 4 + c / 64)
    ∷ letter (c % 64)
    ∷ encode rest

-- The characters read since the last full group of four, with the bits that are left over.
pub data Pending : Type 0 where
  zero_read : Pending
  one_read two_read three_read : ℕ → Pending

abbrev next : Pending → ℕ → Pending
next zero_read v = one_read v
next (one_read l) v = two_read (v % 16)
next (two_read l) v = three_read (v % 4)
next (three_read l) v = zero_read

abbrev output : Pending → ℕ → Result (List ℕ) → Result (List ℕ)
output zero_read v rest = rest
output (one_read l) v rest = rest >>= λ bs. ok ((l * 4 + v / 16) ∷ bs)
output (two_read l) v rest = rest >>= λ bs. ok ((l * 16 + v / 4) ∷ bs)
output (three_read l) v rest = rest >>= λ bs. ok ((l * 64 + v) ∷ bs)

-- The end of the input in the middle of a group is an error.
abbrev finish : Pending → Result (List ℕ)
finish zero_read = ok []
finish _ = raise value_error

-- A run of `=` that fills the group up ends the input. `pads` counts the run so far.
abbrev filled : Pending → ℕ → Bool
filled (two_read _) (suc _) = true
filled (three_read _) _ = true
filled _ _ = false

-- `binascii.a2b_base64` without strict mode: characters outside the alphabet are skipped.
scan : Pending → ℕ → List ℕ → Result (List ℕ)
scan p pads [] = finish p
scan p pads (c ∷ cs) = elim (c == b'=') [
  | true ↦ elim (filled p pads) [ true ↦ ok [] | false ↦ scan p (suc pads) cs ]
  | false ↦ elim (sextet c) [ none ↦ scan p pads cs | some v ↦ output p v (scan (next p v) 0 cs) ]
]

is_ascii : List ℕ → Bool
is_ascii [] = true
is_ascii (c ∷ cs) = leb c 127 && is_ascii cs

-- `urlsafe_b64decode`
unfoldable pub decode : String → Result (List ℕ)
unfolding scan is_ascii sextet
decode s = if is_ascii (codes s) then scan zero_read 0 (codes s) else raise value_error
