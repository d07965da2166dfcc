-- ===== src/Python/Dumps/Escapes.antt =====
-- `json.dumps`: an escaped character can be read back, whatever follows it.
use Prim.Native.Char.{char}
use gekko.Base.{
  ℕ, ◌+◌, ◌-◌, ◌*◌, ◌/◌, ◌%◌, ◌<◌, ◌≤◌, code, Char, Bool, true, false, Option, none, some, List, [],
  ◌∷◌, ◌++◌, ◌==◌, ◌&&◌, leb, ltb, if◌then◌else◌, ◌≡◌, ◌≢◌, ◌⊎◌, inl, inr, refl, ap, ◌∙◌, arith,
  ℕ_discrete, Bool-cases,
}
use mathlib.Core.List.{append_assoc}
use gekko.Python.Text.{nat_eq}
use gekko.Python.Dumps.{hex_digit, unicode_escape, escape}

-- Characters are no surrogates.
abbrev pub Scalar : ℕ → Type 0
Scalar n = (n < 55296) ⊎ ((57343 < n) × (n < 1114112))

pub code-Scalar : (c : Char) → Scalar (code c)
code-Scalar (char n p) = ground arith

-- The value of a digit in base sixteen, and of four of them.
abbrev hex_value : ℕ → ℕ
hex_value c = if ltb c 58 then c - 48 else c - 87

abbrev quad : ℕ → ℕ → ℕ → ℕ → ℕ
quad a b c d = hex_value a * 4096 + hex_value b * 256 + hex_value c * 16 + hex_value d

hex_value-hex_digit : (d : ℕ) → d < 16 → hex_value (hex_digit d) ≡ d
hex_value-hex_digit d h = ground arith

quad-unicode_escape :
    (n : ℕ)
    → n < 65536
    → quad
        (hex_digit (n / 4096 % 16))
        (hex_digit (n / 256 % 16))
        (hex_digit (n / 16 % 16))
        (hex_digit (n % 16))
      ≡ n
quad-unicode_escape n h =
    let a = hex_value-hex_digit (n / 4096 % 16) (omega arith) in
    let b = hex_value-hex_digit (n / 256 % 16) (omega arith) in
    let c = hex_value-hex_digit (n / 16 % 16) (omega arith) in
    let d = hex_value-hex_digit (n % 16) (omega arith) in rw (a, b, c, d) (omega (arith, h))

-- What stands behind a backslash, apart from `\u`.
abbrev plain : ℕ → ℕ
plain c =
    if c == b'n'
    then 10
    else if c == b'r'
    then 13
    else if c == b't'
    then 9
    else if c == b'f'
    then 12
    else if c == b'b'
    then 8
    else c

-- The second half of a pair of surrogates.
abbrev low_half : ℕ → List ℕ → ℕ × List ℕ
low_half high (_ ∷ _ ∷ a ∷ b ∷ c ∷ d ∷ rest) =
    (65536 + (high - 55296) * 1024 + (quad a b c d - 56320), rest)
low_half high rest = (high, rest)

abbrev is_high : ℕ → Bool
is_high n = leb 55296 n && ltb n 56320

abbrev after_u : List ℕ → Option (ℕ × List ℕ)
after_u (a ∷ b ∷ c ∷ d ∷ rest) =
    let n = quad a b c d in some (if is_high n then low_half n rest else (n, rest))
after_u _ = none

abbrev after_backslash : List ℕ → Option (ℕ × List ℕ)
after_backslash [] = none
after_backslash (c ∷ rest) = if c == b'u' then after_u rest else some (plain c, rest)

-- The first character of an escaped text, and what follows; the text ends with a quotation mark.
unfoldable pub unescape : List ℕ → Option (ℕ × List ℕ)
unfolding ℕ_discrete
unescape [] = none
unescape (c ∷ rest) =
    if c == 34 then none else if c == 92 then after_backslash rest else some (c, rest)

unescape-unicode_escape :
    (n : ℕ) (rest : List ℕ)
    → n < 65536
    → unescape (unicode_escape n ++ rest) ≡ some (if is_high n then low_half n rest else (n, rest))
unfolding unescape ℕ_discrete
unescape-unicode_escape n rest h =
    ap (λ m. some (if is_high m then low_half m rest else (m, rest))) (quad-unicode_escape n h)

pair_unescaped :
    (n : ℕ) (rest : List ℕ)
    → 65536 ≤ n
    → n < 1114112
    → unescape (
        (unicode_escape (55296 + (n - 65536) / 1024 % 1024)
          ++ unicode_escape (56320 + (n - 65536) % 1024))
        ++ rest)
      ≡ some (n, rest)
pair_unescaped n rest h k =
    let high = 55296 + (n - 65536) / 1024 % 1024 in
    let low = 56320 + (n - 65536) % 1024 in
    let is : is_high high ≡ true = ground arith in
    ap unescape (append_assoc (unicode_escape high) (unicode_escape low) rest)
    ∙ unescape-unicode_escape high (unicode_escape low ++ rest) (omega arith)
    ∙ ap
        (λ b. some (
          if b
          then low_half high (unicode_escape low ++ rest)
          else (high, unicode_escape low ++ rest)))
        is
    ∙ ap (λ l. some (65536 + (high - 55296) * 1024 + (l - 56320), rest))
        (quad-unicode_escape low (omega arith))
    ∙ ap (λ m. some (m, rest)) (omega (arith, h, k))

other_than : (c k : ℕ) → c ≢ k → (c == k) ≡ false
unfolding ℕ_discrete
other_than c k h = ground arith

-- The part of `escape` behind the characters with short escapes.
abbrev pub long_escape : ℕ → List ℕ
long_escape c =
    if leb 32 c && leb c 126
    then c ∷ []
    else if ltb c 65536
    then unicode_escape c
    else unicode_escape (55296 + (c - 65536) / 1024 % 1024)
      ++ unicode_escape (56320 + (c - 65536) % 1024)

unescape-long_escape :
    (c : ℕ) (rest : List ℕ)
    → Scalar c
    → c ≢ 34
    → c ≢ 92
    → unescape (long_escape c ++ rest) ≡ some (c, rest)
unfolding unescape ℕ_discrete
unescape-long_escape c rest s q b = elim (Bool-cases (leb 32 c && leb c 126)) [
  | inl shown ↦ rw (shown, other_than c 34 q, other_than c 92 b) refl
  | inr hidden ↦ elim (Bool-cases (ltb c 65536)) [
    | inl low ↦
        let no_pair : is_high c ≡ false = ground arith in
        rw (hidden, low)
          (unescape-unicode_escape c rest (ground arith)
            ∙ ap (λ t. some (if t then low_half c rest else (c, rest))) no_pair)
    | inr large ↦ rw (hidden, large) (pair_unescaped c rest (ground arith) (ground arith))
  ]
]

-- A backslash with one character behind it.
abbrev pub IsShort : ℕ → Type 0
IsShort c = (d : ℕ) × (escape c ≡ 92 ∷ d ∷ []) × ((32 ≤ d) × (d ≤ 126)) × (d ≢ b'u') × (plain d ≡ c)

short :
    (c d : ℕ) → escape c ≡ 92 ∷ d ∷ [] → (32 ≤ d) × (d ≤ 126) → d ≢ b'u' → plain d ≡ c → IsShort c
short c d e p u v = (d, e, p, u, v)

pub escape_shapes : (c : ℕ) → IsShort c ⊎ ((c ≢ 34) × (c ≢ 92) × (escape c ≡ long_escape c))
unfolding escape ℕ_discrete
escape_shapes c = elim (ℕ_discrete c 34) [
  | yes p ↦ inl (rw p (short 34 34 refl (omega arith) (omega arith) refl))
  | no q ↦ elim (ℕ_discrete c 92) [
    | yes p ↦ inl (rw p (short 92 92 refl (omega arith) (omega arith) refl))
    | no b ↦ elim (ℕ_discrete c 10) [
      | yes p ↦ inl (rw p (short 10 110 refl (omega arith) (omega arith) refl))
      | no n ↦ elim (ℕ_discrete c 13) [
        | yes p ↦ inl (rw p (short 13 114 refl (omega arith) (omega arith) refl))
        | no r ↦ elim (ℕ_discrete c 9) [
          | yes p ↦ inl (rw p (short 9 116 refl (omega arith) (omega arith) refl))
          | no t ↦ elim (ℕ_discrete c 12) [
            | yes p ↦ inl (rw p (short 12 102 refl (omega arith) (omega arith) refl))
            | no f ↦ elim (ℕ_discrete c 8) [
              | yes p ↦ inl (rw p (short 8 98 refl (omega arith) (omega arith) refl))
              | no back ↦ inr (
                q,
                b,
                rw
                    (
                      escape,
                      other_than c 34 q,
                      other_than c 92 b,
                      other_than c 10 n,
                      other_than c 13 r,
                      other_than c 9 t,
                      other_than c 12 f,
                      other_than c 8 back,
                    )
                    refl,
              )
            ]
          ]
        ]
      ]
    ]
  ]
]

-- An escaped character reads as itself.
pub unescape-escape :
    (c : ℕ) (rest : List ℕ) → Scalar c → unescape (escape c ++ rest) ≡ some (c, rest)
unfolding unescape ℕ_discrete
unescape-escape c rest s = elim (escape_shapes c) [
  | inl (d, shape, _, no_u, same) ↦
      ap (λ l. unescape (l ++ rest)) shape
      ∙ rw (other_than d b'u' no_u) (ap (λ k. some (k, rest)) same)
  | inr (q, b, long) ↦ ap (λ l. unescape (l ++ rest)) long ∙ unescape-long_escape c rest s q b
]
