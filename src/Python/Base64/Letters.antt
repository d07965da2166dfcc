-- ===== src/Python/Base64/Letters.antt =====
-- The alphabet: a letter stands for its value, is ASCII and is neither the padding nor a dot.
use gekko.Base.{
  ℕ, ◌<◌, code, Bool, true, false, Option, none, some, ◌==◌, ◌&&◌, leb, not, ◌≡◌, refl, arith,
  ℕ_discrete,
}
use gekko.Base.Bounded.{passes, passes_lem}
use gekko.Python.Text.{nat_eq}
use gekko.Python.Base64.{letter, sextet}

abbrev is_value : Option ℕ → ℕ → Bool
is_value none i = false
is_value (some v) i = v == i

is_letter : ℕ → Bool
is_letter i =
    is_value (sextet (code (letter i))) i
    && (leb (code (letter i)) 127
        && (not (code (letter i) == b'=') && not (code (letter i) == b'.')))

letters : passes is_letter 64 ≡ true
unfolding passes is_letter letter sextet ℕ_discrete
letters = refl

pub record IsCoded (i : ℕ) : Type 0 where
  pub value : sextet (code (letter i)) ≡ some i
  pub ascii : leb (code (letter i)) 127 ≡ true
  pub no_pad : (code (letter i) == b'=') ≡ false
  pub no_dot : (code (letter i) == b'.') ≡ false

is_letter-IsCoded : (i : ℕ) → is_letter i ≡ true → IsCoded i
unfolding is_letter
is_letter-IsCoded i h = ground arith

pub letter-IsCoded : (i : ℕ) → i < 64 → IsCoded i
letter-IsCoded i h = is_letter-IsCoded i (passes_lem is_letter 64 i h letters)
