-- ===== src/Python/Floats.antt =====
-- Floats: 64-bit binary numbers that are not negative, with the operations that a division of an
-- integer and the reading of a moment take. A result is rounded to 53 binary digits, and a tie
-- goes to the even neighbour.
use gekko.Base.{ℕ, zero, suc, ◌-◌, ◌*◌, ◌/◌, ◌%◌, ◌^◌, ltb, ◌==◌, ◌&&◌, ◌||◌, if◌then◌else◌}
use gekko.Python.Text.{nat_eq}

-- n / d as an integer, the even one of two that are as near.
unfoldable pub round_div : ℕ → ℕ → ℕ
round_div n d =
    let q = n / d in
    let twice = 2 * (n % d) in if ltb d twice || (twice == d && q % 2 == 1) then suc q else q

-- The number of binary digits, up to the fuel.
unfoldable pub bits : ℕ → ℕ → ℕ
bits zero n = 0
bits (suc f) n = if n == 0 then 0 else suc (bits f (n / 2))

-- A whole number as a float, which is whole too. A number that makes sense as a time stamp has
-- far less than 128 binary digits.
unfoldable pub to_float : ℕ → ℕ
unfolding bits round_div
to_float n =
    let extra = bits 128 n - 53 in if extra == 0 then n else round_div n (2 ^ extra) * 2 ^ extra

-- mantissa / 2 ^ scale
pub record Float : Type 0 where
  pub mantissa : ℕ
  pub scale : ℕ

-- x / d of two floats that are whole: the mantissa gets 53 binary digits.
unfoldable pub quotient : ℕ → ℕ → Float
unfolding bits round_div
quotient x d =
    let scale = 106 - bits 128 (x * 2 ^ 53 / d) in
    record { mantissa = round_div (x * 2 ^ scale) d; scale = scale }
