-- ===== src/Audit/Clock/Bounds.antt =====
-- audit/audit.py: how near the time that `ts_str` shows is to the time stamp.
use native.Mathlib.Numerals.{unary_clauses}
use gekko.Base.{
  ℕ, zero, suc, ◌+◌, ◌-◌, ◌*◌, ◌/◌, ◌%◌, ◌^◌, ◌≤◌, ◌<◌, ◌≡◌, inl, inr, refl, arith, ap, leb, ltb,
  ◌∙◌, Bool-cases, false, ℕ_discrete,
}
use gekko.Python.Floats.{round_div, bits, to_float, quotient}
use gekko.Python.Text.{nat_eq}
use gekko.Audit.Clock.{from_timestamp, moment}

bits-eq : (f k n : ℕ) → k < f → 2 ^ k ≤ n → n < 2 ^ suc k → bits f n ≡ suc k
unfolding bits
bits-eq zero k n fuel low high = omega arith
bits-eq (suc zero) zero n fuel low high = ground arith
bits-eq (suc (suc f)) zero n fuel low high = ground arith
bits-eq (suc f) (suc k) n fuel low high =
    let power : 2 ^ suc k ≡ 2 ^ k * 2 = simp unary_clauses refl in
    let power' : 2 ^ suc (suc k) ≡ 2 ^ suc k * 2 = simp unary_clauses refl in
    let ih =
      bits-eq f k (n / 2) (omega (arith, fuel)) (omega (arith, low, power))
        (omega (arith, high, power')) in
    ground arith

bits-le : (f k n : ℕ) → n < 2 ^ k → bits f n ≤ k
unfolding bits
bits-le zero k n below = omega arith
bits-le (suc f) zero n below = ground arith
bits-le (suc f) (suc k) n below =
    let power : 2 ^ suc k ≡ 2 ^ k * 2 = simp unary_clauses refl in
    let ih = bits-le f k (n / 2) (omega (arith, below, power)) in ground arith

-- The rounded quotient times the divisor is within half a divisor of the number.
round_div-near :
    (n d : ℕ)
    → 0 < d
    → (2 * (round_div n d * d) ≤ 2 * n + d) × (2 * n ≤ 2 * (round_div n d * d) + d)
unfolding round_div
round_div-near n d some_d = grind arith

to_float-whole : (n : ℕ) → n < 2 ^ 53 → to_float n ≡ n
unfolding to_float ℕ_discrete
to_float-whole n below =
    let few : bits 128 n - 53 ≡ 0 = omega (arith, bits-le 128 53 n below) in rw few refl

to_float_low : (n : ℕ) → 2 ^ 59 ≤ n → n < 2 ^ 60 → to_float n ≡ round_div n 128 * 128
unfolding to_float ℕ_discrete
to_float_low n low high = rw (bits-eq 128 59 n (omega arith) low high) refl

to_float_high : (n : ℕ) → 2 ^ 60 ≤ n → n < 2 ^ 61 → to_float n ≡ round_div n 256 * 256
unfolding to_float ℕ_discrete
to_float_high n low high = rw (bits-eq 128 60 n (omega arith) low high) refl

quotient-eq :
    (x : ℕ)
    → 2 ^ 30 * 1000000000 ≤ x
    → x < 2 ^ 31 * 1000000000
    → quotient x 1000000000 ≡ record { mantissa = round_div (x * 2 ^ 22) 1000000000; scale = 22 }
unfolding quotient
quotient-eq x low high =
    rw
      (bits-eq 128 83 (x * 2 ^ 53 / 1000000000) (omega arith) (omega (arith, low))
        (omega (arith, high)))
      refl

-- A time stamp of the years from 2004 to 2038 is a float that is at most 128 ns above it, and not
-- below its whole seconds.
to_float-near :
    (n s : ℕ)
    → 2 ^ 30 * 1000000000 ≤ n
    → n < 2 ^ 31 * 1000000000
    → s * 1000000000 ≤ n
    → (to_float n ≤ n + 128) × (s * 1000000000 ≤ to_float n)
to_float-near n s low high whole = elim (Bool-cases (ltb n (2 ^ 60))) [
  | inl small ↦
      let (a, b) = round_div-near n 128 (omega arith) in
      rw (to_float_low n (omega (arith, low)) (ground arith))
        (omega (arith, a), omega (arith, b, whole))
  | inr big ↦
      let (a, b) = round_div-near n 256 (omega arith) in
      let large : 2 ^ 60 ≤ n = ground arith in
      rw (to_float_high n large (omega (arith, high))) (omega (arith, a), omega (arith, b, whole))
]

leb-false : (a b : ℕ) → b < a → leb a b ≡ false
leb-false a b less = ground arith

-- With 22 binary digits after the point the second is that of the number unless the last
-- microsecond is rounded up.
from_timestamp-seconds :
    (m s : ℕ)
    → s * 2 ^ 22 ≤ m
    → (m - s * 2 ^ 22) * 1000000 + 2 ^ 21 < 1000000 * 2 ^ 22
    → (from_timestamp (record { mantissa = m; scale = 22 })).0 ≡ s
unfolding from_timestamp
from_timestamp-seconds m s low high =
    let frac = m % 2 ^ 22 * 1000000 in
    let whole = to_float-whole frac (omega arith) in
    let (up, _) = round_div-near frac (2 ^ 22) (omega arith) in
    let second : m / 2 ^ 22 ≡ s = omega (arith, low, high) in
    let before : round_div frac (2 ^ 22) < 1000000 = omega (arith, low, high, up) in
    let test : leb 1000000 (round_div frac (2 ^ 22)) ≡ false =
      leb-false 1000000 (round_div frac (2 ^ 22)) before in
    rw (whole, test) second

-- The seconds are those of the time stamp, unless it is within 750 ns of the next second.
pub moment-seconds :
    (ns : ℕ)
    → 2 ^ 30 * 1000000000 ≤ ns
    → ns < 2 ^ 31 * 1000000000
    → ns % 1000000000 < 999999250
    → (moment ns).0 ≡ ns / 1000000000
unfolding moment
moment-seconds ns low high early =
    let x = to_float ns in
    let s = ns / 1000000000 in
    let (_, x_low) = to_float-near ns (2 ^ 30) low high low in
    let (above, below) = to_float-near ns s low high (omega arith) in
    let x_high : x < 2 ^ 31 * 1000000000 = omega (arith, high, early, above) in
    let (up, down) = round_div-near (x * 2 ^ 22) 1000000000 (omega arith) in
    ap (λ t. (from_timestamp t).0) (quotient-eq x x_low x_high)
    ∙ from_timestamp-seconds (round_div (x * 2 ^ 22) 1000000000) s (omega (arith, below, down))
        (omega (arith, early, above, up))
