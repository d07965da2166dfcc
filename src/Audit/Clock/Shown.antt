-- ===== src/Audit/Clock/Shown.antt =====
-- audit/audit.py: what two entries at different times show.
use Prim.Native.String.{char_at}
use gekko.Base.{
  String, ℕ, ◌+◌, ◌*◌, ◌/◌, ◌%◌, ◌^◌, ◌≤◌, ◌<◌, ◌≡◌, ◌↔◌, ◌∷◌, [], List, ap, ◌∙◌, sym, refl, arith,
  ltb, code, true, Bool, ℕ_discrete, ◌==◌,
}
use gekko.Base.Bounded.{passes, passes_lem}
use gekko.Python.Errors.{ok}
use gekko.Python.Json.{pos}
use gekko.Python.Text.{nat_eq, codes, codes-append}
use gekko.Audit.Clock.{clock, ts_str, end_of_time}
use gekko.Audit.Clock.Bounds.{moment-seconds}

ltb-true : (a b : ℕ) → a < b → ltb a b ≡ true
ltb-true a b less = ground arith

stands_for : ℕ → Bool
stands_for d = code (char_at "0123456789" d) == 48 + d

digits : passes stands_for 10 ≡ true
unfolding passes stands_for ℕ_discrete
digits = refl

digit-code : (d : ℕ) → d < 10 → code (char_at "0123456789" d) ≡ 48 + d
unfolding stands_for
digit-code d h = let good = passes_lem stands_for 10 d h digits in ground arith

tens-code : (n : ℕ) → n < 100 → code (char_at "0123456789" (n / 10)) ≡ 48 + n / 10
tens-code n h = digit-code (n / 10) (omega (arith, h))

ones-code : (n : ℕ) → code (char_at "0123456789" (n % 10)) ≡ 48 + n % 10
ones-code n = digit-code (n % 10) (omega arith)

-- The code points of the digits that stand for a time.
abbrev shown : ℕ → ℕ → ℕ → List ℕ
shown h m s =
    (48 + h / 10)
    ∷ (48 + h % 10)
    ∷ 58
    ∷ (48 + m / 10)
    ∷ (48 + m % 10)
    ∷ 58
    ∷ (48 + s / 10)
    ∷ (48 + s % 10)
    ∷ []

clock-codes : (s : ℕ) → codes (clock s) ≡ shown (s / 3600 % 24) (s / 60 % 60) (s % 60)
unfolding clock
clock-codes s = simp codes-append (
    rw
      (
        tens-code (s / 3600 % 24) (omega arith),
        ones-code (s / 3600 % 24),
        tens-code (s / 60 % 60) (omega arith),
        ones-code (s / 60 % 60),
        tens-code (s % 60) (omega arith),
        ones-code (s % 60),
      )
      refl)

two_equal : (a b : ℕ) → 48 + a / 10 ≡ 48 + b / 10 → 48 + a % 10 ≡ 48 + b % 10 → a ≡ b
two_equal a b tens ones = omega (arith, tens, ones)

shown-injective :
    (h m s h' m' s' : ℕ) → shown h m s ≡ shown h' m' s' → (h ≡ h') × (m ≡ m') × (s ≡ s')
shown-injective h m s h' m' s' same = (
  two_equal h h' (cc same) (cc same),
  two_equal m m' (cc same) (cc same),
  two_equal s s' (cc same) (cc same),
)

clock-eq_iff : (s t : ℕ) → (clock s ≡ clock t) ↔ (s % 86400 ≡ t % 86400)
unfolding clock
clock-eq_iff s t = (
  λ same.
      let (hours, minutes, seconds) =
        shown-injective (s / 3600 % 24) (s / 60 % 60) (s % 60) (t / 3600 % 24) (t / 60 % 60)
          (t % 60) (sym (clock-codes s) ∙ ap codes same ∙ clock-codes t) in
      omega (arith, hours, minutes, seconds),
  λ same.
      let hours : s / 3600 % 24 ≡ t / 3600 % 24 = omega (arith, same) in
      let minutes : s / 60 % 60 ≡ t / 60 % 60 = omega (arith, same) in
      let seconds : s % 60 ≡ t % 60 = omega (arith, same) in rw (hours, minutes, seconds) refl,
)

-- A time stamp of the years from 2004 to 2038, and not within 750 ns of the next second.
abbrev pub IsClear : ℕ → Type 0
IsClear ns = (2 ^ 30 * 1000000000 ≤ ns) × (ns < 2 ^ 31 * 1000000000) × (ns % 1000000000 < 999999250)

ts_str-clock : (ns : ℕ) → IsClear ns → ts_str (pos ns) ≡ ok (clock (ns / 1000000000))
unfolding ts_str
ts_str-clock ns (low, high, early) =
    let soon : ltb (ns / 1000000000) end_of_time ≡ true =
      ltb-true (ns / 1000000000) end_of_time (omega (arith, high)) in
    rw (moment-seconds ns low high early, soon) refl

-- For time stamps of the years from 2004 to 2038 that are at least 750 ns before a full second, a
-- time is shown, and two of them show the same exactly if they are in the same second of the day.
pub ts_str-eq_iff :
    (a b : ℕ)
    → IsClear a
    → IsClear b
    → (s t : String) × (ts_str (pos a) ≡ ok s)
      × (ts_str (pos b) ≡ ok t)
      × ((s ≡ t) ↔ (a / 1000000000 % 86400 ≡ b / 1000000000 % 86400))
ts_str-eq_iff a b clear clear' = (
  clock (a / 1000000000),
  clock (b / 1000000000),
  ts_str-clock a clear,
  ts_str-clock b clear',
  clock-eq_iff (a / 1000000000) (b / 1000000000),
)
