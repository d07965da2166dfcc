-- ===== src/EmployeeService/Employee/Trace.antt =====
-- employee-service/main.py: the trace id in the access log.
use Prim.Native.String.{[], ◌∷◌, char_at}
use native.Mathlib.Numerals.{unary_clauses}
use gekko.Base.{
  ℕ, zero, suc, ◌+◌, ◌-◌, ◌*◌, ◌/◌, ◌%◌, ◌^◌, ◌<◌, code, Char, String, Bool, true, false, Option,
  none, some, [], ◌∷◌, ◌==◌, ◌&&◌, if◌then◌else◌, leb, ◌≡◌, refl, sym, ap, ◌∙◌, arith, string_eq,
  ℕ_discrete,
}
use gekko.Base.Bounded.{passes, passes_lem}
use gekko.Python.Errors.{Result, ok, raise}
use gekko.Python.Text.{nat_eq, text_length}
use gekko.EmployeeService.Request.{Request, Libraries}
use gekko.EmployeeService.Employee.{
  App, Response, endpoint, AccessLog, Readings, hex_digits, trace_text, serve, log_entry,
  access_log_middleware,
}
use gekko.EmployeeService.Auth.{RequestState, fresh_state}

-- The value of a digit in base sixteen,
abbrev digit : ℕ → Option ℕ
digit c =
    if leb b'0' c && leb c b'9'
    then some (c - 48)
    else if leb b'a' c && leb c b'f'
    then some (c - 87)
    else none

-- and that of a text of such digits, behind those that are read already.
unfoldable pub from_hex : ℕ → String → Option ℕ
from_hex v [] = some v
from_hex v (c ∷ s) = elim (digit (code c)) [ none ↦ none | some d ↦ from_hex (16 * v + d) s ]

abbrev hex : ℕ → Char
hex d = char_at "0123456789abcdef" d

abbrev is_digit : ℕ → Bool
is_digit d = elim (digit (code (hex d))) [ none ↦ false | some v ↦ v == d ]

digits : passes is_digit 16 ≡ true
unfolding passes ℕ_discrete
digits = refl

digit-hex : (d : ℕ) → d < 16 → digit (code (hex d)) ≡ some d
digit-hex d h = let good = passes_lem is_digit 16 d h digits in ground arith

from_hex-cons :
    (v d : ℕ) (c : Char) (s : String)
    → digit (code c) ≡ some d
    → from_hex v (c ∷ s) ≡ from_hex (16 * v + d) s
unfolding from_hex
from_hex-cons v d c s h = rw (from_hex, h) refl

from_hex-hex_digits :
    (k n : ℕ) (acc : String) → n < 16 ^ k → from_hex 0 (hex_digits k n acc) ≡ from_hex n acc
unfolding hex_digits
from_hex-hex_digits zero n acc h =
    let none_left : n ≡ 0 = omega (arith, h) in ap (λ m. from_hex m acc) (sym none_left)
from_hex-hex_digits (suc k) n acc h =
    let power : 16 ^ suc k ≡ 16 ^ k * 16 = simp unary_clauses refl in
    from_hex-hex_digits k (n / 16) (hex (n % 16) ∷ acc) (omega (arith, h, power))
    ∙ from_hex-cons (n / 16) (n % 16) (hex (n % 16)) acc (digit-hex (n % 16) (omega arith))
    ∙ ap (λ m. from_hex m acc) (omega arith)

length-hex_digits :
    (k n : ℕ) (acc : String) → text_length (hex_digits k n acc) ≡ k + text_length acc
unfolding hex_digits
length-hex_digits zero n acc = omega arith
length-hex_digits (suc k) n acc = length-hex_digits k (n / 16) (hex (n % 16) ∷ acc) ∙ omega arith

module _ (L : Libraries) (app : App) (req : Request) (r : Readings) where
  middleware-trace :
      (x : Result Response) (s : RequestState) (entry : AccessLog)
      → (access_log_middleware L app req r (x, s)).0 ≡ entry ∷ []
      → entry.trace_id ≡ trace_text r.trace
  unfolding access_log_middleware log_entry
  middleware-trace (ok answer) s entry h = ground arith
  middleware-trace (raise e) s entry h = cc

  -- The line of a request in a valid span has the id of its trace as 32 digits in base sixteen.
  pub serve-trace_id :
      (entry : AccessLog) (trace_id : ℕ)
      → (serve L app req r).0 ≡ entry ∷ []
      → r.trace ≡ some trace_id
      → trace_id < 2 ^ 128
      → (text_length entry.trace_id ≡ 32) × (from_hex 0 entry.trace_id ≡ some trace_id)
  unfolding serve trace_text from_hex
  serve-trace_id entry trace_id logged valid below =
      let (x, s) = endpoint L app (app.route req) req r.now fresh_state in
      let traced : entry.trace_id ≡ hex_digits 32 trace_id "" =
        middleware-trace x s entry logged ∙ ap trace_text valid in
      rw traced
        (length-hex_digits 32 trace_id "" ∙ omega arith, from_hex-hex_digits 32 trace_id "" below)
