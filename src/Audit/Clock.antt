-- ===== src/Audit/Clock.antt =====
-- audit/audit.py: `ts_str`, the time of the day at which an entry was written.
pub mod Bounds
pub mod Shown
pub mod Tests
use Prim.Native.String.{◌∷◌, char_at}
use gekko.Base.{ℕ, suc, ◌+◌, ◌-◌, ◌*◌, ◌/◌, ◌%◌, ◌^◌, String, leb, ltb, if◌then◌else◌}
use gekko.Python.Errors.{Result, ok, raise, value_error, outside_model}
use gekko.Python.Json.{ℤ, pos, negsuc}
use gekko.Python.Floats.{Float, round_div, to_float, quotient}
use gekko.Python.Text.{◌<>◌}

-- A moment as `datetime` keeps it: whole seconds, and microseconds.
abbrev pub Moment : Type 0
Moment = ℕ × ℕ

-- `datetime.fromtimestamp(t)`: the part after the point, times a million, is rounded, and a
-- million microseconds are a second.
unfoldable pub from_timestamp : Float → Moment
unfolding round_div to_float
from_timestamp t =
    let unit = 2 ^ t.scale in
    let seconds = t.mantissa / unit in
    let micros = round_div (to_float (t.mantissa % unit * 1000000)) unit in
    if leb 1000000 micros then (suc seconds, micros - 1000000) else (seconds, micros)

-- `datetime.fromtimestamp(ns / 1e9)`
unfoldable pub moment : ℕ → Moment
unfolding to_float quotient from_timestamp
moment ns = from_timestamp (quotient (to_float ns) 1000000000)

-- Two digits, for a number below a hundred.
unfoldable pub two_digits : ℕ → String
two_digits n = char_at "0123456789" (n / 10) ∷ char_at "0123456789" (n % 10) ∷ ""

-- `strftime("%H:%M:%S")` of a second, in UTC.
unfoldable pub clock : ℕ → String
unfolding two_digits
clock s =
    two_digits (s / 3600 % 24) <> ":" <> two_digits (s / 60 % 60) <> ":" <> two_digits (s % 60)

-- The seconds before the year 10000, which `datetime` does not reach.
abbrev pub end_of_time : ℕ
end_of_time = 253402300800

-- A time before 1970 is left out.
unfoldable pub ts_str : ℤ → Result String
unfolding moment clock
ts_str (pos ns) =
    let (seconds, micros) = moment ns in
    if ltb seconds end_of_time then ok (clock seconds) else raise value_error
ts_str (negsuc n) = raise outside_model
