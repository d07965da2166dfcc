-- ===== src/Audit/Clock/Tests.antt =====
-- audit/audit.py: `ts_str` at concrete times.
use gekko.Base.{String, ◌/◌, ◌%◌, ◌≡◌, ◌↔◌, refl, arith, ℕ_discrete}
use gekko.Python.Errors.{ok, raise, value_error}
use gekko.Python.Json.{pos}
use gekko.Audit.Clock.{ts_str}
use gekko.Audit.Clock.Shown.{ts_str-eq_iff}

shown_time : ts_str (pos 1700000000123456789) ≡ ok "22:13:20"
unfolding ts_str ℕ_discrete
shown_time = refl

-- The last instant of a second is shown as the next second.
rounded_up : ts_str (pos 1700000000999999900) ≡ ok "22:13:21"
unfolding ts_str ℕ_discrete
rounded_up = refl

early_time : ts_str (pos 300) ≡ ok "00:00:00"
unfolding ts_str ℕ_discrete
early_time = refl

out_of_range : ts_str (pos 253402300800000000000) ≡ raise value_error
unfolding ts_str ℕ_discrete
out_of_range = refl

-- The same second of two days.
ts_str-eq_iff_example :
    (s t : String) × (ts_str (pos 1700000000123456789) ≡ ok s)
    × (ts_str (pos 1700086400000000000) ≡ ok t)
    × ((s ≡ t)
        ↔ (1700000000123456789 / 1000000000 % 86400 ≡ 1700086400000000000 / 1000000000 % 86400))
ts_str-eq_iff_example =
    ts_str-eq_iff 1700000000123456789 1700086400000000000 (omega arith, omega arith, omega arith)
      (omega arith, omega arith, omega arith)
