-- ===== src/Audit/Report.antt =====
-- audit/audit.py: `main`, the run of the three checks and its exit status.
pub mod FailOpen
pub mod Verdict
pub mod Detected
use gekko.Base.{ℕ, ◌*◌, Bool, true, false, ◌&&◌, if◌then◌else◌}
use gekko.Python.Errors.{Result, ok, raise, ◌>>=◌}
use gekko.Python.Json.{ℤ, pos}
use gekko.Python.Integers.{sub_ℕ}
use gekko.Audit.Loki.{Source}
use gekko.Audit.Bypass.{check1}
use gekko.Audit.Issuance.{check2}
use gekko.Audit.Login.{check3}

-- `WINDOW_SECONDS` and `EXCHANGE_LOOKBACK_SECONDS`, from the environment.
pub record Config : Type 0 where
  pub window_seconds : ℕ
  pub exchange_lookback_seconds : ℕ

-- The verdicts of the three checks, over the window that ends now.
unfoldable pub run_checks : Config → Source → ℕ → Result (Bool × Bool × Bool)
run_checks config src now_ns = do
  let start_ns = sub_ℕ now_ns (config.window_seconds * 1000000000)
  first ← check1 src start_ns (pos now_ns)
  second ← check2 config.exchange_lookback_seconds src start_ns (pos now_ns)
  third ← check3 src start_ns (pos now_ns)
  ok (first, second, third)

-- `sys.exit(0 if all(results) else 1)`; an exception ends the interpreter with status 1.
abbrev pub status_of : Result (Bool × Bool × Bool) → ℕ
status_of (ok (first, second, third)) = if first && (second && third) then 0 else 1
status_of (raise e) = 1

unfoldable pub exit_status : Config → Source → ℕ → ℕ
exit_status config src now_ns = status_of (run_checks config src now_ns)
