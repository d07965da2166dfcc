-- ===== src/Audit/Report/FailOpen.antt =====
-- The exit status, and a run that can read no logs.
use gekko.Base.{ℕ, ◌*◌, true, ◌≡◌, ◌↔◌, arith, string_eq}
use gekko.Python.Errors.{ok}
use gekko.Python.Json.{ℤ, pos}
use gekko.Python.Integers.{sub_ℕ}
use gekko.Audit.Loki.{Source, IsDown}
use gekko.Audit.Bypass.{check1}
use gekko.Audit.Bypass.Laws.{check1_nothing}
use gekko.Audit.Issuance.{check2}
use gekko.Audit.Issuance.Laws.{check2_nothing}
use gekko.Audit.Login.{check3}
use gekko.Audit.Login.Laws.{check3_nothing}
use gekko.Audit.Report.{Config, run_checks, exit_status}

module _ (config : Config) (src : Source) (now_ns : ℕ) where
  abbrev start : ℤ
  start = sub_ℕ now_ns (config.window_seconds * 1000000000)

  -- The exit status is 0 exactly when each of the three checks returns and passes.
  pub exit_status-zero_iff : (exit_status config src now_ns ≡ 0) ↔ (
      (check1 src start (pos now_ns) ≡ ok true)
      × (check2 config.exchange_lookback_seconds src start (pos now_ns) ≡ ok true)
      × (check3 src start (pos now_ns) ≡ ok true))
  unfolding exit_status run_checks
  exit_status-zero_iff = ground arith

  -- When every query fails, the run ends with status 0, as after an audit without findings.
  pub exit_status_unreachable : IsDown src → exit_status config src now_ns ≡ 0
  exit_status_unreachable down = exit_status-zero_iff.1 (
    check1_nothing src start (pos now_ns) down,
    check2_nothing config.exchange_lookback_seconds src start (pos now_ns) down,
    check3_nothing src start (pos now_ns) down,
  )
