-- ===== src/Audit/Output/Run.antt =====
-- audit/audit.py: `main` with all that the audit prints. The window is printed as its length; its
-- two ends are left out.
pub mod Complete
use gekko.Base.{ℕ, ◌*◌, ◌/◌, Bool, ◌&&◌}
use gekko.Python.Json.{ℤ, pos}
use gekko.Python.Integers.{sub_ℕ}
use gekko.Audit.Loki.{Source}
use gekko.Audit.Report.{Config, status_of}
use gekko.Audit.Output.{Printing, ◌>>=◌, ◌>>◌, pure, print, report_title, verdicts, conclusion}
use gekko.Audit.Output.Bypass.{print_check1}
use gekko.Audit.Output.Issuance.{print_check2}
use gekko.Audit.Output.Login.{print_check3}

-- The verdicts and the conclusion.
abbrev pub print_summary : Bool × Bool × Bool → Printing (Bool × Bool × Bool)
print_summary (first, second, third) = do
  print (verdicts first second third)
  print (conclusion (first && (second && third)))
  pure (first, second, third)

-- The run up to `sys.exit`, with the three verdicts.
unfoldable pub print_run : Config → Source → ℕ → Printing (Bool × Bool × Bool)
print_run config src now_ns = do
  let start_ns = sub_ℕ now_ns (config.window_seconds * 1000000000)
  print (report_title (config.window_seconds / 60))
  first ← print_check1 src start_ns (pos now_ns)
  second ← print_check2 config.exchange_lookback_seconds src start_ns (pos now_ns)
  third ← print_check3 src start_ns (pos now_ns)
  print_summary (first, second, third)

-- The status with which the interpreter ends.
abbrev pub main_status : Config → Source → ℕ → ℕ
main_status config src now_ns = status_of ((print_run config src now_ns).1)
