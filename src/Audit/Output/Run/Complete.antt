-- ===== src/Audit/Output/Run/Complete.antt =====
-- audit/audit.py: what a run that ends well has printed, and what it rests on.
use gekko.Base.{ℕ, ◌*◌, Bool, ◌≡◌, inl, inr}
use gekko.Python.Errors.{ok, Result-cases}
use gekko.Python.Json.{ℤ, pos}
use gekko.Python.Integers.{sub_ℕ, minus}
use gekko.Audit.Keys.{access_logs_of, user_facing_services, downstream_services}
use gekko.Audit.Loki.{Source, default_limit}
use gekko.Audit.Issuance.{access_query, event_query}
use gekko.Audit.Login.{all_access_query, login_query}
use gekko.Audit.Report.{Config, run_checks, exit_status}
use gekko.Audit.Output.{print_query}
use gekko.Audit.Output.Laws.{outcome}
use gekko.Audit.Output.Refinement.{
  >>=-returns, print_check1-check1, print_check2-check2, print_check3-check3,
}
use gekko.Audit.Output.Quiet.{Quiet, Runs, >>=-Runs, Answered, print_query-Answered}
use gekko.Audit.Output.Bypass.{print_check1}
use gekko.Audit.Output.Issuance.{print_check2}
use gekko.Audit.Output.Login.{print_check3}
use gekko.Audit.Output.Run.{print_run, main_status}

print_check1-Answered :
    (src : Source) (start_ns end_ns : ℤ) (b : Bool)
    → Runs (print_check1 src start_ns end_ns) b
    → Answered src (access_logs_of user_facing_services) start_ns end_ns default_limit
      × Answered src (access_logs_of downstream_services) start_ns end_ns default_limit
unfolding print_check1
print_check1-Answered src start_ns end_ns b (returns, (_, quiet)) =
    let users = access_logs_of user_facing_services in
    let services = access_logs_of downstream_services in
    let (us, us_runs, rest) =
      >>=-Runs (print_query src users start_ns end_ns default_limit) _ b (returns, quiet) in
    let (ds, ds_runs, _) =
      >>=-Runs (print_query src services start_ns end_ns default_limit) _ b rest in
    (
      print_query-Answered src users start_ns end_ns default_limit us us_runs,
      print_query-Answered src services start_ns end_ns default_limit ds ds_runs,
    )

print_check2-Answered :
    (lookback_seconds : ℕ) (src : Source) (start_ns end_ns : ℤ) (b : Bool)
    → Runs (print_check2 lookback_seconds src start_ns end_ns) b
    → Answered src access_query start_ns end_ns default_limit
      × Answered src event_query
          (minus start_ns (lookback_seconds * 1000000000))
          end_ns
          default_limit
unfolding print_check2
print_check2-Answered lookback src start_ns end_ns b (returns, (_, quiet)) =
    let before = minus start_ns (lookback * 1000000000) in
    let (ds, ds_runs, rest) =
      >>=-Runs (print_query src access_query start_ns end_ns default_limit) _ b (returns, quiet) in
    let (kc, kc_runs, _) =
      >>=-Runs (print_query src event_query before end_ns default_limit) _ b rest in
    (
      print_query-Answered src access_query start_ns end_ns default_limit ds ds_runs,
      print_query-Answered src event_query before end_ns default_limit kc kc_runs,
    )

print_check3-Answered :
    (src : Source) (start_ns end_ns : ℤ) (b : Bool)
    → Runs (print_check3 src start_ns end_ns) b
    → Answered src all_access_query start_ns end_ns default_limit
      × Answered src login_query start_ns end_ns default_limit
unfolding print_check3
print_check3-Answered src start_ns end_ns b (returns, (_, quiet)) =
    let (svc, svc_runs, rest) =
      >>=-Runs (print_query src all_access_query start_ns end_ns default_limit) _ b
        (returns, quiet) in
    let (kc, kc_runs, _) =
      >>=-Runs (print_query src login_query start_ns end_ns default_limit) _ b rest in
    (
      print_query-Answered src all_access_query start_ns end_ns default_limit svc svc_runs,
      print_query-Answered src login_query start_ns end_ns default_limit kc kc_runs,
    )

-- Loki answered each of the six queries, and with fewer entries than the limit.
abbrev pub AllAnswered : Config → Source → ℕ → Type 0
AllAnswered config src now_ns =
    let start = sub_ℕ now_ns (config.window_seconds * 1000000000) in
    let before = minus start (config.exchange_lookback_seconds * 1000000000) in
    let end_ns = pos now_ns in
    (Answered src (access_logs_of user_facing_services) start end_ns default_limit
      × Answered src (access_logs_of downstream_services) start end_ns default_limit)
    × (Answered src access_query start end_ns default_limit
        × Answered src event_query before end_ns default_limit)
    × (Answered src all_access_query start end_ns default_limit
        × Answered src login_query start end_ns default_limit)

print_run-AllAnswered :
    (config : Config) (src : Source) (now_ns : ℕ) (r : Bool × Bool × Bool)
    → Runs (print_run config src now_ns) r
    → AllAnswered config src now_ns
unfolding print_run
print_run-AllAnswered config src now r (returns, (_, quiet)) =
    let start = sub_ℕ now (config.window_seconds * 1000000000) in
    let (a, first, h1) = >>=-Runs (print_check1 src start (pos now)) _ r (returns, quiet) in
    let (b, second, h2) =
      >>=-Runs (print_check2 config.exchange_lookback_seconds src start (pos now)) _ r h1 in
    let (c, third, _) = >>=-Runs (print_check3 src start (pos now)) _ r h2 in
    (
      print_check1-Answered src start (pos now) a first,
      print_check2-Answered config.exchange_lookback_seconds src start (pos now) b second,
      print_check3-Answered src start (pos now) c third,
    )

-- A run with all its output that ends has the verdicts of the checks.
pub print_run-run_checks :
    (config : Config) (src : Source) (now_ns : ℕ) (r : Bool × Bool × Bool)
    → outcome (print_run config src now_ns) ≡ ok r
    → run_checks config src now_ns ≡ ok r
unfolding print_run run_checks
print_run-run_checks config src now r h =
    let start = sub_ℕ now (config.window_seconds * 1000000000) in
    let (a, first, h1) = >>=-returns (print_check1 src start (pos now)) _ r h in
    let (b, second, h2) =
      >>=-returns (print_check2 config.exchange_lookback_seconds src start (pos now)) _ r h1 in
    let (c, third, last) = >>=-returns (print_check3 src start (pos now)) _ r h2 in
    rw
      (
        print_check1-check1 src start (pos now) a first,
        print_check2-check2 config.exchange_lookback_seconds src start (pos now) b second,
        print_check3-check3 src start (pos now) c third,
      )
      last

-- A run that ends with status 0, and that prints neither that a query has failed nor that one has
-- reached its limit, had an answer of Loki to each of the six queries, with fewer entries than the
-- limit, and its checks as such pass too.
pub main_status_complete :
    (config : Config) (src : Source) (now_ns : ℕ)
    → main_status config src now_ns ≡ 0
    → Quiet (print_run config src now_ns).0
    → (exit_status config src now_ns ≡ 0) × AllAnswered config src now_ns
unfolding exit_status
main_status_complete config src now clean quiet =
    elim (Result-cases (outcome (print_run config src now))) [
      | inr (e, failed) ↦ absurd (cc (rw failed at clean))
      | inl (r, returns) ↦ (
        rw (print_run-run_checks config src now r returns) (rw returns at clean),
        print_run-AllAnswered config src now r (returns, quiet),
      )
    ]
