-- ===== src/Audit/Output/Total.antt =====
-- audit/audit.py: the run ends, with all that it prints, where its logs are readable, and their
-- times and services can be shown.
pub mod Bypass
pub mod Issuance
pub mod Login
pub mod Printed
use gekko.Base.{
  true, List, [], ◌∷◌, ◌++◌, ◌&&◌, ◌↔◌, ◌/◌, ap, arith, if◌then◌else◌, refl, ℕ, ◌*◌, Bool, ◌≡◌, ◌∙◌,
  sym,
}
use gekko.Python.Errors.{ok}
use gekko.Python.Json.{ℤ, pos}
use gekko.Python.Integers.{sub_ℕ}
use gekko.Audit.Loki.{Source}
use gekko.Audit.Events.Contents.{parse-total}
use gekko.Audit.Report.{Config, status_of, run_checks, exit_status}
use gekko.Audit.Report.Verdict.{Logs, Readable, Reads}
use gekko.Audit.Output.Laws.{outcome, outcome->>=, EndsWith, >>=-EndsWith}
use gekko.Audit.Output.{Line, Printing, ◌>>=◌, report_title, verdicts, conclusion}
use gekko.Audit.Output.Shown.{AreShowable}
use gekko.Audit.Output.Run.{print_run, print_summary, main_status}
use gekko.Audit.Output.Run.Complete.{print_run-run_checks}
use gekko.Audit.Output.Bypass.{print_check1}
use gekko.Audit.Output.Issuance.{print_check2}
use gekko.Audit.Output.Login.{print_check3}
use gekko.Audit.Output.Total.Bypass.{print_check1-total}
use gekko.Audit.Output.Total.Issuance.{print_check2-total}
use gekko.Audit.Output.Total.Login.{print_check3-total}

-- The entries that may be printed have times and services that can be shown.
pub record Showable (logs : Logs) : Type 0 where
  pub user_facing : AreShowable logs.user_facing
  pub downstream : AreShowable logs.downstream
  pub uses : AreShowable logs.uses
  pub accesses : AreShowable logs.accesses
  pub logins : AreShowable logs.logins

abbrev summary : Bool × Bool × Bool → List Line
summary (a, b, c) = verdicts a b c ∷ conclusion (a && (b && c)) ∷ []

clean-status_of_iff : (a b c : Bool) → ((a && (b && c)) ≡ true) ↔ (status_of (ok (a, b, c)) ≡ 0)
clean-status_of_iff a b c = ground arith

module _ (config : Config) (src : Source) (now_ns : ℕ) (logs : Logs)
    (reads : Reads config src now_ns logs) (readable : Readable logs)
    (showable : Showable logs) where
  -- The run ends, and the last it prints is its verdicts.
  print_run-total :
      (r : Bool × Bool × Bool) × (outcome (print_run config src now_ns) ≡ ok r)
      × EndsWith (summary r) (print_run config src now_ns)
  unfolding print_run
  print_run-total =
      let start = sub_ℕ now_ns (config.window_seconds * 1000000000) in
      let lookback = config.exchange_lookback_seconds in
      let (issues, parsed) = parse-total logs.events readable.events in
      let (a, first) =
        print_check1-total src start (pos now_ns) logs.user_facing logs.downstream reads.user_facing
          reads.downstream readable.user_facing readable.downstream showable.user_facing
          showable.downstream in
      let (b, second) =
        print_check2-total lookback src start (pos now_ns) logs.uses logs.events issues reads.uses
          reads.events readable.uses showable.uses parsed in
      let (c, third) =
        print_check3-total src start (pos now_ns) logs.accesses logs.logins reads.accesses
          reads.logins readable.accesses readable.logins showable.accesses showable.logins in
      let last = summary (a, b, c) in
      let k1 : Bool → Printing (Bool × Bool × Bool) = λ a.
        print_check2 lookback src start (pos now_ns) >>= λ b.
        print_check3 src start (pos now_ns) >>= λ c. print_summary (a, b, c) in
      let k2 : Bool → Printing (Bool × Bool × Bool) =
        λ b. print_check3 src start (pos now_ns) >>= λ c. print_summary (a, b, c) in
      let (before, ends) = >>=-EndsWith (print_check1 src start (pos now_ns)) k1 a last first (
        >>=-EndsWith (print_check2 lookback src start (pos now_ns)) k2 b last second (
          >>=-EndsWith (print_check3 src start (pos now_ns)) (λ c. print_summary (a, b, c)) c last
            third ([], refl))) in
      (
        (a, b, c),
        simp (outcome->>=, first, second, third) refl,
        (
          report_title (config.window_seconds / 60) ∷ before,
          ap (λ ls. report_title (config.window_seconds / 60) ∷ ls) ends,
        ),
      )

  -- On readable logs whose entries have times that can be shown, and services, the run ends with
  -- all that it prints: with the verdicts and the status that the checks as such have. Last it
  -- prints the three verdicts, and a conclusion that is clean exactly when the status is 0.
  pub print_run-returns :
      (r : Bool × Bool × Bool) × (outcome (print_run config src now_ns) ≡ ok r)
      × (run_checks config src now_ns ≡ ok r)
      × (main_status config src now_ns ≡ exit_status config src now_ns)
      × ((clean : Bool) × EndsWith
            (verdicts r.0 r.1 r.2 ∷ conclusion clean ∷ [])
            (print_run config src now_ns)
          × ((clean ≡ true) ↔ (main_status config src now_ns ≡ 0)))
  unfolding exit_status
  print_run-returns =
      let (r, returns, ends) = print_run-total in
      let judged = print_run-run_checks config src now_ns r returns in
      (
        r,
        returns,
        judged,
        rw (returns, judged) refl,
        (r.0 && (r.1 && r.2), ends, rw returns (clean-status_of_iff r.0 r.1 r.2)),
      )
