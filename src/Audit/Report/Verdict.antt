-- ===== src/Audit/Report/Verdict.antt =====
-- audit/audit.py: what the verdicts and the exit status say of the logs that the run reads.
use mathlib.Core.Path.{subst}
use gekko.Base.{
  ℕ, ◌*◌, String, Bool, true, List, ◌≡◌, ◌↔◌, refl, sym, ap, ◌∙◌, arith, string_eq, pair_eq,
}
use gekko.Base.Dict.{lookup}
use gekko.Python.Errors.{Result, ok, ok-injective}
use gekko.Python.Json.{ℤ, pos}
use gekko.Python.Integers.{sub_ℕ, minus, ◌≤ℤ◌}
use gekko.Audit.Keys.{access_logs_of, user_facing_services, downstream_services}
use gekko.Audit.Latest.{LastNamed}
use gekko.Audit.Loki.{Entry, Source, query_loki, default_limit}
use gekko.Audit.Bypass.{check1}
use gekko.Audit.Bypass.Laws.{HasTextJtis, Used, check1-true_iff, check1-total}
use gekko.Audit.Events.{Issue}
use gekko.Audit.Events.Contents.{Names, AreEvents, parse-total, parse-LastNamed_iff}
use gekko.Audit.Issuance.Subjects.{AllowsSubject}
use gekko.Audit.Issuance.{TokenUse, verdict2, access_query, event_query, check2}
use gekko.Audit.Issuance.Uses.{FirstUse, HasTextUses}
use gekko.Audit.Issuance.Laws.{verdict2-true_iff, verdict2-total, check2-verdict2}
use gekko.Audit.Login.{verdict3, all_access_query, login_query, check3}
use gekko.Audit.Login.Entries.{Accessed, LoggedIn, AnyEntry, NamesAccesses, NamesLogins}
use gekko.Audit.Login.Laws.{verdict3-true_iff, verdict3-total, check3-verdict3}
use gekko.Audit.Report.{Config, run_checks, exit_status, status_of}

-- What the six queries of a run return.
pub record Logs : Type 0 where
  pub user_facing : List Entry
  pub downstream : List Entry
  pub uses : List Entry
  pub events : List Entry
  pub accesses : List Entry
  pub logins : List Entry

-- No token was used in both layers.
abbrev pub NoneShared : Logs → Type 0
NoneShared logs = (s : String) → Used s logs.user_facing → ¬ Used s logs.downstream

-- The last event that names the token and the service is its issue, to the subject of the use
-- where it names one.
abbrev pub IsIssued : TokenUse → Entry → List Entry → Type 0
IsIssued key e events =
    (issue : Issue) × LastNamed Names key issue events × AllowsSubject issue.sub (lookup "sub" e)

abbrev pub AllIssued : Logs → Type 0
AllIssued logs =
    (key : TokenUse) (e : Entry) → FirstUse key e logs.uses → IsIssued key e logs.events

-- Every access of a subject that has a login has one that is not later.
abbrev pub LoggedInFirst : Logs → Type 0
LoggedInFirst logs =
    (s : String) (a l : ℤ)
    → AnyEntry (Accessed s a) logs.accesses
    → AnyEntry (LoggedIn s l) logs.logins
    → (earlier : ℤ) × AnyEntry (LoggedIn s earlier) logs.logins × (earlier ≤ℤ a)

-- The entries name tokens, subjects and times as the services and Keycloak print them.
pub record Readable (logs : Logs) : Type 0 where
  pub user_facing : HasTextJtis logs.user_facing
  pub downstream : HasTextJtis logs.downstream
  pub uses : HasTextUses logs.uses
  pub events : AreEvents logs.events
  pub accesses : NamesAccesses logs.accesses
  pub logins : NamesLogins logs.logins

-- The logs are what the queries return, over the window that ends now.
pub record Reads (config : Config) (src : Source) (now_ns : ℕ) (logs : Logs) : Type 0 where
  pub user_facing :
      query_loki src
        (access_logs_of user_facing_services)
        (sub_ℕ now_ns (config.window_seconds * 1000000000))
        (pos now_ns)
        default_limit
      ≡ ok logs.user_facing
  pub downstream :
      query_loki src
        (access_logs_of downstream_services)
        (sub_ℕ now_ns (config.window_seconds * 1000000000))
        (pos now_ns)
        default_limit
      ≡ ok logs.downstream
  pub uses :
      query_loki src access_query
        (sub_ℕ now_ns (config.window_seconds * 1000000000))
        (pos now_ns)
        default_limit
      ≡ ok logs.uses
  pub events :
      query_loki src event_query
        (minus
          (sub_ℕ now_ns (config.window_seconds * 1000000000))
          (config.exchange_lookback_seconds * 1000000000))
        (pos now_ns)
        default_limit
      ≡ ok logs.events
  pub accesses :
      query_loki src all_access_query
        (sub_ℕ now_ns (config.window_seconds * 1000000000))
        (pos now_ns)
        default_limit
      ≡ ok logs.accesses
  pub logins :
      query_loki src login_query
        (sub_ℕ now_ns (config.window_seconds * 1000000000))
        (pos now_ns)
        default_limit
      ≡ ok logs.logins

-- A result that is there, and right exactly under a condition.
abbrev Decides : Result Bool → Type 0 → Type 0
Decides r P = (passed : Bool) × (r ≡ ok passed) × ((passed ≡ true) ↔ P)

decides :
    (r : Result Bool) (P : Type 0)
    → (passed : Bool) × (r ≡ ok passed)
    → (r ≡ ok true) ↔ P
    → Decides r P
decides r P (passed, found) (to, from) =
    (passed, found, (λ h. to (found ∙ ap (λ b. ok b) h), λ p. ok-injective (sym found ∙ from p)))

verdict2-Decides :
    (logs : Logs) → Readable logs → Decides (verdict2 logs.uses logs.events) (AllIssued logs)
verdict2-Decides logs readable =
    let (issues, parsed) = parse-total logs.events readable.events in
    let (to, from) = verdict2-true_iff logs.uses logs.events issues readable.uses parsed in
    decides (verdict2 logs.uses logs.events) (AllIssued logs)
      (verdict2-total logs.uses logs.events issues readable.uses parsed)
      (
        λ h key e u.
            let (issue, found, same) = to h key e u in
            (issue, (parse-LastNamed_iff logs.events issues key issue parsed).0 found, same),
        λ h. from (λ key e u.
            let (issue, last, same) = h key e u in
            (issue, (parse-LastNamed_iff logs.events issues key issue parsed).1 last, same)),
      )

status_of-zero_iff :
    (a b c : Bool) → (status_of (ok (a, b, c)) ≡ 0) ↔ ((a ≡ true) × (b ≡ true) × (c ≡ true))
status_of-zero_iff a b c = ground arith

module _ (config : Config) (src : Source) (now_ns : ℕ) (logs : Logs)
    (reads : Reads config src now_ns logs) (readable : Readable logs) where
  abbrev start : ℤ
  start = sub_ℕ now_ns (config.window_seconds * 1000000000)

  check1-Decides : Decides (check1 src start (pos now_ns)) (NoneShared logs)
  check1-Decides =
      decides (check1 src start (pos now_ns)) (NoneShared logs)
        (check1-total src start (pos now_ns) logs.user_facing logs.downstream reads.user_facing
          reads.downstream readable.user_facing readable.downstream)
        (check1-true_iff src start (pos now_ns) logs.user_facing logs.downstream reads.user_facing
          reads.downstream readable.user_facing readable.downstream)

  check2-Decides :
      Decides (check2 config.exchange_lookback_seconds src start (pos now_ns)) (AllIssued logs)
  check2-Decides =
      subst (λ r. Decides r (AllIssued logs))
        (sym (
          check2-verdict2 config.exchange_lookback_seconds src start (pos now_ns) logs.uses
            logs.events reads.uses reads.events))
        (verdict2-Decides logs readable)

  check3-Decides : Decides (check3 src start (pos now_ns)) (LoggedInFirst logs)
  check3-Decides =
      subst (λ r. Decides r (LoggedInFirst logs))
        (sym (
          check3-verdict3 src start (pos now_ns) logs.accesses logs.logins reads.accesses
            reads.logins))
        (decides (verdict3 logs.accesses logs.logins) (LoggedInFirst logs)
          (verdict3-total logs.accesses logs.logins readable.accesses readable.logins)
          (verdict3-true_iff logs.accesses logs.logins readable.accesses readable.logins))

  -- On readable logs the run ends with three verdicts and without an exception. The first is
  -- positive exactly when no token was used in both layers, the second exactly when the first use
  -- of each token at each service was issued for it by the last event that names both, and the
  -- third exactly when every access of a subject with a login has one that is not later.
  pub run_checks-total :
      (first second third : Bool) × (run_checks config src now_ns ≡ ok (first, second, third))
      × ((first ≡ true) ↔ NoneShared logs)
      × ((second ≡ true) ↔ AllIssued logs)
      × ((third ≡ true) ↔ LoggedInFirst logs)
  unfolding run_checks
  run_checks-total =
      let (a, a_ok, a_iff) = check1-Decides in
      let (b, b_ok, b_iff) = check2-Decides in
      let (c, c_ok, c_iff) = check3-Decides in
      (a, b, c, rw (a_ok, b_ok, c_ok) refl, a_iff, b_iff, c_iff)

  -- On readable logs the exit status is 0 exactly when no token was used in both layers, the first
  -- use of each token at each service was issued for it by the last event that names both, and
  -- every access of a subject with a login has one that is not later.
  pub exit_status-clean_iff :
      (exit_status config src now_ns ≡ 0) ↔ (NoneShared logs × AllIssued logs × LoggedInFirst logs)
  unfolding exit_status
  exit_status-clean_iff =
      let (a, b, c, done, a_iff, b_iff, c_iff) = run_checks-total in
      let (to, from) = status_of-zero_iff a b c in
      rw done (
        λ h. let (p, q, r) = to h in (a_iff.0 p, b_iff.0 q, c_iff.0 r),
        λ (p, q, r). from (a_iff.1 p, b_iff.1 q, c_iff.1 r),
      )
