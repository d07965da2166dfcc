-- ===== src/Audit/Report/Detected.antt =====
-- audit/audit.py: the exit status after the use of a token that no event names.
use gekko.Base.{ℕ, ◌*◌, false, none, ◌≡◌, inl, inr, arith, string_eq, pair_eq, Option-cases}
use gekko.Base.Dict.{lookup}
use gekko.Python.Errors.{ok}
use gekko.Python.Json.{pos}
use gekko.Python.Integers.{sub_ℕ}
use gekko.Audit.Latest.{NeverNamed, NeverNamed-LastNamed}
use gekko.Audit.Loki.{Source}
use gekko.Audit.Events.Contents.{Names, parse-total, parse-LastNamed_iff}
use gekko.Audit.Issuance.{TokenUse, check2}
use gekko.Audit.Issuance.Uses.{UsedToken}
use gekko.Audit.Issuance.Unissued.{check2_unissued}
use gekko.Audit.Report.{Config, run_checks, exit_status}
use gekko.Audit.Report.Verdict.{Logs, Readable, Reads}

-- Whatever the other checks do.
exit_status-check2 :
    (config : Config) (src : Source) (now_ns : ℕ)
    → check2 config.exchange_lookback_seconds src
        (sub_ℕ now_ns (config.window_seconds * 1000000000))
        (pos now_ns)
      ≡ ok false
    → exit_status config src now_ns ≡ 1
unfolding exit_status run_checks
exit_status-check2 config src now_ns failed = ground arith

-- On readable logs the exit status is 1 when a token was used at a service for which no event
-- names it.
pub exit_status_unissued :
    (config : Config) (src : Source) (now_ns : ℕ) (logs : Logs)
    → Reads config src now_ns logs
    → Readable logs
    → (key : TokenUse) → UsedToken key logs.uses
    → NeverNamed Names key logs.events
    → exit_status config src now_ns ≡ 1
exit_status_unissued config src now_ns logs reads readable key used unnamed =
    let (issues, parsed) = parse-total logs.events readable.events in
    let missing : lookup key issues ≡ none = elim (Option-cases (lookup key issues)) [
      | inl nothing ↦ nothing
      | inr (issue, found) ↦ absurd (
          NeverNamed-LastNamed Names key issue logs.events unnamed
            ((parse-LastNamed_iff logs.events issues key issue parsed).0 found))
    ] in
    exit_status-check2 config src now_ns (
      check2_unissued config.exchange_lookback_seconds src
        (sub_ℕ now_ns (config.window_seconds * 1000000000)) (pos now_ns) key logs.uses logs.events
        issues reads.uses reads.events readable.uses parsed used missing)
