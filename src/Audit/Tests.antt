-- ===== src/Audit/Tests.antt =====
-- Runs of the audit, and the theorems at concrete logs.
use gekko.Base.{
  In, ◌+◌, length, String, true, none, some, List, [], ◌∷◌, ◌++◌, ◌≡◌, ◌↔◌, refl, inl, inr,
  string_eq, pair_eq,
}
use gekko.Base.Dict.{lookup}
use gekko.Python.Errors.{ok}
use gekko.Python.Integers.{int_of_text, ◌≤ℤ◌}
use gekko.Python.Json.{ℤ, pos, str, int, end, field}
use gekko.Audit.Keys.{access_logs_of, user_facing_services, downstream_services}
use gekko.Audit.Loki.{time_of, Entry, Source, query_loki, default_limit}
use gekko.Audit.Loki.Reads.{
  lines_of, lines_of_values, AreReadable, AreEntriesOf, query_loki-AreEntriesOf,
}
use gekko.Audit.Events.Tests.{event, issued, parsed_event}
use gekko.Audit.Bypass.{bypassed, check1, sighting, SharedUse, SharedReport, report1}
use gekko.Audit.Bypass.Shown.{jtis_of}
use gekko.Audit.Bypass.Reported.{HasSightings, ShowsLast, report1-lists}
use gekko.Audit.Bypass.Laws.{Used, check1-true_iff}
use gekko.Audit.Events.{Issue}
use gekko.Audit.Issuance.Subjects.{AllowsSubject}
use gekko.Audit.Issuance.{TokenUse, TimedUse, Report, report2, verdict2}
use gekko.Audit.Issuance.Reported.{report2-lists}
use gekko.Audit.Login.{Access, verdict3, user_of, Violation, LoginReport, report3}
use gekko.Audit.Login.Reported.{IsLate, IsWithoutLogin, report3-lists}
use gekko.Python.Sorting.{Sorted}
use gekko.Audit.Login.Entries.{Accessed, LoggedIn, AnyEntry, NamesAccesses, NamesLogins}
use gekko.Audit.Login.Laws.{verdict3-true_iff}
use gekko.Audit.Login.View.{LoginLogs, SameLogs, sets_of, verdict_on, verdict3_refines}
use gekko.Audit.Issuance.Uses.{FirstUse}
use gekko.Audit.Issuance.Repeats.{verdict2_repeat}
use gekko.Audit.Issuance.Laws.{IsBacked, verdict2-true_iff}
use gekko.Audit.Report.{exit_status}
use gekko.Audit.Report.FailOpen.{exit_status_unreachable}
use gekko.Audit.Report.Verdict.{NoneShared, AllIssued, LoggedInFirst, exit_status-clean_iff}
use gekko.Audit.Demo.{
  reused_stream, reused, reused_log, reused_read, config, reused_logs, reused-Reads,
  reused-Readable,
}

abbrev access : String → String → String → Entry
access jti sub service =
    ("jti", str jti) ∷ ("sub", str sub) ∷ ("_ts_ns", int (pos 7)) ∷ ("_service", str service) ∷ []

abbrev one_use : List Entry
one_use = access "t1" "u1" "order-service" ∷ access "-" "-" "order-service" ∷ []

one_use-HasSightings : HasSightings one_use
unfolding lookup string_eq sighting
one_use-HasSightings = (
  (record { service = str "order-service"; sub = str "u1"; ts_ns = pos 7 }, refl),
  ((record { service = str "order-service"; sub = str "-"; ts_ns = pos 7 }, refl), tt),
)

report1-lists_example :
    (report : SharedReport) × (report1 one_use one_use ≡ ok report)
    × (bypassed one_use one_use ≡ ok (jtis_of report.findings))
    × ((f : SharedUse) → In f report.findings ↔ ShowsLast one_use one_use f)
unfolding lookup string_eq sighting
report1-lists_example =
    report1-lists one_use one_use (tt, (tt, tt)) (tt, (tt, tt)) one_use-HasSightings
      one_use-HasSightings

verdict2-true_iff_example :
    (verdict2 one_use (event ∷ []) ≡ ok true)
    ↔ ((key : TokenUse) (e : Entry) → FirstUse key e one_use → IsBacked issued key e)
unfolding lookup string_eq
verdict2-true_iff_example =
    verdict2-true_iff one_use (event ∷ []) issued (inr (tt, tt), (inl refl, tt)) parsed_event

report2-lists_example :
    (report : Report) × (report2 one_use (event ∷ []) ≡ ok report)
    × ((u : TimedUse)
        → In u report.no_record ↔ (
            FirstUse u.key u.entry one_use
            × (time_of u.entry ≡ ok u.ts_ns)
            × (lookup u.key issued ≡ none)
            × (u.exchanged_sub ≡ none)))
    × ((u : TimedUse)
        → In u report.sub_mismatch ↔ (
            FirstUse u.key u.entry one_use
            × (time_of u.entry ≡ ok u.ts_ns)
            × ((issue : Issue) × (lookup u.key issued ≡ some issue)
                × (¬ AllowsSubject issue.sub (lookup "sub" u.entry))
                × (u.exchanged_sub ≡ issue.sub))))
    × Sorted (λ u. u.ts_ns) report.no_record
    × Sorted (λ u. u.ts_ns) report.sub_mismatch
    × (report.confirmed + length report.no_record + length report.sub_mismatch ≡ report.uses)
    × ((verdict2 one_use (event ∷ []) ≡ ok true) ↔ (report.confirmed ≡ report.uses))
unfolding lookup string_eq
report2-lists_example =
    report2-lists one_use (event ∷ []) issued (inr (tt, tt), (inl refl, tt))
      ((pos 7, refl), ((pos 7, refl), tt)) parsed_event

-- The same token in the hands of another subject.
verdict2_repeat_example :
    verdict2 (one_use ++ (access "t1" "u9" "order-service" ∷ [])) (event ∷ [])
    ≡ verdict2 (one_use ++ []) (event ∷ [])
unfolding lookup string_eq
verdict2_repeat_example =
    verdict2_repeat ("t1", "order-service") (access "t1" "u9" "order-service") one_use []
      (event ∷ []) (inl (refl, (λ p. cc), (λ p. cc), refl)) (refl, (λ p. cc), (λ p. cc), refl)

abbrev logins : List Entry
logins =
    (("userId", str "u1") ∷ ("_ts_ns", int (pos 9)) ∷ [])
    ∷ (("user_id", str "u1") ∷ ("_ts_ns", int (pos 4)) ∷ [])
    ∷ (("type", str "LOGIN") ∷ [])
    ∷ []

one_use-NamesAccesses : NamesAccesses one_use
unfolding lookup string_eq
one_use-NamesAccesses = (
  inr ("u1", pos 7, str "order-service", (refl, (λ p. cc), (λ p. cc), refl), refl),
  (inl refl, tt),
)

logins-NamesLogins : NamesLogins logins
unfolding lookup string_eq user_of
logins-NamesLogins =
    (inr ("u1", pos 9, (refl, refl)), (inr ("u1", pos 4, (refl, refl)), (inl refl, tt)))

verdict3-true_iff_example : (verdict3 one_use logins ≡ ok true) ↔ (
    (s : String) (a l : ℤ)
    → AnyEntry (Accessed s a) one_use
    → AnyEntry (LoggedIn s l) logins
    → (earlier : ℤ) × AnyEntry (LoggedIn s earlier) logins × (earlier ≤ℤ a))
unfolding lookup string_eq user_of
verdict3-true_iff_example =
    verdict3-true_iff one_use logins one_use-NamesAccesses logins-NamesLogins

report3-lists_example :
    (report : LoginReport) × (report3 one_use logins ≡ ok report)
    × ((v : Violation) → In v report.violations ↔ IsLate one_use logins v)
    × ((x : String × Access) → In x report.without_login ↔ IsWithoutLogin one_use logins x)
    × Sorted (λ v. v.access.ts_ns) report.violations
    × Sorted (λ x. x.1.ts_ns) report.without_login
    × (report.confirmed + length report.violations + length report.without_login ≡ report.subs)
    × ((verdict3 one_use logins ≡ ok true) ↔ (length report.violations ≡ 0))
unfolding lookup string_eq user_of
report3-lists_example = report3-lists one_use logins one_use-NamesAccesses logins-NamesLogins

abbrev one_use_logs : LoginLogs
one_use_logs = record {
  svc_logs = one_use;
  kc_logs = logins;
  accesses = one_use-NamesAccesses;
  logins = logins-NamesLogins;
}

verdict3_refines_example :
    (verdict3 one_use logins ≡ ok (verdict_on (sets_of one_use_logs)))
    × ((other : LoginLogs) → SameLogs one_use_logs other → sets_of one_use_logs ≡ sets_of other)
verdict3_refines_example = verdict3_refines one_use_logs

reused_readable : AreReadable reused (lines_of (reused_stream ∷ []))
unfolding int_of_text lines_of lines_of_values
reused_readable = (
  record {
    members = ("jti", str "t1") ∷ [];
    has_members = inr (field "jti" (str "t1") end, refl, refl);
    ts = 7;
    time_read = refl;
  },
  tt,
)

query_loki-AreEntriesOf_example :
    (es : List Entry) × (query_loki reused "" (pos 0) (pos 9) default_limit ≡ ok es)
    × AreEntriesOf reused (lines_of (reused_stream ∷ [])) reused_readable es
query_loki-AreEntriesOf_example =
    query_loki-AreEntriesOf reused "" (pos 0) (pos 9) default_limit (reused_stream ∷ []) refl
      reused_readable

check1-true_iff_example :
    (check1 reused (pos 0) (pos 9) ≡ ok true)
    ↔ ((s : String) → Used s reused_log → ¬ Used s reused_log)
unfolding lookup string_eq
check1-true_iff_example =
    check1-true_iff reused (pos 0) (pos 9) reused_log reused_log
      (reused_read (access_logs_of user_facing_services) (pos 0) (pos 9))
      (reused_read (access_logs_of downstream_services) (pos 0) (pos 9)) (tt, tt) (tt, tt)

abbrev down : Source
down = record { query_range = λ q a b limit. none; loads = λ line. none }

exit_status_unreachable_example : exit_status config down 5 ≡ 0
exit_status_unreachable_example = exit_status_unreachable config down 5 (λ q a b limit. refl)

exit_status-clean_iff_example :
    (exit_status config reused 5 ≡ 0)
    ↔ (NoneShared reused_logs × AllIssued reused_logs × LoggedInFirst reused_logs)
exit_status-clean_iff_example =
    exit_status-clean_iff config reused 5 reused_logs reused-Reads reused-Readable
