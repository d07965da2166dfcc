-- ===== src/Audit/Output/Tests.antt =====
-- audit/audit.py: runs of the audit with what they print.
use mathlib.Core.Path.{subst}
use gekko.Audit.Login.{Violation}
use gekko.Audit.Login.Entries.{Accessed, LoggedIn}
use gekko.Audit.Login.Reported.{IsLate}
use gekko.Audit.Output.Total.Printed.{IsPrinted, print_check3-IsPrinted}
use gekko.Python.Integers.{◌≤ℤ◌}
use gekko.Python.Json.{int}
use gekko.Audit.Loki.{Entry, query_loki, default_limit}
use gekko.Base.{
  inl, inr, arith, ◌↔◌, true, Bool, some, [], ◌∷◌, ◌||◌, ◌==◌, if◌then◌else◌, ◌≡◌, refl, string_eq,
  filter_map, ℕ_discrete,
}
use gekko.Base.Dict.{lookup, insert}
use gekko.Python.Errors.{ok}
use gekko.Python.Json.{pos, str, field, end, obj}
use gekko.Python.Integers.{int_of_text}
use gekko.Python.Text.{nat_eq}
use gekko.Audit.Clock.{ts_str}
use gekko.Audit.Keys.{access_logs_of, user_facing_services}
use gekko.Audit.Loki.{Source, read_streams, read_values, read_value, parsed}
use gekko.Audit.Events.{parse_token_exchange_events, add_events}
use gekko.Audit.Bypass.{by_jti, add_jti, shared_keys, sorted, insert_sorted}
use gekko.Audit.Issuance.{first_uses, reported}
use gekko.Audit.Login.{
  all_access_query, login_query, first_accesses, add_access, first_logins, add_login, user_of,
}
use gekko.Audit.Report.{run_checks, exit_status}
use gekko.Audit.Demo.{config, reused, reused_log, reused_logs, reused-Reads, reused-Readable}
use gekko.Audit.Output.{print_query, verdicts, conclusion}
use gekko.Audit.Output.Laws.{outcome, EndsWith}
use gekko.Audit.Output.Quiet.{Quiet}
use gekko.Audit.Output.Shown.{AreShowable}
use gekko.Audit.Output.Run.{print_run, main_status}
use gekko.Audit.Output.Run.Complete.{AllAnswered, main_status_complete}
use gekko.Audit.Output.Bypass.{print_check1}
use gekko.Audit.Output.Issuance.{
  print_check2, print_uses, print_no_records, print_mismatches, print_backed,
}
use gekko.Audit.Output.Login.{
  print_check3, print_subs, print_info_only, print_violations, print_in_order,
}
use gekko.Audit.Output.Total.{Showable, print_run-returns}

reused-Showable : Showable reused_logs
unfolding ts_str ℕ_discrete lookup string_eq
reused-Showable =
    let shown : AreShowable reused_log =
      (((pos 7, refl, ("00:00:00", refl)), (str "order-service", refl)), tt) in
    record {
      user_facing = shown;
      downstream = shown;
      uses = shown;
      accesses = shown;
      logins = shown;
    }

print_run-returns_example :
    (r : Bool × Bool × Bool) × (outcome (print_run config reused 5) ≡ ok r)
    × (run_checks config reused 5 ≡ ok r)
    × (main_status config reused 5 ≡ exit_status config reused 5)
    × ((clean : Bool) × EndsWith
          (verdicts r.0 r.1 r.2 ∷ conclusion clean ∷ [])
          (print_run config reused 5)
        × ((clean ≡ true) ↔ (main_status config reused 5 ≡ 0)))
print_run-returns_example =
    print_run-returns config reused 5 reused_logs reused-Reads reused-Readable reused-Showable

-- A browser's session, with its login.
abbrev session : Source
session = record {
  query_range = λ q a b limit.
      if q == login_query
      then some (record { service = some "keycloak"; values = ("3", "login") ∷ [] } ∷ [])
      else if q == access_logs_of user_facing_services || q == all_access_query
      then some (record { service = some "frontend"; values = ("7", "access") ∷ [] } ∷ [])
      else some [];
  loads = λ line.
      if line == "login"
      then some (obj (field "userId" (str "u1") end))
      else some (obj (field "jti" (str "t1") (field "sub" (str "u1") end)));
}

session_passes : main_status config session 5 ≡ 0
unfolding print_run print_check1 print_check2 print_check3 print_query read_streams read_values
    read_value parsed int_of_text lookup insert string_eq access_logs_of by_jti add_jti shared_keys
    sorted insert_sorted first_uses reported parse_token_exchange_events add_events first_accesses
    add_access first_logins add_login user_of print_uses print_no_records print_mismatches
    print_backed print_subs print_info_only print_violations print_in_order filter_map
session_passes = refl

session-Quiet : Quiet (print_run config session 5).0
unfolding print_run print_check1 print_check2 print_check3 print_query read_streams read_values
    read_value parsed int_of_text lookup insert string_eq access_logs_of by_jti add_jti shared_keys
    sorted insert_sorted first_uses reported parse_token_exchange_events add_events first_accesses
    add_access first_logins add_login user_of print_uses print_no_records print_mismatches
    print_backed print_subs print_info_only print_violations print_in_order filter_map
session-Quiet = ground arith

main_status_complete_example : (exit_status config session 5 ≡ 0) × AllAnswered config session 5
main_status_complete_example = main_status_complete config session 5 session_passes session-Quiet

-- An access, with a login only after it.
abbrev late : Source
late = record {
  query_range = λ q a b limit.
      if q == login_query
      then some (record { service = some "keycloak"; values = ("9", "login") ∷ [] } ∷ [])
      else some (record { service = some "frontend"; values = ("7", "access") ∷ [] } ∷ []);
  loads = session.loads;
}

abbrev late_access : Entry
late_access =
    ("jti", str "t1")
    ∷ ("sub", str "u1")
    ∷ ("_ts_ns", int (pos 7))
    ∷ ("_service", str "frontend")
    ∷ []

abbrev late_login : Entry
late_login = ("userId", str "u1") ∷ ("_ts_ns", int (pos 9)) ∷ ("_service", str "keycloak") ∷ []

abbrev late_violation : Violation
late_violation = record {
  sub = "u1";
  login = pos 9;
  access = record { ts_ns = pos 7; service = str "frontend" };
}

late_accesses :
    query_loki late all_access_query (pos 0) (pos 9) default_limit ≡ ok (late_access ∷ [])
unfolding query_loki read_streams read_values read_value parsed int_of_text lookup string_eq
    access_logs_of
late_accesses = refl

late_logins : query_loki late login_query (pos 0) (pos 9) default_limit ≡ ok (late_login ∷ [])
unfolding query_loki read_streams read_values read_value parsed int_of_text lookup string_eq
    access_logs_of
late_logins = refl

late_access-Accessed : Accessed "u1" (pos 7) late_access
unfolding lookup string_eq
late_access-Accessed = (refl, (λ p. cc), (λ p. cc), refl)

late_login-LoggedIn : LoggedIn "u1" (pos 9) late_login
unfolding lookup string_eq user_of
late_login-LoggedIn = (refl, refl)

late_violation-IsLate : IsLate (late_access ∷ []) (late_login ∷ []) late_violation
unfolding lookup string_eq
late_violation-IsLate = (
  (
    (
      inl late_access-Accessed,
      λ u p. elim p [
        | inl (_, _, _, time) ↦
            let same : pos 7 ≡ u = cc time in subst (λ x. pos 7 ≤ℤ x) same (omega arith)
        | inr never ↦ absurd never
      ],
    ),
    inl (late_access-Accessed, refl),
  ),
  (
    inl late_login-LoggedIn,
    λ u p. elim p [
      | inl (_, time) ↦ let same : pos 9 ≡ u = cc time in subst (λ x. pos 9 ≤ℤ x) same (omega arith)
      | inr never ↦ absurd never
    ],
  ),
  omega arith,
)

late-AreShowable : AreShowable (late_access ∷ []) × AreShowable (late_login ∷ [])
unfolding ts_str ℕ_discrete lookup string_eq
late-AreShowable = (
  (((pos 7, refl, ("00:00:00", refl)), (str "frontend", refl)), tt),
  (((pos 9, refl, ("00:00:00", refl)), (str "keycloak", refl)), tt),
)

print_check3-IsPrinted_example : IsPrinted late_violation (print_check3 late (pos 0) (pos 9)).0
unfolding lookup string_eq
print_check3-IsPrinted_example =
    print_check3-IsPrinted late (pos 0) (pos 9) (late_access ∷ []) (late_login ∷ []) late_violation
      late_accesses late_logins (inr ("u1", pos 7, str "frontend", late_access-Accessed, refl), tt)
      (inr ("u1", pos 9, late_login-LoggedIn), tt) late-AreShowable.0 late-AreShowable.1
      late_violation-IsLate
