-- ===== src/Detection/Clean/Tests.antt =====
-- A request to employee-service/main.py, and an audit of it that ends with status 0.
use mathlib.Core.Path.{subst}
use gekko.Base.{
  String, none, some, [], ◌∷◌, ◌≡◌, inl, inr, ◌⊎◌, refl, sym, ap, ◌==◌, if◌then◌else◌, string_eq,
  pair_eq, arith,
}
use gekko.Base.Dict.{lookup}
use gekko.Python.Json.{ℤ, pos, str, int, obj, field, end}
use gekko.Python.Integers.{int_of_text, ◌≤ℤ◌}
use gekko.Python.Text.{nat_eq}
use gekko.EmployeeService.Demo.{demo, app, tanaka, readings}
use gekko.EmployeeService.Employee.{AccessLog, log_fields}
use gekko.EmployeeService.Tests.{as_tanaka, tanaka_authenticated, tanaka_logged}
use gekko.Audit.Keys.{access_logs_of, user_facing_services}
use gekko.Audit.Latest.{LastNamed}
use gekko.Audit.Loki.{Entry, Source, read_value, read_values, read_streams, parsed, query_loki}
use gekko.Audit.Bypass.Laws.{Used, IsTextOrNull}
use gekko.Audit.Events.{Issue}
use gekko.Audit.Events.Contents.{Names, parse-LastNamed_iff}
use gekko.Audit.Events.Tests.{exchange_line, exchange, exchange_issue, parsed_exchange}
use gekko.Audit.Issuance.{TokenUse, event_query}
use gekko.Audit.Issuance.Uses.{IsText, UsesToken}
use gekko.Audit.Login.{login_query, user_of}
use gekko.Audit.Login.Entries.{Accessed, LoggedIn}
use gekko.Audit.Report.{Config, exit_status}
use gekko.Audit.Report.Verdict.{Logs, Readable, Reads, IsIssued, exit_status-clean_iff}
use gekko.Detection.Clean.{HasNoLogin, HasLoginBy, exit_status_vouches}
use gekko.Detection.Line.{entry_of}
use gekko.Detection.Tests.{log, sub_logged, jti_logged, tanaka_jti, full, dash}
use gekko.Detection.Token.{service_name}

abbrev config : Config
config = record { window_seconds = 3600; exchange_lookback_seconds = 300 }

-- Loki has the line, the exchange and the login before it, and nothing of the user-facing services.
abbrev source_of : AccessLog → Source
source_of l = record {
  query_range = λ q a b limit.
      if q == login_query
      then some (record { service = some "keycloak"; values = ("3", "login") ∷ [] } ∷ [])
      else if q == event_query
      then some (record { service = some "keycloak"; values = ("5", exchange_line) ∷ [] } ∷ [])
      else if q == access_logs_of user_facing_services
      then some []
      else some (record { service = some service_name; values = ("7", "line") ∷ [] } ∷ []);
  loads = λ line.
      if line == "line"
      then some (obj (log_fields l))
      else if line == "login"
      then some (obj (field "userId" (str "s2") end))
      else none;
}

abbrev entry : Entry
entry = entry_of log 7 service_name

abbrev login : Entry
login = ("userId", str "s2") ∷ ("_ts_ns", int (pos 3)) ∷ ("_service", str "keycloak") ∷ []

abbrev logs : Logs
logs = record {
  user_facing = [];
  downstream = entry ∷ [];
  uses = entry ∷ [];
  events = exchange ∷ [];
  accesses = entry ∷ [];
  logins = login ∷ [];
}

logs-Reads : Reads config (source_of log) 9 logs
unfolding query_loki read_streams read_values read_value parsed log_fields int_of_text lookup
    string_eq access_logs_of
logs-Reads = record {
  user_facing = refl;
  downstream = refl;
  uses = refl;
  events = refl;
  accesses = refl;
  logins = refl;
}

logs-Readable : Readable logs
unfolding lookup string_eq user_of
logs-Readable = record {
  user_facing = tt;
  downstream = (subst (λ v. IsTextOrNull (some v)) (sym jti_logged) tt, tt);
  uses = (inr (subst (λ v. IsText (some v)) (sym jti_logged) tt, tt), tt);
  events = (inr (exchange_line, int (pos 5), refl, refl), tt);
  accesses = (
    inr (
      "s2",
      pos 7,
      str service_name,
      (ap (λ v. some v) sub_logged, (λ p. cc), (λ p. cc), refl),
      refl,
    ),
    tt,
  );
  logins = (inr ("s2", pos 3, (refl, refl)), tt);
}

exchange_recorded : LastNamed Names ("j2", service_name) exchange_issue (exchange ∷ [])
unfolding lookup string_eq pair_eq
exchange_recorded =
    (parse-LastNamed_iff (exchange ∷ []) _ ("j2", service_name) exchange_issue parsed_exchange).0
      refl

entry-IsIssued :
    (key : TokenUse) (e : Entry) → UsesToken key entry → e ≡ entry → IsIssued key e (exchange ∷ [])
unfolding lookup string_eq
entry-IsIssued (jti, service) e (named, _, _, called) same =
    let token : ◌≡◌ {A = String} "j2" jti = cc (named, jti_logged) in
    let called_as : ◌≡◌ {A = String} service_name service = cc called in
    (
      exchange_issue,
      subst (λ k. LastNamed Names k exchange_issue (exchange ∷ [])) (λ i. (token i, called_as i))
          exchange_recorded,
      inr (subst (λ x. lookup "sub" x ≡ some (str "s2")) (sym same) (ap (λ v. some v) sub_logged)),
    )

entry-LoggedIn : (s : String) (a : ℤ) → Accessed s a entry → LoggedIn s (pos 3) login × (pos 3 ≤ℤ a)
unfolding lookup string_eq user_of
entry-LoggedIn s a (named, _, _, time) =
    let subject : ◌≡◌ {A = String} "s2" s = cc (named, sub_logged) in
    let when : pos 7 ≡ a = cc time in
    (
      subst (λ x. LoggedIn x (pos 3) login) subject (refl, refl),
      subst (λ x. pos 3 ≤ℤ x) when (omega arith),
    )

passes : exit_status config (source_of log) 9 ≡ 0
passes = (exit_status-clean_iff config (source_of log) 9 logs logs-Reads logs-Readable).1 (
  λ s used shared. used,
  λ key e first. elim first [
    | inl (used, same) ↦ entry-IsIssued key e used same
    | inr (_, never) ↦ absurd never
  ],
  λ s a l accessed _. elim accessed [
    | inl accessed ↦
        let (logged_in, in_time) = entry-LoggedIn s a accessed in (pos 3, inl logged_in, in_time)
    | inr never ↦ absurd never
  ],
)

exit_status_vouches_example :
    (¬ Used "j2" [])
    × ((issue : Issue) × LastNamed Names ("j2", service_name) issue (exchange ∷ []))
    × (HasNoLogin "s2" (login ∷ []) ⊎ HasLoginBy "s2" 7 (login ∷ []))
unfolding read_value parsed log_fields int_of_text lookup string_eq user_of
exit_status_vouches_example =
    exit_status_vouches demo app as_tanaka readings "suzuki" tanaka log "s2" "j2" refl
      tanaka_authenticated tanaka_logged.1 refl tanaka_jti config (source_of log) 9 logs "7" "line"
      7 entry logs-Reads logs-Readable refl refl refl (inl refl) (inl refl) (inl refl) (λ p. cc)
      (λ p. cc) full dash passes
