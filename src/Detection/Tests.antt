-- ===== src/Detection/Tests.antt =====
-- A request to the employee service, its line in Loki, and the audit of it.
use mathlib.Core.Path.{subst}
use mathlib.Core.Bool.{false≢true}
use text.Mathlib.TextEquality.{eq_iff}
use gekko.Base.{
  String, false, some, [], ◌∷◌, ◌≡◌, ◌≢◌, inl, inr, refl, sym, ap, arith, ◌==◌, if◌then◌else◌,
  string_eq, pair_eq,
}
use gekko.Base.Dict.{lookup}
use gekko.Python.Errors.{ok}
use gekko.Python.Json.{ℤ, pos, str, int, obj, field, end}
use gekko.Python.Integers.{int_of_text, ◌≤ℤ◌}
use gekko.EmployeeService.Demo.{demo, app, tanaka, readings}
use gekko.EmployeeService.Employee.{AccessLog, log_fields}
use gekko.EmployeeService.Employee.Logging.{serve-subject}
use gekko.EmployeeService.Tests.{as_tanaka, tanaka_authenticated, tanaka_logged}
use gekko.Audit.Loki.{
  Entry, Source, read_value, read_values, read_streams, parsed, query_loki, default_limit,
}
use gekko.Audit.Events.Laws.{parse_token_exchange_events_nil}
use gekko.Audit.Keys.{access_logs_of}
use gekko.Audit.Issuance.{access_query, event_query, check2}
use gekko.Audit.Issuance.Uses.{IsText}
use gekko.Audit.Login.{all_access_query, login_query, user_of, check3}
use gekko.Audit.Login.Entries.{AnyEntry, LoggedIn}
use gekko.Detection.Login.{check3_detects}
use gekko.Detection.Line.{entry_of}
use gekko.Detection.Token.{service_name, check2_detects}
use gekko.EmployeeService.Employee.Named.{HasTextClaims, IsTextClaim}
use gekko.Detection.Run.{Served}
use gekko.Python.Errors.{ok-injective}
use gekko.Base.{Bool, ◌∙◌}

abbrev pub log : AccessLog
log = tanaka_logged.0

pub jti_logged : log.jti ≡ str "j2"
unfolding lookup string_eq
jti_logged =
    let (_, jti) =
      serve-subject demo app as_tanaka readings "suzuki" tanaka log refl tanaka_authenticated
        tanaka_logged.1 in
    jti

pub sub_logged : log.sub ≡ str "s2"
unfolding lookup string_eq
sub_logged =
    let (sub, _) =
      serve-subject demo app as_tanaka readings "suzuki" tanaka log refl tanaka_authenticated
        tanaka_logged.1 in
    sub

-- Loki has this line, and no event.
abbrev src : Source
src = record {
  query_range = λ q a b limit.
      if q == access_query
      then some (record { service = some service_name; values = ("7", "line") ∷ [] } ∷ [])
      else some [];
  loads = λ line. some (obj (log_fields log));
}

pub full : ◌≢◌ {A = String} "j2" ""
full p = false≢true ((eq_iff "j2" "").1 p)

pub dash : ◌≢◌ {A = String} "j2" "-"
dash p = false≢true ((eq_iff "j2" "-").1 p)

abbrev entry : Entry
entry = entry_of log 7 service_name

access_logs : query_loki src access_query (pos 0) (pos 9) default_limit ≡ ok (entry ∷ [])
unfolding query_loki read_streams read_values read_value parsed log_fields int_of_text lookup
    string_eq access_logs_of
access_logs = refl

events : query_loki src event_query (pos 0) (pos 9) default_limit ≡ ok []
unfolding query_loki read_streams string_eq access_logs_of
events = refl

check2_detects_example : check2 0 src (pos 0) (pos 9) ≡ ok false
unfolding query_loki read_streams read_values read_value parsed log_fields int_of_text lookup
    string_eq access_logs_of
check2_detects_example =
    check2_detects demo app as_tanaka readings "suzuki" tanaka log "j2" refl tanaka_authenticated
      tanaka_logged.1 refl src "7" "line" 7 0 (pos 0) (pos 9) entry (entry ∷ []) [] [] refl refl
      full dash refl access_logs (inl refl)
      (inr (subst (λ v. IsText (some v)) (sym jti_logged) tt, tt), tt) events
      parse_token_exchange_events_nil refl

seven : int_of_text "7" ≡ some 7
unfolding int_of_text
seven = refl

pub tanaka_jti : lookup "jti" tanaka ≡ some (str "j2")
unfolding lookup string_eq
tanaka_jti = refl

tanaka_texts : HasTextClaims demo app as_tanaka readings
unfolding lookup string_eq
tanaka_texts claims authentic =
    let same : tanaka ≡ claims = ok-injective (sym tanaka_authenticated ∙ authentic) in
    subst (λ c. IsTextClaim "sub" c × IsTextClaim "jti" c) same (inr ("s2", refl), inr ("j2", refl))

abbrev tanaka_served : Served demo app src
tanaka_served = record {
  req = as_tanaka;
  readings = readings;
  log = log;
  logged = tanaka_logged.1;
  texts = tanaka_texts;
  ts_ns = "7";
  ts = 7;
  timed = seven;
  line = "line";
  loaded = refl;
}

-- Loki has the line, and one login, which is later.
abbrev late_login : Source
late_login = record {
  query_range = λ q a b limit.
      if q == all_access_query
      then some (record { service = some service_name; values = ("7", "line") ∷ [] } ∷ [])
      else some (record { service = some "keycloak"; values = ("9", "login") ∷ [] } ∷ []);
  loads = λ line.
      if line == "line"
      then some (obj (log_fields log))
      else some (obj (field "userId" (str "s2") end));
}

abbrev login_event : Entry
login_event = ("userId", str "s2") ∷ ("_ts_ns", int (pos 9)) ∷ ("_service", str "keycloak") ∷ []

all_accesses :
    query_loki late_login all_access_query (pos 0) (pos 9) default_limit ≡ ok (entry ∷ [])
unfolding query_loki read_streams read_values read_value parsed log_fields int_of_text lookup
    string_eq access_logs_of
all_accesses = refl

login_events :
    query_loki late_login login_query (pos 0) (pos 9) default_limit ≡ ok (login_event ∷ [])
unfolding query_loki read_streams read_values read_value parsed log_fields int_of_text lookup
    string_eq access_logs_of
login_events = refl

login_time : (t : ℤ) → AnyEntry (LoggedIn "s2" t) (login_event ∷ []) → pos 9 ≡ t
unfolding lookup string_eq
login_time t (inl (_, time)) = cc time
login_time t (inr never) = absurd never

check3_detects_example : check3 late_login (pos 0) (pos 9) ≡ ok false
unfolding query_loki read_streams read_values read_value parsed log_fields int_of_text lookup
    string_eq user_of
check3_detects_example =
    check3_detects demo app as_tanaka readings "suzuki" tanaka log "s2" refl tanaka_authenticated
      tanaka_logged.1 refl late_login "7" "line" 7 (pos 0) (pos 9) (pos 9) entry (entry ∷ [])
      (login_event ∷ []) refl refl (λ p. cc) (λ p. cc) refl all_accesses (inl refl)
      (
        inr (
          "s2",
          pos 7,
          str service_name,
          (ap (λ v. some v) sub_logged, (λ p. cc), (λ p. cc), refl),
          refl,
        ),
        tt,
      )
      login_events (inr ("s2", pos 9, (refl, refl)), tt) (inl (refl, refl))
      (λ t p le. omega (arith, subst (λ x. x ≤ℤ pos 7) (sym (login_time t p)) le))
