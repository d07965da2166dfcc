-- ===== src/Detection/Login.antt =====
-- A request to the employee service before the login of its subject.
use mathlib.Core.Path.{subst}
use gekko.Base.{ℕ, String, false, some, [], ◌∷◌, List, ◌≡◌, ◌≢◌, refl, ap, string_eq}
use gekko.Base.Dict.{Dict, lookup}
use gekko.Python.Errors.{ok}
use gekko.Python.Json.{ℤ, pos, Json, str, obj}
use gekko.Python.Integers.{int_of_text, ◌≤ℤ◌}
use gekko.EmployeeService.Request.{Request, Libraries}
use gekko.EmployeeService.Auth.{authenticate}
use gekko.EmployeeService.Employee.{App, employee_route, Readings, AccessLog, log_fields, serve}
use gekko.EmployeeService.Employee.Logging.{serve-subject}
use gekko.Audit.Loki.{Entry, Source, read_value, query_loki, default_limit}
use gekko.Audit.Login.{all_access_query, login_query, check3}
use gekko.Audit.Login.Entries.{Accessed, LoggedIn, AnyEntry, NamesAccesses, NamesLogins}
use gekko.Audit.Login.Order.{Has, Has-AnyEntry}
use gekko.Audit.Login.Before.{check3_before}
use gekko.Detection.Line.{entry_of, read_value-log_fields}
use gekko.Detection.Token.{service_name}

module _ (L : Libraries) (app : App) (req : Request) (r : Readings) (username : String)
    (claims : Dict String Json) (log : AccessLog) (sub : String)
    (routed : app.route req ≡ employee_route username)
    (authentic : authenticate L app.auth_ctx req r.now ≡ ok claims)
    (logged : (serve L app req r).0 ≡ log ∷ []) (named : lookup "sub" claims ≡ some (str sub)) where
  pub Accessed-entry_of :
      (ts : ℕ) → sub ≢ "" → sub ≢ "-" → Accessed sub (pos ts) (entry_of log ts service_name)
  unfolding lookup string_eq
  Accessed-entry_of ts full dash =
      let (sub_eq, _) = serve-subject L app req r username claims log routed authentic logged in
      let same : log.sub ≡ str sub = rw named at sub_eq in (ap (λ v. some v) same, full, dash, refl)

  -- An authenticated request to the employee service, whose subject is neither "" nor "-", makes
  -- `check3` fail, once its line is among the accesses that Loki has, if the logins there include
  -- some of that subject, and none that is as early as the line: where `json.loads` gives back what
  -- was printed, every access names nobody, or a subject with a time and a service, and every login
  -- nobody, or a user with a time.
  pub check3_detects :
      (src : Source) (ts_ns line : String) (ts : ℕ) (start_ns end_ns login : ℤ) (e : Entry)
      (svc_logs kc_logs : List Entry)
      → src.loads line ≡ some (obj (log_fields log))
      → int_of_text ts_ns ≡ some ts
      → sub ≢ ""
      → sub ≢ "-"
      → read_value src (some service_name) (ts_ns, line) ≡ ok e
      → query_loki src all_access_query start_ns end_ns default_limit ≡ ok svc_logs
      → Has svc_logs e
      → NamesAccesses svc_logs
      → query_loki src login_query start_ns end_ns default_limit ≡ ok kc_logs
      → NamesLogins kc_logs
      → AnyEntry (LoggedIn sub login) kc_logs
      → ((earlier : ℤ) → AnyEntry (LoggedIn sub earlier) kc_logs → ¬ (earlier ≤ℤ pos ts))
      → check3 src start_ns end_ns ≡ ok false
  check3_detects src ts_ns line ts start end login e svc kc loaded time full dash read svc_read
        there accesses kc_read logins login_there late =
      let made = read_value-log_fields src log service_name ts_ns line ts loaded time in
      let same : entry_of log ts service_name ≡ e = cc (read, made) in
      check3_before src start end svc kc sub (pos ts) login svc_read kc_read accesses logins
        (Has-AnyEntry (Accessed sub (pos ts)) svc e
          (subst (Accessed sub (pos ts)) same (Accessed-entry_of ts full dash)) there)
        login_there late
