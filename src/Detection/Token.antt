-- ===== src/Detection/Token.antt =====
-- From a request that employee-service/main.py answers to the verdict of audit/audit.py on it.
use mathlib.Core.Path.{subst}
use gekko.Base.{
  ℕ, ◌*◌, String, false, none, some, [], ◌∷◌, List, ◌≡◌, ◌≢◌, inl, inr, refl, string_eq, pair_eq,
  ap,
}
use gekko.Base.Dict.{Dict, lookup}
use gekko.Python.Errors.{ok}
use gekko.Python.Json.{ℤ, pos, Json, str, int, obj}
use gekko.Python.Integers.{int_of_text, minus}
use gekko.EmployeeService.Request.{Request, Libraries}
use gekko.EmployeeService.Auth.{authenticate}
use gekko.EmployeeService.Employee.{App, employee_route, Readings, AccessLog, log_fields, serve}
use gekko.EmployeeService.Employee.Access.{serve-authenticated_status}
use gekko.EmployeeService.Employee.Logging.{serve-subject, serve-line_status}
use gekko.Audit.Loki.{Entry, Source, read_value, query_loki, default_limit}
use gekko.Audit.Events.{Issues, parse_token_exchange_events}
use gekko.Audit.Issuance.{TokenUse, access_query, event_query, check2}
use gekko.Audit.Issuance.Uses.{UsesToken, UsedToken, HasTextUses}
use gekko.Audit.Issuance.Unissued.{check2_unissued}
use gekko.Audit.Login.Entries.{AnyEntry}
use gekko.Detection.Line.{entry_of, read_value-log_fields}

abbrev pub service_name : String
service_name = "employee-service"

pub UsedToken-AnyEntry :
    (key : TokenUse) (e : Entry) (es : List Entry)
    → UsesToken key e
    → AnyEntry (λ x. e ≡ x) es
    → UsedToken key es
UsedToken-AnyEntry key e [] used never = never
UsedToken-AnyEntry key e (x ∷ es) used (inl same) = inl (subst (UsesToken key) same used)
UsedToken-AnyEntry key e (x ∷ es) used (inr later) = inr (UsedToken-AnyEntry key e es used later)

-- A request of an authenticated caller, with the line that it leaves.
module _ (L : Libraries) (app : App) (req : Request) (r : Readings) (username : String)
    (claims : Dict String Json) (log : AccessLog) (jti : String)
    (routed : app.route req ≡ employee_route username)
    (authentic : authenticate L app.auth_ctx req r.now ≡ ok claims)
    (logged : (serve L app req r).0 ≡ log ∷ []) (named : lookup "jti" claims ≡ some (str jti)) where
  logged_jti : log.jti ≡ str jti
  logged_jti =
      let (_, jti_eq) = serve-subject L app req r username claims log routed authentic logged in
      rw named at jti_eq

  logged_status : log.status ≢ 401
  logged_status refused =
      let (response, answered, same) = serve-line_status L app req r log logged in
      serve-authenticated_status L app req r username claims response routed authentic answered
        (cc (same, refused))

  pub UsesToken-entry_of :
      (ts : ℕ) → jti ≢ "" → jti ≢ "-" → UsesToken (jti, service_name) (entry_of log ts service_name)
  unfolding lookup string_eq
  UsesToken-entry_of ts full dash = (ap (λ v. some v) logged_jti, full, dash, refl)

  -- Where `json.loads` gives back what was printed, the line of an authenticated request, whose
  -- token has an identifier other than "" and "-", is read by the audit as a use of that token at
  -- the employee service, with a status that the query of `check2` does not leave out.
  pub access_is_read :
      (src : Source) (ts_ns line : String) (ts : ℕ)
      → src.loads line ≡ some (obj (log_fields log))
      → int_of_text ts_ns ≡ some ts
      → jti ≢ ""
      → jti ≢ "-"
      → (e : Entry) × (read_value src (some service_name) (ts_ns, line) ≡ ok e)
        × UsesToken (jti, service_name) e
        × (lookup "status" e ≡ some (int (pos log.status)))
        × (log.status ≢ 401)
  unfolding lookup string_eq
  access_is_read src ts_ns line ts loaded time full dash = (
    entry_of log ts service_name,
    read_value-log_fields src log service_name ts_ns line ts loaded time,
    UsesToken-entry_of ts full dash,
    refl,
    logged_status,
  )

  -- An authenticated request to the employee service, whose token has an identifier other than ""
  -- and "-" that no event records as issued for that service, makes `check2` fail, once its line is
  -- among the accesses that Loki has: where `json.loads` gives back what was printed, every access
  -- with a token has texts for it and its service, and the events are read into records.
  pub check2_detects :
      (src : Source) (ts_ns line : String) (ts lookback_seconds : ℕ) (start_ns end_ns : ℤ)
      (e : Entry) (ds_logs kc_logs : List Entry) (exchanged : Issues)
      → src.loads line ≡ some (obj (log_fields log))
      → int_of_text ts_ns ≡ some ts
      → jti ≢ ""
      → jti ≢ "-"
      → read_value src (some service_name) (ts_ns, line) ≡ ok e
      → query_loki src access_query start_ns end_ns default_limit ≡ ok ds_logs
      → AnyEntry (λ x. e ≡ x) ds_logs
      → HasTextUses ds_logs
      → query_loki src event_query
          (minus start_ns (lookback_seconds * 1000000000))
          end_ns
          default_limit
        ≡ ok kc_logs
      → parse_token_exchange_events kc_logs ≡ ok exchanged
      → lookup (jti, service_name) exchanged ≡ none
      → check2 lookback_seconds src start_ns end_ns ≡ ok false
  check2_detects src ts_ns line ts lookback start end e ds kc exchanged loaded time full dash read
        logs there text events parsed missing =
      let (e', read', used, _, _) = access_is_read src ts_ns line ts loaded time full dash in
      let same : e' ≡ e = cc (read, read') in
      check2_unissued lookback src start end (jti, service_name) ds kc exchanged logs events text
        parsed
        (UsedToken-AnyEntry (jti, service_name) e ds
          (subst (UsesToken (jti, service_name)) same used) there)
        missing
