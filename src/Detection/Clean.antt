-- ===== src/Detection/Clean.antt =====
-- What a run of audit/audit.py that ends with status 0 says of a request that
-- employee-service/main.py has answered.
mod Tests
use mathlib.Core.Path.{subst}
use gekko.Base.{ℕ, String, some, [], ◌∷◌, List, ◌≡◌, ◌≢◌, inl, inr, ◌⊎◌, string_eq}
use gekko.Base.Dict.{Dict, lookup}
use gekko.Python.Errors.{ok}
use gekko.Python.Json.{ℤ, pos, Json, str, obj}
use gekko.Python.Integers.{int_of_text, ◌≤ℤ◌}
use gekko.EmployeeService.Request.{Request, Libraries}
use gekko.EmployeeService.Auth.{authenticate}
use gekko.EmployeeService.Employee.{App, employee_route, Readings, AccessLog, log_fields, serve}
use gekko.Audit.Latest.{LastNamed}
use gekko.Audit.Loki.{Entry, Source, read_value}
use gekko.Audit.Bypass.Laws.{Used, UsesJti}
use gekko.Audit.Events.{Issue}
use gekko.Audit.Events.Contents.{Names}
use gekko.Audit.Issuance.Uses.{UsesToken}
use gekko.Audit.Issuance.Unissued.{UsedToken-FirstUse}
use gekko.Audit.Login.Entries.{Accessed, LoggedIn, AnyEntry, NamesLogins}
use gekko.Audit.Login.Order.{Has, Has-AnyEntry}
use gekko.Audit.Report.{Config, exit_status}
use gekko.Audit.Report.Verdict.{Logs, Readable, Reads, exit_status-clean_iff}
use gekko.Detection.Line.{entry_of, read_value-log_fields}
use gekko.Detection.Token.{service_name, access_is_read, UsedToken-AnyEntry}
use gekko.Detection.Login.{Accessed-entry_of}

Used-AnyEntry :
    (jti : String) (e : Entry) (es : List Entry) → UsesJti jti e → Has es e → Used jti es
Used-AnyEntry jti e [] used never = never
Used-AnyEntry jti e (x ∷ es) used (inl same) = inl (subst (UsesJti jti) same used)
Used-AnyEntry jti e (x ∷ es) used (inr later) = inr (Used-AnyEntry jti e es used later)

-- There is a login of the subject at the time or before.
abbrev pub HasLoginBy : String → ℕ → List Entry → Type 0
HasLoginBy sub ts logins = (login : ℤ) × AnyEntry (LoggedIn sub login) logins × (login ≤ℤ pos ts)

abbrev pub HasNoLogin : String → List Entry → Type 0
HasNoLogin sub logins = (login : ℤ) → ¬ AnyEntry (LoggedIn sub login) logins

login-cases :
    (sub : String) (logins : List Entry)
    → NamesLogins logins
    → HasNoLogin sub logins ⊎ ((login : ℤ) × AnyEntry (LoggedIn sub login) logins)
login-cases sub [] names = inl (λ login never. never)
login-cases sub (e ∷ es) (inr (s, t, logged_in), names) = elim (string_eq.dec s sub) [
  | yes same ↦ inr (t, inl (subst (λ x. LoggedIn x t e) same logged_in))
  | no other ↦ elim (login-cases sub es names) [
    | inr (login, later) ↦ inr (login, inr later)
    | inl nobody ↦ inl (λ login found. elim found [
      | inl (user, _) ↦ other (cc (user, logged_in.0))
      | inr later ↦ nobody login later
    ])
  ]
]
login-cases sub (e ∷ es) (inl unnamed, names) = elim (login-cases sub es names) [
  | inr (login, later) ↦ inr (login, inr later)
  | inl nobody ↦ inl (λ login found. elim found [
    | inl (user, _) ↦ cc (user, unnamed)
    | inr later ↦ nobody login later
  ])
]

-- A request of an authenticated caller, with the line that it leaves.
module _ (L : Libraries) (app : App) (req : Request) (r : Readings) (username : String)
    (claims : Dict String Json) (log : AccessLog) (sub jti : String)
    (routed : app.route req ≡ employee_route username)
    (authentic : authenticate L app.auth_ctx req r.now ≡ ok claims)
    (logged : (serve L app req r).0 ≡ log ∷ []) (named_sub : lookup "sub" claims ≡ some (str sub))
    (named_jti : lookup "jti" claims ≡ some (str jti)) where
  -- For an authenticated request to the employee service, whose subject and token are neither ""
  -- nor "-", and whose line is among what Loki returns to the three queries for accesses, where
  -- `json.loads` gives back what was printed and the logs of the run are readable: if the audit ends
  -- with status 0, the token was not used at a user-facing service, the last event that names it
  -- and the employee service is its issue, and the subject, if it has a login among those that Loki
  -- returns, has one that is not later than the request.
  pub exit_status_vouches :
      (config : Config) (src : Source) (now_ns : ℕ) (logs : Logs) (ts_ns line : String) (ts : ℕ)
      (e : Entry)
      → Reads config src now_ns logs
      → Readable logs
      → src.loads line ≡ some (obj (log_fields log))
      → int_of_text ts_ns ≡ some ts
      → read_value src (some service_name) (ts_ns, line) ≡ ok e
      → Has logs.downstream e
      → Has logs.uses e
      → Has logs.accesses e
      → sub ≢ ""
      → sub ≢ "-"
      → jti ≢ ""
      → jti ≢ "-"
      → exit_status config src now_ns ≡ 0
      → (¬ Used jti logs.user_facing)
        × ((issue : Issue) × LastNamed Names (jti, service_name) issue logs.events)
        × (HasNoLogin sub logs.logins ⊎ HasLoginBy sub ts logs.logins)
  exit_status_vouches config src now logs ts_ns line ts e reads readable loaded time read
        in_downstream in_uses in_accesses full_sub dash_sub full dash clean =
      let (e', read', used, _, _) =
        access_is_read L app req r username claims log jti routed authentic logged named_jti src
          ts_ns line ts loaded time full dash in
      let same : e' ≡ e = cc (read, read') in
      let uses = subst (UsesToken (jti, service_name)) same used in
      let made : entry_of log ts service_name ≡ e =
        cc (read, read_value-log_fields src log service_name ts_ns line ts loaded time) in
      let accessed = subst (Accessed sub (pos ts)) made (
        Accessed-entry_of L app req r username claims log sub routed authentic logged named_sub ts
          full_sub dash_sub) in
      let (none_shared, issued, first) =
        (exit_status-clean_iff config src now logs reads readable).0 clean in
      let (first_use, is_first) =
        UsedToken-FirstUse (jti, service_name) logs.uses readable.uses
          (UsedToken-AnyEntry (jti, service_name) e logs.uses uses in_uses) in
      let (issue, last, _) = issued (jti, service_name) first_use is_first in
      (
        λ shared.
            none_shared jti shared
              (Used-AnyEntry jti e logs.downstream (uses.0, uses.1, uses.2) in_downstream),
        (issue, last),
        elim (login-cases sub logs.logins readable.logins) [
          | inl nobody ↦ inl nobody
          | inr (login, logged_in) ↦ inr (
              first sub (pos ts) login
                (Has-AnyEntry (Accessed sub (pos ts)) logs.accesses e accessed in_accesses)
                logged_in)
        ],
      )
