-- ===== src/EmployeeService/Employee/Named.antt =====
-- employee-service/main.py: the names in the access log are texts.
use gekko.Base.{String, none, some, [], ◌∷◌, ◌≡◌, ◌⊎◌, inl, inr, refl, ◌∙◌, string_eq}
use gekko.Base.Dict.{Dict, lookup}
use gekko.Python.Errors.{ok, Result-cases}
use gekko.Python.Json.{Json, str}
use gekko.EmployeeService.Request.{Request, Libraries}
use gekko.EmployeeService.Auth.{RequestState, fresh_state, or_default, authenticate, get_claims}
use gekko.EmployeeService.Employee.{
  App, Route, health_route, employee_route, unrouted, Readings, AccessLog, endpoint, serve,
}
use gekko.EmployeeService.Employee.Logging.{middleware-entry}

-- A claim that is a text if it is there, as PyJWT demands of `sub` and `jti`.
abbrev pub IsTextClaim : String → Dict String Json → Type 0
IsTextClaim k claims = (lookup k claims ≡ none) ⊎ ((s : String) × (lookup k claims ≡ some (str s)))

abbrev pub IsNamed : Json → Type 0
IsNamed v = (s : String) × (v ≡ str s)

claim-IsNamed :
    (k : String) (claims : Dict String Json)
    → IsTextClaim k claims
    → IsNamed (or_default (str "-") (lookup k claims))
claim-IsNamed k claims (inl missing) = ("-", rw missing refl)
claim-IsNamed k claims (inr (s, found)) = (s, rw found refl)

module _ (L : Libraries) (app : App) (req : Request) (r : Readings) where
  -- The claims of the request's token name it and its subject by texts.
  abbrev pub HasTextClaims : Type 0
  HasTextClaims =
      (claims : Dict String Json)
      → authenticate L app.auth_ctx req r.now ≡ ok claims
      → IsTextClaim "sub" claims × IsTextClaim "jti" claims

  abbrev StateNamed : RequestState → Type 0
  StateNamed s = IsNamed (or_default (str "-") s.sub) × IsNamed (or_default (str "-") s.jti)

  endpoint-StateNamed :
      (route : Route) → HasTextClaims → StateNamed (endpoint L app route req r.now fresh_state).1
  unfolding endpoint get_claims
  endpoint-StateNamed health_route text = (("-", refl), ("-", refl))
  endpoint-StateNamed (unrouted status) text = (("-", refl), ("-", refl))
  endpoint-StateNamed (employee_route username) text =
      elim (Result-cases (authenticate L app.auth_ctx req r.now)) [
        | inr (e, failed) ↦ rw failed (("-", refl), ("-", refl))
        | inl (claims, good) ↦
            let (sub, jti) = text claims good in
            rw good (claim-IsNamed "sub" claims sub, claim-IsNamed "jti" claims jti)
      ]

  -- The line of a request, whose claims are texts if it is authenticated, has texts for both names.
  pub serve-IsNamed :
      (entry : AccessLog)
      → HasTextClaims
      → (serve L app req r).0 ≡ entry ∷ []
      → IsNamed entry.sub × IsNamed entry.jti
  unfolding serve
  serve-IsNamed entry text logged =
      let ((s, sub), (j, jti)) = endpoint-StateNamed (app.route req) text in
      let (x, state) = endpoint L app (app.route req) req r.now fresh_state in
      let (sub', jti') = middleware-entry L app req r x state entry logged in
      ((s, sub' ∙ sub), (j, jti' ∙ jti))
