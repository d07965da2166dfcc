-- ===== src/EmployeeService/Employee/Access.antt =====
-- Who sees an employee's record, and with which status a request is answered.
pub mod Outcome
use gekko.Base.{
  String, true, Option, some, ◌≡◌, ◌≢◌, ◌↔◌, ◌⊎◌, inl, inr, refl, sym, ◌∙◌, arith, string_eq,
}
use gekko.Base.Dict.{Dict, lookup}
use gekko.Python.Errors.{http, Result, ok, raise, ◌>>=◌, Result-cases}
use gekko.Python.Json.{Json, optional_equals_text}
use gekko.EmployeeService.Request.{Request, Libraries}
use gekko.EmployeeService.Dpop.Errors.{Only401}
use gekko.EmployeeService.Auth.{RequestState, authenticate, get_claims, has_role}
use gekko.EmployeeService.Auth.Laws.{
  has_role-Only401, has_role-NoHttp, authenticate-Only401, IsAuthentic,
  authenticate-IsAuthentic_iff,
}
use gekko.EmployeeService.Employee.{
  App, employee_route, employee, Response, Readings, allowed, get_employee, respond, endpoint,
  access_log_middleware, serve, log_entry,
}

-- One asks for oneself, or has the role of a viewer.
abbrev pub IsPermitted : String → Dict String Json → Type 0
IsPermitted username claims =
    (optional_equals_text (lookup "preferred_username" claims) username ≡ true)
    ⊎ (has_role claims "hr-viewer" ≡ ok true)

module _ (L : Libraries) where
  -- The response of the employee endpoint, by the result of the authentication.
  answer : App → String → Result (Dict String Json) → Result Response
  answer app username r = respond L app (r >>= get_employee L app username)

  middleware-response :
      (app : App) (req : Request) (r : Readings) (x : Result Response) (s : RequestState)
      → (access_log_middleware L app req r (x, s)).1 ≡ x
  unfolding access_log_middleware
  middleware-response app req r (ok response) s = ground arith
  middleware-response app req r (raise e) s = refl

  serve-answer :
      (app : App) (req : Request) (r : Readings) (username : String)
      → app.route req ≡ employee_route username
      → (serve L app req r).1 ≡ answer app username (authenticate L app.auth_ctx req r.now)
  unfolding serve endpoint get_claims answer
  serve-answer app req r username routed =
      rw routed (elim (Result-cases (authenticate L app.auth_ctx req r.now)) [
        | inl (claims, good) ↦ rw good (middleware-response app req r _ _)
        | inr (e, bad) ↦ rw bad (middleware-response app req r _ _)
      ])

  get_employee-ok_iff :
      (app : App) (username : String) (claims : Dict String Json) (found : Dict String Json)
      → (get_employee L app username claims ≡ ok (employee found))
        ↔ (IsPermitted username claims × (app.find_employee username ≡ some found))
  unfolding get_employee allowed
  get_employee-ok_iff app username claims found = ground arith

  answer-ok :
      (app : App) (username : String) (x : Result (Dict String Json)) (found : Dict String Json)
      → answer app username x ≡ ok (record { status = 200; body = employee found })
      → (claims : Dict String Json) × (x ≡ ok claims)
        × (get_employee L app username claims ≡ ok (employee found))
  unfolding answer
  answer-ok app username (ok claims) found h = (claims, refl, ground arith)
  answer-ok app username (raise e) found h = absurd (ground arith)

  -- On the employee endpoint, the record of an employee is the response exactly where the request
  -- is authentic with some claims, these permit the access, and the record is the one found under
  -- the name of the path.
  pub serve-employee_iff :
      (app : App) (req : Request) (r : Readings) (username : String) (found : Dict String Json)
      → app.route req ≡ employee_route username
      → ((serve L app req r).1 ≡ ok (record { status = 200; body = employee found })) ↔ (
          (claims : Dict String Json) × IsAuthentic L app.auth_ctx req r.now claims
          × IsPermitted username claims
          × (app.find_employee username ≡ some found))
  unfolding answer
  serve-employee_iff app req r username found routed =
      let same = serve-answer app req r username routed in
      let authentic = authenticate-IsAuthentic_iff L app.auth_ctx req r.now in
      let permitted = get_employee-ok_iff app username in
      (
        (λ h.
            let (claims, good, got) = answer-ok app username _ found (sym same ∙ h) in
            let (may, known) = (permitted claims found).0 got in
            (claims, (authentic claims).0 good, may, known)),
        (λ (claims, auth, may, known).
            let good = (authentic claims).1 auth in
            same ∙ rw good (rw ((permitted claims found).1 (may, known)))),
      )

  get_employee_denied :
      (app : App) (find : String → Option (Dict String Json)) (username : String)
      (claims : Dict String Json)
      → ¬ IsPermitted username claims
      → get_employee L app username claims
        ≡ get_employee L (record app { find_employee = find }) username claims
  unfolding get_employee allowed
  get_employee_denied app find username claims denied = ground arith

  -- On the employee endpoint, where no claims with which the request is authentic permit the
  -- access, neither the response nor the access log depends on the employees that there are.
  pub serve_hides_employees :
      (app : App) (find : String → Option (Dict String Json)) (req : Request) (r : Readings)
      (username : String)
      → app.route req ≡ employee_route username
      → ((claims : Dict String Json)
          → IsAuthentic L app.auth_ctx req r.now claims
          → ¬ IsPermitted username claims)
      → serve L app req r ≡ serve L (record app { find_employee = find }) req r
  unfolding serve endpoint get_claims access_log_middleware log_entry
  serve_hides_employees app find req r username routed denied =
      rw routed (elim (Result-cases (authenticate L app.auth_ctx req r.now)) [
        | inl (claims, good) ↦ rw (
          good,
          get_employee_denied app find username claims (denied claims (authenticated claims good)),
        )
        | inr (e, bad) ↦ rw bad
      ])
    where
      authenticated :
          (claims : Dict String Json)
          → authenticate L app.auth_ctx req r.now ≡ ok claims
          → IsAuthentic L app.auth_ctx req r.now claims
      authenticated claims = (authenticate-IsAuthentic_iff L app.auth_ctx req r.now claims).0

  answer-authenticated :
      (app : App) (username : String) (claims : Dict String Json) (response : Response)
      → answer app username (ok claims) ≡ ok response
      → response.status ≢ 401
  unfolding answer get_employee allowed
  answer-authenticated app username claims response h refused =
      ground (arith, has_role-NoHttp claims "hr-viewer")

  -- An authenticated request is never answered with 401, the status that the audit leaves out.
  pub serve-authenticated_status :
      (app : App) (req : Request) (r : Readings) (username : String) (claims : Dict String Json)
      (response : Response)
      → app.route req ≡ employee_route username
      → authenticate L app.auth_ctx req r.now ≡ ok claims
      → (serve L app req r).1 ≡ ok response
      → response.status ≢ 401
  serve-authenticated_status app req r username claims response routed good h =
      let same = serve-answer app req r username routed in
      answer-authenticated app username claims response (rw good at (sym same ∙ h))
