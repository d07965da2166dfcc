-- ===== src/EmployeeService/Employee/Logging.antt =====
-- Which requests leave a line in the access log, and what the line says.
use gekko.Base.{String, some, [], ◌∷◌, ◌≡◌, ◌≢◌, ◌↔◌, ◌⊎◌, refl, arith, string_eq, length}
use gekko.Base.Dict.{Dict, lookup}
use gekko.Python.Errors.{Exception, value_error, Result, ok, raise}
use gekko.Python.Text.{split}
use gekko.Python.Json.{Json, str}
use gekko.EmployeeService.Request.{Request, Libraries, decoded}
use gekko.EmployeeService.Dpop.Proof.{IsBoundBy}
use gekko.EmployeeService.Dpop.Errors.{validate_dpop_malformed}
use gekko.EmployeeService.Auth.{
  RequestState, fresh_state, or_default, credentials, verify, authenticate, get_claims,
}
use gekko.EmployeeService.Auth.Laws.{authenticate-raise}
use gekko.EmployeeService.Employee.{
  App, employee_route, Response, Readings, AccessLog, endpoint, access_log_middleware, serve,
  log_entry,
}

module _ (L : Libraries) (app : App) (req : Request) (r : Readings) where
  middleware-logs :
      (x : Result Response) (s : RequestState) (response : Response)
      → req.path ≢ "/health"
      → (access_log_middleware L app req r (x, s)).1 ≡ ok response
      → (access_log_middleware L app req r (x, s)).0 ≡ log_entry L app req r s response ∷ []
  unfolding access_log_middleware
  middleware-logs (ok answer) s response h e = ground arith
  middleware-logs (raise e) s response h p = cc

  -- A request outside `/health` that gets a response is logged by exactly one line, which has the
  -- method and the path of the request and the status of the response.
  pub serve-logged :
      (response : Response)
      → req.path ≢ "/health"
      → (serve L app req r).1 ≡ ok response
      → (entry : AccessLog) × ((serve L app req r).0 ≡ entry ∷ [])
        × (entry.method ≡ req.method)
        × (entry.path ≡ req.path)
        × (entry.status ≡ response.status)
  unfolding serve log_entry
  serve-logged response h e =
      let (x, s) = endpoint L app (app.route req) req r.now fresh_state in
      (log_entry L app req r s response, middleware-logs x s response h e, refl, refl, refl)

  middleware-unlogged :
      (x : Result Response) (s : RequestState)
      → req.path ≢ "/health"
      → ((access_log_middleware L app req r (x, s)).0 ≡ [])
        ↔ ((e : Exception) × ((access_log_middleware L app req r (x, s)).1 ≡ raise e))
  unfolding access_log_middleware
  middleware-unlogged (ok answer) s h = (λ q. absurd (ground arith), λ (e, q). ground arith)
  middleware-unlogged (raise e) s h = (λ q. (e, refl), λ q. refl)

  -- A request outside `/health` leaves no line exactly when an exception, and no response, ends
  -- it.
  pub serve-unlogged_iff :
      req.path ≢ "/health"
      → ((serve L app req r).0 ≡ []) ↔ ((e : Exception) × ((serve L app req r).1 ≡ raise e))
  unfolding serve
  serve-unlogged_iff h =
      let (x, s) = endpoint L app (app.route req) req r.now fresh_state in middleware-unlogged x s h

  pub middleware-entry :
      (x : Result Response) (s : RequestState) (entry : AccessLog)
      → (access_log_middleware L app req r (x, s)).0 ≡ entry ∷ []
      → (entry.sub ≡ or_default (str "-") s.sub) × (entry.jti ≡ or_default (str "-") s.jti)
  unfolding access_log_middleware log_entry
  middleware-entry (ok answer) s entry h = ground arith
  middleware-entry (raise e) s entry h = cc

  middleware-status :
      (x : Result Response) (s : RequestState) (entry : AccessLog)
      → (access_log_middleware L app req r (x, s)).0 ≡ entry ∷ []
      → (response : Response) × ((access_log_middleware L app req r (x, s)).1 ≡ ok response)
        × (entry.status ≡ response.status)
  unfolding access_log_middleware log_entry
  middleware-status (ok answer) s entry h = (answer, ground arith, ground arith)
  middleware-status (raise e) s entry h = cc

  -- A line is about a response, and has its status.
  pub serve-line_status :
      (entry : AccessLog)
      → (serve L app req r).0 ≡ entry ∷ []
      → (response : Response) × ((serve L app req r).1 ≡ ok response)
        × (entry.status ≡ response.status)
  unfolding serve
  serve-line_status entry h =
      let (x, s) = endpoint L app (app.route req) req r.now fresh_state in
      middleware-status x s entry h

  -- On the employee endpoint, if the request is authenticated with some claims and one line is
  -- logged, the line names the subject and the identifier of the claims, and "-" for one that they
  -- lack.
  pub serve-subject :
      (username : String) (claims : Dict String Json) (entry : AccessLog)
      → app.route req ≡ employee_route username
      → authenticate L app.auth_ctx req r.now ≡ ok claims
      → (serve L app req r).0 ≡ entry ∷ []
      → (entry.sub ≡ or_default (str "-") (lookup "sub" claims))
        × (entry.jti ≡ or_default (str "-") (lookup "jti" claims))
  unfolding serve endpoint get_claims
  serve-subject username claims entry routed good h =
      middleware-entry _ _ entry (rw (routed, good) at h)

  -- On the employee endpoint, a request with a verified token that is bound to a key, and with a
  -- proof that is not empty and does not consist of three parts, is neither answered nor logged: a
  -- `ValueError` ends it.
  pub serve_malformed :
      (username : String) (claims : Dict String Json) (cnf : Json) (proof : String)
      → app.route req ≡ employee_route username
      → ((credentials req).0 ≡ "Bearer") ⊎ ((credentials req).0 ≡ "DPoP")
      → (credentials req).1 ≢ ""
      → verify L app.auth_ctx (credentials req).1 ≡ decoded claims
      → IsBoundBy claims cnf
      → req.header "DPoP" ≡ some proof
      → proof ≢ ""
      → length (split b'.' proof) ≢ 3
      → serve L app req r ≡ ([], raise value_error)
  unfolding serve endpoint get_claims access_log_middleware
  serve_malformed username claims cnf proof routed scheme token good bound sent nonempty parts =
      let failed =
        validate_dpop_malformed L req r.now (credentials req).1 claims cnf proof bound sent nonempty
          parts in
      let out =
        authenticate-raise L app.auth_ctx req r.now claims value_error scheme token good failed in
      rw (routed, out)
