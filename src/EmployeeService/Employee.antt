-- ===== src/EmployeeService/Employee.antt =====
-- employee-service/main.py: the endpoints and the access log.
pub mod Access
pub mod Logging
pub mod Named
pub mod Line
pub mod Trace
use Prim.Native.String.{[], ◌∷◌, char_at}
use gekko.Base.{
  ℕ, zero, suc, ◌+◌, ◌-◌, ◌/◌, ◌%◌, String, Bool, true, false, Option, none, some, List, [], ◌∷◌,
  ◌==◌, if◌then◌else◌, string_eq, not, ◌&&◌,
}
use gekko.Base.Dict.{Dict, lookup}
use gekko.Python.Errors.{Exception, http, Result, ok, raise, ◌>>=◌, ◌>>◌, require, get_or_raise}
use gekko.Python.Json.{Json, str, int, pos, obj, Fields, field, end, optional_equals_text}
use gekko.Python.Dumps.{dumps}
use gekko.Python.Text.{begins_with, is_infix, ◌<>◌, is_empty}
use gekko.EmployeeService.Request.{Request, Libraries}
use gekko.EmployeeService.Auth.{
  AuthContext, RequestState, fresh_state, or_default, get_claims, has_role,
}

pub data Body : Type 0 where
  health_ok : Body
  employee : Dict String Json → Body
  detail : String → Body

pub record Response : Type 0 where
  pub status : ℕ
  pub body : Body

-- One line of the access log, with the members of its JSON object.
pub record AccessLog : Type 0 where
  pub method : String
  pub path : String
  pub status : ℕ
  pub duration_ms : ℕ
  pub sub : Json
  pub jti : Json
  pub trace_id : String

-- The object that is printed, and its text.
unfoldable pub log_fields : AccessLog → Fields
log_fields l = field "type" (str "access_log") (
    field "method" (str l.method) (
      field "path" (str l.path) (
        field "status" (int (pos l.status)) (
          field "duration_ms" (int (pos l.duration_ms))
            (field "sub" l.sub (field "jti" l.jti (field "trace_id" (str l.trace_id) end)))))))

unfoldable pub log_text : AccessLog → List ℕ
unfolding log_fields
log_text l = dumps (obj (log_fields l))

-- Where FastAPI's router sends a request: to an endpoint, or to an answer of its own with
-- that status, such as 404 or 405.
pub data Route : Type 0 where
  health_route : Route
  employee_route : String → Route
  unrouted : ℕ → Route

-- `app.state`, with the router: the verifier, and `find_one` on the employees by their username, without `_id`.
pub record App : Type 0 where
  pub auth_ctx : AuthContext
  pub route : Request → Route
  pub find_employee : String → Option (Dict String Json)

-- `format(n, "032x")` for a trace id, which has 128 bits.
hex_digits : ℕ → ℕ → String → String
hex_digits zero n acc = acc
hex_digits (suc k) n acc = hex_digits k (n / 16) (char_at "0123456789abcdef" (n % 16) ∷ acc)

-- The id of the current span, if that is valid.
trace_text : Option ℕ → String
trace_text none = "-"
trace_text (some trace_id) = hex_digits 32 trace_id ""

-- What the clocks and the tracer read while a request is handled; times are in microseconds.
pub record Readings : Type 0 where
  pub now : ℕ
  pub start : ℕ
  pub stop : ℕ
  pub trace : Option ℕ

module _ (L : Libraries) (app : App) where
  -- Anyone may ask for themselves, for others it takes the role. Python's `and` asks for the
  -- role only of others.
  allowed : String → Dict String Json → Result Bool
  allowed username claims =
      let asks_role = has_role claims "hr-viewer" in
      if optional_equals_text (lookup "preferred_username" claims) username
      then ok true
      else asks_role

  pub get_employee : String → Dict String Json → Result Body
  get_employee username claims = do
    may ← allowed username claims
    require may (http 403 "insufficient role")
    found ← get_or_raise (http 404 "employee not found") (app.find_employee username)
    ok (employee found)

  -- FastAPI turns an `HTTPException` into a response; any other exception goes on up.
  abbrev respond : Result Body → Result Response
  respond (ok b) = ok (record { status = 200; body = b })
  respond (raise (http status text)) = ok (record { status = status; body = detail text })
  respond (raise e) = raise e

  -- The endpoint with its dependency: `get_claims` runs first.
  endpoint : Route → Request → ℕ → RequestState → Result Response × RequestState
  endpoint health_route req now s = (ok (record { status = 200; body = health_ok }), s)
  endpoint (employee_route username) req now s =
      let (claims, s') = get_claims L app.auth_ctx req now s in
      (respond (claims >>= get_employee username), s')
  endpoint (unrouted status) req now s = (ok (record { status = status; body = detail "" }), s)

  log_entry : Request → Readings → RequestState → Response → AccessLog
  log_entry req r s response = record {
    method = req.method;
    path = req.path;
    status = response.status;
    duration_ms = (r.stop - r.start) / 1000;
    sub = or_default (str "-") s.sub;
    jti = or_default (str "-") s.jti;
    trace_id = trace_text r.trace;
  }

  -- The lines that are printed, and the response. An exception leaves `call_next`, and with it
  -- the middleware, before the line is printed.
  pub access_log_middleware :
      Request → Readings → Result Response × RequestState → List AccessLog × Result Response
  access_log_middleware req r (ok response, s) =
      if req.path == "/health"
      then ([], ok response)
      else (log_entry req r s response ∷ [], ok response)
  access_log_middleware req r (raise e, s) = ([], raise e)

  -- One request from its arrival to its response.
  pub serve : Request → Readings → List AccessLog × Result Response
  serve req r = access_log_middleware req r (endpoint (app.route req) req r.now fresh_state)
