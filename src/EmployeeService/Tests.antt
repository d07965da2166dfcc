-- ===== src/EmployeeService/Tests.antt =====
-- Runs of the employee service, and the theorems at concrete requests.
use mathlib.Core.Bool.{false≢true}
use text.Mathlib.TextEquality.{eq_iff}
use gekko.Base.{
  String, none, some, [], ◌∷◌, ◌≡◌, ◌≢◌, ◌↔◌, refl, inl, inr, arith, string_eq, length,
}
use gekko.Base.Dict.{Dict, lookup}
use gekko.Python.Errors.{Exception, ok, raise, value_error}
use gekko.Python.Text.{text_length, partition, split}
use gekko.Python.Json.{Json, str}
use gekko.EmployeeService.Request.{Request}
use gekko.EmployeeService.Encoding.{b64url_decode, b64url_encode}
use gekko.EmployeeService.Encoding.Roundtrip.{b64url_decode-b64url_encode}
use gekko.EmployeeService.Dpop.{validate_dpop, bound_to}
use gekko.EmployeeService.Dpop.Proof.{IsBoundBy, IsProof, validate_dpop-IsProof_iff}
use gekko.EmployeeService.Auth.{credentials, verify, authenticate, has_role}
use gekko.EmployeeService.Auth.Laws.{IsAuthentic, authenticate-IsAuthentic_iff}
use gekko.EmployeeService.Auth.Presented.{IsPresented, authenticate-IsPresented_iff}
use gekko.EmployeeService.Employee.Line.{log_text-injective}
use gekko.EmployeeService.Employee.{employee, Response, AccessLog, serve}
use gekko.EmployeeService.Employee.Access.{IsPermitted, serve-employee_iff, serve_hides_employees}
use gekko.EmployeeService.Employee.Trace.{from_hex, serve-trace_id}
use gekko.EmployeeService.Employee.Logging.{serve-logged, serve-subject, serve_malformed}
use gekko.EmployeeService.Demo.{
  demo, app, context, request_with, readings, suzuki_record, tanaka, yamada, bound, bound_cnf,
}

abbrev pub as_tanaka : Request
as_tanaka = request_with (some "Bearer t-tanaka") none

abbrev as_yamada : Request
as_yamada = request_with (some "DPoP t-yamada") none

abbrev malformed : Request
malformed = request_with (some "DPoP t-bound") (some "no-dots")

pub tanaka_authenticated : authenticate demo context as_tanaka 1000000 ≡ ok tanaka
unfolding authenticate credentials verify validate_dpop bound_to lookup partition string_eq
tanaka_authenticated = refl

yamada_authenticated : authenticate demo context as_yamada 1000000 ≡ ok yamada
unfolding authenticate credentials verify validate_dpop bound_to lookup partition string_eq
yamada_authenticated = refl

unauthenticated :
    authenticate demo context (request_with (some "Basic x") none) 0
    ≡ raise (Exception.http 401 "missing bearer token")
unfolding authenticate credentials partition string_eq
unauthenticated = refl

path_logged : ◌≢◌ {A = String} "/employees/suzuki" "/health"
path_logged p = false≢true ((eq_iff "/employees/suzuki" "/health").1 p)

bound-IsBoundBy : IsBoundBy bound bound_cnf
unfolding lookup string_eq
bound-IsBoundBy = (refl, refl, refl)

b64url_decode-b64url_encode_example :
    b64url_decode (b64url_encode (255 ∷ 0 ∷ 17 ∷ 128 ∷ [])) ≡ ok (255 ∷ 0 ∷ 17 ∷ 128 ∷ [])
b64url_decode-b64url_encode_example =
    b64url_decode-b64url_encode (255 ∷ 0 ∷ 17 ∷ 128 ∷ []) (omega arith)

validate_dpop-IsProof_iff_example :
    (validate_dpop demo malformed 5 "t-bound" bound ≡ ok tt)
    ↔ IsProof demo malformed 5 "t-bound" bound_cnf
validate_dpop-IsProof_iff_example =
    validate_dpop-IsProof_iff demo malformed 5 "t-bound" bound bound_cnf bound-IsBoundBy

authenticate-IsPresented_iff_example :
    (authenticate demo context as_tanaka 5 ≡ ok tanaka)
    ↔ IsPresented demo context as_tanaka 5 tanaka
authenticate-IsPresented_iff_example = authenticate-IsPresented_iff demo context as_tanaka 5 tanaka

serve-employee_iff_example :
    ((serve demo app as_tanaka readings).1
      ≡ ok (record { status = 200; body = employee suzuki_record }))
    ↔ ((claims : Dict String Json) × IsAuthentic demo context as_tanaka 1000000 claims
        × IsPermitted "suzuki" claims
        × (app.find_employee "suzuki" ≡ some suzuki_record))
serve-employee_iff_example =
    serve-employee_iff demo app as_tanaka readings "suzuki" suzuki_record refl

yamada_not-IsPermitted : ¬ IsPermitted "suzuki" yamada
unfolding lookup has_role string_eq
yamada_not-IsPermitted (inl h) = cc
yamada_not-IsPermitted (inr h) = cc

yamada_denied :
    (claims : Dict String Json)
    → IsAuthentic demo context as_yamada 1000000 claims
    → ¬ IsPermitted "suzuki" claims
yamada_denied claims a =
    let read = (authenticate-IsAuthentic_iff demo context as_yamada 1000000 claims).1 a in
    let same : yamada ≡ claims = cc (yamada_authenticated, read) in
    rw (← same) yamada_not-IsPermitted

serve_hides_employees_example :
    serve demo app as_yamada readings
    ≡ serve demo (record app { find_employee = λ name. none }) as_yamada readings
serve_hides_employees_example =
    serve_hides_employees demo app (λ name. none) as_yamada readings "suzuki" refl yamada_denied

abbrev shown : Response
shown = record { status = 200; body = employee suzuki_record }

tanaka_sees : (serve demo app as_tanaka readings).1 ≡ ok shown
unfolding has_role lookup string_eq
tanaka_sees = (serve-employee_iff demo app as_tanaka readings "suzuki" suzuki_record refl).1 (
  tanaka,
  (authenticate-IsAuthentic_iff demo context as_tanaka 1000000 tanaka).0 tanaka_authenticated,
  inr refl,
  refl,
)

pub tanaka_logged : (entry : AccessLog) × ((serve demo app as_tanaka readings).0 ≡ entry ∷ [])
tanaka_logged =
    let (entry, logged, m, p, st) =
      serve-logged demo app as_tanaka readings shown path_logged tanaka_sees in
    (entry, logged)

serve-subject_example : (tanaka_logged.0.sub ≡ str "s2") × (tanaka_logged.0.jti ≡ str "j2")
unfolding lookup string_eq
serve-subject_example =
    serve-subject demo app as_tanaka readings "suzuki" tanaka tanaka_logged.0 refl
      tanaka_authenticated tanaka_logged.1

serve_malformed_example : serve demo app malformed readings ≡ ([], raise value_error)
unfolding credentials verify partition split string_eq
serve_malformed_example =
    serve_malformed demo app malformed readings "suzuki" bound bound_cnf "no-dots" refl (inr refl)
      token refl bound-IsBoundBy refl nonempty one_part
  where
    token : ◌≢◌ {A = String} "t-bound" ""
    token p = false≢true ((eq_iff "t-bound" "").1 p)

    nonempty : ◌≢◌ {A = String} "no-dots" ""
    nonempty p = false≢true ((eq_iff "no-dots" "").1 p)

    one_part : length (split b'.' "no-dots") ≢ 3
    one_part = omega arith

serve-trace_id_example :
    (text_length tanaka_logged.0.trace_id ≡ 32) × (from_hex 0 tanaka_logged.0.trace_id ≡ some 255)
serve-trace_id_example =
    serve-trace_id demo app as_tanaka readings tanaka_logged.0 255 tanaka_logged.1 refl
      (omega arith)

-- A path with a line break and a quotation mark in it.
abbrev logged_line : AccessLog
logged_line = record {
  method = "GET";
  path = "/employees/\n{\"type\": \"access_log\"}";
  status = 404;
  duration_ms = 3;
  sub = str "u1";
  jti = str "t1";
  trace_id = "-";
}

log_text-injective_example : logged_line ≡ logged_line
log_text-injective_example = log_text-injective logged_line logged_line refl
