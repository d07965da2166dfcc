-- ===== src/EmployeeService/Start/Tests.antt =====
-- A service that is started in an empty environment, and a request to it.
use gekko.Base.{String, none, some, ◌==◌, ◌≡◌, refl, inr, string_eq, if◌then◌else◌}
use gekko.Base.Dict.{Dict, lookup}
use gekko.Python.Errors.{ok}
use gekko.Python.Environ.{Environ}
use gekko.Python.Json.{Json}
use gekko.Python.Text.{partition}
use gekko.EmployeeService.Request.{Request}
use gekko.EmployeeService.Dpop.{bound_to, validate_dpop}
use gekko.EmployeeService.Auth.{credentials, verify, authenticate, has_role}
use gekko.EmployeeService.Auth.Laws.{authenticate-IsAuthentic_iff}
use gekko.EmployeeService.Employee.{App, Route, employee_route, employee, serve}
use gekko.EmployeeService.Employee.Access.{IsPermitted, serve-employee_iff}
use gekko.EmployeeService.Start.{Mongo, jwks_url, keycloak_issuer, mongo_uri, lifespan}
use gekko.EmployeeService.Start.Trust.{IsVerified, lifespan-serves}
use gekko.EmployeeService.Demo.{demo, readings, suzuki_record, tanaka}
use gekko.EmployeeService.Tests.{as_tanaka}

abbrev nothing_set : Environ
nothing_set name = none

abbrev database : Mongo
database uri name username = if name == "employee-mongo" then some suzuki_record else none

abbrev to_suzuki : Request → Route
to_suzuki req = employee_route "suzuki"

abbrev started : App
unfolding lifespan
started = lifespan nothing_set database to_suzuki

known : authenticate demo started.auth_ctx as_tanaka 1000000 ≡ ok tanaka
unfolding authenticate credentials verify validate_dpop bound_to lookup partition string_eq lifespan
known = refl

served :
    (serve demo (lifespan nothing_set database to_suzuki) as_tanaka readings).1
    ≡ ok (record { status = 200; body = employee suzuki_record })
unfolding has_role lookup string_eq lifespan
served = (serve-employee_iff demo started as_tanaka readings "suzuki" suzuki_record refl).1 (
  tanaka,
  (authenticate-IsAuthentic_iff demo started.auth_ctx as_tanaka 1000000 tanaka).0 known,
  inr refl,
  refl,
)

lifespan-serves_example :
    (claims : Dict String Json) × IsVerified demo
      (jwks_url nothing_set)
      (keycloak_issuer nothing_set)
      (credentials as_tanaka).1
      claims
    × IsPermitted "suzuki" claims
    × (database (mongo_uri nothing_set) "employee-mongo" "suzuki" ≡ some suzuki_record)
lifespan-serves_example =
    lifespan-serves demo nothing_set database to_suzuki as_tanaka readings "suzuki" suzuki_record
      refl served
