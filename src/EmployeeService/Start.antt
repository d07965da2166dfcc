-- ===== src/EmployeeService/Start.antt =====
-- employee-service/main.py: what the service reads from its environment when it starts.
pub mod Trust
mod Tests
use gekko.Base.{String, Option}
use gekko.Base.Dict.{Dict}
use gekko.Python.Environ.{Environ, environ_get}
use gekko.Python.Json.{Json}
use gekko.Python.Text.{◌<>◌}
use gekko.EmployeeService.Request.{Request}
use gekko.EmployeeService.Employee.{App, Route}

abbrev pub getenv : Environ → String → String → String
getenv env key fallback = environ_get env key fallback

-- `MongoClient(uri)[name].employees.find_one({"username": username}, {"_id": 0})`
abbrev pub Mongo : Type 0
Mongo = String → String → String → Option (Dict String Json)

abbrev pub jwks_url : Environ → String
jwks_url env =
    getenv env "KEYCLOAK_INTERNAL_URL" "http://localhost:8080/realms/kikan-system"
    <> "/protocol/openid-connect/certs"

abbrev pub keycloak_issuer : Environ → String
keycloak_issuer env = getenv env "KEYCLOAK_ISSUER" "http://localhost:8080/realms/kikan-system"

abbrev pub mongo_uri : Environ → String
mongo_uri env = getenv env "MONGO_URI" "mongodb://localhost:27017"

-- `app.state` after the start; the router is FastAPI's.
unfoldable pub lifespan : Environ → Mongo → (Request → Route) → App
lifespan env mongo route = record {
  auth_ctx = record { jwks_url = jwks_url env; issuer = keycloak_issuer env };
  route = route;
  find_employee = mongo (mongo_uri env) "employee-mongo";
}
