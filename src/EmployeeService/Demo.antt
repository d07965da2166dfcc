-- ===== src/EmployeeService/Demo.antt =====
-- A small instance: two tokens, two employees, and libraries that only compare texts.
use gekko.Base.{String, Option, none, some, [], ◌∷◌, ◌==◌, if◌then◌else◌, string_eq}
use gekko.Base.Dict.{Dict}
use gekko.Python.Json.{Json, Fields, Items, str, arr, obj, nil, cons, end, field}
use gekko.EmployeeService.Request.{Request, Libraries, decoded, jwt_error}
use gekko.EmployeeService.Auth.{AuthContext}
use gekko.EmployeeService.Employee.{App, employee_route, Readings}

abbrev pub viewer_roles : Items
viewer_roles = cons (str "order-viewer") (cons (str "hr-viewer") nil)

abbrev pub viewer_realm : Fields
viewer_realm = field "roles" (arr viewer_roles) end

-- A member of the sales department, without the role of a viewer.
abbrev pub yamada : Dict String Json
yamada = ("preferred_username", str "yamada") ∷ ("sub", str "s1") ∷ ("jti", str "j1") ∷ []

abbrev pub tanaka : Dict String Json
tanaka =
    ("preferred_username", str "tanaka")
    ∷ ("realm_access", obj viewer_realm)
    ∷ ("sub", str "s2")
    ∷ ("jti", str "j2")
    ∷ []

abbrev pub bound_cnf : Json
bound_cnf = obj (field "jkt" (str "k") end)

-- A token that is bound to a key.
abbrev pub bound : Dict String Json
bound = ("preferred_username", str "yamada") ∷ ("cnf", bound_cnf) ∷ []

abbrev pub demo : Libraries
demo = record {
  Key = Unit {0};
  SigningKey = Unit {0};
  sha256 = λ bs. bs;
  loads = λ bs. none;
  public_key = λ x y. some tt;
  decode_proof = λ proof key. jwt_error "bad";
  signing_key = λ url token. decoded tt;
  decode_token = λ token key audience issuer.
      if token == "t-yamada"
      then decoded yamada
      else if token == "t-tanaka"
      then decoded tanaka
      else if token == "t-bound"
      then decoded bound
      else jwt_error "bad";
}

abbrev pub context : AuthContext
context = record { jwks_url = "http://keycloak/certs"; issuer = "http://keycloak" }

abbrev pub suzuki_record : Dict String Json
suzuki_record = ("username", str "suzuki") ∷ ("department", str "support") ∷ []

-- Every request is for the record of `suzuki`.
abbrev pub app : App
app = record {
  auth_ctx = context;
  route = λ req. employee_route "suzuki";
  find_employee = λ name. if name == "suzuki" then some suzuki_record else none;
}

abbrev pub request_with : Option String → Option String → Request
request_with authorization proof = record {
  method = "GET";
  path = "/employees/suzuki";
  url = "http://employee-service/employees/suzuki";
  header = λ name.
      if name == "Authorization" then authorization else if name == "DPoP" then proof else none;
}

abbrev pub readings : Readings
readings = record { now = 1000000; start = 5000; stop = 9000; trace = some 255 }
