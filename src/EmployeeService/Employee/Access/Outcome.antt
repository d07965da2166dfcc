-- ===== src/EmployeeService/Employee/Access/Outcome.antt =====
-- employee-service/main.py: how a request to the employee endpoint ends, and why.
use gekko.Base.{ℕ, String, none, some, ◌≡◌, ◌≢◌, ◌⊎◌, string_eq}
use gekko.Base.Dict.{Dict}
use gekko.Python.Errors.{Exception, http, Result, ok, raise}
use gekko.Python.Json.{Json}
use gekko.EmployeeService.Request.{Request}
use gekko.EmployeeService.Auth.{has_role}
use gekko.EmployeeService.Employee.{App, employee, detail, Response}
use gekko.EmployeeService.Employee.Access.{IsPermitted}

-- Why a request to the endpoint gets its response, by the result of the authentication.
abbrev pub IsReason : App → String → Result (Dict String Json) → Response → Type 0
IsReason app username x response =
    ((response.status ≡ 200)
      × (claims found : Dict String Json) × (x ≡ ok claims)
      × IsPermitted username claims
      × (app.find_employee username ≡ some found)
      × (response.body ≡ employee found))
    ⊎ ((response.status ≡ 401)
        × (text : String) × (x ≡ raise (http 401 text))
        × (response.body ≡ detail text))
    ⊎ ((response.status ≡ 403)
        × (claims : Dict String Json) × (x ≡ ok claims)
        × (¬ IsPermitted username claims)
        × (response.body ≡ detail "insufficient role"))
    ⊎ ((response.status ≡ 404)
        × (claims : Dict String Json) × (x ≡ ok claims)
        × IsPermitted username claims
        × (app.find_employee username ≡ none)
        × (response.body ≡ detail "employee not found"))

-- Where an exception that is no `HTTPException` comes from.
abbrev pub IsUnhandled : Result (Dict String Json) → Exception → Type 0
IsUnhandled x e =
    ((status : ℕ) (text : String) → e ≢ http status text)
    × ((x ≡ raise e)
        ⊎ ((claims : Dict String Json) × (x ≡ ok claims) × (has_role claims "hr-viewer" ≡ raise e)))

abbrev pub Ends : App → String → Result (Dict String Json) → Result Response → Type 0
Ends app username x y =
    ((response : Response) × (y ≡ ok response) × IsReason app username x response)
    ⊎ ((e : Exception) × (y ≡ raise e) × IsUnhandled x e)
