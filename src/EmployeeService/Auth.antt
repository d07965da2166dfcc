-- ===== src/EmployeeService/Auth.antt =====
-- employee-service/auth.py
pub mod Laws
pub mod Presented
use gekko.Base.{
  ℕ, String, Bool, true, false, Option, none, some, ◌==◌, ◌||◌, ◌&&◌, not, if◌then◌else◌, string_eq,
}
use gekko.Base.Dict.{Dict, lookup}
use gekko.Python.Errors.{Exception, http, Result, ok, raise, ◌>>=◌, ◌>>◌, require}
pub use gekko.Python.Json.{or_default}
use gekko.Python.Json.{Json, str, arr, obj, nil, end, get, member_of}
use gekko.Python.Text.{partition, ◌<>◌}
use gekko.EmployeeService.Request.{Request, Libraries, Jwt, decoded, jwt_error}
use gekko.EmployeeService.Dpop.{unauthorized, validate_dpop}

abbrev pub audience : String
audience = "employee-service"

pub record AuthContext : Type 0 where
  pub jwks_url : String
  pub issuer : String

-- `request.state`: what `get_claims` leaves for the access log.
pub record RequestState : Type 0 where
  pub sub : Option Json
  pub jti : Option Json

abbrev pub fresh_state : RequestState
fresh_state = record { sub = none; jti = none }

abbrev pub jwt_bind : {A B : Type 0} → Jwt A → (A → Jwt B) → Jwt B
jwt_bind (decoded a) f = f a
jwt_bind (jwt_error e) f = jwt_error e

-- `request.headers.get("Authorization", "")`, parted at the first space.
unfoldable pub credentials : Request → String × String
credentials req = partition b' ' (elim (req.header "Authorization") [ none ↦ "" | some h ↦ h ])

abbrev known_scheme : String → Bool
known_scheme scheme = scheme == "Bearer" || scheme == "DPoP"

module _ (L : Libraries) (ctx : AuthContext) where
  unfoldable pub verify : String → Jwt (Dict String Json)
  verify token =
      jwt_bind (L.signing_key ctx.jwks_url token)
        (λ key. L.decode_token token key audience ctx.issuer)

  abbrev verified : Jwt (Dict String Json) → Result (Dict String Json)
  verified (decoded claims) = ok claims
  verified (jwt_error e) = raise (unauthorized ("invalid token: " <> e))

  -- The claims of the request's token, or the exception.
  unfoldable pub authenticate : Request → ℕ → Result (Dict String Json)
  authenticate req now = do
    let token = (credentials req).1
    require (known_scheme (credentials req).0 && not (token == ""))
        (unauthorized "missing bearer token")
    claims ← verified (verify token)
    validate_dpop L req now token claims
    ok claims

  abbrev remember :
      RequestState → Result (Dict String Json) → Result (Dict String Json) × RequestState
  remember s (ok claims) = (
    ok claims,
    record {
      sub = some (or_default (str "-") (lookup "sub" claims));
      jti = some (or_default (str "-") (lookup "jti" claims));
    },
  )
  remember s (raise e) = (raise e, s)

  unfoldable pub get_claims : Request → ℕ → RequestState → Result (Dict String Json) × RequestState
  get_claims req now s = remember s (authenticate req now)

unfoldable pub has_role : Dict String Json → String → Result Bool
has_role claims role = do
  roles ← get (or_default (obj end) (lookup "realm_access" claims)) "roles"
  member_of role (or_default (arr nil) roles)
