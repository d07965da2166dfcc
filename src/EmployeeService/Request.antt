-- ===== src/EmployeeService/Request.antt =====
-- What the handlers read of a request, and the libraries that they call.
use gekko.Base.{ℕ, String, Option, List}
use gekko.Base.Dict.{Dict}
use gekko.Python.Json.{Json}

-- Starlette's `Request`: `header` is `request.headers.get`, `url` is `str(request.url)`.
pub record Request : Type 0 where
  pub method : String
  pub path : String
  pub url : String
  pub header : String → Option String

-- What PyJWT does: it returns a value, or raises a `PyJWTError` with a text.
pub data Jwt (A : Type 0) : Type 0 where
  decoded : A → Jwt A
  jwt_error : String → Jwt A

-- `cryptography`, `hashlib`, `json.loads` and PyJWT. `none` stands for a `ValueError`.
pub record Libraries : Type 1 where
  pub Key : Type 0
  pub SigningKey : Type 0
  pub sha256 : List ℕ → List ℕ
  pub loads : List ℕ → Option Json
  -- `EllipticCurvePublicNumbers(x, y, SECP256R1()).public_key()`
  pub public_key : ℕ → ℕ → Option Key
  -- `jwt.decode(proof, key, algorithms=["ES256"], options={"verify_exp": False})`
  pub decode_proof : String → Key → Jwt (Dict String Json)
  -- `PyJWKClient(jwks_url).get_signing_key_from_jwt(token).key`
  pub signing_key : String → String → Jwt SigningKey
  -- `jwt.decode(token, key, algorithms=["RS256"], audience=audience, issuer=issuer)`
  pub decode_token : String → SigningKey → String → String → Jwt (Dict String Json)
