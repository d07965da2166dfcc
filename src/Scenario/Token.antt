-- ===== src/Scenario/Token.antt =====
-- audit/scenario.py: `decode_jwt_claims`, which reads a token without verifying it.
pub mod Laws
use gekko.Base.{String, List, ◌∷◌}
use gekko.Python.Errors.{Result, ok, raise, ◌>>=◌, index_error, value_error, get_or_raise}
use gekko.Python.Json.{Json}
use gekko.Python.Text.{split}
use gekko.EmployeeService.Encoding.{b64url_decode}
use gekko.Scenario.Web.{Net}

-- `parts[1]`
abbrev pub second_part : List String → Result String
second_part (_ ∷ payload ∷ _) = ok payload
second_part _ = raise index_error

-- The payload is padded and decoded as in employee-service/dpop.py.
unfoldable pub decode_jwt_claims : Net → String → Result Json
decode_jwt_claims net access_token = do
  payload ← second_part (split b'.' access_token)
  bytes ← b64url_decode payload
  get_or_raise value_error (net.loads bytes)
