-- ===== src/Scenario/Bypass.antt =====
-- audit/scenario.py: `run_bypass_attempt`, an access with a token that no exchange has issued.
pub mod Laws
use gekko.Base.{String, true, none, some, [], ◌∷◌, ltb, leb, ◌&&◌, if◌then◌else◌}
use gekko.Python.Errors.{Result, ok, raise, request_error, value_error, attribute_error}
use gekko.Python.Json.{Json, str, subscript, get}
use gekko.Python.Text.{◌<>◌}
use gekko.Python.Environ.{Environ, environ_get}
use gekko.Scenario.Web.{
  keycloak_internal_url, inventory_service_url, Outgoing, Incoming, Net, M, ◌>>=◌, ◌>>◌, lift,
  try_else, print, send, bypass_title, bypass_no_token, bypass_token, bypass_failed, bypass_done,
}
use gekko.Scenario.Token.{decode_jwt_claims}

-- The service's own credentials, for a scope that the exchange is meant to give.
abbrev pub token_request : Environ → Outgoing
token_request env = record {
  session = none;
  method = "POST";
  url = keycloak_internal_url env <> "/protocol/openid-connect/token";
  allow_redirects = true;
  form =
      ("grant_type", "client_credentials")
      ∷ ("client_id", "order-service")
      ∷ ("client_secret", environ_get env "ORDER_SERVICE_CLIENT_SECRET" "order-service-secret")
      ∷ ("scope", "inventory roles")
      ∷ [];
  json = none;
  headers = [];
  timeout = 10;
}

abbrev pub inventory_request : Environ → String → Outgoing
inventory_request env token = record {
  session = none;
  method = "GET";
  url = inventory_service_url env <> "/inventory/product-A";
  allow_redirects = true;
  form = [];
  json = none;
  headers = ("Authorization", "Bearer " <> token) ∷ [];
  timeout = 10;
}

-- `r.raise_for_status(); r.json()["access_token"]`
abbrev pub token_of : Incoming → Result Json
token_of r =
    if leb 400 r.status && ltb r.status 600
    then raise request_error
    else elim r.json [ none ↦ raise value_error | some v ↦ subscript v "access_token" ]

-- `access_token.split` of a value that is no text.
abbrev pub token_text : Json → Result String
token_text (str token) = ok token
token_text _ = raise attribute_error

module _ (net : Net) (env : Environ) where
  request_token : M net Json
  request_token = do r ← send (token_request env); lift (token_of r)

  visit_inventory : String → M net (Unit {0})
  visit_inventory token =
      try_else (send (inventory_request env token)) (λ e. print (bypass_failed e))
        λ r. print (bypass_done (ltb r.status 400) r.status)

  use_token : Json → M net (Unit {0})
  use_token access_token = do
    token ← lift (token_text access_token)
    claims ← lift (decode_jwt_claims net token)
    aud ← lift (get claims "aud")
    sub ← lift (get claims "sub")
    jti ← lift (get claims "jti")
    print (bypass_token aud sub jti)
    visit_inventory token

  pub run_bypass_attempt : M net (Unit {0})
  run_bypass_attempt = do
    print bypass_title
    try_else request_token (λ e. print (bypass_no_token e)) use_token
