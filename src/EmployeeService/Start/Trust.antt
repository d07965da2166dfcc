-- ===== src/EmployeeService/Start/Trust.antt =====
-- Whose tokens the started service trusts, and where it finds the employees.
use gekko.Base.{String, some, ◌≡◌, refl, arith}
use gekko.Base.Dict.{Dict}
use gekko.Python.Errors.{ok}
use gekko.Python.Environ.{Environ, environ_get}
use gekko.Python.Text.{◌<>◌}
use gekko.Python.Json.{Json}
use gekko.EmployeeService.Request.{Request, Libraries, Jwt, decoded, jwt_error}
use gekko.EmployeeService.Auth.{AuthContext, credentials, verify}
use gekko.EmployeeService.Employee.{employee_route, employee, Route, Readings, serve}
use gekko.EmployeeService.Employee.Access.{IsPermitted, serve-employee_iff}
use gekko.EmployeeService.Start.{Mongo, lifespan}

module _ (L : Libraries) where
  -- The token is one for this service: a key from that URL verifies it, with that issuer.
  pub record IsVerified (url issuer token : String) (claims : Dict String Json) : Type 0 where
    pub key : L.SigningKey
    pub published : L.signing_key url token ≡ decoded key
    pub verified : L.decode_token token key "employee-service" issuer ≡ decoded claims

  verify-IsVerified :
      (ctx : AuthContext) (token : String) (claims : Dict String Json)
      → verify L ctx token ≡ decoded claims
      → IsVerified ctx.jwks_url ctx.issuer token claims
  unfolding verify
  verify-IsVerified ctx token claims h = go (L.signing_key ctx.jwks_url token) refl
    where
      go :
          (k : Jwt L.SigningKey)
          → L.signing_key ctx.jwks_url token ≡ k
          → IsVerified ctx.jwks_url ctx.issuer token claims
      go (decoded key) p = record { key = key; published = p; verified = cc (p, h) }
      go (jwt_error e) p = absurd (ground arith)

  -- Where the started service answers with the record of an employee, a key that Keycloak
  -- publishes at its internal address verifies the token for this service and with the issuer of
  -- the environment, the claims permit the access, and the record is the one that the database of
  -- the environment has.
  pub lifespan-serves :
      (env : Environ) (mongo : Mongo) (route : Request → Route) (req : Request) (r : Readings)
      (username : String) (found : Dict String Json)
      → route req ≡ employee_route username
      → (serve L (lifespan env mongo route) req r).1
        ≡ ok (record { status = 200; body = employee found })
      → (claims : Dict String Json) × IsVerified
          (environ_get env "KEYCLOAK_INTERNAL_URL" "http://localhost:8080/realms/kikan-system"
            <> "/protocol/openid-connect/certs")
          (environ_get env "KEYCLOAK_ISSUER" "http://localhost:8080/realms/kikan-system")
          (credentials req).1
          claims
        × IsPermitted username claims
        × (mongo (environ_get env "MONGO_URI" "mongodb://localhost:27017") "employee-mongo" username
            ≡ some found)
  unfolding lifespan
  lifespan-serves env mongo route req r username found routed answered =
      let app = lifespan env mongo route in
      let (claims, authentic, permitted, there) =
        (serve-employee_iff L app req r username found routed).0 answered in
      (
        claims,
        verify-IsVerified app.auth_ctx (credentials req).1 claims authentic.verified,
        permitted,
        there,
      )
