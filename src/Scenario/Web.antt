-- ===== src/Scenario/Web.antt =====
-- audit/scenario.py: the addresses, and what `requests` and `print` do, as a monad of exceptions
-- over a state that keeps what was sent and printed.
pub mod Laws
use gekko.Base.{ℕ, suc, String, Bool, Option, none, some, List, [], ◌∷◌, ◌++◌}
use gekko.Python.Environ.{Environ, environ_get}
use gekko.Python.Errors.{Exception, request_error, key_error, Result, ok, raise}
use gekko.Python.Json.{Json}
use gekko.Python.Replace.{replace}

abbrev pub frontend_url : Environ → String
frontend_url env = environ_get env "FRONTEND_URL" "http://edge-proxy:3000"

abbrev pub public_url : String
public_url = "http://localhost:3000"

abbrev pub keycloak_internal_url : Environ → String
keycloak_internal_url env =
    environ_get env "KEYCLOAK_INTERNAL_URL" "http://keycloak:8080/realms/kikan-system"

abbrev pub inventory_service_url : Environ → String
inventory_service_url env =
    environ_get env "INVENTORY_SERVICE_BASE_URL" "http://inventory-service:8082"

unfoldable pub rewrite : Environ → String → String
rewrite env url = replace public_url (frontend_url env) url

-- A call of `requests`, with the session it belongs to, if to any; timeouts are in seconds.
pub record Outgoing : Type 0 where
  pub session : Option ℕ
  pub method : String
  pub url : String
  pub allow_redirects : Bool
  pub form : List (String × String)
  pub json : Option Json
  pub headers : List (String × String)
  pub timeout : ℕ

-- A response: `location` is `headers["Location"]`, and `json` has no value where `r.json()` raises.
pub record Incoming : Type 0 where
  pub status : ℕ
  pub location : Option String
  pub content : List ℕ
  pub text : String
  pub json : Option Json

-- The network with all that answers there, and the cookies of the sessions. A call that raises a
-- `RequestException` has no response.
pub record Net : Type 1 where
  pub World : Type 0
  pub send : Outgoing → World → Option Incoming × World
  -- `json.loads` of bytes, and `html.unescape`.
  pub loads : List ℕ → Option Json
  pub unescape : String → String

-- The body of a response, as `call` returns it.
pub data Body : Type 0 where
  no_body : Body
  body_json : Json → Body
  body_text : String → Body

-- One line that is printed, without its decoration.
pub data Line : Type 0 where
  demo_title : String → Line
  demo_done : Line
  scenario_title : String → String → Line
  bypass_title : Line
  login_failed : Exception → Line
  logged_in : Line
  step_failed : String → String → Exception → Line
  step_done : Bool → String → String → String → ℕ → Line
  step_body : Body → Line
  bypass_no_token : Exception → Line
  bypass_token : Option Json → Option Json → Option Json → Line
  bypass_failed : Exception → Line
  bypass_done : Bool → ℕ → Line

-- `sessions` counts the sessions that were made; each has the number of those before it.
pub record State (net : Net) : Type 0 where
  pub world : net.World
  pub sessions : ℕ
  pub sent : List Outgoing
  pub printed : List Line

module _ (net : Net) where
  abbrev pub M : Type 0 → Type 0
  M A = State net → Result A × State net

module _ {net : Net} where
  infixl 5 ◌>>=◌ ◌>>◌
  abbrev pub resume : {A B : Type 0} → (A → M net B) → Result A × State net → Result B × State net
  resume k (ok a, s) = k a s
  resume k (raise e, s) = (raise e, s)

  abbrev pub ◌>>=◌ : {A B : Type 0} → M net A → (A → M net B) → M net B
  ◌>>=◌ m k s = resume k (m s)

  abbrev pub ◌>>◌ : {A B : Type 0} → M net A → M net B → M net B
  m >> k = m >>= λ _. k

  abbrev pub pure : {A : Type 0} → A → M net A
  pure a s = (ok a, s)

  abbrev pub lift : {A : Type 0} → Result A → M net A
  lift r s = (r, s)

  -- `try: m except Exception as e: handler(e)`, and what follows where nothing is raised.
  abbrev pub handle :
      {A B : Type 0}
      → (Exception → M net B)
      → (A → M net B)
      → Result A × State net
      → Result B × State net
  handle handler next (ok a, s) = next a s
  handle handler next (raise e, s) = handler e s

  abbrev pub try_else : {A B : Type 0} → M net A → (Exception → M net B) → (A → M net B) → M net B
  try_else m handler next s = handle handler next (m s)

  -- `requests.Session()`
  unfoldable pub new_session : M net ℕ
  new_session s = (ok s.sessions, record s { sessions = suc s.sessions })

  unfoldable pub print : Line → M net (Unit {0})
  print line s = (ok tt, record s { printed = s.printed ++ line ∷ [] })

  -- The state after a request, and what the caller has of its answer.
  abbrev pub after : Outgoing → net.World → State net → State net
  after request w s = record s { world = w; sent = s.sent ++ request ∷ [] }

  abbrev pub receive :
      Outgoing → State net → Option Incoming × net.World → Result Incoming × State net
  receive request s (none, w) = (raise request_error, after request w s)
  receive request s (some r, w) = (ok r, after request w s)

  unfoldable pub send : Outgoing → M net Incoming
  send request s = receive request s (net.send request s.world)

abbrev pub found : Option String → Result String
found none = raise key_error
found (some v) = ok v
