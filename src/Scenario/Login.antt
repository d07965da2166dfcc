-- ===== src/Scenario/Login.antt =====
-- audit/scenario.py: `do_login`, which goes the way of a browser through the login.
pub mod Protocol
pub mod Refinement
pub mod Safety
use gekko.Base.{ℕ, String, Bool, true, false, some, none, [], ◌∷◌}
use gekko.Python.Errors.{Result}
use gekko.Python.Text.{◌<>◌}
use gekko.Python.Environ.{Environ}
use gekko.Scenario.Web.{
  frontend_url, rewrite, Outgoing, Incoming, Net, M, ◌>>=◌, ◌>>◌, pure, lift, new_session, send,
}
use gekko.Scenario.Responses.{login_location, page_action, callback_location, callback_answer}

-- `s.get(url, allow_redirects=…, timeout=…)`
abbrev pub get_request : ℕ → String → Bool → ℕ → Outgoing
get_request session url allow_redirects timeout = record {
  session = some session;
  method = "GET";
  url = url;
  allow_redirects = allow_redirects;
  form = [];
  json = none;
  headers = [];
  timeout = timeout;
}

abbrev pub login_request : Environ → ℕ → Outgoing
login_request env s = get_request s (frontend_url env <> "/api/login") false 10

abbrev pub form_request : Environ → ℕ → String → Outgoing
form_request env s location = get_request s (rewrite env location) true 10

-- The username and the password, sent to the action of the form.
abbrev pub credentials_request : Environ → ℕ → String → String → String → Outgoing
credentials_request env s action username password = record {
  session = some s;
  method = "POST";
  url = rewrite env action;
  allow_redirects = false;
  form = ("username", username) ∷ ("password", password) ∷ [];
  json = none;
  headers = [];
  timeout = 10;
}

abbrev pub callback_request : Environ → ℕ → String → Outgoing
callback_request env s location = get_request s (rewrite env location) true 15

module _ (net : Net) (env : Environ) where
  -- A request, and what is taken from its response.
  unfoldable pub exchange : {A : Type 0} → Outgoing → (Incoming → Result A) → M net A
  exchange request take_from = do r ← send request; lift (take_from r)

  -- The four steps in the session.
  unfoldable pub log_in : ℕ → String → String → M net (Unit {0})
  log_in s username password = do
    location ← exchange (login_request env s) login_location
    action ← exchange (form_request env s location) (page_action net.unescape)
    callback ← exchange (credentials_request env s action username password) callback_location
    exchange (callback_request env s callback) callback_answer

  unfoldable pub do_login : String → String → M net ℕ
  do_login username password = do s ← new_session; log_in s username password; pure s
