-- ===== src/Scenario/Steps.antt =====
-- audit/scenario.py: `call` and `run_scenario`.
pub mod Laws
use gekko.Base.{ℕ, String, true, Option, none, some, List, [], ◌∷◌, ltb, leb, if◌then◌else◌}
use gekko.Python.Json.{Json}
use gekko.Python.Text.{◌<>◌, take}
use gekko.Python.Environ.{Environ}
use gekko.Scenario.Web.{
  frontend_url, Outgoing, Incoming, Net, M, ◌>>=◌, ◌>>◌, pure, try_else, print, send,
  scenario_title, login_failed, logged_in, step_failed, step_done, step_body, Body, no_body,
  body_json, body_text,
}
use gekko.Scenario.Login.{do_login}

-- A step: its description, the method, the path, and the JSON body among its arguments, if any.
pub record Step : Type 0 where
  pub desc : String
  pub method : String
  pub path : String
  pub json : Option Json

abbrev pub step_request : Environ → ℕ → Step → Outgoing
step_request env s step = record {
  session = some s;
  method = step.method;
  url = frontend_url env <> step.path;
  allow_redirects = true;
  form = [];
  json = step.json;
  headers = [];
  timeout = 15;
}

-- `r.json()`, or the beginning of the text where that raises, if there is any content.
unfoldable pub body_of : Incoming → Body
body_of r = elim r.content [
  | [] ↦ no_body
  | _ ∷ _ ↦ elim r.json [ none ↦ body_text (take 120 r.text) | some v ↦ body_json v ]
]

module _ (net : Net) (env : Environ) where
  pub call : ℕ → Step → M net (ℕ × Body)
  call s step = do r ← send (step_request env s step); pure (r.status, body_of r)

  report : Step → ℕ × Body → M net (Unit {0})
  report step (status, body) = do
    print (step_done (ltb status 400) step.desc step.method step.path status)
    if leb 400 status then print (step_body body) else pure tt

  run_step : ℕ → Step → M net (Unit {0})
  run_step s step =
      try_else (call s step) (λ e. print (step_failed step.method step.path e)) (report step)

  run_steps : ℕ → List Step → M net (Unit {0})
  run_steps s [] = pure tt
  run_steps s (step ∷ steps) = do run_step s step; run_steps s steps

  pub run_scenario : String → String → String → List Step → M net (Unit {0})
  run_scenario username password label steps = do
    print (scenario_title label username)
    try_else (do_login net env username password) (λ e. print (login_failed e))
        λ s. do print logged_in; run_steps s steps
