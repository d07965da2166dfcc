-- ===== src/Scenario/Tests.antt =====
-- Runs of the scenario against a network that answers from a list, and the theorems there.
use gekko.Base.{String, Bool, Option, none, some, List, [], ◌∷◌, ◌++◌, ◌≡◌, refl, ℕ_discrete}
use gekko.Python.Errors.{ok}
use gekko.Python.Json.{str, obj, end, field}
use gekko.Python.Text.{begins_with}
use gekko.Python.Environ.{Environ}
use gekko.Scenario.Web.{Outgoing, Incoming, Net, State, rewrite}
use gekko.Scenario.Form.{form_action}
use gekko.Python.Replace.{replace}
use gekko.Scenario.Web.{new_session, send}
use gekko.Scenario.Responses.{login_location, page_action, callback_location, callback_answer}
use gekko.Scenario.Login.{exchange, log_in, do_login}
use gekko.Scenario.Login.Protocol.{Dialogue, start, is_ok}
use gekko.Scenario.Login.Refinement.{IsOf, do_login-Dialogue}
use gekko.Scenario.Login.Safety.{AllSafe, do_login-AllSafe}
use gekko.Scenario.Steps.{run_scenario}
use gekko.Scenario.Steps.Laws.{step_requests, run_scenario_sends}
use gekko.Scenario.Bypass.Laws.{Endings}
use gekko.Scenario.Run.{sales, scenarios, main}
use gekko.Scenario.Run.Laws.{Rounds, main-Rounds}

form_of_login :
    form_action "<a action=\"x\"><form id=\"kc-form-login\" x action=\"one\" action=\"two\">"
    ≡ some "two"
unfolding form_action begins_with
form_of_login = refl

form_of_other_page :
    form_action "<form action=\"/authenticate\"><form action=\"/a/authenticate?x\">"
    ≡ some "/a/authenticate?x"
unfolding form_action begins_with
form_of_other_page = refl

-- The answers in the order of the requests; without one left, a call raises.
abbrev answer : Outgoing → List Incoming → Option Incoming × List Incoming
answer q [] = (none, [])
answer q (r ∷ rs) = (some r, rs)

abbrev net : Net
net = record {
  World = List Incoming;
  send = answer;
  loads = λ bytes. some (obj (field "jti" (str "t1") end));
  unescape = λ text. text;
}

abbrev env : Environ
env = λ key. none

abbrev redirect : String → Incoming
redirect url = record { status = 302; location = some url; content = []; text = ""; json = none }

abbrev page : String → Incoming
page text = record { status = 200; location = none; content = []; text = text; json = none }

abbrev st : State net
st = record {
  world =
      redirect "http://localhost:3000/auth"
      ∷ page "<form id=\"kc-form-login\" action=\"http://localhost:3000/authenticate\">"
      ∷ redirect "http://localhost:3000/api/callback?code=1"
      ∷ page ""
      ∷ [];
  sessions = 0;
  sent = [];
  printed = [];
}

login_returns : (do_login net env "u" "p" st).0 ≡ ok 0
unfolding do_login log_in exchange new_session send login_location page_action callback_location
    callback_answer form_action rewrite replace begins_with ℕ_discrete
login_returns = refl

do_login-Dialogue_example :
    let (r, st') = do_login net env "u" "p" st in
    (qs : List Outgoing) × Dialogue net env 0 "u" "p" start st.world qs (is_ok r) st'.world
    × (st'.sent ≡ [] ++ qs)
    × (st'.sessions ≡ 1)
    × IsOf r 0
do_login-Dialogue_example = do_login-Dialogue net env "u" "p" st

do_login-AllSafe_example :
    let (r, st') = do_login net env "u" "p" st in
    (qs : List Outgoing) × (st'.sent ≡ [] ++ qs) × AllSafe net env "u" "p" st.world none qs
do_login-AllSafe_example = do_login-AllSafe net env "u" "p" st

run_scenario_sends_example :
    let (r, st') = run_scenario net env "u" "p" "label" sales.steps st in
    (qs : List Outgoing) × (b : Bool) × (w : net.World) × Dialogue net env 0 "u" "p" start st.world
      qs b w
    × (r ≡ ok tt)
    × (st'.sent ≡ [] ++ (qs ++ step_requests net env b 0 sales.steps))
    × (st'.sessions ≡ 1)
run_scenario_sends_example = run_scenario_sends net env "u" "p" "label" sales.steps st

main-Rounds_example :
    (qs : List Outgoing) × (mid : State net) × Rounds net env scenarios 0 st.world qs
    × (mid.sent ≡ [] ++ qs)
    × Endings net env mid (main net env st)
main-Rounds_example = main-Rounds net env st
