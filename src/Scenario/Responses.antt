-- ===== src/Scenario/Responses.antt =====
-- audit/scenario.py: what the steps of `do_login` take from the responses.
use gekko.Base.{String, ◌==◌, ◌||◌}
use gekko.Python.Errors.{Result, ok, runtime_error, require, get_or_raise, ◌>>=◌, ◌>>◌}
use gekko.Python.Text.{nat_eq, ◌<>◌, take, decimal}
use gekko.Scenario.Web.{Incoming, found}
use gekko.Scenario.Form.{form_action}

-- The messages of the `RuntimeError`s.
abbrev with_text : String → Incoming → String
with_text what r = what <> (decimal r.status <> (": " <> take 200 r.text))

-- The address of Keycloak's page,
unfoldable pub login_location : Incoming → Result String
login_location r = do
  require (r.status == 302) (runtime_error ("/api/login: expected 302, got " <> decimal r.status))
  found r.location

-- the action of the form on that page,
unfoldable pub page_action : (String → String) → Incoming → Result String
page_action unescape r = do
  require (r.status == 200) (runtime_error ("ログインページ取得失敗: " <> decimal r.status))
  action ← get_or_raise (runtime_error "Keycloak ログインフォームの action が見つからない") (form_action r.text)
  ok (unescape action)

-- the address to which the form sends the browser back,
unfoldable pub callback_location : Incoming → Result String
callback_location r = do
  require (r.status == 302) (runtime_error (with_text "ログイン POST 失敗: " r))
  found r.location

-- and that the callback was answered.
unfoldable pub callback_answer : Incoming → Result (Unit {0})
callback_answer r =
    require (r.status == 200 || r.status == 302) (runtime_error (with_text "コールバック失敗: " r))
