-- ===== src/Scenario/Login/Protocol.antt =====
-- audit/scenario.py: `do_login` as a protocol of four exchanges.
use gekko.Base.{ℕ, String, Bool, true, false, Option, none, some, List, [], ◌∷◌, ◌≡◌, ◌⊎◌}
use gekko.Python.Errors.{Result, ok, raise}
use gekko.Python.Environ.{Environ}
use gekko.Scenario.Web.{Outgoing, Incoming, Net}
use gekko.Scenario.Form.{form_action}
use gekko.Scenario.Login.{login_request, form_request, credentials_request, callback_request}

-- Where the login stands, with the address that the last response gave.
pub data Phase : Type 0 where
  start : Phase
  at_login at_form at_callback : String → Phase
  logged : Phase

module _ (net : Net) (env : Environ) (session : ℕ) (username password : String) where
  -- The request of each phase but the last.
  abbrev pub request : Phase → Option Outgoing
  request start = some (login_request env session)
  request (at_login location) = some (form_request env session location)
  request (at_form action) = some (credentials_request env session action username password)
  request (at_callback location) = some (callback_request env session location)
  request logged = none

  -- The response that leads from one phase to the next.
  abbrev pub Accepts : Phase → Incoming → Phase → Type 0
  Accepts start r (at_login location) = (r.status ≡ 302) × (r.location ≡ some location)
  Accepts (at_login _) r (at_form action) =
      (r.status ≡ 200)
      × (raw : String) × (form_action r.text ≡ some raw)
      × (action ≡ net.unescape raw)
  Accepts (at_form _) r (at_callback location) = (r.status ≡ 302) × (r.location ≡ some location)
  Accepts (at_callback _) r logged = (r.status ≡ 200) ⊎ (r.status ≡ 302)
  Accepts _ _ _ = ⊥

  -- The requests from a phase on, and whether they lead to the last one: the first response that
  -- does not lead on ends the login.
  pub data Dialogue : Phase → net.World → List Outgoing → Bool → net.World → Type 0 where
    arrived : {w : net.World} → Dialogue logged w [] true w
    unanswered :
        {p : Phase} {w w' : net.World} {q : Outgoing}
        → request p ≡ some q
        → net.send q w ≡ (none, w')
        → Dialogue p w (q ∷ []) false w'
    refused :
        {p : Phase} {w w' : net.World} {q : Outgoing} (r : Incoming)
        → request p ≡ some q
        → net.send q w ≡ (some r, w')
        → ((p' : Phase) → ¬ Accepts p r p')
        → Dialogue p w (q ∷ []) false w'
    onward :
        {p : Phase} {w w' w'' : net.World} {q : Outgoing} {qs : List Outgoing} {b : Bool}
        (r : Incoming) (p' : Phase)
        → request p ≡ some q
        → net.send q w ≡ (some r, w')
        → Accepts p r p'
        → Dialogue p' w' qs b w''
        → Dialogue p w (q ∷ qs) b w''

abbrev pub is_ok {ℓ} : {A : Type ℓ} → Result A → Bool
is_ok (ok _) = true
is_ok (raise _) = false
