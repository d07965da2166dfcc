-- ===== src/Detection/Bypass.antt =====
-- audit/scenario.py with audit/audit.py: the audit of a bypass that the scenario has attempted.
pub mod Tests
use mathlib.Core.Path.{subst}
use gekko.Base.{
  ℕ, In, String, some, List, [], ◌∷◌, ◌++◌, ◌≡◌, inl, inr, refl, sym, arith, string_eq, pair_eq,
}
use gekko.Base.Dict.{lookup}
use gekko.Python.Errors.{ok}
use gekko.Python.Json.{Json, str, obj, Fields, entries}
use gekko.Python.Environ.{Environ}
use gekko.Audit.Loki.{Entry, Source}
use gekko.Audit.Latest.{NeverNamed}
use gekko.Audit.Events.Contents.{Names}
use gekko.Audit.Issuance.Uses.{UsedToken}
use gekko.Audit.Report.{Config, exit_status}
use gekko.Audit.Report.Verdict.{Logs, Readable, Reads}
use gekko.Audit.Report.Detected.{exit_status_unissued}
use gekko.Scenario.Web.{Outgoing, Net, State}
use gekko.Scenario.Token.{decode_jwt_claims}
use gekko.Scenario.Bypass.{token_request, inventory_request, run_bypass_attempt}
use gekko.Scenario.Bypass.Laws.{Obtained, IsReadable, Endings, run_bypass_attempt_ends}

abbrev pub inventory_name : String
inventory_name = "inventory-service"

-- The token has claims that name it.
abbrev pub HasJti : Net → String → String → Type 0
HasJti net text jti =
    (claims : Fields) × (decode_jwt_claims net text ≡ ok (obj claims))
    × (lookup "jti" (entries claims) ≡ some (str jti))

-- A use of each token that was sent to the inventory service is among these log entries.
abbrev pub AreLogged : Net → Environ → List Outgoing → List Entry → Type 0
AreLogged net env sent uses =
    (text jti : String)
    → In (inventory_request env text) sent
    → HasJti net text jti
    → UsedToken (jti, inventory_name) uses

last-In : (x y : Outgoing) (xs : List Outgoing) → In x (xs ++ y ∷ x ∷ [])
last-In x y [] = inr (inl refl)
last-In x y (z ∷ xs) = inr (last-In x y xs)

-- A token that Keycloak gives and that holds claims is sent to the inventory service.
sent_token :
    (net : Net) (env : Environ) (st : State net) (text jti : String)
    → Obtained net env st.world (str text)
    → HasJti net text jti
    → In (inventory_request env text) ((run_bypass_attempt net env st).1).sent
sent_token net env st text jti (r, w, answered, given) (claims, decoded, _) =
    elim (run_bypass_attempt_ends net env st) [
      | inl (never, _, _) ↦ absurd (never (str text) (r, w, answered, given))
      | inr (inl (token, (r', w', answered', given'), never, _, _, _)) ↦
          let answers : r ≡ r' = cc (answered, answered') in
          let same : token ≡ str text = cc (given, given', answers) in
          absurd (never text (same, claims, decoded))
      | inr (inr (token, (r', w', answered', given'), text', (is, _, _), _, sent)) ↦
          let answers : r ≡ r' = cc (answered, answered') in
          let same : str text ≡ str text' = cc (given, given', answers, is) in
          let texts : text ≡ text' = cc same in
          subst (In (inventory_request env text)) (sym sent) (
            subst
              (λ t.
                In (inventory_request env text)
                  (st.sent ++ token_request env ∷ inventory_request env t ∷ []))
              texts (last-In (inventory_request env text) (token_request env) st.sent))
    ]

-- When Keycloak answers the attempt with a token that holds its identifier, the token is sent to
-- the inventory service, and an audit of readable logs ends with status 1, provided that the
-- inventory service has logged the tokens which were sent to it and no event names this token as
-- issued for that service.
pub run_bypass_attempt_detected :
    (net : Net) (env : Environ) (st : State net) (text jti : String) (config : Config)
    (src : Source) (now_ns : ℕ) (logs : Logs)
    → Obtained net env st.world (str text)
    → HasJti net text jti
    → Reads config src now_ns logs
    → Readable logs
    → AreLogged net env ((run_bypass_attempt net env st).1).sent logs.uses
    → NeverNamed Names (jti, inventory_name) logs.events
    → In (inventory_request env text) ((run_bypass_attempt net env st).1).sent
      × (exit_status config src now_ns ≡ 1)
run_bypass_attempt_detected net env st text jti config src now_ns logs got has reads readable logged
      unnamed =
    let sent = sent_token net env st text jti got has in
    (
      sent,
      exit_status_unissued config src now_ns logs reads readable (jti, inventory_name)
          (logged text jti sent has) unnamed,
    )
