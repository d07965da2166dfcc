-- ===== src/Scenario/Bypass/Laws.antt =====
-- audit/scenario.py: the three ways in which `run_bypass_attempt` ends.
use mathlib.Core.Path.{subst}
use mathlib.Core.List.{append_assoc}
use gekko.Base.{
  String, string_eq, Option, none, some, [], ◌∷◌, ◌++◌, ◌≡◌, ◌≢◌, ◌⊎◌, inl, inr, refl, ap, ◌∙◌, ltb,
}
use gekko.Python.Errors.{Exception, Result, ok, raise, Result-cases, attribute_error}
use gekko.Python.Json.{Json, str, obj, Fields, entries}
use gekko.Base.Dict.{lookup}
use gekko.Python.Environ.{Environ}
use gekko.Scenario.Web.{
  Incoming, Net, State, resume, receive, after, handle, lift, print, send, bypass_title,
  bypass_token, bypass_no_token, bypass_failed, bypass_done,
}
use gekko.Scenario.Token.{decode_jwt_claims}
use gekko.Scenario.Bypass.{
  token_request, inventory_request, token_of, request_token, use_token, visit_inventory,
  run_bypass_attempt,
}

module _ (net : Net) (env : Environ) where
  -- Keycloak's answer holds this token.
  abbrev pub Obtained : net.World → Json → Type 0
  Obtained w token =
      (r : Incoming) × (w' : net.World) × (net.send (token_request env) w ≡ (some r, w'))
      × (token_of r ≡ ok token)

  -- The token is a text with claims in it.
  abbrev pub IsReadable : Json → String → Type 0
  IsReadable token text =
      (token ≡ str text) × (claims : Fields) × (decode_jwt_claims net text ≡ ok (obj claims))

  abbrev Ended : Json → State net → Result (Unit {0}) × State net → Type 0
  Ended token st (r, st') =
      ((text : String) × IsReadable token text
        × (r ≡ ok tt)
        × (st'.sent ≡ st.sent ++ inventory_request env text ∷ []))
      ⊎ (((text : String) → ¬ IsReadable token text)
          × (e : Exception) × (r ≡ raise e)
          × (st'.sent ≡ st.sent))

  visit_inventory-sent :
      (text : String) (st : State net)
      → let (r, st') = visit_inventory net env text st in
        (r ≡ ok tt) × (st'.sent ≡ st.sent ++ inventory_request env text ∷ [])
  unfolding visit_inventory send print
  visit_inventory-sent text st = go (net.send (inventory_request env text) st.world)
    where
      go :
          (x : Option Incoming × net.World)
          → let (r, st') =
              handle
                (λ e. print (bypass_failed e))
                (λ r. print (bypass_done (ltb r.status 400) r.status))
                (receive (inventory_request env text) st x) in
            (r ≡ ok tt) × (st'.sent ≡ st.sent ++ inventory_request env text ∷ [])
      go (none, w) = (refl, refl)
      go (some r, w) = (refl, refl)

  unreadable :
      (t : String) (e : Exception) (st : State net)
      → ((claims : Fields) → decode_jwt_claims net t ≢ ok (obj claims))
      → Ended (str t) st (raise e, st)
  unreadable t e st never = inr (λ text (same, claims, decoded). never claims cc, e, refl, refl)

  use_token-Ended : (token : Json) (st : State net) → Ended token st (use_token net env token st)
  unfolding use_token print
  use_token-Ended (str t) st = elim (Result-cases (decode_jwt_claims net t)) [
    | inr (e, failed) ↦ rw failed (unreadable t e st (λ fs h. cc))
    | inl (obj fs, decoded) ↦
        let shown : State net = record st {
          printed =
              st.printed
              ++ bypass_token (lookup "aud" (entries fs)) (lookup "sub" (entries fs))
                  (lookup "jti" (entries fs))
                ∷ [];
        } in
        let (done, sent) = visit_inventory-sent t shown in
        rw decoded (inl (t, (refl, fs, decoded), done, sent))
    | inl (claims, decoded) ↦ rw decoded (unreadable t attribute_error st (λ fs h. cc))
  ]
  use_token-Ended _ st = inr (λ text (same, claims, decoded). cc, attribute_error, refl, refl)

  abbrev pub Endings : State net → Result (Unit {0}) × State net → Type 0
  Endings st (r, st') =
      (((token : Json) → ¬ Obtained st.world token)
        × (r ≡ ok tt)
        × (st'.sent ≡ st.sent ++ token_request env ∷ []))
      ⊎ ((token : Json) × Obtained st.world token
          × ((text : String) → ¬ IsReadable token text)
          × (e : Exception) × (r ≡ raise e)
          × (st'.sent ≡ st.sent ++ token_request env ∷ []))
      ⊎ ((token : Json) × Obtained st.world token
          × (text : String) × IsReadable token text
          × (r ≡ ok tt)
          × (st'.sent ≡ st.sent ++ token_request env ∷ inventory_request env text ∷ []))

  use_token-Endings :
      (token : Json) (st st' : State net)
      → Obtained st.world token
      → st'.sent ≡ st.sent ++ token_request env ∷ []
      → (x : Result (Unit {0}) × State net) → Ended token st' x
      → Endings st x
  use_token-Endings token st st' got sent x (inl (text, read, returned, more)) = inr (
      inr (
        token,
        got,
        text,
        read,
        returned,
        more
            ∙ ap (λ l. l ++ inventory_request env text ∷ []) sent
            ∙ append_assoc st.sent (token_request env ∷ []) (inventory_request env text ∷ []),
      ))
  use_token-Endings token st st' got sent x (inr (never, e, raised, same)) =
      inr (inl (token, got, never, e, raised, same ∙ sent))

-- The attempt ends in one of three ways. Keycloak gives no token: then the token request is all
-- that is sent. It gives a token that holds no claims: then an exception ends the attempt after
-- that request. It gives a token with claims: then this token goes to the inventory service, with
-- no session and whatever the answer is, and nothing is raised.
pub run_bypass_attempt_ends :
    (net : Net) (env : Environ) (st : State net)
    → Endings net env st (run_bypass_attempt net env st)
unfolding run_bypass_attempt request_token send print
run_bypass_attempt_ends net env st =
    go (net.send (token_request env) st.world).0 (net.send (token_request env) st.world).1 refl
  where
    titled : State net
    titled = record st { printed = st.printed ++ bypass_title ∷ [] }

    go :
        (answer : Option Incoming) (w : net.World)
        → net.send (token_request env) st.world ≡ (answer, w)
        → Endings net env st (
            handle
              (λ e. print (bypass_no_token e))
              (use_token net env)
              (resume (λ r. lift (token_of r)) (receive (token_request env) titled (answer, w))))
    go none w sent = inl (λ token (r, w', answered, given). cc, refl, refl)
    go (some r) w sent = elim (Result-cases (token_of r)) [
      | inr (e, failed) ↦ rw failed (
          inl (
            λ token (r', w', answered, given).
                let same : r ≡ r' = cc (sent, answered) in
                let read : token_of r' ≡ raise e = subst (λ x. token_of x ≡ raise e) same failed in
                cc (read, given),
            refl,
            refl,
          ))
      | inl (token, given) ↦ rw given (
          use_token-Endings net env token st (after (token_request env) w titled)
            (r, w, sent, given) refl (use_token net env token (after (token_request env) w titled))
            (use_token-Ended net env token (after (token_request env) w titled)))
    ]
