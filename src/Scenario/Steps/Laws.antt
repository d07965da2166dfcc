-- ===== src/Scenario/Steps/Laws.antt =====
-- audit/scenario.py: that `run_scenario` takes every step, whatever the answers are.
use mathlib.Core.List.{append_assoc, append-nil, map}
use gekko.Base.{
  ℕ, suc, String, Bool, true, false, Option, none, some, List, [], ◌∷◌, ◌++◌, ◌≡◌, refl, sym, ap,
  ◌∙◌, leb, Bool-cases, inl, inr,
}
use gekko.Python.Errors.{Result, ok, raise}
use gekko.Python.Environ.{Environ}
use gekko.Scenario.Web.{
  Outgoing, Incoming, Net, State, M, Body, after, ◌>>◌, resume, receive, handle, pure, print, send,
  step_failed, scenario_title, login_failed, logged_in,
}
use gekko.Scenario.Login.{do_login}
use gekko.Scenario.Login.Protocol.{Dialogue, start, is_ok}
use gekko.Scenario.Login.Refinement.{do_login-Dialogue, IsOf}
use gekko.Scenario.Steps.{
  Step, step_request, body_of, call, report, run_step, run_steps, run_scenario,
}

module _ {net : Net} where
  -- No exception, these requests and no new session.
  abbrev Sends : List Outgoing → State net → Result (Unit {0}) × State net → Type 0
  Sends qs st (r, st') = (r ≡ ok tt) × (st'.sent ≡ st.sent ++ qs) × (st'.sessions ≡ st.sessions)

module _ (net : Net) (env : Environ) where
  report-sent :
      (step : Step) (x : ℕ × Body) (st : State net)
      → let (r, st') = report net env step x st in
        (r ≡ ok tt) × (st'.sent ≡ st.sent) × (st'.sessions ≡ st.sessions)
  unfolding report print
  report-sent step (status, body) st = elim (Bool-cases (leb 400 status)) [
    | inl bad ↦ rw bad (refl, refl, refl)
    | inr fine ↦ rw fine (refl, refl, refl)
  ]

  run_step-Sends :
      (s : ℕ) (step : Step) (st : State net)
      → Sends (step_request env s step ∷ []) st (run_step net env s step st)
  unfolding run_step call send
  run_step-Sends s step st = go (net.send (step_request env s step) st.world)
    where
      go :
          (x : Option Incoming × net.World)
          → Sends (step_request env s step ∷ []) st (
              handle
                (λ e. print (step_failed step.method step.path e))
                (report net env step)
                (resume (λ r. pure (r.status, body_of r)) (receive (step_request env s step) st x)))
      go (none, w) = unfold print in (refl, refl, refl)
      go (some r, w) = report-sent step (r.status, body_of r) (after (step_request env s step) w st)

  Sends-resume :
      (qs rs : List Outgoing) (st : State net) (x : Result (Unit {0}) × State net)
      (k : M net (Unit {0}))
      → Sends qs st x
      → ((st' : State net) → Sends rs st' (k st'))
      → Sends (qs ++ rs) st (resume (λ _. k) x)
  Sends-resume qs rs st (ok _, st') k (_, sent, same) rest =
      let (done, more, kept) = rest st' in
      (done, more ∙ ap (λ l. l ++ rs) sent ∙ append_assoc st.sent qs rs, kept ∙ same)
  Sends-resume qs rs st (raise e, st') k (returned, sent, same) rest = cc

  run_steps-Sends :
      (s : ℕ) (steps : List Step) (st : State net)
      → Sends (map (step_request env s) steps) st (run_steps net env s steps st)
  unfolding run_steps
  run_steps-Sends s [] st = (refl, sym (append-nil st.sent), refl)
  run_steps-Sends s (step ∷ steps) st =
      Sends-resume (step_request env s step ∷ []) (map (step_request env s) steps) st
        (run_step net env s step st) (run_steps net env s steps) (run_step-Sends s step st)
        (run_steps-Sends s steps)

  -- The requests that follow a login.
  abbrev pub step_requests : Bool → ℕ → List Step → List Outgoing
  step_requests true s steps = map (step_request env s) steps
  step_requests false s steps = []

-- A scenario never raises. It sends the requests of a login in a new session, along the protocol;
-- if that arrives, all of its steps follow in their order and in the same session, whatever is
-- answered to each, and if not, none of them.
pub run_scenario_sends :
    (net : Net) (env : Environ) (username password label : String) (steps : List Step)
    (st : State net)
    → let (r, st') = run_scenario net env username password label steps st in
      (qs : List Outgoing) × (b : Bool) × (w : net.World) × Dialogue net env st.sessions username
        password start st.world qs b w
      × (r ≡ ok tt)
      × (st'.sent ≡ st.sent ++ (qs ++ step_requests net env b st.sessions steps))
      × (st'.sessions ≡ suc st.sessions)
unfolding run_scenario print
run_scenario_sends net env username password label steps st =
    let titled : State net = record st {
      printed = st.printed ++ scenario_title label username ∷ [];
    } in
    let (qs, path, sent, new, same) = do_login-Dialogue net env username password titled in
    go qs (do_login net env username password titled) path sent new same
  where
    next : ℕ → M net (Unit {0})
    next s = print logged_in >> run_steps net env s steps

    go :
        (qs : List Outgoing) (x : Result ℕ × State net)
        → Dialogue net env st.sessions username password start st.world qs (is_ok x.0) x.1.world
        → x.1.sent ≡ st.sent ++ qs
        → x.1.sessions ≡ suc st.sessions
        → IsOf x.0 st.sessions
        → let (r, st') = handle (λ e. print (login_failed e)) next x in
          (qs : List Outgoing) × (b : Bool) × (w : net.World) × Dialogue net env st.sessions
            username password start st.world qs b w
          × (r ≡ ok tt)
          × (st'.sent ≡ st.sent ++ (qs ++ step_requests net env b st.sessions steps))
          × (st'.sessions ≡ suc st.sessions)
    go qs (raise e, st') path sent new same =
        (qs, false, st'.world, path, refl, sent ∙ ap (λ l. st.sent ++ l) (sym (append-nil qs)), new)
    go qs (ok s, st') path sent new same =
        let logged : State net = record st' { printed = st'.printed ++ logged_in ∷ [] } in
        let (done, more, kept) = run_steps-Sends net env s steps logged in
        (
          qs,
          true,
          st'.world,
          path,
          done,
          rw (← same) (
              more
              ∙ ap (λ l. l ++ map (step_request env s) steps) sent
              ∙ append_assoc st.sent qs (map (step_request env s) steps)),
          kept ∙ new,
        )
