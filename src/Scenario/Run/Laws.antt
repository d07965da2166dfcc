-- ===== src/Scenario/Run/Laws.antt =====
-- audit/scenario.py: that `main` goes through all scenarios.
use mathlib.Core.Path.{subst}
use mathlib.Core.List.{append_assoc, append-nil}
use gekko.Base.{ℕ, suc, Bool, List, [], ◌∷◌, ◌++◌, ◌≡◌, refl, sym, ap, ◌∙◌}
use gekko.Python.Errors.{Result, ok, raise}
use gekko.Python.Environ.{Environ}
use gekko.Scenario.Web.{
  Outgoing, Net, State, resume, print, frontend_url, Line, demo_title, demo_done,
}
use gekko.Scenario.Login.Protocol.{Dialogue, start}
use gekko.Scenario.Steps.{run_scenario}
use gekko.Scenario.Steps.Laws.{step_requests, run_scenario_sends}
use gekko.Scenario.Bypass.{run_bypass_attempt}
use gekko.Scenario.Bypass.Laws.{Endings, run_bypass_attempt_ends}
use gekko.Scenario.Run.{Scenario, scenarios, run_all, main}

module _ (net : Net) (env : Environ) where
  -- One round for each scenario, each with a login of its user in the next session, and with its
  -- steps if the login arrives.
  abbrev pub Rounds : List Scenario → ℕ → net.World → List Outgoing → Type 0
  Rounds [] n w qs = qs ≡ []
  Rounds (s ∷ ss) n w qs =
      (login : List Outgoing) × (b : Bool) × (w' : net.World) × (w'' : net.World) × (rest : List
        Outgoing)
      × Dialogue net env n s.username s.password start w login b w'
      × (qs ≡ login ++ step_requests net env b n s.steps ++ rest)
      × Rounds ss (suc n) w'' rest

  run_all-Rounds :
      (ss : List Scenario) (st : State net)
      → let (r, st') = run_all net env ss st in
        (qs : List Outgoing) × (r ≡ ok tt)
        × Rounds ss st.sessions st.world qs
        × (st'.sent ≡ st.sent ++ qs)
  unfolding run_all
  run_all-Rounds [] st = ([], refl, refl, sym (append-nil st.sent))
  run_all-Rounds (s ∷ ss) st =
      go (run_scenario net env s.username s.password s.label s.steps st)
        (run_scenario_sends net env s.username s.password s.label s.steps st) (run_all-Rounds ss)
    where
      go :
          (x : Result (Unit {0}) × State net)
          → (qs : List Outgoing) × (b : Bool) × (w : net.World) × Dialogue net env st.sessions
              s.username s.password start st.world qs b w
            × (x.0 ≡ ok tt)
            × (x.1.sent ≡ st.sent ++ (qs ++ step_requests net env b st.sessions s.steps))
            × (x.1.sessions ≡ suc st.sessions)
          → ((st : State net)
              → let (r, st') = run_all net env ss st in
                (qs : List Outgoing) × (r ≡ ok tt)
                × Rounds ss st.sessions st.world qs
                × (st'.sent ≡ st.sent ++ qs))
          → let (r, st') = resume (λ _. run_all net env ss) x in
            (qs : List Outgoing) × (r ≡ ok tt)
            × Rounds (s ∷ ss) st.sessions st.world qs
            × (st'.sent ≡ st.sent ++ qs)
      go (raise e, st') (qs, b, w, path, returned, sent, new) ih = cc
      go (ok _, st') (qs, b, w, path, returned, sent, new) ih =
          let here = qs ++ step_requests net env b st.sessions s.steps in
          let (rest, done, rounds, more) = ih st' in
          (
            here ++ rest,
            done,
            (
              qs,
              b,
              w,
              st'.world,
              rest,
              path,
              refl,
              subst (λ n. Rounds ss n st'.world rest) new rounds,
            ),
            more ∙ ap (λ l. l ++ rest) sent ∙ append_assoc st.sent here rest,
          )

  -- A line that is printed at the end changes nothing else.
  print-Endings :
      (mid : State net) (line : Line) (x : Result (Unit {0}) × State net)
      → Endings net env mid x
      → Endings net env mid (resume (λ _. print line) x)
  unfolding print
  print-Endings mid line (ok _, st') h = h
  print-Endings mid line (raise e, st') h = h

-- The run goes through all of its scenarios, in their order and each in a session of its own, even
-- where one before fails, and attempts the bypass after them; what `main` raises is what the
-- bypass raises.
pub main-Rounds :
    (net : Net) (env : Environ) (st : State net)
    → (qs : List Outgoing) × (mid : State net) × Rounds net env scenarios st.sessions st.world qs
      × (mid.sent ≡ st.sent ++ qs)
      × Endings net env mid (main net env st)
unfolding main print
main-Rounds net env st =
    go (run_all net env scenarios titled) (run_all-Rounds net env scenarios titled)
  where
    titled : State net
    titled = record st { printed = st.printed ++ demo_title (frontend_url env) ∷ [] }

    go :
        (x : Result (Unit {0}) × State net)
        → (qs : List Outgoing) × (x.0 ≡ ok tt)
          × Rounds net env scenarios st.sessions st.world qs
          × (x.1.sent ≡ st.sent ++ qs)
        → (qs : List Outgoing) × (mid : State net) × Rounds net env scenarios st.sessions st.world
            qs
          × (mid.sent ≡ st.sent ++ qs)
          × Endings net env mid
              (resume (λ _ s. resume (λ _. print demo_done) (run_bypass_attempt net env s)) x)
    go (raise e, mid) (qs, returned, rounds, sent) = cc
    go (ok _, mid) (qs, returned, rounds, sent) = (
      qs,
      mid,
      rounds,
      sent,
      print-Endings net env mid demo_done (run_bypass_attempt net env mid)
          (run_bypass_attempt_ends net env mid),
    )
