-- ===== src/Scenario/Login/Safety.antt =====
-- audit/scenario.py: where `do_login` sends the password, and how many requests it takes.
use mathlib.Core.Path.{subst}
use gekko.Python.Text.{◌<>◌}
use gekko.Base.{
  ℕ, suc, ◌≤◌, String, Bool, true, false, Option, none, some, sym, List, [], ◌∷◌, ◌++◌, ◌≡◌, ◌⊎◌,
  inl, inr, refl, arith, length,
}
use gekko.Python.Environ.{Environ}
use gekko.Scenario.Web.{Outgoing, Incoming, Net, State, frontend_url, rewrite}
use gekko.Scenario.Form.{form_action}
use gekko.Scenario.Login.{do_login}
use gekko.Scenario.Login.Protocol.{
  Phase, start, at_login, at_form, at_callback, logged, request, Accepts, Dialogue, arrived,
  unanswered, refused, onward, is_ok,
}
use gekko.Scenario.Login.Refinement.{do_login-Dialogue}

-- The requests that a phase is away from the last.
abbrev left : Phase → ℕ
left start = 4
left (at_login _) = 3
left (at_form _) = 2
left (at_callback _) = 1
left logged = 0

abbrev Exhausts : Bool → ℕ → ℕ → Type 0
Exhausts true n m = n ≡ m
Exhausts false n m = n ≤ m

module _ (net : Net) (env : Environ) where
  -- The address is the one of the login, or the rewritten `Location` of the answer before.
  abbrev pub IsGiven : Option Incoming → String → Type 0
  IsGiven last url =
      (url ≡ frontend_url env <> "/api/login")
      ⊎ ((r : Incoming) × (location : String) × (last ≡ some r)
          × (r.location ≡ some location)
          × (url ≡ rewrite env location))

  -- The answer before is a page with status 200, and the address the rewritten action of its form.
  abbrev pub IsAction : Option Incoming → String → Type 0
  IsAction last url =
      (page : Incoming) × (raw : String) × (last ≡ some page)
      × (page.status ≡ 200)
      × (form_action page.text ≡ some raw)
      × (url ≡ rewrite env (net.unescape raw))

  -- A request with no body and no headers of its own to a given address, or the two fields of the
  -- form to its action, with no redirect followed.
  abbrev pub IsSafe : String → String → Option Incoming → Outgoing → Type 0
  IsSafe username password last q =
      (q.headers ≡ [])
      × (q.json ≡ none)
      × (((q.form ≡ []) × IsGiven last q.url)
          ⊎ ((q.form ≡ ("username", username) ∷ ("password", password) ∷ [])
              × (q.allow_redirects ≡ false)
              × IsAction last q.url))

  -- Every request is safe after the answer to the one before, where they are sent one after the
  -- other, the first in this world.
  abbrev pub AllSafe : String → String → net.World → Option Incoming → List Outgoing → Type 0
  AllSafe username password w last [] = Unit
  AllSafe username password w last (q ∷ qs) =
      IsSafe username password last q
      × AllSafe username password (net.send q w).1 (net.send q w).0 qs

  module _ (session : ℕ) (username password : String) where
    Accepts-left :
        (p p' : Phase) (r : Incoming)
        → Accepts net env session username password p r p'
        → left p ≡ suc (left p')
    Accepts-left start (at_login _) r a = refl
    Accepts-left (at_login _) (at_form _) r a = refl
    Accepts-left (at_form _) (at_callback _) r a = refl
    Accepts-left (at_callback _) logged r a = refl
    Accepts-left start start r a = absurd a
    Accepts-left _ _ r a = absurd a

    request-left :
        (p : Phase) (q : Outgoing)
        → request net env session username password p ≡ some q
        → 1 ≤ left p
    request-left p q h = ground arith

    Dialogue-length :
        {p : Phase} {w w' : net.World} {qs : List Outgoing} {b : Bool}
        → Dialogue net env session username password p w qs b w'
        → Exhausts b (length qs) (left p)
    Dialogue-length arrived = refl
    Dialogue-length (unanswered {p} {q} asks sent) = request-left p q asks
    Dialogue-length (refused {p} {q} r asks sent no_more) = request-left p q asks
    Dialogue-length (onward {p} {b} r p' asks sent accepts path) =
        ground (arith, Accepts-left p p' r accepts, Dialogue-length path)

    -- What the answer before has to do with a phase: where its address is from.
    FromAnswer : Option Incoming → Phase → Type 0
    FromAnswer last (at_login location) =
        (r : Incoming) × (last ≡ some r) × (r.location ≡ some location)
    FromAnswer last (at_form action) =
        (page : Incoming) × (raw : String) × (last ≡ some page)
        × (page.status ≡ 200)
        × (form_action page.text ≡ some raw)
        × (action ≡ net.unescape raw)
    FromAnswer last (at_callback location) =
        (r : Incoming) × (last ≡ some r) × (r.location ≡ some location)
    FromAnswer last _ = Unit

    Accepts-FromAnswer :
        (p p' : Phase) (r : Incoming)
        → Accepts net env session username password p r p'
        → FromAnswer (some r) p'
    unfolding FromAnswer
    Accepts-FromAnswer start (at_login l) r (status, location) = (r, refl, location)
    Accepts-FromAnswer (at_login l) (at_form _) r (status, raw, shown, same) =
        (r, raw, refl, status, shown, same)
    Accepts-FromAnswer (at_form _) (at_callback l) r (status, location) = (r, refl, location)
    Accepts-FromAnswer (at_callback _) logged r a = tt
    Accepts-FromAnswer start start r a = tt
    Accepts-FromAnswer _ _ r a = absurd a

    request-IsSafe :
        (p : Phase) (q : Outgoing) (last : Option Incoming)
        → request net env session username password p ≡ some q
        → FromAnswer last p
        → IsSafe username password last q
    unfolding FromAnswer
    request-IsSafe start q last asks _ =
        (ground arith, ground arith, inl (ground arith, inl (ground arith)))
    request-IsSafe (at_login l) q last asks (r, answered, location) = (
      ground arith,
      ground arith,
      inl (ground arith, inr (r, l, answered, location, ground arith)),
    )
    request-IsSafe (at_form action) q last asks (page, raw, answered, status, shown, same) = (
      ground arith,
      ground arith,
      inr (ground arith, ground arith, (page, raw, answered, status, shown, ground arith)),
    )
    request-IsSafe (at_callback l) q last asks (r, answered, location) = (
      ground arith,
      ground arith,
      inl (ground arith, inr (r, l, answered, location, ground arith)),
    )
    request-IsSafe logged q last asks _ = cc

    Dialogue-AllSafe :
        {p : Phase} {w w' : net.World} {qs : List Outgoing} {b : Bool} (last : Option Incoming)
        → Dialogue net env session username password p w qs b w'
        → FromAnswer last p
        → AllSafe username password w last qs
    Dialogue-AllSafe last arrived _ = tt
    Dialogue-AllSafe last (unanswered {p} {q} asks sent) from =
        (request-IsSafe p q last asks from, tt)
    Dialogue-AllSafe last (refused {p} {q} r asks sent no_more) from =
        (request-IsSafe p q last asks from, tt)
    Dialogue-AllSafe last (onward {p} {w} {w'} {q} {qs} r p' asks sent accepts path) from = (
      request-IsSafe p q last asks from,
      subst (λ x. AllSafe username password x.1 x.0 qs) (sym sent)
          (Dialogue-AllSafe (some r) path (Accepts-FromAnswer p p' r accepts)),
    )

-- `do_login` sends at most four requests, and exactly four where it returns a session.
pub do_login-length :
    (net : Net) (env : Environ) (username password : String) (st : State net)
    → let (r, st') = do_login net env username password st in
      (qs : List Outgoing) × (st'.sent ≡ st.sent ++ qs)
      × (length qs ≤ 4)
      × ((is_ok r ≡ false) ⊎ (length qs ≡ 4))
do_login-length net env username password st =
    let (qs, path, sent, _, _) = do_login-Dialogue net env username password st in
    let spent = Dialogue-length net env st.sessions username password path in
    (qs, sent, ground (arith, spent), ground (arith, spent))

-- The requests of `do_login` have no headers of their own and no JSON. Each has no form data
-- either, and goes to the address of the login or to the rewritten `Location` of the answer to the
-- request before it; or its form data are the username and the password, it follows no redirect,
-- and it goes to the rewritten action of the form on the page that came with status 200 as the
-- answer to the request before it, in the same login.
pub do_login-AllSafe :
    (net : Net) (env : Environ) (username password : String) (st : State net)
    → let (r, st') = do_login net env username password st in
      (qs : List Outgoing) × (st'.sent ≡ st.sent ++ qs)
      × AllSafe net env username password st.world none qs
unfolding FromAnswer
do_login-AllSafe net env username password st =
    let (qs, path, sent, _, _) = do_login-Dialogue net env username password st in
    (qs, sent, Dialogue-AllSafe net env st.sessions username password none path tt)
