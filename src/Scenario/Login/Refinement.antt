-- ===== src/Scenario/Login/Refinement.antt =====
-- audit/scenario.py: that `do_login` keeps to the protocol.
use mathlib.Core.Path.{subst}
use mathlib.Core.List.{append_assoc, append-nil}
use gekko.Base.{
  ℕ, suc, String, Option, none, some, List, [], ◌∷◌, ◌++◌, ◌≡◌, inl, inr, refl, sym, ap, ◌∙◌, arith,
  Option-cases,
}
use gekko.Python.Errors.{Exception, Result, ok, raise, Result-cases, request_error}
use gekko.Python.Environ.{Environ}
use gekko.Scenario.Web.{
  Outgoing, Incoming, Net, State, M, ◌>>=◌, resume, receive, after, lift, pure, send, new_session,
}
use gekko.Scenario.Form.{form_action}
use gekko.Scenario.Responses.{login_location, page_action, callback_location, callback_answer}
use gekko.Scenario.Login.{callback_request, exchange, log_in, do_login}
use gekko.Scenario.Login.Protocol.{
  Phase, start, at_login, at_form, at_callback, logged, request, Accepts, Dialogue, arrived,
  unanswered, refused, onward, is_ok,
}

module _ (net : Net) (env : Environ) (session : ℕ) (username password : String) where
  -- What is taken from a response is what leads on, if anything does.
  abbrev Takes : {A : Type 0} → Phase → (Incoming → Result A) → (A → Phase) → Type 0
  Takes {A} p take_from phase =
      ((r : Incoming) (a : A)
        → take_from r ≡ ok a
        → Accepts net env session username password p r (phase a))
      × ((r : Incoming) (e : Exception)
          → take_from r ≡ raise e
          → (p' : Phase) → ¬ Accepts net env session username password p r p')

  login_location-Takes : Takes start login_location at_login
  unfolding login_location
  login_location-Takes = (λ r a h. ground arith, refuses)
    where
      refuses :
          (r : Incoming) (e : Exception)
          → login_location r ≡ raise e
          → (p' : Phase) → ¬ Accepts net env session username password start r p'
      refuses r e h (at_login l) a = ground arith
      refuses r e h _ a = a

  page_action-Takes :
      (location : String) → Takes (at_login location) (page_action net.unescape) at_form
  unfolding page_action
  page_action-Takes location = (leads, refuses)
    where
      leads :
          (r : Incoming) (a : String)
          → page_action net.unescape r ≡ ok a
          → Accepts net env session username password (at_login location) r (at_form a)
      leads r a h = elim (Option-cases (form_action r.text)) [
        | inl absent ↦ absurd (ground arith)
        | inr (raw, found) ↦ (ground arith, raw, found, ground arith)
      ]

      refuses :
          (r : Incoming) (e : Exception)
          → page_action net.unescape r ≡ raise e
          → (p' : Phase) → ¬ Accepts net env session username password (at_login location) r p'
      refuses r e h (at_form l) a = ground arith
      refuses r e h _ a = a

  callback_location-Takes : (action : String) → Takes (at_form action) callback_location at_callback
  unfolding callback_location
  callback_location-Takes action = (λ r a h. ground arith, refuses)
    where
      refuses :
          (r : Incoming) (e : Exception)
          → callback_location r ≡ raise e
          → (p' : Phase) → ¬ Accepts net env session username password (at_form action) r p'
      refuses r e h (at_callback l) a = ground arith
      refuses r e h _ a = a

  callback_answer-Takes :
      (location : String) → Takes (at_callback location) callback_answer (λ _. logged)
  unfolding callback_answer
  callback_answer-Takes location = (λ r a h. ground arith, refuses)
    where
      refuses :
          (r : Incoming) (e : Exception)
          → callback_answer r ≡ raise e
          → (p' : Phase) → ¬ Accepts net env session username password (at_callback location) r p'
      refuses r e h logged a = ground arith
      refuses r e h _ a = a

  -- The requests that an action sends are a dialogue of the protocol, which arrives if it returns.
  abbrev Leads : {A : Type 0} → Phase → State net → Result A × State net → Type 0
  Leads p st (r, st') =
      (qs : List Outgoing) × Dialogue net env session username password p st.world qs (is_ok r)
        st'.world
      × (st'.sent ≡ st.sent ++ qs)
      × (st'.sessions ≡ st.sessions)

  abbrev Follows : {A : Type 0} → Phase → M net A → State net → Type 0
  Follows p m st = Leads p st (m st)

  exchange_answered :
      {A : Type 0} (q : Outgoing) (take_from : Incoming → Result A) (st : State net) (r : Incoming)
      (w : net.World)
      → net.send q st.world ≡ (some r, w)
      → exchange net env q take_from st ≡ (take_from r, after q w st)
  unfolding exchange send
  exchange_answered q take_from st r w sent =
      ap (λ x. resume (λ r. lift (take_from r)) (receive q st x)) sent

  exchange_silent :
      {A : Type 0} (q : Outgoing) (take_from : Incoming → Result A) (st : State net) (w : net.World)
      → net.send q st.world ≡ (none, w)
      → exchange net env q take_from st ≡ (raise request_error, after q w st)
  unfolding exchange send
  exchange_silent q take_from st w sent =
      ap (λ x. resume (λ r. lift (take_from r)) (receive q st x)) sent

  exchange-Follows :
      {A B : Type 0} (p : Phase) (q : Outgoing) (take_from : Incoming → Result A)
      (phase : A → Phase)
      → request net env session username password p ≡ some q
      → Takes p take_from phase
      → (k : A → M net B) → ((a : A) (st : State net) → Follows (phase a) (k a) st)
      → (st : State net) → Follows p (exchange net env q take_from >>= k) st
  exchange-Follows {A} {B} p q take_from phase asks (leads, ends) k follows st =
      go (net.send q st.world).0 (net.send q st.world).1 refl
    where
      go :
          (answer : Option Incoming) (w' : net.World)
          → net.send q st.world ≡ (answer, w')
          → Follows p (exchange net env q take_from >>= k) st
      go none w' sent =
          subst (λ x. Leads p st (resume k x)) (sym (exchange_silent q take_from st w' sent))
            (q ∷ [], unanswered asks sent, refl, refl)
      go (some r) w' sent =
          subst (λ x. Leads p st (resume k x)) (sym (exchange_answered q take_from st r w' sent))
            (elim (Result-cases (take_from r)) [
              | inr (e, failed) ↦
                  rw failed (q ∷ [], refused r asks sent (ends r e failed), refl, refl)
              | inl (a, taken) ↦
                  let (qs, path, more, kept) = follows a (after q w' st) in
                  rw taken (
                    q ∷ qs,
                    onward r (phase a) asks sent (leads r a taken) path,
                    more ∙ append_assoc st.sent (q ∷ []) qs,
                    kept,
                  )
            ])

  resume-pure : {A : Type 0} (x : Result A × State net) → resume pure x ≡ x
  resume-pure (ok a, s) = refl
  resume-pure (raise e, s) = refl

  log_in-Follows : (st : State net) → Follows start (log_in net env session username password) st
  unfolding log_in
  log_in-Follows =
      exchange-Follows start _ login_location at_login refl login_location-Takes _ λ location.
        exchange-Follows (at_login location) _ (page_action net.unescape) at_form refl
          (page_action-Takes location) _
          λ action.
            exchange-Follows (at_form action) _ callback_location at_callback refl
              (callback_location-Takes action) _
              λ callback st.
                subst (Leads (at_callback callback) st)
                  (resume-pure
                    (exchange net env (callback_request env session callback) callback_answer st))
                  (exchange-Follows (at_callback callback) (callback_request env session callback)
                    callback_answer (λ _. logged) refl (callback_answer-Takes callback) pure
                    (λ _ s. ([], arrived, sym (append-nil s.sent), refl)) st)

-- What `do_login` returns is the session in which it sent its requests.
abbrev pub IsOf : Result ℕ → ℕ → Type 0
IsOf (ok s) n = s ≡ n
IsOf (raise e) n = Unit

-- The requests of `do_login` are a dialogue of the protocol in a new session: each is the one that the
-- answer before it asks for, the first answer that does not lead on ends the login, and a session
-- is returned, the new one, exactly if the last phase is reached.
pub do_login-Dialogue :
    (net : Net) (env : Environ) (username password : String) (st : State net)
    → let (r, st') = do_login net env username password st in
      (qs : List Outgoing) × Dialogue net env st.sessions username password start st.world qs
        (is_ok r)
        st'.world
      × (st'.sent ≡ st.sent ++ qs)
      × (st'.sessions ≡ suc st.sessions)
      × IsOf r st.sessions
unfolding do_login new_session
do_login-Dialogue net env username password st =
    go (log_in net env st.sessions username password opened)
      (log_in-Follows net env st.sessions username password opened)
  where
    opened : State net
    opened = record st { sessions = suc st.sessions }

    go :
        (x : Result (Unit {0}) × State net)
        → Leads net env st.sessions username password start opened x
        → let (r, st') = resume (λ _. pure st.sessions) x in
          (qs : List Outgoing) × Dialogue net env st.sessions username password start st.world qs
            (is_ok r)
            st'.world
          × (st'.sent ≡ st.sent ++ qs)
          × (st'.sessions ≡ suc st.sessions)
          × IsOf r st.sessions
    go (ok _, st') (qs, path, more, kept) = (qs, path, more, kept, refl)
    go (raise e, st') (qs, path, more, kept) = (qs, path, more, kept, tt)
