-- ===== src/Audit/Login/Entries.antt =====
-- audit/audit.py: what `check3` reads in an entry.
use gekko.Base.{
  String, Option, none, some, List, [], ◌∷◌, ◌≡◌, ◌≢◌, ◌⊎◌, inl, inr, refl, arith, string_eq,
  Option-cases,
}
use gekko.Base.Dict.{Dict, lookup}
use gekko.Python.Errors.{Result, ok, ◌>>=◌, >>=-eq-ok, raise, Result-cases}
use gekko.Python.Json.{ℤ, Json, int, str}
use gekko.Audit.Keys.{text_key}
use gekko.Audit.Loki.{Entry}
use gekko.Audit.Login.{keep_earliest, used_sub, time_of, user_of, add_login, first_logins}
use gekko.Audit.Login.Earliest.{collect, collect_step, note_event}

-- The entry is an access by this subject at this time.
abbrev pub Accessed : String → ℤ → Entry → Type 0
Accessed s t e =
    (lookup "sub" e ≡ some (str s)) × (s ≢ "") × (s ≢ "-") × (lookup "_ts_ns" e ≡ some (int t))

-- The event is a login of this user at this time.
abbrev pub LoggedIn : String → ℤ → Entry → Type 0
LoggedIn s t e = (user_of e ≡ ok (some (str s))) × (lookup "_ts_ns" e ≡ some (int t))

abbrev pub AnyEntry : (Entry → Type 0) → List Entry → Type 0
AnyEntry P [] = ⊥
AnyEntry P (e ∷ es) = P e ⊎ AnyEntry P es

abbrev pub AllEntries : (Entry → Type 0) → List Entry → Type 0
AllEntries P [] = Unit
AllEntries P (e ∷ es) = P e × AllEntries P es

-- The access was to this service.
abbrev pub Called : Json → Entry → Type 0
Called service e = lookup "_service" e ≡ some service

-- The entry names nobody, or a subject with a time and a service.
abbrev pub NamesAccess : Entry → Type 0
NamesAccess e =
    (used_sub e ≡ none)
    ⊎ ((s : String) × (t : ℤ) × (service : Json) × Accessed s t e × Called service e)

abbrev pub NamesLogin : Entry → Type 0
NamesLogin e = (user_of e ≡ ok none) ⊎ ((s : String) × (t : ℤ) × LoggedIn s t e)

abbrev pub NamesAccesses : List Entry → Type 0
NamesAccesses es = AllEntries NamesAccess es

abbrev pub NamesLogins : List Entry → Type 0
NamesLogins es = AllEntries NamesLogin es

-- What both loops read of an entry: a subject, and its time.
pub at_time : Entry → Json → Result (Option (String × ℤ))
at_time e v = time_of e >>= λ ts. text_key v >>= λ s. ok (some (s, ts))

abbrev pub named : Entry → Option Json → Result (Option (String × ℤ))
named e none = ok none
named e (some v) = at_time e v

abbrev pub access_of : Entry → Result (Option (String × ℤ))
access_of e = named e (used_sub e)

abbrev pub login_of : Entry → Result (Option (String × ℤ))
login_of e = user_of e >>= named e

at_time-note_event :
    (d : Dict String ℤ) (time : Result ℤ) (key : Result String)
    → (time >>= λ ts. key >>= λ s. ok (keep_earliest s ts d))
      ≡ ((time >>= λ ts. key >>= λ s. ok (some (s, ts))) >>= λ o. ok (note_event o d))
at_time-note_event d (ok ts) (ok s) = refl
at_time-note_event d (ok ts) (raise x) = refl
at_time-note_event d (raise x) key = refl

add_login-login_of :
    (d : Dict String ℤ) (e : Entry) → add_login d e ≡ (login_of e >>= λ o. ok (note_event o d))
unfolding add_login at_time
add_login-login_of d e = elim (Result-cases (user_of e)) [
  | inr (x, failed) ↦ rw failed refl
  | inl (none, found) ↦ rw found refl
  | inl (some v, found) ↦ rw found (at_time-note_event d (time_of e) (text_key v))
]

pub first_logins-collect :
    (d : Dict String ℤ) (es : List Entry) → first_logins d es ≡ collect login_of d es
unfolding first_logins
first_logins-collect d [] = refl
first_logins-collect d (e ∷ es) = rw (add_login-login_of d e) (
    collect_step login_of d es (login_of e) (λ d'. first_logins d' es)
      (λ d'. first_logins-collect d' es))

time_of-eq-ok : (e : Entry) (t : ℤ) → time_of e ≡ ok t → lookup "_ts_ns" e ≡ some (int t)
time_of-eq-ok e t h = ground arith

text_key-eq-ok : (v : Json) (s : String) → text_key v ≡ ok s → v ≡ str s
text_key-eq-ok (str s') s h = cc
text_key-eq-ok _ s h = absurd (ground arith)

at_time-eq-ok :
    (e : Entry) (v : Json) (s : String) (t : ℤ)
    → at_time e v ≡ ok (some (s, t))
    → (v ≡ str s) × (lookup "_ts_ns" e ≡ some (int t))
unfolding at_time
at_time-eq-ok e v s t h =
    let (ts, timed, rest) = >>=-eq-ok (time_of e) (λ ts. text_key v >>= λ s. ok (some (s, ts))) h in
    let (k, key, last) = >>=-eq-ok (text_key v) (λ s. ok (some (s, ts))) rest in
    let keyed = text_key-eq-ok v k key in
    let time = time_of-eq-ok e ts timed in (cc (keyed, last), cc (time, last))

pub Accessed-access_of :
    (s : String) (t : ℤ) (e : Entry) → Accessed s t e → access_of e ≡ ok (some (s, t))
unfolding at_time
Accessed-access_of s t e (named, full, dash, time) = ground arith

pub access_of-Accessed :
    (s : String) (t : ℤ) (e : Entry) → access_of e ≡ ok (some (s, t)) → Accessed s t e
unfolding at_time
access_of-Accessed s t e h = elim (Option-cases (used_sub e)) [
  | inl unused ↦ absurd (ground arith)
  | inr (v, used) ↦
      let (text, time) = at_time-eq-ok e v s t (ground arith) in
      (ground arith, ground arith, ground arith, time)
]

pub LoggedIn-login_of :
    (s : String) (t : ℤ) (e : Entry) → LoggedIn s t e → login_of e ≡ ok (some (s, t))
unfolding at_time
LoggedIn-login_of s t e (named, time) = ground arith

pub login_of-LoggedIn :
    (s : String) (t : ℤ) (e : Entry) → login_of e ≡ ok (some (s, t)) → LoggedIn s t e
unfolding at_time
login_of-LoggedIn s t e h = elim (Result-cases (user_of e)) [
  | inr (x, failed) ↦ absurd (ground arith)
  | inl (none, found) ↦ absurd (ground arith)
  | inl (some v, found) ↦
      let (text, time) = at_time-eq-ok e v s t (ground arith) in (ground arith, time)
]

pub logins_total :
    (d : Dict String ℤ) (es : List Entry)
    → NamesLogins es
    → (d' : Dict String ℤ) × (collect login_of d es ≡ ok d')
logins_total d [] _ = (d, refl)
logins_total d (e ∷ es) (inl unused, more) =
    let (d', rest) = logins_total d es more in (d', rw unused rest)
logins_total d (e ∷ es) (inr (s, t, login), more) =
    let (d', rest) = logins_total (keep_earliest s t d) es more in
    (d', rw (LoggedIn-login_of s t e login) rest)
