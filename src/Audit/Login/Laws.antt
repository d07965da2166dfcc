-- ===== src/Audit/Login/Laws.antt =====
-- audit/audit.py: which accesses `check3` reports.
use mathlib.Core.Path.{subst}
use gekko.Base.{
  String, Bool, true, false, Option, none, some, List, [], ◌∷◌, ◌≡◌, ◌≢◌, ◌↔◌, inl, inr, refl,
  arith, string_eq,
}
use gekko.Base.Dict.{Dict, lookup, lookup-cons, NodupKeys}
use gekko.Python.Errors.{Result, ok}
use gekko.Python.Json.{ℤ}
use gekko.Python.Integers.{◌≤ℤ◌}
use gekko.Audit.Loki.{Entry, Source, IsDown, query_loki, default_limit, query_loki_down}
use gekko.Audit.Login.{
  Access, first_accesses, first_logins, is_violation, no_violation, verdict3, all_access_query,
  login_query, check3,
}
use gekko.Audit.Login.Earliest.{
  AtMost, collect, Occurs, collect-AtMost, collect-Occurs, collect-NodupKeys,
}
use gekko.Audit.Login.Entries.{
  Accessed, LoggedIn, AnyEntry, NamesAccesses, NamesLogins, access_of, login_of,
  first_logins-collect, Accessed-access_of, access_of-Accessed, LoggedIn-login_of,
  login_of-LoggedIn, logins_total,
}
use gekko.Audit.Login.Services.{times, accesses_total}

-- The subjects' times as the loop finds them, and as the entries show them.
Occurs-AnyEntry :
    (event : Entry → Result (Option (String × ℤ))) (P : Entry → Type 0) (s : String) (t : ℤ)
    → ((e : Entry) → event e ≡ ok (some (s, t)) → P e)
    → (es : List Entry) → Occurs event s t es
    → AnyEntry P es
Occurs-AnyEntry event P s t shows [] never = never
Occurs-AnyEntry event P s t shows (e ∷ es) (inl now) = inl (shows e now)
Occurs-AnyEntry event P s t shows (e ∷ es) (inr later) =
    inr (Occurs-AnyEntry event P s t shows es later)

AnyEntry-Occurs :
    (event : Entry → Result (Option (String × ℤ))) (P : Entry → Type 0) (s : String) (t : ℤ)
    → ((e : Entry) → P e → event e ≡ ok (some (s, t)))
    → (es : List Entry) → AnyEntry P es
    → Occurs event s t es
AnyEntry-Occurs event P s t shows [] never = never
AnyEntry-Occurs event P s t shows (e ∷ es) (inl now) = inl (shows e now)
AnyEntry-Occurs event P s t shows (e ∷ es) (inr later) =
    inr (AnyEntry-Occurs event P s t shows es later)

lookup-nil : (s : String) (a : ℤ) → lookup s [] ≢ some a
unfolding lookup
lookup-nil s a h = cc

pub access_kept :
    (es : List Entry) (d : Dict String ℤ)
    → collect access_of [] es ≡ ok d
    → (s : String) (t : ℤ) → AnyEntry (Accessed s t) es
    → AtMost d s t
access_kept es d h s t p =
    collect-AtMost access_of [] d es s t h
      (AnyEntry-Occurs access_of (Accessed s t) s t (Accessed-access_of s t) es p)

pub access_shown :
    (es : List Entry) (d : Dict String ℤ)
    → collect access_of [] es ≡ ok d
    → (s : String) (t : ℤ) → lookup s d ≡ some t
    → AnyEntry (Accessed s t) es
access_shown es d h s t p = elim (collect-Occurs access_of [] d es s t h p) [
  | inl nothing ↦ absurd (lookup-nil s t nothing)
  | inr occurs ↦ Occurs-AnyEntry access_of (Accessed s t) s t (access_of-Accessed s t) es occurs
]

pub login_kept :
    (es : List Entry) (d : Dict String ℤ)
    → collect login_of [] es ≡ ok d
    → (s : String) (t : ℤ) → AnyEntry (LoggedIn s t) es
    → AtMost d s t
login_kept es d h s t p =
    collect-AtMost login_of [] d es s t h
      (AnyEntry-Occurs login_of (LoggedIn s t) s t (LoggedIn-login_of s t) es p)

pub login_shown :
    (es : List Entry) (d : Dict String ℤ)
    → collect login_of [] es ≡ ok d
    → (s : String) (t : ℤ) → lookup s d ≡ some t
    → AnyEntry (LoggedIn s t) es
login_shown es d h s t p = elim (collect-Occurs login_of [] d es s t h p) [
  | inl nothing ↦ absurd (lookup-nil s t nothing)
  | inr occurs ↦ Occurs-AnyEntry login_of (LoggedIn s t) s t (login_of-LoggedIn s t) es occurs
]

-- No subject's time is before its login.
abbrev InOrder : Dict String ℤ → Dict String ℤ → Type 0
InOrder logins first =
    (s : String) (a l : ℤ) → lookup s first ≡ some a → lookup s logins ≡ some l → l ≤ℤ a

is_violation-false_iff :
    (login : Option ℤ) (a : ℤ)
    → (is_violation login a ≡ false) ↔ ((l : ℤ) → login ≡ some l → l ≤ℤ a)
is_violation-false_iff none a = (λ h l p. absurd (ground arith), λ h. refl)
is_violation-false_iff (some l) a = (λ h l' p. ground arith, λ h. ground (arith, h l refl))

no_violation-InOrder_iff :
    (logins : Dict String ℤ) (first : Dict String Access)
    → NodupKeys (times first)
    → (no_violation logins first ≡ true) ↔ InOrder logins (times first)
unfolding no_violation
no_violation-InOrder_iff logins [] n = (λ h s a l p. absurd (lookup-nil s a p), λ h. refl)
no_violation-InOrder_iff logins ((k, access) ∷ first) (fresh, n) =
    let b = access.ts_ns in
    let (to, from) = no_violation-InOrder_iff logins first n in
    let (judged, judge) = is_violation-false_iff (lookup k logins) b in
    (
      λ h s a l p q. elim (string_eq.dec s k) [
        | yes same ↦
            let time : b ≡ a = ground (arith, lookup-cons s k b (times first)) in
            rw (← time) (judged (ground arith) l (rw (← same) q))
        | no other ↦ to (ground arith) s a l (ground (arith, lookup-cons s k b (times first))) q
      ],
      λ h. ground (
        arith,
        judge (λ l q. h k b l (ground (arith, lookup-cons k k b (times first))) q),
        from (λ s a l p q. h s a l (ground (arith, lookup-cons s k b (times first))) q),
      ),
    )

-- For logs in which every access names nobody, or a subject with a time and a service, and every
-- login nobody, or a user with a time, the verdict is positive exactly when every access by a
-- subject with a login in the logs has a login of that subject at the same time or earlier. An access whose subject has no login there is not held against it.
pub verdict3-true_iff :
    (svc_logs kc_logs : List Entry)
    → NamesAccesses svc_logs
    → NamesLogins kc_logs
    → (verdict3 svc_logs kc_logs ≡ ok true) ↔ (
        (s : String) (a l : ℤ)
        → AnyEntry (Accessed s a) svc_logs
        → AnyEntry (LoggedIn s l) kc_logs
        → (earlier : ℤ) × AnyEntry (LoggedIn s earlier) kc_logs × (earlier ≤ℤ a))
unfolding verdict3
verdict3-true_iff svc kc accesses logged =
    let (first, read, kept) = accesses_total [] svc accesses in
    let (logins, known) = logins_total [] kc logged in
    let (to, from) =
      no_violation-InOrder_iff logins first
        (collect-NodupKeys access_of [] (times first) svc kept tt) in
    rw (read, first_logins-collect, known)
      (
        λ h s a l p q.
            let (a', at, before) = access_kept svc (times first) kept s a p in
            let (l', lt, _) = login_kept kc logins known s l q in
            (
              l',
              login_shown kc logins known s l' lt,
              omega (arith, to (ground arith) s a' l' at lt, before),
            ),
        λ h.
            rw
              (from (λ s a l at lt.
                let (e, q, le) =
                  h s a l (access_shown svc (times first) kept s a at)
                    (login_shown kc logins known s l lt) in
                let (l', lt', below) = login_kept kc logins known s e q in
                let same : l' ≡ l = cc (lt, lt') in
                omega (arith, subst (λ x. x ≤ℤ e) same below, le)))
              refl,
      )

pub verdict3-total :
    (svc_logs kc_logs : List Entry)
    → NamesAccesses svc_logs
    → NamesLogins kc_logs
    → (passed : Bool) × (verdict3 svc_logs kc_logs ≡ ok passed)
unfolding verdict3
verdict3-total svc kc accesses logged =
    let (first, read, kept) = accesses_total [] svc accesses in
    let (logins, known) = logins_total [] kc logged in
    (no_violation logins first, rw (read, first_logins-collect, known) refl)

-- The check is its verdict on what the queries return.
pub check3-verdict3 :
    (src : Source) (start_ns end_ns : ℤ) (svc_logs kc_logs : List Entry)
    → query_loki src all_access_query start_ns end_ns default_limit ≡ ok svc_logs
    → query_loki src login_query start_ns end_ns default_limit ≡ ok kc_logs
    → check3 src start_ns end_ns ≡ verdict3 svc_logs kc_logs
unfolding check3
check3-verdict3 src start_ns end_ns svc kc qs qk = rw (qs, qk) refl

-- With no logs at all the check passes.
pub check3_nothing :
    (src : Source) (start_ns end_ns : ℤ) → IsDown src → check3 src start_ns end_ns ≡ ok true
unfolding check3 verdict3 first_accesses first_logins no_violation
check3_nothing src start_ns end_ns down = let q = query_loki_down src down in simp q
