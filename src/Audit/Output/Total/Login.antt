-- ===== src/Audit/Output/Total/Login.antt =====
-- audit/audit.py: `check3` ends, with all that it prints, where the times can be shown.
use mathlib.Core.Path.{subst}
use gekko.Base.{String, Bool, true, false, List, [], ◌∷◌, ◌≡◌, refl, ap, ◌∙◌, In, string_eq, some}
use gekko.Base.Dict.{Dict, lookup}
use gekko.Python.Errors
use gekko.Python.Errors.{ok}
use gekko.Python.Json.{ℤ, int}
use gekko.Python.Sorting.{sort_by, sort_by-In_iff}
use gekko.Audit.Loki.{Entry, Source, time_of, query_loki, default_limit}
use gekko.Audit.Login.{
  first_accesses, Access, Violation, hard_violations, info_only, all_access_query, login_query,
}
use gekko.Audit.Login.Entries.{
  access_of, login_of, Accessed, LoggedIn, AnyEntry, NamesAccesses, NamesLogins,
  first_logins-collect, logins_total,
}
use gekko.Audit.Login.Earliest.{collect}
use gekko.Audit.Login.Services.{times, accesses_total}
use gekko.Audit.Login.Reported.{hard_violations-In_iff, info_only-In_iff}
use gekko.Audit.Output.{for_each, pure}
use gekko.Audit.Output.Laws.{outcome, outcome->>=, outcome-print_query}
use gekko.Audit.Output.Shown.{HasText, IsShowable, AreShowable, AnyEntry-AllEntries, for_each-total}
use gekko.Audit.Output.Login.{
  print_without_login, print_violation, print_info_only, print_in_order, print_violations,
  print_subs, print_check3,
}

time_of-int : (e : Entry) (t : ℤ) → lookup "_ts_ns" e ≡ some (int t) → time_of e ≡ ok t
time_of-int e t at = rw at refl

same_text : (e : Entry) (t : ℤ) → IsShowable e → lookup "_ts_ns" e ≡ some (int t) → HasText t
same_text e t ((u, timed, shown), _) at = subst HasText (cc (timed, time_of-int e t at)) shown

Accessed-HasText :
    (s : String) (t : ℤ) (es : List Entry) → AreShowable es → AnyEntry (Accessed s t) es → HasText t
Accessed-HasText s t es shown any =
    let (e, p, (_, _, _, time)) = AnyEntry-AllEntries IsShowable (Accessed s t) es shown any in
    same_text e t p time

LoggedIn-HasText :
    (s : String) (t : ℤ) (es : List Entry) → AreShowable es → AnyEntry (LoggedIn s t) es → HasText t
LoggedIn-HasText s t es shown any =
    let (e, p, (_, time)) = AnyEntry-AllEntries IsShowable (LoggedIn s t) es shown any in
    same_text e t p time

print_info_only-total :
    (info : List (String × Access))
    → ((x : String × Access) → In x info → HasText x.1.ts_ns)
    → outcome (print_info_only info) ≡ ok tt
unfolding print_info_only print_without_login
print_info_only-total [] shown = refl
print_info_only-total (y ∷ ys) shown =
    for_each-total print_without_login (sort_by (λ v. v.1.ts_ns) (y ∷ ys)) (λ x p.
      let (at, told) = shown x ((sort_by-In_iff (λ v. v.1.ts_ns) x (y ∷ ys)).0 p) in
      simp (outcome->>=, told) refl)

print_in_order-total :
    (first : Dict String Access) (info : List (String × Access))
    → (b : Bool) × (outcome (print_in_order first info) ≡ ok b)
unfolding print_in_order
print_in_order-total [] info = (true, refl)
print_in_order-total (x ∷ xs) [] = (true, refl)
print_in_order-total (x ∷ xs) (y ∷ ys) = (true, refl)

print_violations-total :
    (first : Dict String Access) (info : List (String × Access)) (hard : List Violation)
    → ((v : Violation) → In v hard → HasText v.login × HasText v.access.ts_ns)
    → (b : Bool) × (outcome (print_violations first info hard) ≡ ok b)
unfolding print_violations print_violation
print_violations-total first info [] shown = print_in_order-total first info
print_violations-total first info (v ∷ vs) shown =
    let sorted = sort_by (λ w. w.access.ts_ns) (v ∷ vs) in
    let told = for_each-total print_violation sorted (λ w p.
      let ((login, l), (at, a)) = shown w ((sort_by-In_iff (λ w. w.access.ts_ns) w (v ∷ vs)).0 p) in
      simp (outcome->>=, l, a) refl) in
    (
      false,
      outcome->>= (for_each print_violation sorted) (λ _. pure false)
          ∙ ap (λ r. Errors.◌>>=◌ r (λ _. ok false)) told,
    )

module _ (svc kc : List Entry) (first : Dict String Access) (logins : Dict String ℤ)
    (accesses : NamesAccesses svc) (read : first_accesses [] svc ≡ ok first)
    (kept : collect access_of [] svc ≡ ok (times first))
    (known : collect login_of [] kc ≡ ok logins) (svc_shown : AreShowable svc) where
  pub info_only-shown : outcome (print_info_only (info_only logins first)) ≡ ok tt
  info_only-shown = print_info_only-total (info_only logins first) (λ x p.
      let ((earliest, _), _) =
        (info_only-In_iff svc kc first logins accesses read kept known x).0 p in
      Accessed-HasText x.0 x.1.ts_ns svc svc_shown earliest.0)

  pub hard_violations-shown :
      AreShowable kc
      → (v : Violation) → In v (hard_violations logins first)
      → HasText v.login × HasText v.access.ts_ns
  hard_violations-shown kc_shown v p =
      let ((earliest, _), login, _) =
        (hard_violations-In_iff svc kc first logins accesses read kept known v).0 p in
      (
        LoggedIn-HasText v.sub v.login kc kc_shown login.0,
        Accessed-HasText v.sub v.access.ts_ns svc svc_shown earliest.0,
      )

pub print_check3-total :
    (src : Source) (start_ns end_ns : ℤ) (svc_logs kc_logs : List Entry)
    → query_loki src all_access_query start_ns end_ns default_limit ≡ ok svc_logs
    → query_loki src login_query start_ns end_ns default_limit ≡ ok kc_logs
    → NamesAccesses svc_logs
    → NamesLogins kc_logs
    → AreShowable svc_logs
    → AreShowable kc_logs
    → (b : Bool) × (outcome (print_check3 src start_ns end_ns) ≡ ok b)
unfolding print_check3 print_subs
print_check3-total src start_ns end_ns svc kc svc_read kc_read accesses logged svc_shown kc_shown =
    let (first, read, kept) = accesses_total [] svc accesses in
    let (logins, known) = logins_total [] kc logged in
    let logins_read = first_logins-collect [] kc ∙ known in
    let hard = hard_violations logins first in
    let info = info_only logins first in
    let infos = info_only-shown svc kc first logins accesses read kept known svc_shown in
    let (b, told) =
      print_violations-total first info hard
        (hard_violations-shown svc kc first logins accesses read kept known svc_shown kc_shown) in
    (b, simp (outcome->>=, outcome-print_query, svc_read, kc_read, read, logins_read, infos) told)
