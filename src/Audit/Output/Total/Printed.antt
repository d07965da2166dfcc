-- ===== src/Audit/Output/Total/Printed.antt =====
-- audit/audit.py: `check3` prints a line for every subject whose first login is late.
use gekko.Base.{String, List, [], ◌∷◌, ◌++◌, ◌≡◌, inl, inr, refl, sym, ap, ◌∙◌, In}
use mathlib.Core.Path.{subst}
use gekko.Base.Dict.{Dict}
use gekko.Python.Errors.{ok, raise, ok-injective}
use gekko.Python.Json.{ℤ}
use gekko.Python.Sorting.{sort_by, sort_by-In_iff}
use gekko.Audit.Clock.{ts_str}
use gekko.Audit.Loki.{Entry, Source, query_loki, default_limit}
use gekko.Audit.Login.{
  Access, Violation, first_accesses, first_logins, hard_violations, info_only, all_access_query,
  login_query,
}
use gekko.Audit.Login.Entries.{NamesAccesses, NamesLogins, first_logins-collect, logins_total}
use gekko.Audit.Login.Services.{accesses_total}
use gekko.Audit.Login.Reported.{IsLate, hard_violations-In_iff}
use gekko.Audit.Output.{Line, Printing, ◌>>=◌, for_each, print_query, lift, access_before_login}
use gekko.Audit.Output.Laws.{outcome, outcome-print_query}
use gekko.Audit.Output.Shown.{HasText, AreShowable}
use gekko.Audit.Output.Login.{
  print_violation, print_violations, print_info_only, print_subs, print_check3,
}
use gekko.Audit.Output.Total.Login.{info_only-shown, hard_violations-shown}

In-append_left : (l : Line) (ls ls' : List Line) → In l ls → In l (ls ++ ls')
In-append_left l [] ls' never = absurd never
In-append_left l (x ∷ ls) ls' (inl same) = inl same
In-append_left l (x ∷ ls) ls' (inr later) = inr (In-append_left l ls ls' later)

In-append_right : (l : Line) (ls ls' : List Line) → In l ls' → In l (ls ++ ls')
In-append_right l [] ls' p = p
In-append_right l (x ∷ ls) ls' p = inr (In-append_right l ls ls' p)

-- A line of the first part, and one of the second where the first returns.
>>=-In_before :
    {A B : Type 0} (l : Line) (m : Printing A) (k : A → Printing B) → In l m.0 → In l (m >>= k).0
>>=-In_before l (lines, ok a) k p = In-append_left l lines (k a).0 p
>>=-In_before l (lines, raise e) k p = p

>>=-In_after :
    {A B : Type 0} (l : Line) (m : Printing A) (k : A → Printing B) (a : A)
    → outcome m ≡ ok a
    → In l (k a).0
    → In l (m >>= k).0
>>=-In_after l (lines, ok a') k a returns p =
    In-append_right l lines (k a').0 (subst (λ x. In l (k x).0) (ok-injective (sym returns)) p)
>>=-In_after l (lines, raise e) k a returns p = absurd (cc returns)

for_each-In :
    {A : Type 0} (body : A → Printing (Unit {0})) (xs : List A) (x : A) (l : Line)
    → ((y : A) → In y xs → outcome (body y) ≡ ok tt)
    → In x xs
    → In l (body x).0
    → In l (for_each body xs).0
for_each-In body [] x l can never p = absurd never
for_each-In body (y ∷ ys) x l can (inl same) p =
    >>=-In_before l (body y) (λ _. for_each body ys) (subst (λ z. In l (body z).0) same p)
for_each-In body (y ∷ ys) x l can (inr later) p =
    >>=-In_after l (body y) (λ _. for_each body ys) tt (can y (inl refl))
      (for_each-In body ys x l (λ z q. can z (inr q)) later p)

-- The times of the subject can be shown, and a line names it with them and the service.
abbrev pub IsPrinted : Violation → List Line → Type 0
IsPrinted v lines =
    (login : String) × (at : String) × (ts_str v.login ≡ ok login)
    × (ts_str v.access.ts_ns ≡ ok at)
    × In (access_before_login v.sub login at v.access.service) lines

print_violation-line :
    (v : Violation) (login at : String)
    → ts_str v.login ≡ ok login
    → ts_str v.access.ts_ns ≡ ok at
    → print_violation v ≡ (access_before_login v.sub login at v.access.service ∷ [], ok tt)
unfolding print_violation
print_violation-line v login at l a = rw (print_violation, l, a) refl

print_violations-IsPrinted :
    (first : Dict String Access) (info : List (String × Access)) (hard : List Violation)
    (v : Violation)
    → ((w : Violation) → In w hard → HasText w.login × HasText w.access.ts_ns)
    → In v hard
    → IsPrinted v (print_violations first info hard).0
unfolding print_violations
print_violations-IsPrinted first info [] v shown never = absurd never
print_violations-IsPrinted first info (w ∷ ws) v shown there =
    let key : Violation → ℤ = λ x. x.access.ts_ns in
    let sorted = sort_by key (w ∷ ws) in
    let ((login, login_ok), (at, at_ok)) = shown v there in
    let l : Line = access_before_login v.sub login at v.access.service in
    (
      login,
      at,
      login_ok,
      at_ok,
      inr (
          >>=-In_before l (for_each print_violation sorted) _ (
            for_each-In print_violation sorted v l
              (λ y p.
                let ((_, yl), (_, ya)) = shown y ((sort_by-In_iff key y (w ∷ ws)).0 p) in
                ap outcome (print_violation-line y _ _ yl ya))
              ((sort_by-In_iff key v (w ∷ ws)).1 there)
              (subst (λ m. In l m.0) (sym (print_violation-line v login at login_ok at_ok))
                (inl refl)))),
    )

-- On logs in which every access names nobody, or a subject with a time and a service, and every
-- login nobody, or a user with a time, and whose times and services can be shown, `check3` prints a
-- line for every subject whose first login is later than its first access, with both times and the
-- service that was called first.
pub print_check3-IsPrinted :
    (src : Source) (start_ns end_ns : ℤ) (svc_logs kc_logs : List Entry) (v : Violation)
    → query_loki src all_access_query start_ns end_ns default_limit ≡ ok svc_logs
    → query_loki src login_query start_ns end_ns default_limit ≡ ok kc_logs
    → NamesAccesses svc_logs
    → NamesLogins kc_logs
    → AreShowable svc_logs
    → AreShowable kc_logs
    → IsLate svc_logs kc_logs v
    → IsPrinted v (print_check3 src start_ns end_ns).0
unfolding print_check3 print_subs
print_check3-IsPrinted src start end svc kc v svc_read kc_read accesses logged svc_shown kc_shown
      late =
    let (first, read, kept) = accesses_total [] svc accesses in
    let (logins, known) = logins_total [] kc logged in
    let logins_read = first_logins-collect [] kc ∙ known in
    let hard = hard_violations logins first in
    let info = info_only logins first in
    let infos = info_only-shown svc kc first logins accesses read kept known svc_shown in
    let (login, at, login_ok, at_ok, there) =
      print_violations-IsPrinted first info hard v
        (hard_violations-shown svc kc first logins accesses read kept known svc_shown kc_shown)
        ((hard_violations-In_iff svc kc first logins accesses read kept known v).1 late) in
    let l : Line = access_before_login v.sub login at v.access.service in
    (
      login,
      at,
      login_ok,
      at_ok,
      inr (
          >>=-In_after l (print_query src all_access_query start end default_limit) _ svc
            (outcome-print_query src all_access_query start end default_limit ∙ svc_read)
            (>>=-In_after l (print_query src login_query start end default_limit) _ kc
              (outcome-print_query src login_query start end default_limit ∙ kc_read)
              (>>=-In_after l (lift (first_accesses [] svc)) _ first read (
                >>=-In_after l (lift (first_logins [] kc)) _ logins logins_read
                  (inr (>>=-In_after l (print_info_only info) _ tt infos there)))))),
    )
