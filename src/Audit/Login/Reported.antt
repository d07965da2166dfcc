-- ===== src/Audit/Login/Reported.antt =====
-- audit/audit.py: which subjects the report of `check3` lists.
use mathlib.Core.Path.{subst}
use gekko.Base.{
  ◌+◌, length, In, filter_map-In_iff, String, true, none, some, List, [], ◌≡◌, ◌↔◌, inl, inr, refl,
  sym, ap, ◌∙◌, arith, string_eq, Option-cases,
}
use gekko.Base.Dict.{Dict, lookup}
use gekko.Python.Errors.{ok}
use gekko.Python.Json.{ℤ}
use gekko.Python.Integers.{◌<ℤ◌}
use gekko.Python.Sorting.{Sorted, sort_by-Sorted, sort_by-In_iff, length-sort_by}
use gekko.Audit.Loki.{Entry}
use gekko.Audit.Login.{
  Access, first_accesses, Violation, violation_of, without_login_of, hard_violations, info_only,
  LoginReport, report3, verdict3,
}
use gekko.Audit.Login.Earliest.{collect}
use gekko.Audit.Login.Entries.{
  LoggedIn, AnyEntry, NamesAccesses, NamesLogins, access_of, login_of, first_logins-collect,
  logins_total,
}
use gekko.Audit.Login.Services.{times, accesses_total}
use gekko.Audit.Login.First.{First, IsFirstAccess, lookup-First_iff, lookup-none_iff, Accessed-iff}
use gekko.Audit.Login.Counts.{counts-le, no_violation-nil_iff}
use gekko.Audit.Login.Laws.{login_kept, login_shown}

violation_of-some_iff :
    (logins : Dict String ℤ) (s : String) (a : Access) (v : Violation)
    → (violation_of logins (s, a) ≡ some v) ↔ (
        (s ≡ v.sub)
        × (a ≡ v.access)
        × (lookup v.sub logins ≡ some v.login)
        × (v.access.ts_ns <ℤ v.login))
violation_of-some_iff logins s a v = elim (Option-cases (lookup s logins)) [
  | inl missing ↦ ground arith
  | inr (l, found) ↦ ground arith
]

without_login_of-some_iff :
    (logins : Dict String ℤ) (s t : String) (a b : Access)
    → (without_login_of logins (s, a) ≡ some (t, b))
      ↔ ((s ≡ t) × (a ≡ b) × (lookup t logins ≡ none))
without_login_of-some_iff logins s t a b = ground arith

-- The first login of the subject is later than its first access.
abbrev pub IsLate : List Entry → List Entry → Violation → Type 0
IsLate svc_logs kc_logs v =
    IsFirstAccess v.sub v.access svc_logs
    × First LoggedIn v.sub v.login kc_logs
    × (v.access.ts_ns <ℤ v.login)

-- The subject has a first access, and no login.
abbrev pub IsWithoutLogin : List Entry → List Entry → String × Access → Type 0
IsWithoutLogin svc_logs kc_logs (s, access) =
    IsFirstAccess s access svc_logs × ((l : ℤ) → ¬ AnyEntry (LoggedIn s l) kc_logs)

module _ (svc kc : List Entry) (first : Dict String Access) (logins : Dict String ℤ)
    (accesses : NamesAccesses svc) (read : first_accesses [] svc ≡ ok first)
    (kept : collect access_of [] svc ≡ ok (times first))
    (known : collect login_of [] kc ≡ ok logins) where
  LoggedIn-iff : (s : String) (t : ℤ) → (lookup s logins ≡ some t) ↔ First LoggedIn s t kc
  LoggedIn-iff =
      lookup-First_iff LoggedIn kc logins (login_kept kc logins known) (login_shown kc logins known)

  no_login_iff : (s : String) → (lookup s logins ≡ none) ↔ ((t : ℤ) → ¬ AnyEntry (LoggedIn s t) kc)
  no_login_iff =
      lookup-none_iff LoggedIn kc logins (login_kept kc logins known) (login_shown kc logins known)

  pub hard_violations-In_iff :
      (v : Violation) → In v (hard_violations logins first) ↔ IsLate svc kc v
  hard_violations-In_iff v =
      let (to, from) = filter_map-In_iff (violation_of logins) v first in
      let (seen, see) = Accessed-iff svc first accesses read kept v.sub v.access in
      let (logged, log) = LoggedIn-iff v.sub v.login in
      (
        λ p.
            let ((s, a), there, h) = to p in
            let (same, when, found, late) = (violation_of-some_iff logins s a v).0 h in
            (seen (subst (λ x. In x first) (λ i. (same i, when i)) there), logged found, late),
        λ (accessed, login, late). from (
          (v.sub, v.access),
          see accessed,
          (violation_of-some_iff logins v.sub v.access v).1 (refl, refl, log login, late),
        ),
      )

  pub info_only-In_iff :
      (x : String × Access) → In x (info_only logins first) ↔ IsWithoutLogin svc kc x
  info_only-In_iff (t, b) =
      let (to, from) = filter_map-In_iff (without_login_of logins) (t, b) first in
      let (seen, see) = Accessed-iff svc first accesses read kept t b in
      let (absent, miss) = no_login_iff t in
      (
        λ p.
            let ((s, a), there, h) = to p in
            let (same, when, missing) = (without_login_of-some_iff logins s t a b).0 h in
            (seen (subst (λ x. In x first) (λ i. (same i, when i)) there), absent missing),
        λ (accessed, never). from (
          (t, b),
          see accessed,
          (without_login_of-some_iff logins t t b b).1 (refl, refl, miss never),
        ),
      )

-- For logs in which every access names nobody, or a subject with a time and a service, and every
-- login nobody, or a user with a time, the report lists as violations the subjects whose first
-- login is later than their first access, with the two times, and apart from them the subjects
-- with an access and no login. The service beside an access is that of the first entry in the log
-- at that time. Both lists go by the time of the access, and with the number of confirmed subjects
-- their lengths make up the number of subjects. The verdict on the logs is positive exactly when no
-- violation is listed.
pub report3-lists :
    (svc_logs kc_logs : List Entry)
    → NamesAccesses svc_logs
    → NamesLogins kc_logs
    → (report : LoginReport) × (report3 svc_logs kc_logs ≡ ok report)
      × ((v : Violation) → In v report.violations ↔ IsLate svc_logs kc_logs v)
      × ((x : String × Access) → In x report.without_login ↔ IsWithoutLogin svc_logs kc_logs x)
      × Sorted (λ v. v.access.ts_ns) report.violations
      × Sorted (λ x. x.1.ts_ns) report.without_login
      × (report.confirmed + length report.violations + length report.without_login ≡ report.subs)
      × ((verdict3 svc_logs kc_logs ≡ ok true) ↔ (length report.violations ≡ 0))
unfolding report3 verdict3
report3-lists svc kc accesses logged =
    let (first, read, kept) = accesses_total [] svc accesses in
    let (logins, known) = logins_total [] kc logged in
    let bad = hard_violations logins first in
    let info = info_only logins first in
    let bad_length = length-sort_by (λ v. v.access.ts_ns) bad in
    let info_length = length-sort_by (λ x. x.1.ts_ns) info in
    let (none_bad, judge) = no_violation-nil_iff logins first in
    rw (read, first_logins-collect, known)
      (
        _,
        refl,
        (λ v. ground (
          arith,
          sort_by-In_iff (λ w. w.access.ts_ns) v bad,
          hard_violations-In_iff svc kc first logins accesses read kept known v,
        )),
        (λ x. ground (
          arith,
          sort_by-In_iff (λ y. y.1.ts_ns) x info,
          info_only-In_iff svc kc first logins accesses read kept known x,
        )),
        sort_by-Sorted (λ v. v.access.ts_ns) bad,
        sort_by-Sorted (λ x. x.1.ts_ns) info,
        omega (arith, bad_length, info_length, counts-le logins first),
        (
          λ h. bad_length ∙ none_bad (ground arith),
          λ h. ap (λ b. ok b) (judge (sym bad_length ∙ h)),
        ),
      )
