-- ===== src/Audit/Login/First.antt =====
-- audit/audit.py: the dict of the first accesses holds what the log has first for each subject.
use mathlib.Core.Path.{subst}
use gekko.Base.{
  Option, ◌∷◌, ◌≢◌, In, String, none, some, List, [], ◌≡◌, ◌↔◌, inl, inr, refl, sym, ap, ◌∙◌, arith,
  string_eq, Option-cases,
}
use gekko.Base.Dict.{Dict, In-lookup_iff, lookup, NodupKeys}
use gekko.Python.Errors.{ok}
use gekko.Python.Json.{ℤ}
use gekko.Python.Integers.{◌≤ℤ◌}
use gekko.Audit.Loki.{Entry}
use gekko.Audit.Login.{Access, known_time, first_accesses}
use gekko.Audit.Login.Earliest.{AtMost, collect, collect-NodupKeys}
use gekko.Audit.Login.Entries.{Accessed, AnyEntry, NamesAccesses, access_of}
use gekko.Audit.Login.Services.{times, lookup-times}
use gekko.Audit.Login.Ties.{FirstCalled, FirstCalled-unique, first_accesses-FirstCalled}
use gekko.Audit.Login.Laws.{access_kept, access_shown}

-- The first time at which an entry does this for the subject.
abbrev pub First : (String → ℤ → Entry → Type 0) → String → ℤ → List Entry → Type 0
First P s t es = AnyEntry (P s t) es × ((u : ℤ) → AnyEntry (P s u) es → t ≤ℤ u)

≤ℤ_antisymm : (a b : ℤ) → a ≤ℤ b → b ≤ℤ a → a ≡ b
≤ℤ_antisymm a b h k = ground arith

known_time-some :
    (d : Option Access) (t : ℤ)
    → known_time d ≡ some t
    → (access : Access) × (d ≡ some access) × (access.ts_ns ≡ t)
known_time-some none t h = absurd (cc h)
known_time-some (some access) t h = (access, refl, cc h)

NodupKeys-times : (d : Dict String Access) → NodupKeys (times d) → NodupKeys d
NodupKeys-times [] _ = tt
NodupKeys-times ((s, access) ∷ d) (fresh, n) =
    (ground (arith, fresh, lookup-times s d), NodupKeys-times d n)

lookup-nil : (s : String) (access : Access) → lookup s [] ≢ some access
unfolding lookup
lookup-nil s access h = cc

-- A dict with the first times of a log, by the laws of the loop that builds it.
module _ (P : String → ℤ → Entry → Type 0) (es : List Entry) (d : Dict String ℤ)
    (kept : (s : String) (t : ℤ) → AnyEntry (P s t) es → AtMost d s t)
    (shown : (s : String) (t : ℤ) → lookup s d ≡ some t → AnyEntry (P s t) es) where
  pub lookup-First_iff : (s : String) (t : ℤ) → (lookup s d ≡ some t) ↔ First P s t es
  lookup-First_iff s t = (
    λ h. (
      shown s t h,
      λ u p.
          let (w, found, le) = kept s u p in
          let same : w ≡ t = cc (found, h) in subst (λ x. x ≤ℤ u) same le,
    ),
    λ (there, first).
        let (w, found, le) = kept s t there in
        found ∙ ap (λ x. some x) (≤ℤ_antisymm w t le (first w (shown s w found))),
  )

  pub lookup-none_iff : (s : String) → (lookup s d ≡ none) ↔ ((t : ℤ) → ¬ AnyEntry (P s t) es)
  lookup-none_iff s = (
    λ h t p. let (w, found, _) = kept s t p in absurd (cc (found, h)),
    λ never. elim (Option-cases (lookup s d)) [
      | inl missing ↦ missing
      | inr (w, found) ↦ absurd (never w (shown s w found))
    ],
  )

-- The first access of the subject: its time, and the service of the first entry at that time.
abbrev pub IsFirstAccess : String → Access → List Entry → Type 0
IsFirstAccess s access svc_logs =
    First Accessed s access.ts_ns svc_logs × FirstCalled s access svc_logs

module _ (svc : List Entry) (first : Dict String Access) (accesses : NamesAccesses svc)
    (read : first_accesses [] svc ≡ ok first)
    (kept : collect access_of [] svc ≡ ok (times first)) where
  times-First_iff :
      (s : String) (t : ℤ) → (lookup s (times first) ≡ some t) ↔ First Accessed s t svc
  times-First_iff =
      lookup-First_iff Accessed svc (times first) (access_kept svc (times first) kept)
        (access_shown svc (times first) kept)

  first-FirstCalled :
      (s : String) (access : Access) → lookup s first ≡ some access → FirstCalled s access svc
  first-FirstCalled s access h =
      elim (first_accesses-FirstCalled [] first svc s access accesses read h) [
        | inl never ↦ absurd (lookup-nil s access never)
        | inr there ↦ there
      ]

  lookup-IsFirstAccess_iff :
      (s : String) (access : Access) → (lookup s first ≡ some access) ↔ IsFirstAccess s access svc
  lookup-IsFirstAccess_iff s access =
      let (to, from) = times-First_iff s access.ts_ns in
      (
        λ h. (to (lookup-times s first ∙ ap known_time h), first-FirstCalled s access h),
        λ (earliest, called).
            let (found, h, same) =
              known_time-some (lookup s first) access.ts_ns
                (sym (lookup-times s first) ∙ from earliest) in
            h
            ∙ ap (λ x. some x)
                (FirstCalled-unique s found access svc same (first-FirstCalled s found h) called),
      )

  pub Accessed-iff :
      (s : String) (access : Access) → In (s, access) first ↔ IsFirstAccess s access svc
  Accessed-iff s access =
      let nodup =
        NodupKeys-times first (collect-NodupKeys access_of [] (times first) svc kept tt) in
      let (to, from) = In-lookup_iff s access first nodup in
      let (to', from') = lookup-IsFirstAccess_iff s access in (λ p. to' (to p), λ p. from (from' p))
