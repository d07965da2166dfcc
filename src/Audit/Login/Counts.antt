-- ===== src/Audit/Login/Counts.antt =====
-- audit/audit.py: how long the lists of `check3` are.
use gekko.Base.{
  List, is_nil, filter_map-none, some, filter_map-some, ◌+◌, ◌≤◌, length, filter_map, String, true,
  false, [], ◌∷◌, ◌≡◌, ◌↔◌, ◌⊎◌, inl, inr, refl, sym, ap, ◌∙◌, arith, string_eq, Bool-cases,
  Option-cases,
}
use gekko.Base.Dict.{Dict, lookup}
use gekko.Python.Json.{ℤ}
use gekko.Python.Integers.{ltb_ℤ}
use gekko.Audit.Login.{
  Access, violation_of, without_login_of, Violation, is_violation, no_violation, Violation,
  hard_violations, info_only,
}

-- What one subject adds to the lists: it is a violation, without a login, or confirmed.
abbrev Adds : Dict String ℤ → Dict String Access → String → Access → Type 0
Adds logins first s a =
    let old = hard_violations logins first in
    let new = hard_violations logins ((s, a) ∷ first) in
    let old_info = info_only logins first in
    let new_info = info_only logins ((s, a) ∷ first) in
    ((is_violation (lookup s logins) a.ts_ns ≡ true)
      × ((v : Violation) × (new ≡ v ∷ old))
      × (new_info ≡ old_info))
    ⊎ ((is_violation (lookup s logins) a.ts_ns ≡ false)
        × (new ≡ old)
        × ((new_info ≡ old_info) ⊎ (new_info ≡ (s, a) ∷ old_info)))

one_subject :
    (logins : Dict String ℤ) (first : Dict String Access) (s : String) (a : Access)
    → Adds logins first s a
one_subject logins first s a =
    let no_violation_of = filter_map-none (violation_of logins) (s, a) first in
    let no_without = filter_map-none (without_login_of logins) (s, a) first in
    elim (Option-cases (lookup s logins)) [
      | inl missing ↦
          let info : without_login_of logins (s, a) ≡ some (s, a) =
            rw (without_login_of, missing) refl in
          inr (
            rw missing refl,
            no_violation_of (rw (violation_of, missing) refl),
            inr (filter_map-some (without_login_of logins) (s, a) (s, a) first info),
          )
      | inr (l, found) ↦
          let no_info = no_without (rw (without_login_of, found) refl) in
          elim (Bool-cases (ltb_ℤ a.ts_ns l)) [
            | inl late ↦
                let v : Violation = record { sub = s; login = l; access = a } in
                inl (
                  rw (found, late) refl,
                  (
                    v,
                    filter_map-some (violation_of logins) (s, a) v first
                        (rw (violation_of, found, late) refl),
                  ),
                  no_info,
                )
            | inr fine ↦ inr (
              rw (found, fine) refl,
              no_violation_of (rw (violation_of, found, fine) refl),
              inl no_info,
            )
          ]
    ]

pub counts-le :
    (logins : Dict String ℤ) (first : Dict String Access)
    → length (hard_violations logins first) + length (info_only logins first) ≤ length first
unfolding filter_map
counts-le logins [] = omega arith
counts-le logins ((s, a) ∷ first) =
    let ih = counts-le logins first in
    elim (one_subject logins first s a) [
      | inl (_, (v, new), info) ↦ omega (arith, ih, ap length new, ap length info)
      | inr (_, new, inl info) ↦ omega (arith, ih, ap length new, ap length info)
      | inr (_, new, inr info) ↦ omega (arith, ih, ap length new, ap length info)
    ]

pub no_violation-nil_iff :
    (logins : Dict String ℤ) (first : Dict String Access)
    → (no_violation logins first ≡ true) ↔ (length (hard_violations logins first) ≡ 0)
unfolding no_violation filter_map
no_violation-nil_iff logins [] = (λ h. refl, λ h. refl)
no_violation-nil_iff logins ((s, a) ∷ first) =
    let (to, from) = no_violation-nil_iff logins first in
    elim (one_subject logins first s a) [
      | inl (bad, (v, new), _) ↦
          (λ h. absurd (ground arith), λ h. absurd (omega (arith, h, ap length new)))
      | inr (good, new, _) ↦ (
        λ h. ap length new ∙ to (ground arith),
        λ h. let rest = from (sym (ap length new) ∙ h) in ground arith,
      )
    ]

nil_or_some :
    (vs : List Violation) → (length vs ≡ 0 → is_nil vs ≡ true) × (is_nil vs ≡ true → length vs ≡ 0)
nil_or_some [] = (λ h. refl, λ h. refl)
nil_or_some (v ∷ vs) = (λ h. absurd (omega (arith, h)), λ h. absurd (cc h))

pub no_violation-is_nil :
    (logins : Dict String ℤ) (first : Dict String Access)
    → no_violation logins first ≡ is_nil (hard_violations logins first)
no_violation-is_nil logins first =
    let (to, from) = no_violation-nil_iff logins first in
    let (nil, zero) = nil_or_some (hard_violations logins first) in
    elim (Bool-cases (no_violation logins first)) [
      | inl good ↦ good ∙ sym (nil (to good))
      | inr bad ↦ elim (Bool-cases (is_nil (hard_violations logins first))) [
        | inl none_bad ↦ absurd (cc (bad, from (zero none_bad)))
        | inr some_bad ↦ bad ∙ sym some_bad
      ]
    ]
