-- ===== src/Audit/Issuance/Subjects.antt =====
-- audit/audit.py: whether `check2` holds the subject of a use against the record of its issue.
use gekko.Base.{
  String, true, false, Option, none, some, ◌≡◌, ◌↔◌, ◌⊎◌, inl, inr, refl, arith, string_eq, ◌==◌,
  Bool-cases,
}
use gekko.Python.Json.{Json, str}
use gekko.EmployeeService.Dpop.Claims.{optional-eq, optional-eq_refl}
use gekko.Audit.Issuance.{differs}

-- The record names no subject, or an empty one, or the subject of the use.
abbrev pub AllowsSubject : Option String → Option Json → Type 0
AllowsSubject none sub = Unit
AllowsSubject (some user_id) sub = (user_id ≡ "") ⊎ (sub ≡ some (str user_id))

pub differs-AllowsSubject_iff :
    (recorded : Option String) (sub : Option Json)
    → (differs recorded sub ≡ false) ↔ AllowsSubject recorded sub
differs-AllowsSubject_iff none sub = (λ h. tt, λ h. refl)
differs-AllowsSubject_iff (some user_id) sub = (
  λ h. elim (Bool-cases (user_id == "")) [
    | inl empty ↦ inl (ground arith)
    | inr full ↦ inr (optional-eq sub user_id (ground arith))
  ],
  λ h. elim h [
    | inl empty ↦ ground arith
    | inr same ↦ ground (arith, optional-eq_refl sub user_id same)
  ],
)

pub differs-not_AllowsSubject_iff :
    (recorded : Option String) (sub : Option Json)
    → (differs recorded sub ≡ true) ↔ (¬ AllowsSubject recorded sub)
differs-not_AllowsSubject_iff recorded sub =
    let (to, from) = differs-AllowsSubject_iff recorded sub in
    (
      λ h allowed. cc (h, from allowed),
      λ other. elim (Bool-cases (differs recorded sub)) [
        | inl yes_it_does ↦ yes_it_does
        | inr same ↦ absurd (other (to same))
      ],
    )
