-- ===== src/Audit/Issuance/Findings.antt =====
-- audit/audit.py: the uses that have one finding.
use gekko.Base.{
  is_nil, ◌&&◌, In, suc, Option, ◌+◌, Bool, true, none, some, [], ◌∷◌, ◌≡◌, ◌↔◌, ◌⊎◌, inl, inr,
  refl, ap, ◌∙◌, arith, string_eq, pair_eq, length, Bool-cases,
}
use gekko.Base.Dict.{Dict, lookup}
use gekko.Audit.Loki.{Entry}
use gekko.Audit.Events.{Issue, Issues}
use mathlib.Core.Path.{subst}
use gekko.Audit.Issuance.Subjects.{AllowsSubject, differs-not_AllowsSubject_iff}
use gekko.Audit.Issuance.{
  TokenUse, Finding, backed, no_record, sub_mismatch, judge, is_backed, is_no_record,
  is_sub_mismatch, reported, all_backed,
}

same_finding :
    (wanted : Finding → Bool) (exchanged : Issues) {u v : TokenUse × Entry}
    → u ≡ v
    → wanted (judge (lookup u.0 exchanged) u.1) ≡ wanted (judge (lookup v.0 exchanged) v.1)
same_finding wanted exchanged p = λ i. wanted (judge (lookup (p i).0 exchanged) (p i).1)

pub reported-In_iff :
    (wanted : Finding → Bool) (exchanged : Issues) (key : TokenUse) (e : Entry)
    → (seen : Dict TokenUse Entry)
    → In (key, e) (reported wanted exchanged seen)
      ↔ (In (key, e) seen × (wanted (judge (lookup key exchanged) e) ≡ true))
unfolding reported
reported-In_iff wanted exchanged key e [] = (λ never. absurd never, λ (never, _). never)
reported-In_iff wanted exchanged key e ((k, x) ∷ seen) =
    let (to, from) = reported-In_iff wanted exchanged key e seen in
    elim (Bool-cases (wanted (judge (lookup k exchanged) x))) [
      | inl good ↦ rw good (
        elim [
          | inl p ↦ (inl p, same_finding wanted exchanged p ∙ good)
          | inr h ↦ let (there, w) = to h in (inr there, w)
        ],
        λ (h, w). elim h [ inl same ↦ inl same | inr there ↦ inr (from (there, w)) ],
      )
      | inr bad ↦ rw bad (
        λ h. let (there, w) = to h in (inr there, w),
        λ (h, w). elim h [
          | inl p ↦ absurd (cc (same_finding wanted exchanged p, w, bad))
          | inr there ↦ from (there, w)
        ],
      )
    ]

Finding-cases : (f : Finding) → (f ≡ backed) ⊎ ((f ≡ no_record) ⊎ (f ≡ sub_mismatch))
Finding-cases backed = inl refl
Finding-cases no_record = inr (inl refl)
Finding-cases sub_mismatch = inr (inr refl)

-- Each use has one finding.
pub counts :
    (exchanged : Issues) (seen : Dict TokenUse Entry)
    → length (reported is_backed exchanged seen)
        + length (reported is_no_record exchanged seen)
        + length (reported is_sub_mismatch exchanged seen)
      ≡ length seen
unfolding reported
counts exchanged [] = omega arith
counts exchanged ((k, x) ∷ seen) = elim (Finding-cases (judge (lookup k exchanged) x)) [
  | inl p ↦ rw p (omega (arith, counts exchanged seen))
  | inr (inl p) ↦ rw p (omega (arith, counts exchanged seen))
  | inr (inr p) ↦ rw p (omega (arith, counts exchanged seen))
]

pub all_backed-reported_iff :
    (exchanged : Issues) (seen : Dict TokenUse Entry)
    → (all_backed exchanged seen ≡ true)
      ↔ (length (reported is_backed exchanged seen) ≡ length seen)
unfolding all_backed reported
all_backed-reported_iff exchanged [] = (λ h. refl, λ h. refl)
all_backed-reported_iff exchanged ((k, x) ∷ seen) =
    let (to, from) = all_backed-reported_iff exchanged seen in
    elim (Bool-cases (is_backed (judge (lookup k exchanged) x))) [
      | inl good ↦ rw good (λ h. ap suc (to h), λ h. from (omega (arith, h)))
      | inr bad ↦ rw bad (λ h. absurd (cc h), λ h. absurd (omega (arith, h, counts exchanged seen)))
    ]

pub all_backed-is_nil :
    (exchanged : Issues) (seen : Dict TokenUse Entry)
    → all_backed exchanged seen ≡ (
        is_nil (reported is_no_record exchanged seen)
        && is_nil (reported is_sub_mismatch exchanged seen))
unfolding all_backed reported
all_backed-is_nil exchanged [] = refl
all_backed-is_nil exchanged ((k, x) ∷ seen) = elim (Finding-cases (judge (lookup k exchanged) x)) [
  | inl p ↦ rw p (all_backed-is_nil exchanged seen)
  | inr (inl p) ↦ rw p refl
  | inr (inr p) ↦ rw p (ground (arith, Bool-cases (is_nil (reported is_no_record exchanged seen))))
]

pub judge-no_record_iff :
    (o : Option Issue) (e : Entry) → (is_no_record (judge o e) ≡ true) ↔ (o ≡ none)
unfolding judge
judge-no_record_iff none e = (λ h. refl, λ h. refl)
judge-no_record_iff (some issue) e = (λ h. absurd (ground arith), λ h. absurd (cc h))

pub judge-sub_mismatch_iff :
    (o : Option Issue) (e : Entry)
    → (is_sub_mismatch (judge o e) ≡ true)
      ↔ ((issue : Issue) × (o ≡ some issue) × (¬ AllowsSubject issue.sub (lookup "sub" e)))
unfolding judge
judge-sub_mismatch_iff none e = (λ h. absurd (cc h), λ (issue, never, _). absurd (cc never))
judge-sub_mismatch_iff (some issue) e =
    let (to, from) = differs-not_AllowsSubject_iff issue.sub (lookup "sub" e) in
    (
      λ h. (issue, refl, to (ground arith)),
      λ (issue', same, other).
          let is_it : issue' ≡ issue = cc same in
          let does = from (subst (λ x. ¬ AllowsSubject x.sub (lookup "sub" e)) is_it other) in
          ground arith,
    )
