-- ===== src/Audit/Login/Ties.antt =====
-- audit/audit.py: which of the accesses at the earliest time `check3` keeps for a subject.
use mathlib.Core.Path.{subst}
use gekko.Base.{
  String, some, List, [], ◌∷◌, ◌≡◌, ◌⊎◌, inl, inr, refl, sym, ap, ◌∙◌, arith, string_eq,
  Option-cases, Bool-cases,
}
use gekko.Base.Dict.{Dict, lookup, lookup-insert}
use gekko.Python.Errors.{ok, ok-injective}
use gekko.Python.Json.{ℤ}
use gekko.Python.Integers.{◌≤ℤ◌, ◌<ℤ◌}
use gekko.Audit.Loki.{Entry}
use gekko.Audit.Login.{Access, known_time, is_earlier, first_accesses}
use gekko.Audit.Login.Entries.{Accessed, Called, NamesAccesses}
use gekko.Audit.Login.Services.{keep, Accessed-used_sub, one_step, first_accesses_step}

-- The subject keeps its access, unless there is an earlier one.
abbrev Later : Dict String Access → String → Access → Type 0
Later d s x = (y : Access) × (lookup s d ≡ some y) × ((x ≡ y) ⊎ (y.ts_ns <ℤ x.ts_ns))

keep-Later :
    (d : Dict String Access) (k s : String) (access x : Access)
    → lookup s d ≡ some x
    → Later (keep k access d) s x
keep-Later d k s access x found =
    elim (Bool-cases (is_earlier access.ts_ns (known_time (lookup k d)))) [
      | inr later ↦ (x, ground arith, inl refl)
      | inl sooner ↦ elim (string_eq.dec s k) [
        | no other ↦ (x, ground (arith, lookup-insert s k access d), inl refl)
        | yes same ↦ (access, ground (arith, lookup-insert s k access d), inr (ground arith))
      ]
    ]

keep_self :
    (d : Dict String Access) (s : String) (access : Access)
    → (y : Access) × (lookup s (keep s access d) ≡ some y) × (y.ts_ns ≤ℤ access.ts_ns)
keep_self d s access = elim (Bool-cases (is_earlier access.ts_ns (known_time (lookup s d)))) [
  | inl sooner ↦ (access, ground (arith, lookup-insert s s access d), omega arith)
  | inr later ↦ elim (Option-cases (lookup s d)) [
    | inl missing ↦ absurd (ground arith)
    | inr (old, found) ↦ (old, ground arith, ground arith)
  ]
]

keep-source :
    (d : Dict String Access) (k s : String) (access x : Access)
    → lookup s (keep k access d) ≡ some x
    → (lookup s d ≡ some x) ⊎ ((s ≡ k) × (access ≡ x))
keep-source d k s access x h = ground (arith, lookup-insert s k access d)

later_again :
    (x y z : Access)
    → (x ≡ y) ⊎ (y.ts_ns <ℤ x.ts_ns)
    → (y ≡ z) ⊎ (z.ts_ns <ℤ y.ts_ns)
    → (x ≡ z) ⊎ (z.ts_ns <ℤ x.ts_ns)
later_again x y z (inl same) h = subst (λ w. (w ≡ z) ⊎ (z.ts_ns <ℤ w.ts_ns)) (sym same) h
later_again x y z (inr less) (inl same) = inr (subst (λ w. w.ts_ns <ℤ x.ts_ns) same less)
later_again x y z (inr less) (inr less') = inr (omega (arith, less, less'))

first_accesses-Later :
    (d d' : Dict String Access) (es : List Entry) (s : String) (x : Access)
    → NamesAccesses es
    → first_accesses d es ≡ ok d'
    → lookup s d ≡ some x
    → Later d' s x
unfolding first_accesses
first_accesses-Later d d' [] s x _ h found =
    (x, subst (λ w. lookup s w ≡ some x) (ok-injective h) found, inl refl)
first_accesses-Later d d' (e ∷ es) s x (names, more) h found =
    let (next, step, how) = one_step d e names in
    let rest : first_accesses next es ≡ ok d' = sym (first_accesses_step d next e es step) ∙ h in
    elim how [
      | inl (_, same) ↦ first_accesses-Later next d' es s x more rest (rw same found)
      | inr (k, access, _, _, same) ↦
          let (y, kept, later) = keep-Later d k s access x found in
          let (z, last, later') = first_accesses-Later next d' es s y more rest (rw same kept) in
          (z, last, later_again x y z later later')
    ]

-- The first entry in the log with an access of the subject at this time was to this service.
abbrev pub FirstCalled : String → Access → List Entry → Type 0
FirstCalled s access [] = ⊥
FirstCalled s access (e ∷ es) =
    (Accessed s access.ts_ns e × Called access.service e)
    ⊎ (¬ Accessed s access.ts_ns e × FirstCalled s access es)

-- An access is the same if it is by the same subject at the same time.
Accessed-same :
    (s k : String) (t u : ℤ) (e : Entry) → Accessed s t e → Accessed k u e → (s ≡ k) × (t ≡ u)
Accessed-same s k t u e (named, _, _, time) (named', _, _, time') =
    (cc (named, named'), cc (time, time'))

kept_now :
    (d : Dict String Access) (e : Entry) (es : List Entry) (s : String) (x : Access) (k : String)
    (access : Access)
    → Accessed k access.ts_ns e
    → Called access.service e
    → lookup s (keep k access d) ≡ some x
    → (lookup s d ≡ some x) ⊎ FirstCalled s x (e ∷ es)
kept_now d e es s x k access accessed called kept = elim (keep-source d k s access x kept) [
  | inl old ↦ inl old
  | inr (who, what) ↦
      let here : Accessed s x.ts_ns e =
        subst (λ y. Accessed s y.ts_ns e) what
          (subst (λ y. Accessed y access.ts_ns e) (sym who) accessed) in
      inr (inl (here, subst (λ y. Called y.service e) what called))
]

-- An entry with an access by k, where the access of s that is kept in the end is its own or found
-- later.
after_access :
    (d d' : Dict String Access) (e : Entry) (es : List Entry) (s : String) (x : Access) (k : String)
    (access : Access)
    → Accessed k access.ts_ns e
    → Called access.service e
    → NamesAccesses es
    → first_accesses (keep k access d) es ≡ ok d'
    → lookup s d' ≡ some x
    → (lookup s (keep k access d) ≡ some x) ⊎ FirstCalled s x es
    → (lookup s d ≡ some x) ⊎ FirstCalled s x (e ∷ es)
after_access d d' e es s x k access accessed called more rest found (inl kept) =
    kept_now d e es s x k access accessed called kept
after_access d d' e es s x k access accessed called more rest found (inr there) =
    elim (string_eq.dec s k) [
      | no other ↦
          inr
            (inr (λ here. other (Accessed-same s k x.ts_ns access.ts_ns e here accessed).0, there))
      | yes who ↦
          let (y, kept, le) = keep_self d k access in
          let kept' : lookup s (keep k access d) ≡ some y = rw who kept in
          let (z, last, later) = first_accesses-Later (keep k access d) d' es s y more rest kept' in
          let same : z ≡ x = cc (last, found) in
          elim later [
            | inl stays ↦
                kept_now d e es s x k access accessed called
                  (kept' ∙ ap (λ w. some w) (stays ∙ same))
            | inr less ↦
                let before : x.ts_ns <ℤ y.ts_ns = subst (λ w. w.ts_ns <ℤ y.ts_ns) same less in
                inr (
                  inr (
                    λ here.
                        let (_, at) = Accessed-same s k x.ts_ns access.ts_ns e here accessed in
                        let le' : y.ts_ns ≤ℤ x.ts_ns = subst (λ t. y.ts_ns ≤ℤ t) (sym at) le in
                        omega (arith, before, le'),
                    there,
                  ))
          ]
    ]

pub first_accesses-FirstCalled :
    (d d' : Dict String Access) (es : List Entry) (s : String) (x : Access)
    → NamesAccesses es
    → first_accesses d es ≡ ok d'
    → lookup s d' ≡ some x
    → (lookup s d ≡ some x) ⊎ FirstCalled s x es
unfolding first_accesses
first_accesses-FirstCalled d d' [] s x _ h found =
    inl (subst (λ w. lookup s w ≡ some x) (sym (ok-injective h)) found)
first_accesses-FirstCalled d d' (e ∷ es) s x (names, more) h found =
    let (next, step, how) = one_step d e names in
    let rest : first_accesses next es ≡ ok d' = sym (first_accesses_step d next e es step) ∙ h in
    let ih = first_accesses-FirstCalled next d' es s x more rest found in
    elim how [
      | inl (unused, same) ↦ elim ih [
        | inl old ↦ inl (rw (← same) old)
        | inr there ↦
            inr (
              inr (λ accessed. absurd (cc (unused, Accessed-used_sub s x.ts_ns e accessed)), there))
      ]
      | inr (k, access, accessed, called, same) ↦
          after_access d d' e es s x k access accessed called more
            (subst (λ w. first_accesses w es ≡ ok d') same rest) found
            (subst (λ w. (lookup s w ≡ some x) ⊎ FirstCalled s x es) same ih)
    ]

pub FirstCalled-unique :
    (s : String) (x y : Access) (es : List Entry)
    → x.ts_ns ≡ y.ts_ns
    → FirstCalled s x es
    → FirstCalled s y es
    → x ≡ y
FirstCalled-unique s x y [] at never p = absurd never
FirstCalled-unique s x y (e ∷ es) at (inl (_, called)) (inl (_, called')) =
    let service : x.service ≡ y.service = cc (called, called') in
    λ i. record { ts_ns = at i; service = service i }
FirstCalled-unique s x y (e ∷ es) at (inl (accessed, _)) (inr (not_here, _)) =
    absurd (not_here (subst (λ t. Accessed s t e) at accessed))
FirstCalled-unique s x y (e ∷ es) at (inr (not_here, _)) (inl (accessed, _)) =
    absurd (not_here (subst (λ t. Accessed s t e) (sym at) accessed))
FirstCalled-unique s x y (e ∷ es) at (inr (_, p)) (inr (_, q)) = FirstCalled-unique s x y es at p q
