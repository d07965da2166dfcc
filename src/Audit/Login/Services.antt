-- ===== src/Audit/Login/Services.antt =====
-- audit/audit.py: which access, and to which service, `check3` keeps for each subject.
use mathlib.Core.Path.{subst}
use gekko.Base.{
  String, none, some, List, [], ◌∷◌, ◌≡◌, ◌⊎◌, inl, inr, refl, arith, string_eq, Bool-cases,
  if◌then◌else◌,
}
use gekko.Base.Dict.{Dict, lookup, insert}
use gekko.Python.Errors.{ok}
use gekko.Python.Json.{ℤ, str}
use gekko.Audit.Loki.{Entry}
use gekko.Audit.Login.{
  Access, known_time, is_earlier, keep_earliest, used_sub, add_access, first_accesses,
}
use gekko.Audit.Login.Earliest.{collect}
use gekko.Audit.Login.Entries.{
  Accessed, Called, NamesAccess, NamesAccesses, access_of, Accessed-access_of,
}

-- The times alone.
abbrev pub times : Dict String Access → Dict String ℤ
times [] = []
times ((s, access) ∷ d) = (s, access.ts_ns) ∷ times d

pub lookup-times :
    (s : String) (d : Dict String Access) → lookup s (times d) ≡ known_time (lookup s d)
unfolding lookup
lookup-times s [] = refl
lookup-times s ((k, access) ∷ d) = ground (arith, lookup-times s d)

times-insert :
    (s : String) (access : Access) (d : Dict String Access)
    → times (insert s access d) ≡ insert s access.ts_ns (times d)
unfolding insert
times-insert s access [] = refl
times-insert s access ((k, old) ∷ d) = ground (arith, times-insert s access d)

-- What an access by a subject does to the dict.
abbrev pub keep : String → Access → Dict String Access → Dict String Access
keep s access d = if is_earlier access.ts_ns (known_time (lookup s d)) then insert s access d else d

times-keep :
    (s : String) (access : Access) (d : Dict String Access)
    → times (keep s access d) ≡ keep_earliest s access.ts_ns (times d)
times-keep s access d = elim (Bool-cases (is_earlier access.ts_ns (known_time (lookup s d)))) [
  | inl sooner ↦ rw (lookup-times s d, sooner) (times-insert s access d)
  | inr later ↦ rw (lookup-times s d, later) refl
]

add_access-unused : (d : Dict String Access) (e : Entry) → used_sub e ≡ none → add_access d e ≡ ok d
unfolding add_access
add_access-unused d e unused = rw (add_access, unused) refl

pub Accessed-used_sub :
    (s : String) (t : ℤ) (e : Entry) → Accessed s t e → used_sub e ≡ some (str s)
Accessed-used_sub s t e (named, full, dash, time) = ground arith

add_access-keep :
    (d : Dict String Access) (e : Entry) (s : String) (access : Access)
    → Accessed s access.ts_ns e
    → Called access.service e
    → add_access d e ≡ ok (keep s access d)
unfolding add_access
add_access-keep d e s access accessed called =
    let used = Accessed-used_sub s access.ts_ns e accessed in
    let (_, _, _, time) = accessed in
    elim (Bool-cases (is_earlier access.ts_ns (known_time (lookup s d)))) [
      | inl sooner ↦ rw (add_access, used, time, sooner, called) refl
      | inr later ↦ rw (add_access, used, time, later) refl
    ]

-- The dict that an entry leaves.
module _ (d : Dict String Access) (e : Entry) where
  -- An entry changes nothing, or it is an access that is kept if it is the earliest.
  abbrev pub Step : Dict String Access → Type 0
  Step next =
      ((used_sub e ≡ none) × (next ≡ d))
      ⊎ ((s : String) × (access : Access) × Accessed s access.ts_ns e
          × Called access.service e
          × (next ≡ keep s access d))

  pub one_step :
      NamesAccess e → (next : Dict String Access) × (add_access d e ≡ ok next) × Step next
  one_step (inl unused) = (d, add_access-unused d e unused, inl (unused, refl))
  one_step (inr (s, t, service, accessed, called)) =
      let access : Access = record { ts_ns = t; service = service } in
      (
        keep s access d,
        add_access-keep d e s access accessed called,
        inr (s, access, accessed, called, refl),
      )

pub first_accesses_step :
    (d next : Dict String Access) (e : Entry) (es : List Entry)
    → add_access d e ≡ ok next
    → first_accesses d (e ∷ es) ≡ first_accesses next es
unfolding first_accesses
first_accesses_step d next e es h = rw h refl

-- The loop ends, and its times are those of the loop that keeps no services.
pub accesses_total :
    (d : Dict String Access) (es : List Entry)
    → NamesAccesses es
    → (d' : Dict String Access) × (first_accesses d es ≡ ok d')
      × (collect access_of (times d) es ≡ ok (times d'))
unfolding first_accesses
accesses_total d [] _ = (d, refl, refl)
accesses_total d (e ∷ es) (inl unused, more) =
    let (d', kept, timed) = accesses_total d es more in
    (d', rw (add_access-unused d e unused) kept, rw unused timed)
accesses_total d (e ∷ es) (inr (s, t, service, accessed, called), more) =
    let access : Access = record { ts_ns = t; service = service } in
    let (d', kept, timed) = accesses_total (keep s access d) es more in
    (
      d',
      rw (add_access-keep d e s access accessed called) kept,
      rw (Accessed-access_of s t e accessed)
          (subst (λ x. collect access_of x es ≡ ok (times d')) (times-keep s access d) timed),
    )
