-- ===== src/Audit/Login/Earliest.antt =====
-- audit/audit.py: how `check3` keeps the earliest time of each subject, once for accesses and
-- once for logins.
use mathlib.Core.Path.{subst}
use gekko.Base.{
  String, sym, refl, ap, ◌∙◌, Option, none, some, List, [], ◌∷◌, ◌≡◌, ◌⊎◌, inl, inr, arith,
  string_eq, Option-cases, Bool-cases,
}
use gekko.Base.Dict.{Dict, lookup, lookup-insert, NodupKeys, insert-NodupKeys}
use gekko.Python.Errors.{Result, ok, raise, ◌>>=◌, >>=-eq-ok, ok-injective}
use gekko.Python.Json.{ℤ}
use gekko.Python.Integers.{◌≤ℤ◌, ltb_ℤ}
use gekko.Audit.Loki.{Entry}
use gekko.Audit.Login.{is_earlier, keep_earliest}

-- The subject has a time in the dict, which is not later than this one.
abbrev pub AtMost : Dict String ℤ → String → ℤ → Type 0
AtMost d s t = (u : ℤ) × (lookup s d ≡ some u) × (u ≤ℤ t)

keep_earliest-AtMost : (s : String) (t : ℤ) (d : Dict String ℤ) → AtMost (keep_earliest s t d) s t
keep_earliest-AtMost s t d = elim (Option-cases (lookup s d)) [
  | inl new ↦ (t, ground (arith, lookup-insert s s t d), omega arith)
  | inr (old, found) ↦ elim (Bool-cases (ltb_ℤ t old)) [
    | inl less ↦ (t, ground (arith, lookup-insert s s t d), omega arith)
    | inr more ↦ (old, ground arith, ground arith)
  ]
]

keep_earliest_mono :
    (s k : String) (t u : ℤ) (d : Dict String ℤ) → AtMost d k u → AtMost (keep_earliest s t d) k u
keep_earliest_mono s k t u d (v, found, le) = elim (Bool-cases (is_earlier t (lookup s d))) [
  | inr later ↦ (v, ground arith, le)
  | inl sooner ↦ elim (string_eq.dec k s) [
    | yes same ↦ (t, ground (arith, lookup-insert k s t d), ground arith)
    | no other ↦ (v, ground (arith, lookup-insert k s t d), le)
  ]
]

keep_earliest-source :
    (s k : String) (t u : ℤ) (d : Dict String ℤ)
    → lookup k (keep_earliest s t d) ≡ some u
    → (lookup k d ≡ some u) ⊎ ((k ≡ s) × (u ≡ t))
keep_earliest-source s k t u d h = ground (arith, lookup-insert k s t d)

keep_earliest-NodupKeys :
    (s : String) (t : ℤ) (d : Dict String ℤ) → NodupKeys d → NodupKeys (keep_earliest s t d)
keep_earliest-NodupKeys s t d n = ground (arith, insert-NodupKeys s t d n)

abbrev pub note_event : Option (String × ℤ) → Dict String ℤ → Dict String ℤ
note_event none d = d
note_event (some (s, t)) d = keep_earliest s t d

note_event_mono :
    (o : Option (String × ℤ)) (k : String) (u : ℤ) (d : Dict String ℤ)
    → AtMost d k u
    → AtMost (note_event o d) k u
note_event_mono none k u d m = m
note_event_mono (some (s, t)) k u d m = keep_earliest_mono s k t u d m

note_event-source :
    (o : Option (String × ℤ)) (k : String) (u : ℤ) (d : Dict String ℤ)
    → lookup k (note_event o d) ≡ some u
    → (lookup k d ≡ some u) ⊎ (o ≡ some (k, u))
note_event-source none k u d h = inl h
note_event-source (some (s, t)) k u d h = elim (keep_earliest-source s k t u d h) [
  | inl old ↦ inl old
  | inr (same, time) ↦ inr cc
]

note_event-NodupKeys :
    (o : Option (String × ℤ)) (d : Dict String ℤ) → NodupKeys d → NodupKeys (note_event o d)
note_event-NodupKeys none d n = n
note_event-NodupKeys (some (s, t)) d n = keep_earliest-NodupKeys s t d n

-- The loop, over what an entry says: nothing, or that a subject did something at a time.
module _ (event : Entry → Result (Option (String × ℤ))) where
  abbrev pub collect : Dict String ℤ → List Entry → Result (Dict String ℤ)
  collect d [] = ok d
  collect d (e ∷ es) = event e >>= λ o. collect (note_event o d) es

  abbrev pub Occurs : String → ℤ → List Entry → Type 0
  Occurs s t [] = ⊥
  Occurs s t (e ∷ es) = (event e ≡ ok (some (s, t))) ⊎ Occurs s t es

  -- A loop that notes each event is this one.
  pub collect_step :
      (d : Dict String ℤ) (es : List Entry) (m : Result (Option (String × ℤ)))
      (rest : Dict String ℤ → Result (Dict String ℤ))
      → ((d' : Dict String ℤ) → rest d' ≡ collect d' es)
      → ((m >>= λ o. ok (note_event o d)) >>= rest) ≡ (m >>= λ o. collect (note_event o d) es)
  collect_step d es (ok o) rest h = h (note_event o d)
  collect_step d es (raise x) rest h = refl

  collect_mono :
      (d d' : Dict String ℤ) (es : List Entry) (s : String) (t : ℤ)
      → collect d es ≡ ok d'
      → AtMost d s t
      → AtMost d' s t
  collect_mono d d' [] s t h m = subst (λ x. AtMost x s t) (ok-injective h) m
  collect_mono d d' (e ∷ es) s t h m =
      let (o, read, rest) = >>=-eq-ok (event e) (λ o. collect (note_event o d) es) h in
      collect_mono (note_event o d) d' es s t rest (note_event_mono o s t d m)

  -- No event is earlier than the time that is kept for its subject.
  pub collect-AtMost :
      (d d' : Dict String ℤ) (es : List Entry) (s : String) (t : ℤ)
      → collect d es ≡ ok d'
      → Occurs s t es
      → AtMost d' s t
  collect-AtMost d d' [] s t h never = elim never [ ]
  collect-AtMost d d' (e ∷ es) s t h (inl now) =
      let (o, read, rest) = >>=-eq-ok (event e) (λ o. collect (note_event o d) es) h in
      let same : o ≡ some (s, t) = cc (read, now) in
      collect_mono (keep_earliest s t d) d' es s t
        (subst (λ x. collect (note_event x d) es ≡ ok d') same rest) (keep_earliest-AtMost s t d)
  collect-AtMost d d' (e ∷ es) s t h (inr later) =
      let (o, read, rest) = >>=-eq-ok (event e) (λ o. collect (note_event o d) es) h in
      collect-AtMost (note_event o d) d' es s t rest later

  -- The time that is kept is that of an event.
  pub collect-Occurs :
      (d d' : Dict String ℤ) (es : List Entry) (s : String) (u : ℤ)
      → collect d es ≡ ok d'
      → lookup s d' ≡ some u
      → (lookup s d ≡ some u) ⊎ Occurs s u es
  collect-Occurs d d' [] s u h p = inl (subst (λ x. lookup s x ≡ some u) (sym (ok-injective h)) p)
  collect-Occurs d d' (e ∷ es) s u h p =
      let (o, read, rest) = >>=-eq-ok (event e) (λ o. collect (note_event o d) es) h in
      elim (collect-Occurs (note_event o d) d' es s u rest p) [
        | inr later ↦ inr (inr later)
        | inl kept ↦ elim (note_event-source o s u d kept) [
          | inl old ↦ inl old
          | inr now ↦ inr (inl (read ∙ ap (λ x. ok x) now))
        ]
      ]

  pub collect-NodupKeys :
      (d d' : Dict String ℤ) (es : List Entry) → collect d es ≡ ok d' → NodupKeys d → NodupKeys d'
  collect-NodupKeys d d' [] h n = subst NodupKeys (ok-injective h) n
  collect-NodupKeys d d' (e ∷ es) h n =
      let (o, read, rest) = >>=-eq-ok (event e) (λ o. collect (note_event o d) es) h in
      collect-NodupKeys (note_event o d) d' es rest (note_event-NodupKeys o d n)
