-- ===== src/Audit/Issuance/Repeats.antt =====
-- audit/audit.py: a token that comes again, which `check2` counts once.
use gekko.Base.{
  none, List, [], ◌∷◌, ◌++◌, ◌≡◌, ◌≢◌, ◌⊎◌, inl, inr, refl, arith, string_eq, pair_eq, Option-cases,
}
use gekko.Base.Dict.{Dict, lookup}
use gekko.Python.Errors.{ok, Result-cases}
use gekko.Audit.Loki.{Entry}
use gekko.Audit.Issuance.{TokenUse, add_use, first_uses, verdict2}
use gekko.Audit.Issuance.Uses.{UsesToken, UsedToken, Stays, add_use-Stays}

lookup_nil : (key : TokenUse) → lookup {V = Entry} key [] ≡ none
unfolding lookup
lookup_nil key = refl

add_use_known :
    (key : TokenUse) (d : Dict TokenUse Entry) (e : Entry)
    → UsesToken key e
    → lookup key d ≢ none
    → add_use d e ≡ ok d
unfolding add_use
add_use_known (j, s) d e (token, full, dash, service) known =
    elim (Option-cases (lookup (j, s) d)) [
      | inl new ↦ absurd (known new)
      | inr (old, found) ↦ ground arith
    ]

-- A token stays known, and an entry that uses one makes it known.
pub add_use_knows :
    (key : TokenUse) (d d' : Dict TokenUse Entry) (x : Entry)
    → add_use d x ≡ ok d'
    → (lookup key d ≢ none) ⊎ UsesToken key x
    → lookup key d' ≢ none
unfolding Stays
add_use_knows key d d' x h (inl known) new = known ((add_use-Stays key d d' x h).0 new).0
add_use_knows key d d' x h (inr used) new = ((add_use-Stays key d d' x h).0 new).1 used

first_uses_repeat :
    (key : TokenUse) (e : Entry) (d : Dict TokenUse Entry) (before after : List Entry)
    → UsesToken key e
    → (lookup key d ≢ none) ⊎ UsedToken key before
    → first_uses d (before ++ (e ∷ after)) ≡ first_uses d (before ++ after)
unfolding first_uses
first_uses_repeat key e d [] after used (inl known) = rw (add_use_known key d e used known) refl
first_uses_repeat key e d [] after used (inr never) = elim never [ ]
first_uses_repeat key e d (x ∷ before) after used known = elim (Result-cases (add_use d x)) [
  | inr (error, failed) ↦ rw failed refl
  | inl (d', added) ↦ rw added (
      first_uses_repeat key e d' before after used (elim known [
        | inl old ↦ inl (add_use_knows key d d' x added (inl old))
        | inr (inl now) ↦ inl (add_use_knows key d d' x added (inr now))
        | inr (inr later) ↦ inr later
      ]))
]

-- An entry that uses a token which an earlier entry has used at the same service leaves the
-- verdict as it is, whatever subject it names.
pub verdict2_repeat :
    (key : TokenUse) (e : Entry) (before after kc_logs : List Entry)
    → UsedToken key before
    → UsesToken key e
    → verdict2 (before ++ (e ∷ after)) kc_logs ≡ verdict2 (before ++ after) kc_logs
unfolding verdict2
verdict2_repeat key e before after kc_logs known used =
    rw (first_uses_repeat key e [] before after used (inr known)) refl
