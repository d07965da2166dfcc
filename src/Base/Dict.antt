-- ===== src/Base/Dict.antt =====
-- Python dicts as association lists in insertion order; proofs elsewhere go by the laws.
use mathlib.Core.Path.{◌≡◌, refl, sym, ap, ◌∙◌, subst}
use mathlib.Core.Logic.{◌↔◌, inl, inr}
use mathlib.Core.Option.{Option, none, some}
use mathlib.Core.List.{List, [], ◌∷◌}
use native.Mathlib.Omega.{arith}
use gekko.Base.Equality.{Eq, ◌==◌, if◌then◌else◌}
use gekko.Base.Lists.{In}

abbrev pub Dict {ℓ κ} : Type ℓ → Type κ → Type (ℓ ⊔ κ)
Dict K V = List (K × V)

module _ {ℓ κ} {K : Type ℓ} {V : Type κ} ⦃e : Eq K⦄ where
  -- `d.get(k)`
  unfoldable pub lookup : K → Dict K V → Option V
  lookup k [] = none
  lookup k ((j, v) ∷ d) = if k == j then some v else lookup k d

  -- `d[k] = v`: a new key goes to the end, an old one keeps its place.
  unfoldable pub insert : K → V → Dict K V → Dict K V
  insert k v [] = (k, v) ∷ []
  insert k v ((j, w) ∷ d) = if k == j then (j, v) ∷ d else (j, w) ∷ insert k v d

  -- Each key stands once.
  abbrev pub NodupKeys : Dict K V → Type κ
  NodupKeys [] = Unit
  NodupKeys ((k, _) ∷ d) = (lookup k d ≡ none) × NodupKeys d

  pub lookup-cons :
      (j k : K) (v : V) (d : Dict K V)
      → lookup j ((k, v) ∷ d) ≡ (if j == k then some v else lookup j d)
  unfolding lookup
  lookup-cons j k v d = refl

  pub lookup-insert :
      (j k : K) (v : V) (d : Dict K V)
      → lookup j (insert k v d) ≡ (if j == k then some v else lookup j d)
  unfolding insert lookup
  lookup-insert j k v [] = ground arith
  lookup-insert j k v (_ ∷ d) = ground (arith, lookup-insert j k v d)

  pub insert-NodupKeys : (k : K) (v : V) (d : Dict K V) → NodupKeys d → NodupKeys (insert k v d)
  unfolding insert lookup
  insert-NodupKeys k v [] _ = (refl, tt)
  insert-NodupKeys k v ((j, _) ∷ d) (fresh, u) =
      ground (arith, insert-NodupKeys k v d u, lookup-insert j k v d)

module _ {K V : Type 0} ⦃e : Eq K⦄ where
  pub In-lookup_iff :
      (k : K) (v : V) (d : Dict K V) → NodupKeys d → In (k, v) d ↔ (lookup k d ≡ some v)
  unfolding lookup
  In-lookup_iff k v [] n = (λ never. absurd never, λ h. absurd (cc h))
  In-lookup_iff k v ((j, w) ∷ d) (fresh, n) =
      let (to, from) = In-lookup_iff k v d n in
      elim (e.dec k j) [
        | yes p ↦
            let found : lookup k ((j, w) ∷ d) ≡ some w = ground (arith, lookup-cons k j w d) in
            let new : lookup k d ≡ none = subst (λ y. lookup y d ≡ none) (sym p) fresh in
            (
              elim [
                | inl q ↦ found ∙ ap (λ t. some (t.1)) (sym q)
                | inr there ↦ absurd (cc (to there, new))
              ],
              λ h. let same : v ≡ w = cc (h, found) in inl (λ i. (p i, same i)),
            )
        | no other ↦
            let skipped : lookup k ((j, w) ∷ d) ≡ lookup k d =
              ground (arith, lookup-cons k j w d) in
            (
              elim [ inl q ↦ absurd (other (ap (λ t. t.0) q)) | inr there ↦ skipped ∙ to there ],
              λ h. inr (from (sym skipped ∙ h)),
            )
      ]
