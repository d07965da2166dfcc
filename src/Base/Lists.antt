-- ===== src/Base/Lists.antt =====
-- Membership in a list, as a predicate by recursion, and the list of the results that are there.
use mathlib.Core.Path.{◌≡◌, refl, sym, ◌∙◌, ap}
use mathlib.Core.Logic.{◌⊎◌, inl, inr, ◌↔◌}
use mathlib.Core.Bool.{Bool, true, false}
use mathlib.Core.Option.{Option, none, some}
use mathlib.Core.List.{List, [], ◌∷◌}
unfoldable pub use mathlib.Core.List.{filter_map}
use gekko.Base.Equality.{Option-cases}

abbrev pub In : {A : Type 0} → A → List A → Type 0
In x [] = ⊥
In x (y ∷ ys) = (x ≡ y) ⊎ In x ys

module _ {A B : Type 0} where
  pub filter_map-none :
      (f : A → Option B) (x : A) (xs : List A)
      → f x ≡ none
      → filter_map f (x ∷ xs) ≡ filter_map f xs
  unfolding filter_map
  filter_map-none f x xs h = rw (filter_map, h) refl

  pub filter_map-some :
      (f : A → Option B) (x : A) (y : B) (xs : List A)
      → f x ≡ some y
      → filter_map f (x ∷ xs) ≡ y ∷ filter_map f xs
  unfolding filter_map
  filter_map-some f x y xs h = rw (filter_map, h) refl

  pub filter_map-In_iff :
      (f : A → Option B) (y : B) (xs : List A)
      → In y (filter_map f xs) ↔ ((x : A) × In x xs × (f x ≡ some y))
  unfolding filter_map
  filter_map-In_iff f y [] = (λ never. absurd never, λ (x, never, _). never)
  filter_map-In_iff f y (x ∷ xs) =
      let (to, from) = filter_map-In_iff f y xs in
      elim (Option-cases (f x)) [
        | inl nothing ↦ rw (filter_map-none f x xs nothing) (
          λ p. let (z, there, h) = to p in (z, inr there, h),
          λ (z, there, h). elim there [
            | inl same ↦ absurd (cc (ap f same, h, nothing))
            | inr later ↦ from (z, later, h)
          ],
        )
        | inr (w, found) ↦ rw (filter_map-some f x w xs found) (
          elim [
            | inl same ↦ (x, inl refl, found ∙ ap (λ v. some v) (sym same))
            | inr later ↦ let (z, there, h) = to later in (z, inr there, h)
          ],
          λ (z, there, h). elim there [
            | inl same ↦ inl (cc (ap f same, h, found))
            | inr later ↦ inr (from (z, later, h))
          ],
        )
      ]

-- `not xs`
abbrev pub is_nil {ℓ} : {A : Type ℓ} → List A → Bool
is_nil [] = true
is_nil (x ∷ xs) = false
