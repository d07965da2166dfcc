-- ===== src/Python/Traverse.antt =====
-- A loop that appends a result for each item, and ends with the first exception.
use gekko.Base.{List, [], ◌∷◌, ◌≡◌, ◌↔◌, inl, inr, refl, sym, ap, ◌∙◌, suc, length, In}
use mathlib.Core.Path.{subst}
use mathlib.Core.List.{map}
use gekko.Python.Errors.{Result, ok, ◌>>=◌, >>=-eq-ok, ok-injective}

module _ {A B : Type 0} (f : A → Result B) where
  unfoldable pub traverse : List A → Result (List B)
  traverse [] = ok []
  traverse (x ∷ xs) = f x >>= λ y. traverse xs >>= λ ys. ok (y ∷ ys)

  traverse-cons :
      (x : A) (xs : List A) (zs : List B)
      → traverse (x ∷ xs) ≡ ok zs
      → (y : B) × (ys : List B) × (f x ≡ ok y) × (traverse xs ≡ ok ys) × (y ∷ ys ≡ zs)
  unfolding traverse
  traverse-cons x xs zs h =
      let (y, got, more) = >>=-eq-ok (f x) (λ y. traverse xs >>= λ ys. ok (y ∷ ys)) h in
      let (ys, rest, same) = >>=-eq-ok (traverse xs) (λ ys. ok (y ∷ ys)) more in
      (y, ys, got, rest, ok-injective same)

  traverse-nil : (zs : List B) → traverse [] ≡ ok zs → zs ≡ []
  unfolding traverse
  traverse-nil zs h = cc h

  pub traverse-In_iff :
      (xs : List A) (ys : List B)
      → traverse xs ≡ ok ys
      → (y : B) → In y ys ↔ ((x : A) × In x xs × (f x ≡ ok y))
  traverse-In_iff [] ys h y =
      (λ p. absurd (subst (In y) (traverse-nil ys h) p), λ (x, never, _). absurd never)
  traverse-In_iff (x ∷ xs) zs h y =
      let (z, ys, got, rest, parts) = traverse-cons x xs zs h in
      let (to, from) = traverse-In_iff xs ys rest y in
      (
        λ p. elim (subst (In y) (sym parts) p) [
          | inl same ↦ (x, inl refl, got ∙ ap (λ v. ok v) (sym same))
          | inr later ↦ let (w, there, q) = to later in (w, inr there, q)
        ],
        λ (w, there, q). subst (In y) parts (elim there [
          | inl same ↦ inl (ok-injective (sym q ∙ (ap f same ∙ got)))
          | inr later ↦ inr (from (w, later, q))
        ]),
      )

  pub traverse-map :
      (back : B → A)
      → ((x : A) (y : B) → f x ≡ ok y → back y ≡ x)
      → (xs : List A) (ys : List B) → traverse xs ≡ ok ys
      → map back ys ≡ xs
  traverse-map back inverse [] ys h = ap (map back) (traverse-nil ys h)
  traverse-map back inverse (x ∷ xs) zs h =
      let (y, ys, got, rest, parts) = traverse-cons x xs zs h in
      ap (map back) (sym parts) ∙ (λ i. inverse x y got i ∷ traverse-map back inverse xs ys rest i)

  pub length-traverse : (xs : List A) (ys : List B) → traverse xs ≡ ok ys → length ys ≡ length xs
  length-traverse [] ys h = ap length (traverse-nil ys h)
  length-traverse (x ∷ xs) zs h =
      let (y, ys, got, rest, parts) = traverse-cons x xs zs h in
      ap length (sym parts) ∙ ap suc (length-traverse xs ys rest)

  pub traverse-total :
      (xs : List A)
      → ((x : A) → In x xs → (y : B) × (f x ≡ ok y))
      → (ys : List B) × (traverse xs ≡ ok ys)
  unfolding traverse
  traverse-total [] can = ([], refl)
  traverse-total (x ∷ xs) can =
      let (y, got) = can x (inl refl) in
      let (ys, rest) = traverse-total xs (λ z p. can z (inr p)) in (y ∷ ys, rw (got, rest) refl)
