-- ===== src/Python/Sorting.antt =====
-- `sorted(items, key=…)` with integers as keys.
use gekko.Base.{
  List, [], ◌∷◌, ◌≡◌, ◌↔◌, ◌⊎◌, inl, inr, refl, arith, if◌then◌else◌, length, In, Bool-cases,
}
use gekko.Python.Json.{ℤ}
use gekko.Python.Integers.{◌≤ℤ◌, ltb_ℤ}

module _ {A : Type 0} (key : A → ℤ) where
  -- In front of the first item that is not smaller, so that equal items keep their order.
  insert_by : A → List A → List A
  insert_by x [] = x ∷ []
  insert_by x (y ∷ ys) = if ltb_ℤ (key y) (key x) then y ∷ insert_by x ys else x ∷ y ∷ ys

  pub sort_by : List A → List A
  sort_by [] = []
  sort_by (x ∷ xs) = insert_by x (sort_by xs)

  abbrev pub AtLeast : ℤ → List A → Type 0
  AtLeast t [] = Unit
  AtLeast t (y ∷ ys) = (t ≤ℤ key y) × AtLeast t ys

  -- No item is before one with a smaller key.
  abbrev pub Sorted : List A → Type 0
  Sorted [] = Unit
  Sorted (x ∷ xs) = AtLeast (key x) xs × Sorted xs

  AtLeast-trans : (s t : ℤ) (ys : List A) → s ≤ℤ t → AtLeast t ys → AtLeast s ys
  AtLeast-trans s t [] h p = tt
  AtLeast-trans s t (y ∷ ys) h (p, ps) = (omega (arith, h, p), AtLeast-trans s t ys h ps)

  insert_by-AtLeast :
      (t : ℤ) (x : A) (ys : List A) → t ≤ℤ key x → AtLeast t ys → AtLeast t (insert_by x ys)
  unfolding insert_by
  insert_by-AtLeast t x [] h p = (h, tt)
  insert_by-AtLeast t x (y ∷ ys) h (p, ps) = elim (Bool-cases (ltb_ℤ (key y) (key x))) [
    | inl less ↦ rw less (p, insert_by-AtLeast t x ys h ps)
    | inr more ↦ rw more (h, (p, ps))
  ]

  insert_by-Sorted : (x : A) (ys : List A) → Sorted ys → Sorted (insert_by x ys)
  unfolding insert_by
  insert_by-Sorted x [] s = (tt, tt)
  insert_by-Sorted x (y ∷ ys) (above, s) = elim (Bool-cases (ltb_ℤ (key y) (key x))) [
    | inl less ↦
        rw less (insert_by-AtLeast (key y) x ys (ground arith) above, insert_by-Sorted x ys s)
    | inr more ↦
        let le : key x ≤ℤ key y = ground arith in
        rw more ((le, AtLeast-trans (key x) (key y) ys le above), (above, s))
  ]

  pub sort_by-Sorted : (xs : List A) → Sorted (sort_by xs)
  unfolding sort_by
  sort_by-Sorted [] = tt
  sort_by-Sorted (x ∷ xs) = insert_by-Sorted x (sort_by xs) (sort_by-Sorted xs)

  insert_by-In_iff : (z x : A) (ys : List A) → In z (insert_by x ys) ↔ ((z ≡ x) ⊎ In z ys)
  unfolding insert_by
  insert_by-In_iff z x [] = (λ p. p, λ p. p)
  insert_by-In_iff z x (y ∷ ys) = elim (Bool-cases (ltb_ℤ (key y) (key x))) [
    | inl less ↦ rw less (ground (arith, insert_by-In_iff z x ys))
    | inr more ↦ rw more (λ p. p, λ p. p)
  ]

  pub sort_by-In_iff : (z : A) (xs : List A) → In z (sort_by xs) ↔ In z xs
  unfolding sort_by
  sort_by-In_iff z [] = (λ p. p, λ p. p)
  sort_by-In_iff z (x ∷ xs) = ground (arith, insert_by-In_iff z x (sort_by xs), sort_by-In_iff z xs)

  length-insert_by : (x : A) (ys : List A) → length (insert_by x ys) ≡ length (x ∷ ys)
  unfolding insert_by
  length-insert_by x [] = refl
  length-insert_by x (y ∷ ys) = elim (Bool-cases (ltb_ℤ (key y) (key x))) [
    | inl less ↦ rw less (omega (arith, length-insert_by x ys))
    | inr more ↦ rw more refl
  ]

  pub length-sort_by : (xs : List A) → length (sort_by xs) ≡ length xs
  unfolding sort_by
  length-sort_by [] = refl
  length-sort_by (x ∷ xs) = omega (arith, length-insert_by x (sort_by xs), length-sort_by xs)
