-- ===== src/Audit/Latest.antt =====
-- audit/audit.py: loops that fill a dict, in which a later entry replaces an earlier one.
use mathlib.Core.Path.{subst}
use gekko.Base.{
  Option, none, some, List, [], ◌∷◌, ◌≡◌, ◌≢◌, ◌↔◌, ◌⊎◌, inl, inr, refl, sym, ◌∙◌, arith, Eq,
}
use gekko.Base.Dict.{Dict, lookup, insert, lookup-insert}
use gekko.Python.Errors.{Result, ok, raise, ◌>>=◌, >>=-eq-ok, ok-injective}

abbrev pub put : {K V : Type 0} ⦃q : Eq K⦄ → Option (K × V) → Dict K V → Dict K V
put none d = d
put (some (k, v)) d = insert k v d

module _ {K V A : Type 0} ⦃q : Eq K⦄ where
  -- The loop, over what an element says: nothing, or a key with its value.
  module _ (says : A → Result (Option (K × V))) where
    abbrev pub fill : Dict K V → List A → Result (Dict K V)
    fill d [] = ok d
    fill d (x ∷ xs) = says x >>= λ o. fill (put o d) xs

    -- A loop that puts what each element says is this one.
    pub fill_step :
        (d : Dict K V) (xs : List A) (m : Result (Option (K × V)))
        (rest : Dict K V → Result (Dict K V))
        → ((d' : Dict K V) → rest d' ≡ fill d' xs)
        → ((m >>= λ o. ok (put o d)) >>= rest) ≡ (m >>= λ o. fill (put o d) xs)
    fill_step d xs (ok o) rest h = h (put o d)
    fill_step d xs (raise e) rest h = refl

    abbrev pub Silent : K → List A → Type 0
    Silent k [] = Unit
    Silent k (x ∷ xs) = ((v : V) → says x ≢ ok (some (k, v))) × Silent k xs

    -- The last element that names the key gives it this value.
    abbrev pub Last : K → V → List A → Type 0
    Last k v [] = ⊥
    Last k v (x ∷ xs) = Last k v xs ⊎ ((says x ≡ ok (some (k, v))) × Silent k xs)

    -- How one element changes what is found later.
    step_iff :
        (k : K) (v : V) (d : Dict K V) (x : A) (xs : List A) (o : Option (K × V))
        → says x ≡ ok o
        → (Last k v xs ⊎ (Silent k xs × (lookup k (put o d) ≡ some v)))
          ↔ (Last k v (x ∷ xs) ⊎ (Silent k (x ∷ xs) × (lookup k d ≡ some v)))
    step_iff k v d x xs none said = (
      elim [ inl later ↦ inl (inl later) | inr (s, f) ↦ inr ((λ u p. cc (said, p), s), f) ],
      elim [
        | inl known ↦ elim known [ inl later ↦ inl later | inr (p, s) ↦ absurd (cc (said, p)) ]
        | inr ((_, s), f) ↦ inr (s, f)
      ],
    )
    step_iff k v d x xs (some (j, w)) said = elim (q.dec k j) [
      | yes same ↦
          let found : lookup k (insert j w d) ≡ some w = ground (arith, lookup-insert k j w d) in
          (
            elim [
              | inl later ↦ inl (inl later)
              | inr (s, f) ↦ inl (inr (cc (said, same, found, f), s))
            ],
            elim [
              | inl known ↦ elim known [
                | inl later ↦ inl later
                | inr (p, s) ↦ inr (s, cc (said, p, found))
              ]
              | inr ((never, s), f) ↦ absurd (never w (cc (said, same)))
            ],
          )
      | no other ↦
          let kept : lookup k (insert j w d) ≡ lookup k d = ground (arith, lookup-insert k j w d) in
          (
            elim [
              | inl later ↦ inl (inl later)
              | inr (s, f) ↦ inr ((λ u p. other (cc (said, p)), s), sym kept ∙ f)
            ],
            elim [
              | inl known ↦ elim known [
                | inl later ↦ inl later
                | inr (p, s) ↦ absurd (other (cc (said, p)))
              ]
              | inr ((_, s), f) ↦ inr (s, kept ∙ f)
            ],
          )
    ]

    pub lookup-fill :
        (k : K) (v : V) (d d' : Dict K V) (xs : List A)
        → fill d xs ≡ ok d'
        → (lookup k d' ≡ some v) ↔ (Last k v xs ⊎ (Silent k xs × (lookup k d ≡ some v)))
    lookup-fill k v d d' [] h = (
      λ p. inr (tt, subst (λ z. lookup k z ≡ some v) (sym (ok-injective h)) p),
      elim [
        | inl never ↦ absurd never
        | inr (_, p) ↦ subst (λ z. lookup k z ≡ some v) (ok-injective h) p
      ],
    )
    lookup-fill k v d d' (x ∷ xs) h =
        let (o, said, rest) = >>=-eq-ok (says x) (λ o. fill (put o d) xs) h in
        let (to, from) = lookup-fill k v (put o d) d' xs rest in
        let (on, back) = step_iff k v d x xs o said in (λ p. on (to p), λ p. from (back p))

-- The same, by a relation of keys and values to the elements that name them.
module _ {K V A : Type 0} (Names : K → V → A → Type 0) where
  abbrev pub NeverNamed : K → List A → Type 0
  NeverNamed k [] = Unit
  NeverNamed k (x ∷ xs) = ((v : V) → ¬ Names k v x) × NeverNamed k xs

  -- The last element that names the key names it with this value.
  abbrev pub LastNamed : K → V → List A → Type 0
  LastNamed k v [] = ⊥
  LastNamed k v (x ∷ xs) = LastNamed k v xs ⊎ (Names k v x × NeverNamed k xs)

  pub NeverNamed-LastNamed : (k : K) (v : V) (xs : List A) → NeverNamed k xs → ¬ LastNamed k v xs
  NeverNamed-LastNamed k v [] _ never = never
  NeverNamed-LastNamed k v (x ∷ xs) (_, rest) (inl later) = NeverNamed-LastNamed k v xs rest later
  NeverNamed-LastNamed k v (x ∷ xs) (never, _) (inr (named, _)) = never v named

  module _ ⦃q : Eq K⦄ (says : A → Result (Option (K × V)))
      (shows : (k : K) (v : V) (x : A) → (says x ≡ ok (some (k, v))) ↔ Names k v x) where
    Silent-NeverNamed_iff : (k : K) (xs : List A) → Silent says k xs ↔ NeverNamed k xs
    Silent-NeverNamed_iff k [] = (λ s. s, λ s. s)
    Silent-NeverNamed_iff k (x ∷ xs) =
        let (to, from) = Silent-NeverNamed_iff k xs in
        (
          λ (never, s). (λ v p. never v ((shows k v x).1 p), to s),
          λ (never, s). (λ v p. never v ((shows k v x).0 p), from s),
        )

    Last-LastNamed_iff : (k : K) (v : V) (xs : List A) → Last says k v xs ↔ LastNamed k v xs
    Last-LastNamed_iff k v [] = (λ never. never, λ never. never)
    Last-LastNamed_iff k v (x ∷ xs) =
        let (to, from) = Last-LastNamed_iff k v xs in
        let (silent, named) = Silent-NeverNamed_iff k xs in
        (
          elim [ inl later ↦ inl (to later) | inr (p, s) ↦ inr ((shows k v x).0 p, silent s) ],
          elim [ inl later ↦ inl (from later) | inr (p, s) ↦ inr ((shows k v x).1 p, named s) ],
        )

    pub lookup-fill_named :
        (k : K) (v : V) (d : Dict K V) (xs : List A)
        → fill says [] xs ≡ ok d
        → (lookup k d ≡ some v) ↔ LastNamed k v xs
    unfolding lookup
    lookup-fill_named k v d xs h =
        let (to, from) = lookup-fill says k v [] d xs h in
        let (named, last) = Last-LastNamed_iff k v xs in
        (
          λ p. elim (to p) [ inl l ↦ named l | inr (_, never) ↦ absurd (cc never) ],
          λ l. from (inl (last l)),
        )
