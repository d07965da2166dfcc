-- ===== src/Python/Order.antt =====
-- The order of texts by their code points, and strictly ascending lists of texts.
use Prim.Native.Nat.compare as compare_ℕ
use Prim.Native.Nat.{ℕ, zero, suc, ◌<◌, Ordering, compare as compare_ℕ}
use Prim.Native.String.compare
use Prim.Native.String.{String, [], ◌∷◌, then, compare}
use Prim.Native.Char.{Char, code}
use mathlib.Core.Path.{◌≡◌, refl, sym, ap, subst, ◌∙◌}
use mathlib.Core.Logic.{◌⊎◌, inl, inr}
use native.Mathlib.Omega.{arith}
use text.Mathlib.TextEquality.{codes_equal, path_by_compare}
use text.Mathlib.TextPositions.{compare_refl, compare_self}

infix 50 ◌<text◌
abbrev pub ◌<text◌ : String → String → Type 0
s <text t = compare s t ≡ Ordering.lt

-- The answer with the sides exchanged.
abbrev flip : Ordering → Ordering
flip Ordering.lt = Ordering.gt
flip Ordering.eq = Ordering.eq
flip Ordering.gt = Ordering.lt

flip-then : (o r : Ordering) → then (flip o) (flip r) ≡ flip (then o r)
flip-then Ordering.lt r = refl
flip-then Ordering.eq r = refl
flip-then Ordering.gt r = refl

numbers_flipped : (m n : ℕ) → compare_ℕ n m ≡ flip (compare_ℕ m n)
numbers_flipped zero zero = compare_ℕ.zero-zero ∙ sym (ap flip compare_ℕ.zero-zero)
numbers_flipped zero (suc n) = compare_ℕ.suc-zero n ∙ sym (ap flip (compare_ℕ.zero-suc n))
numbers_flipped (suc m) zero = compare_ℕ.zero-suc m ∙ sym (ap flip (compare_ℕ.suc-zero m))
numbers_flipped (suc m) (suc n) =
    compare_ℕ.suc-suc n m ∙ numbers_flipped m n ∙ sym (ap flip (compare_ℕ.suc-suc m n))

texts_flipped : (s t : String) → compare t s ≡ flip (compare s t)
texts_flipped [] [] = compare.nil-nil ∙ sym (ap flip compare.nil-nil)
texts_flipped [] (d ∷ t) = compare.cons-nil d t ∙ sym (ap flip (compare.nil-cons d t))
texts_flipped (c ∷ s) [] = compare.nil-cons c s ∙ sym (ap flip (compare.cons-nil c s))
texts_flipped (c ∷ s) (d ∷ t) =
    compare.cons-cons d c t s
    ∙ ap (λ o. then o (compare t s)) (numbers_flipped (code c) (code d))
    ∙ ap (then (flip (compare_ℕ (code c) (code d)))) (texts_flipped s t)
    ∙ flip-then (compare_ℕ (code c) (code d)) (compare s t)
    ∙ sym (ap flip (compare.cons-cons c d s t))

then-lt :
    (o r : Ordering)
    → then o r ≡ Ordering.lt
    → (o ≡ Ordering.lt) ⊎ ((o ≡ Ordering.eq) × (r ≡ Ordering.lt))
then-lt Ordering.lt r h = inl refl
then-lt Ordering.eq r h = inr (refl, h)
then-lt Ordering.gt r h = absurd (cc h)

number_less : (m n : ℕ) → compare_ℕ m n ≡ Ordering.lt → m < n
number_less zero zero h = absurd (cc (h, compare_ℕ.zero-zero))
number_less zero (suc n) h = omega arith
number_less (suc m) zero h = absurd (cc (h, compare_ℕ.suc-zero m))
number_less (suc m) (suc n) h = omega (arith, number_less m n (sym (compare_ℕ.suc-suc m n) ∙ h))

number_answer : (m n : ℕ) → m < n → compare_ℕ m n ≡ Ordering.lt
number_answer m zero h = absurd (omega arith)
number_answer zero (suc n) h = compare_ℕ.zero-suc n
number_answer (suc m) (suc n) h = compare_ℕ.suc-suc m n ∙ number_answer m n (omega arith)

-- The first character decides, or the rest where it is the same.
cons_less :
    (c d : Char) (s t : String) → c ∷ s <text d ∷ t → (code c < code d) ⊎ ((c ≡ d) × (s <text t))
cons_less c d s t h =
    elim (then-lt (compare_ℕ (code c) (code d)) (compare s t)
      (sym (compare.cons-cons c d s t) ∙ h)) [
        | inl first ↦ inl (number_less (code c) (code d) first)
        | inr (same, rest) ↦ inr (codes_equal c d same, rest)
      ]

first_less : (c d : Char) (s t : String) → code c < code d → c ∷ s <text d ∷ t
first_less c d s t h =
    compare.cons-cons c d s t ∙ ap (λ o. then o (compare s t)) (number_answer (code c) (code d) h)

rest_less : (c : Char) (s t : String) → s <text t → c ∷ s <text c ∷ t
rest_less c s t h =
    compare.cons-cons c c s t ∙ ap (λ o. then o (compare s t)) (compare_self (code c)) ∙ h

pub less_irreflexive : (s : String) → ¬ (s <text s)
less_irreflexive s h = cc (h, compare_refl s)

pub less_trans : (s t u : String) → s <text t → t <text u → s <text u
less_trans [] [] u p q = q
less_trans [] (d ∷ t) [] p q = absurd (cc (q, compare.cons-nil d t))
less_trans [] (d ∷ t) (e ∷ u) p q = compare.nil-cons e u
less_trans (c ∷ s) [] u p q = absurd (cc (p, compare.cons-nil c s))
less_trans (c ∷ s) (d ∷ t) [] p q = absurd (cc (q, compare.cons-nil d t))
less_trans (c ∷ s) (d ∷ t) (e ∷ u) p q = elim (cons_less c d s t p) [
  | inl a ↦ elim (cons_less d e t u q) [
    | inl b ↦ first_less c e s u (omega (arith, a, b))
    | inr (same, _) ↦ first_less c e s u (subst (λ x. code c < code x) same a)
  ]
  | inr (same, a) ↦
      subst (λ x. x ∷ s <text e ∷ u) (sym same)
        (elim (cons_less d e t u q) [
          | inl b ↦ first_less d e s u b
          | inr (same', b) ↦
              subst (λ x. d ∷ s <text x ∷ u) same' (rest_less d s u (less_trans s t u a b))
        ])
]

pub less_total : (s t : String) → compare s t ≡ Ordering.gt → t <text s
less_total s t h = texts_flipped s t ∙ ap flip h

answer_cases : (o : Ordering) → (o ≡ Ordering.lt) ⊎ ((o ≡ Ordering.eq) ⊎ (o ≡ Ordering.gt))
answer_cases Ordering.lt = inl refl
answer_cases Ordering.eq = inr (inl refl)
answer_cases Ordering.gt = inr (inr refl)

pub compare-cases : (s t : String) → (s <text t) ⊎ ((s ≡ t) ⊎ (compare s t ≡ Ordering.gt))
compare-cases s t = elim (answer_cases (compare s t)) [
  | inl less ↦ inl less
  | inr (inl same) ↦ inr (inl (path_by_compare s t same))
  | inr (inr more) ↦ inr (inr more)
]
