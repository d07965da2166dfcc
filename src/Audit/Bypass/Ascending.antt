-- ===== src/Audit/Bypass/Ascending.antt =====
-- audit/audit.py: the order in which `check1` reports the shared tokens.
use Prim.Native.String
use text.Mathlib.TextPositions.{compare_refl}
use mathlib.Core.Path.{subst}
use gekko.Base.{
  In, String, true, false, List, [], ◌∷◌, ◌≡◌, ◌≢◌, ◌↔◌, inl, inr, refl, sym, ap, ◌∙◌, arith,
  string_eq, Bool-cases,
}
use gekko.Base.Dict.{Dict, lookup, NodupKeys, insert-NodupKeys}
use gekko.Python.Errors.{ok, ◌>>=◌, >>=-eq-ok}
use gekko.Python.Json.{is_some}
use gekko.Python.Order.{◌<text◌, less_irreflexive, less_trans, less_total, compare-cases}
use gekko.Audit.Loki.{Entry}
use gekko.Audit.Bypass.{add_jti, by_jti, shared_keys, le_text, insert_sorted, sorted, bypassed}
use gekko.Audit.Bypass.Laws.{
  Used, HasTextJtis, Adds, add_jti-Adds, insert_sorted-In, sorted-In, shared_keys-In, bypassed-In,
}

abbrev Above : String → List String → Type 0
Above s [] = Unit
Above s (t ∷ ts) = (s <text t) × Above s ts

-- Each text is before all that follow it.
abbrev pub Ascending : List String → Type 0
Ascending [] = Unit
Ascending (s ∷ ss) = Above s ss × Ascending ss

abbrev Distinct : List String → Type 0
Distinct [] = Unit
Distinct (s ∷ ss) = (¬ In s ss) × Distinct ss

Above-In : (s t : String) (ts : List String) → Above s ts → In t ts → s <text t
Above-In s t [] above never = absurd never
Above-In s t (u ∷ ts) (first, above) (inl same) = subst (λ x. s <text x) (sym same) first
Above-In s t (u ∷ ts) (first, above) (inr later) = Above-In s t ts above later

In-Above : (s : String) (ts : List String) → ((t : String) → In t ts → s <text t) → Above s ts
In-Above s [] h = tt
In-Above s (t ∷ ts) h = (h t (inl refl), In-Above s ts (λ u p. h u (inr p)))

le_text-less : (s t : String) → s ≢ t → le_text s t ≡ true → s <text t
le_text-less s t other h = elim (compare-cases s t) [
  | inl less ↦ less
  | inr (inl same) ↦ absurd (other same)
  | inr (inr more) ↦ absurd (ground arith)
]

le_text-more : (s t : String) → le_text s t ≡ false → t <text s
le_text-more s t h = elim (compare-cases s t) [
  | inl less ↦ absurd (ground arith)
  | inr (inl same) ↦ absurd (ground (arith, ap (String.compare s) (sym same) ∙ compare_refl s))
  | inr (inr more) ↦ less_total s t more
]

insert_sorted-Ascending :
    (s : String) (ts : List String) → ¬ In s ts → Ascending ts → Ascending (insert_sorted s ts)
unfolding insert_sorted
insert_sorted-Ascending s [] new up = (tt, tt)
insert_sorted-Ascending s (t ∷ ts) new (above, up) = elim (Bool-cases (le_text s t)) [
  | inl before ↦
      let less = le_text-less s t (λ p. new (inl p)) before in
      rw before (
        (less, In-Above s ts (λ u p. less_trans s t u less (Above-In t u ts above p))),
        (above, up),
      )
  | inr after ↦ rw after (
    In-Above t (insert_sorted s ts) (λ u p. elim ((insert_sorted-In u s ts).0 p) [
      | inl same ↦ subst (λ x. t <text x) (sym same) (le_text-more s t after)
      | inr there ↦ Above-In t u ts above there
    ]),
    insert_sorted-Ascending s ts (λ p. new (inr p)) up,
  )
]

sorted-Ascending : (ts : List String) → Distinct ts → Ascending (sorted ts)
unfolding sorted
sorted-Ascending [] _ = tt
sorted-Ascending (t ∷ ts) (new, others) =
    insert_sorted-Ascending t (sorted ts) (λ p. new ((sorted-In t ts).0 p))
      (sorted-Ascending ts others)

heads_equal :
    (s t : String) (ss ts : List String)
    → Above s ss
    → Above t ts
    → In s (t ∷ ts)
    → In t (s ∷ ss)
    → s ≡ t
heads_equal s t ss ts above above' (inl same) q = same
heads_equal s t ss ts above above' (inr p) (inl same) = sym same
heads_equal s t ss ts above above' (inr p) (inr q) =
    absurd
      (less_irreflexive s (less_trans s t s (Above-In s t ss above q) (Above-In t s ts above' p)))

-- What follows the head of the one list follows it in the other.
tail_kept :
    (s t : String) (ss ts : List String)
    → Above s ss
    → s ≡ t
    → ((u : String) → In u (s ∷ ss) → In u (t ∷ ts))
    → (u : String) → In u ss
    → In u ts
tail_kept s t ss ts above heads kept u p = elim (kept u (inr p)) [
  | inl same ↦
      absurd
        (less_irreflexive s (subst (λ x. s <text x) (same ∙ sym heads) (Above-In s u ss above p)))
  | inr later ↦ later
]

-- Ascending lists with the same texts are the same.
Ascending-unique :
    (ss ts : List String)
    → Ascending ss
    → Ascending ts
    → ((u : String) → In u ss ↔ In u ts)
    → ss ≡ ts
Ascending-unique [] [] _ _ same = refl
Ascending-unique [] (t ∷ ts) _ _ same = absurd ((same t).1 (inl refl))
Ascending-unique (s ∷ ss) [] _ _ same = absurd ((same s).0 (inl refl))
Ascending-unique (s ∷ ss) (t ∷ ts) (above, up) (above', up') same =
    let heads =
      heads_equal s t ss ts above above' ((same s).0 (inl refl)) ((same t).1 (inl refl)) in
    let tails = Ascending-unique ss ts up up' (λ u. (
      tail_kept s t ss ts above heads (λ v. (same v).0) u,
      tail_kept t s ts ss above' (sym heads) (λ v. (same v).1) u,
    )) in
    λ i. heads i ∷ tails i

shared_keys-Distinct : (us ds : Dict String Entry) → NodupKeys us → Distinct (shared_keys us ds)
unfolding shared_keys
shared_keys-Distinct [] ds _ = tt
shared_keys-Distinct ((k, e) ∷ us) ds (fresh, others) = elim (Bool-cases (is_some (lookup k ds))) [
  | inl shared ↦ rw shared (
    λ p. absurd (ground (arith, (shared_keys-In k us ds).0 p)),
    shared_keys-Distinct us ds others,
  )
  | inr missing ↦ rw missing (shared_keys-Distinct us ds others)
]

by_jti-NodupKeys :
    (d d' : Dict String Entry) (es : List Entry) → by_jti d es ≡ ok d' → NodupKeys d → NodupKeys d'
unfolding by_jti Adds
by_jti-NodupKeys d d' [] h n = subst NodupKeys (cc h) n
by_jti-NodupKeys d d' (e ∷ es) h n =
    let (d1, added, rest) = >>=-eq-ok (add_jti d e) (λ x. by_jti x es) h in
    by_jti-NodupKeys d1 d' es rest (elim (add_jti-Adds d d1 e added) [
      | inl (same, _) ↦ subst NodupKeys (sym same) n
      | inr (s, _, new) ↦ subst NodupKeys (sym new) (insert-NodupKeys s e d n)
    ])

-- The report lists the shared tokens in ascending order, each once.
bypassed-Ascending :
    (user_logs ds_logs : List Entry) (shared : List String)
    → bypassed user_logs ds_logs ≡ ok shared
    → Ascending shared
unfolding bypassed
bypassed-Ascending us ds shared h =
    let (u, read, rest) =
      >>=-eq-ok (by_jti [] us) (λ u. by_jti [] ds >>= λ d. ok (sorted (shared_keys u d))) h in
    let (d, _, last) = >>=-eq-ok (by_jti [] ds) (λ d. ok (sorted (shared_keys u d))) rest in
    subst Ascending (cc last) (
      sorted-Ascending (shared_keys u d)
        (shared_keys-Distinct u d (by_jti-NodupKeys [] u us read tt)))

-- For logs whose token identifiers are texts or null, the report is the one list that ascends in
-- the order of the code points and has exactly the tokens that both layers have used.
pub bypassed-report_iff :
    (user_logs ds_logs : List Entry) (shared : List String)
    → HasTextJtis user_logs
    → HasTextJtis ds_logs
    → (bypassed user_logs ds_logs ≡ ok shared)
      ↔ (Ascending shared × ((s : String) → In s shared ↔ (Used s user_logs × Used s ds_logs)))
bypassed-report_iff us ds shared hu hd =
    let (found, reported, lists) = bypassed-In us ds hu hd in
    (
      λ h.
          let same : found ≡ shared = cc (h, reported) in
          (
            bypassed-Ascending us ds shared h,
            subst (λ x. (s : String) → In s x ↔ (Used s us × Used s ds)) same lists,
          ),
      λ (up, exact).
          let same =
            Ascending-unique found shared (bypassed-Ascending us ds found reported) up
              (λ s. ground (arith, lists s, exact s)) in
          cc (reported, same),
    )
