-- ===== src/Audit/Bypass/Laws.antt =====
-- `check1` reports exactly the tokens that both layers have used.
use gekko.Base.{
  Bool, In, String, true, Option, none, some, List, [], ◌∷◌, ◌≡◌, ◌≢◌, ◌↔◌, ◌⊎◌, inl, inr, refl,
  arith, string_eq, Bool-cases, Option-cases,
}
use gekko.Base.Dict.{Dict, lookup, insert, lookup-insert}
use gekko.Python.Errors.{ok, from_ok, >>=-eq-ok}
use gekko.Python.Json.{ℤ, Json, null, str, is_some}
use gekko.Audit.Keys.{access_logs_of, user_facing_services, downstream_services}
use gekko.Audit.Loki.{Entry, Source, query_loki, IsDown, query_loki_down, default_limit}
use gekko.Audit.Bypass.{
  is_jti, add_jti, by_jti, shared_keys, le_text, insert_sorted, sorted, bypassed, is_nil, check1,
}

-- The entry is an access with this token.
abbrev pub UsesJti : String → Entry → Type 0
UsesJti j e = (lookup "jti" e ≡ some (str j)) × (j ≢ "") × (j ≢ "-")

abbrev pub Used : String → List Entry → Type 0
Used j [] = ⊥
Used j (e ∷ es) = UsesJti j e ⊎ Used j es

abbrev pub IsTextOrNull : Option Json → Type 0
IsTextOrNull none = Unit
IsTextOrNull (some null) = Unit
IsTextOrNull (some (str s)) = Unit
IsTextOrNull (some v) = ⊥

-- The identifiers in the logs are texts, where there are any.
abbrev pub HasTextJtis : List Entry → Type 0
HasTextJtis [] = Unit
HasTextJtis (e ∷ es) = IsTextOrNull (lookup "jti" e) × HasTextJtis es

add_jti-total :
    (d : Dict String Entry) (e : Entry)
    → IsTextOrNull (lookup "jti" e)
    → (d' : Dict String Entry) × (add_jti d e ≡ ok d')
unfolding add_jti
add_jti-total d e h = elim (Option-cases (lookup "jti" e)) [
  | inl missing ↦ (d, ground arith)
  | inr (v, found) ↦ from_ok (add_jti d e) (λ x q. ground arith)
]

-- What one entry adds: nothing, or itself under its token.
unfoldable pub Adds : Dict String Entry → Dict String Entry → Entry → Type 0
Adds d d' e =
    ((d' ≡ d) × ((j : String) → ¬ UsesJti j e)) ⊎ ((s : String) × UsesJti s e × (d' ≡ insert s e d))

pub add_jti-Adds : (d d' : Dict String Entry) (e : Entry) → add_jti d e ≡ ok d' → Adds d d' e
unfolding add_jti Adds
add_jti-Adds d d' e h = go (lookup "jti" e) refl
  where
    go :
        (o : Option Json)
        → lookup "jti" e ≡ o
        → ((d' ≡ d) × ((j : String) → ¬ UsesJti j e))
          ⊎ ((s : String) × UsesJti s e × (d' ≡ insert s e d))
    go none p = inl (ground arith, λ j u. ground arith)
    go (some (str s)) p = elim (Bool-cases (is_jti (str s))) [
      | inl good ↦ inr (s, (p, ground arith, ground arith), ground arith)
      | inr bad ↦ inl (ground arith, λ j u. ground arith)
    ]
    go (some null) p = inl (ground arith, λ j u. ground arith)
    go (some _) p = absurd (ground arith)

add_jti-lookup :
    (j : String) (d d' : Dict String Entry) (e : Entry)
    → add_jti d e ≡ ok d'
    → (is_some (lookup j d') ≡ true) ↔ ((is_some (lookup j d) ≡ true) ⊎ UsesJti j e)
unfolding Adds
add_jti-lookup j d d' e h = elim (add_jti-Adds d d' e h) [
  | inl (same, unused) ↦ rw same (λ p. inl p, elim [ inl p ↦ p | inr u ↦ absurd (unused j u) ])
  | inr (s, used, new) ↦
      rw new (ground (arith, lookup-insert j s e d), ground (arith, lookup-insert j s e d))
]

by_jti-lookup :
    (j : String) (d d' : Dict String Entry) (es : List Entry)
    → by_jti d es ≡ ok d'
    → (is_some (lookup j d') ≡ true) ↔ ((is_some (lookup j d) ≡ true) ⊎ Used j es)
unfolding by_jti
by_jti-lookup j d d' [] h = ground arith
by_jti-lookup j d d' (e ∷ es) h =
    let (d1, added, rest) = >>=-eq-ok (add_jti d e) (λ x. by_jti x es) h in
    ground (arith, add_jti-lookup j d d1 e added, by_jti-lookup j d1 d' es rest)

pub by_jti-total :
    (d : Dict String Entry) (es : List Entry)
    → HasTextJtis es
    → (d' : Dict String Entry) × (by_jti d es ≡ ok d')
unfolding by_jti
by_jti-total d [] h = (d, refl)
by_jti-total d (e ∷ es) h =
    let (d1, added) = add_jti-total d e h.0 in
    let (d2, rest) = by_jti-total d1 es h.1 in (d2, rw added rest)

pub shared_keys-In :
    (s : String) (us ds : Dict String Entry)
    → In s (shared_keys us ds) ↔ ((is_some (lookup s us) ≡ true) × (is_some (lookup s ds) ≡ true))
unfolding shared_keys lookup
shared_keys-In s [] ds = ground arith
shared_keys-In s ((k, e) ∷ us) ds = ground (arith, shared_keys-In s us ds)

pub insert_sorted-In :
    (s t : String) (ts : List String) → In s (insert_sorted t ts) ↔ ((s ≡ t) ⊎ In s ts)
unfolding insert_sorted
insert_sorted-In s t [] = ground arith
insert_sorted-In s t (u ∷ ts) = elim (Bool-cases (le_text t u)) [
  | inl before ↦ rw before (λ h. h, λ h. h)
  | inr after ↦ rw after (ground (arith, insert_sorted-In s t ts))
]

pub sorted-In : (s : String) (ts : List String) → In s (sorted ts) ↔ In s ts
unfolding sorted
sorted-In s [] = ground arith
sorted-In s (t ∷ ts) = ground (arith, sorted-In s ts, insert_sorted-In s t (sorted ts))

-- For logs whose token identifiers are texts or null, the report lists exactly the tokens that
-- both layers have used, and no exception is raised.
pub bypassed-In :
    (user_logs ds_logs : List Entry)
    → HasTextJtis user_logs
    → HasTextJtis ds_logs
    → (shared : List String) × (bypassed user_logs ds_logs ≡ ok shared)
      × ((s : String) → In s shared ↔ (Used s user_logs × Used s ds_logs))
unfolding bypassed lookup
bypassed-In us ds hu hd =
    let (u, u_ok) = by_jti-total [] us hu in
    let (d, d_ok) = by_jti-total [] ds hd in
    (
      sorted (shared_keys u d),
      rw (u_ok, d_ok),
      λ s. ground (
        arith,
        sorted-In s (shared_keys u d),
        shared_keys-In s u d,
        by_jti-lookup s [] u us u_ok,
        by_jti-lookup s [] d ds d_ok,
      ),
    )

is_nil_iff : (ts : List String) → (is_nil ts ≡ true) ↔ ((s : String) → ¬ In s ts)
is_nil_iff [] = (λ h s p. p, λ h. refl)
is_nil_iff (t ∷ ts) = (λ h. cc, λ h. absurd (h t (inl refl)))

-- Where the two queries return logs whose token identifiers are texts or null, the first check
-- passes exactly when no token of the user-facing services was used downstream.
pub check1-true_iff :
    (src : Source) (start_ns end_ns : ℤ) (user_logs ds_logs : List Entry)
    → query_loki src (access_logs_of user_facing_services) start_ns end_ns default_limit
      ≡ ok user_logs
    → query_loki src (access_logs_of downstream_services) start_ns end_ns default_limit ≡ ok ds_logs
    → HasTextJtis user_logs
    → HasTextJtis ds_logs
    → (check1 src start_ns end_ns ≡ ok true) ↔ ((s : String) → Used s user_logs → ¬ Used s ds_logs)
unfolding check1
check1-true_iff src start_ns end_ns us ds qu qd hu hd =
    let (shared, found, lists) = bypassed-In us ds hu hd in
    let nil = is_nil_iff shared in
    rw (qu, qd, found)
      (
        λ h s u d. nil.0 (ground arith) s ((lists s).1 (u, d)),
        λ h. rw (nil.1 (λ s p. let (u, d) = (lists s).0 p in h s u d)),
      )

pub check1-total :
    (src : Source) (start_ns end_ns : ℤ) (user_logs ds_logs : List Entry)
    → query_loki src (access_logs_of user_facing_services) start_ns end_ns default_limit
      ≡ ok user_logs
    → query_loki src (access_logs_of downstream_services) start_ns end_ns default_limit ≡ ok ds_logs
    → HasTextJtis user_logs
    → HasTextJtis ds_logs
    → (passed : Bool) × (check1 src start_ns end_ns ≡ ok passed)
unfolding check1
check1-total src start_ns end_ns us ds qu qd hu hd =
    let (shared, found, _) = bypassed-In us ds hu hd in (is_nil shared, rw (qu, qd, found) refl)

-- With no logs at all the check passes.
pub check1_nothing :
    (src : Source) (start_ns end_ns : ℤ) → IsDown src → check1 src start_ns end_ns ≡ ok true
unfolding check1 bypassed by_jti shared_keys sorted
check1_nothing src start_ns end_ns down = let q = query_loki_down src down in simp q
