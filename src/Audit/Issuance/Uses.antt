-- ===== src/Audit/Issuance/Uses.antt =====
-- audit/audit.py: the first use of every token, as `check2` collects it.
use mathlib.Core.Path.{subst}
use gekko.Base.{
  String, Option, none, some, List, [], ◌∷◌, ◌≡◌, ◌≢◌, ◌↔◌, ◌⊎◌, inl, inr, refl, sym, arith, ◌==◌,
  string_eq, pair_eq, Bool-cases, if◌then◌else◌, ◌||◌,
}
use gekko.Base.Dict.{Dict, lookup, lookup-insert, NodupKeys, insert-NodupKeys}
use gekko.Python.Errors.{ok, from_ok, >>=-eq-ok, ok-injective}
use gekko.Python.Json.{Json, str, is_some}
use gekko.Audit.Loki.{Entry}
use gekko.Audit.Issuance.{TokenUse, used_jti, keep_first_use, add_use, first_uses}

-- The entry is a call of this service with this token.
abbrev pub UsesToken : TokenUse → Entry → Type 0
UsesToken (j, service) e =
    (lookup "jti" e ≡ some (str j))
    × (j ≢ "")
    × (j ≢ "-")
    × (lookup "_service" e ≡ some (str service))

-- The entry is the first one that uses the token.
abbrev pub FirstUse : TokenUse → Entry → List Entry → Type 0
FirstUse key e [] = ⊥
FirstUse key e (x ∷ xs) = (UsesToken key x × (e ≡ x)) ⊎ ((¬ UsesToken key x) × FirstUse key e xs)

abbrev pub UsedToken : TokenUse → List Entry → Type 0
UsedToken key [] = ⊥
UsedToken key (x ∷ xs) = UsesToken key x ⊎ UsedToken key xs

abbrev pub IsText : Option Json → Type 0
IsText (some (str s)) = Unit
IsText _ = ⊥

-- In every entry with a token, the token and the service are texts.
abbrev pub HasTextUses : List Entry → Type 0
HasTextUses [] = Unit
HasTextUses (e ∷ es) =
    ((used_jti e ≡ none) ⊎ (IsText (lookup "jti" e) × IsText (lookup "_service" e)))
    × HasTextUses es

-- What one entry adds: nothing, or itself under its key.
Adds : Dict TokenUse Entry → Dict TokenUse Entry → Entry → Type 0
Adds d d' e =
    ((d' ≡ d) × ((key : TokenUse) → ¬ UsesToken key e))
    ⊎ ((key : TokenUse) × UsesToken key e × (d' ≡ keep_first_use key e d))

add_use-Adds : (d d' : Dict TokenUse Entry) (e : Entry) → add_use d e ≡ ok d' → Adds d d' e
unfolding add_use Adds
add_use-Adds d d' e h = go (lookup "jti" e) refl
  where
    serviced :
        (j : String)
        → lookup "jti" e ≡ some (str j)
        → j ≢ ""
        → j ≢ "-"
        → (s : Option Json) → lookup "_service" e ≡ s
        → ((d' ≡ d) × ((key : TokenUse) → ¬ UsesToken key e))
          ⊎ ((key : TokenUse) × UsesToken key e × (d' ≡ keep_first_use key e d))
    serviced j p a b (some (str s)) q = inr ((j, s), (p, a, b, q), ground arith)
    serviced j p a b none q = absurd (ground arith)
    serviced j p a b (some _) q = absurd (ground arith)

    go :
        (o : Option Json)
        → lookup "jti" e ≡ o
        → ((d' ≡ d) × ((key : TokenUse) → ¬ UsesToken key e))
          ⊎ ((key : TokenUse) × UsesToken key e × (d' ≡ keep_first_use key e d))
    go none p = inl (ground arith, λ (j, s) u. ground arith)
    go (some (str s)) p = elim (Bool-cases (s == "" || s == "-")) [
      | inl bad ↦ inl (ground arith, λ (j, a) u. ground arith)
      | inr good ↦ serviced s p (ground arith) (ground arith) (lookup "_service" e) refl
    ]
    go (some v) p = inl (ground arith, λ (j, s) u. ground arith)

-- How a dict of first uses grows by one entry, seen at one key.
Grows : TokenUse → Entry → Dict TokenUse Entry → Dict TokenUse Entry → Entry → Type 0
Grows key e d d' x =
    (lookup key d' ≡ some e)
    ↔ ((lookup key d ≡ some e) ⊎ ((lookup key d ≡ none) × UsesToken key x × (e ≡ x)))

keep_first_use-lookup :
    (key k : TokenUse) (x : Entry) (d : Dict TokenUse Entry)
    → lookup key (keep_first_use k x d)
      ≡ (if is_some (lookup k d) then lookup key d else if key == k then some x else lookup key d)
keep_first_use-lookup key k x d = ground (arith, lookup-insert key k x d)

UsesToken-unique : (key k : TokenUse) (x : Entry) → UsesToken key x → UsesToken k x → key ≡ k
UsesToken-unique (j, s) (j', s') x u v = ground arith

add_use-Grows :
    (key : TokenUse) (e : Entry) (d d' : Dict TokenUse Entry) (x : Entry)
    → add_use d x ≡ ok d'
    → Grows key e d d' x
unfolding Adds Grows
add_use-Grows key e d d' x h = elim (add_use-Adds d d' x h) [
  | inl (same, unused) ↦
      rw same (λ p. inl p, elim [ inl p ↦ p | inr (_, u, _) ↦ absurd (unused key u) ])
  | inr (k, used, new) ↦
      rw (new, keep_first_use-lookup) (ground (arith), ground (arith, UsesToken-unique key k x))
]

unfoldable pub Stays : TokenUse → Dict TokenUse Entry → Dict TokenUse Entry → Entry → Type 0
Stays key d d' x = (lookup key d' ≡ none) ↔ ((lookup key d ≡ none) × (¬ UsesToken key x))

pub add_use-Stays :
    (key : TokenUse) (d d' : Dict TokenUse Entry) (x : Entry)
    → add_use d x ≡ ok d'
    → Stays key d d' x
unfolding Adds Stays
add_use-Stays key d d' x h = elim (add_use-Adds d d' x h) [
  | inl (same, unused) ↦ rw same (λ p. (p, unused key), λ p. p.0)
  | inr (k, used, new) ↦
      rw (new, keep_first_use-lookup)
        (
          λ p. (ground arith, λ u. ground (arith, UsesToken-unique key k x u used)),
          λ (p, unused). ground arith,
        )
]

pub first_uses-lookup :
    (key : TokenUse) (e : Entry) (d d' : Dict TokenUse Entry) (es : List Entry)
    → first_uses d es ≡ ok d'
    → (lookup key d' ≡ some e)
      ↔ ((lookup key d ≡ some e) ⊎ ((lookup key d ≡ none) × FirstUse key e es))
unfolding first_uses Grows Stays
first_uses-lookup key e d d' [] h = ground arith
first_uses-lookup key e d d' (x ∷ es) h =
    let (d1, added, rest) = >>=-eq-ok (add_use d x) (λ y. first_uses y es) h in
    let (up, down) = first_uses-lookup key e d1 d' es rest in
    let (grown, grow) = add_use-Grows key e d d1 x added in
    let (left, leave) = add_use-Stays key d d1 x added in
    (
      λ p. elim (up p) [
        | inl q ↦ elim (grown q) [
          | inl old ↦ inl old
          | inr (free, used, same) ↦ inr (free, inl (used, same))
        ]
        | inr (q, later) ↦ let (free, unused) = left q in inr (free, inr (unused, later))
      ],
      elim [
        | inl old ↦ down (inl (grow (inl old)))
        | inr (free, inl (used, same)) ↦ down (inl (grow (inr (free, used, same))))
        | inr (free, inr (unused, later)) ↦ down (inr (leave (free, unused), later))
      ],
    )

add_use-total :
    (d : Dict TokenUse Entry) (e : Entry)
    → (used_jti e ≡ none) ⊎ (IsText (lookup "jti" e) × IsText (lookup "_service" e))
    → (d' : Dict TokenUse Entry) × (add_use d e ≡ ok d')
unfolding add_use
add_use-total d e (inl unused) = (d, rw (unused, add_use))
add_use-total d e (inr (j, s)) = from_ok (add_use d e) (λ x q. ground arith)

pub first_uses-total :
    (d : Dict TokenUse Entry) (es : List Entry)
    → HasTextUses es
    → (d' : Dict TokenUse Entry) × (first_uses d es ≡ ok d')
unfolding first_uses
first_uses-total d [] h = (d, refl)
first_uses-total d (e ∷ es) h =
    let (d1, added) = add_use-total d e h.0 in
    let (d2, rest) = first_uses-total d1 es h.1 in (d2, rw added rest)

keep_first_use-NodupKeys :
    (k : TokenUse) (x : Entry) (d : Dict TokenUse Entry)
    → NodupKeys d
    → NodupKeys (keep_first_use k x d)
keep_first_use-NodupKeys k x d n = ground (arith, insert-NodupKeys k x d n)

pub first_uses-NodupKeys :
    (d d' : Dict TokenUse Entry) (es : List Entry)
    → NodupKeys d
    → first_uses d es ≡ ok d'
    → NodupKeys d'
unfolding first_uses Adds
first_uses-NodupKeys d d' [] n h = subst NodupKeys (ok-injective h) n
first_uses-NodupKeys d d' (x ∷ es) n h =
    let (d1, added, rest) = >>=-eq-ok (add_use d x) (λ y. first_uses y es) h in
    first_uses-NodupKeys d1 d' es
      (elim (add_use-Adds d d1 x added) [
        | inl (same, _) ↦ subst NodupKeys (sym same) n
        | inr (k, _, new) ↦ subst NodupKeys (sym new) (keep_first_use-NodupKeys k x d n)
      ])
      rest
