-- ===== src/Audit/Issuance/Unissued.antt =====
-- audit/audit.py: a token that no exchange has issued, as `check2` meets it.
use mathlib.Core.Path.{subst}
use gekko.Base.{
  ℕ, ◌*◌, false, none, List, [], ◌∷◌, ◌≡◌, ◌≢◌, ◌⊎◌, inl, inr, refl, string_eq, pair_eq,
  Option-cases, Bool-cases,
}
use gekko.Base.Dict.{Dict, lookup}
use gekko.Python.Errors.{ok, >>=-eq-ok, ok-injective}
use gekko.Python.Json.{ℤ}
use gekko.Python.Integers.{minus}
use gekko.Audit.Loki.{Entry, Source, query_loki, default_limit}
use gekko.Audit.Events.{Issues, parse_token_exchange_events}
use gekko.Audit.Issuance.{
  TokenUse, add_use, first_uses, all_backed, verdict2, access_query, event_query, check2,
}
use gekko.Audit.Issuance.Uses.{
  UsedToken, HasTextUses, FirstUse, first_uses-lookup, first_uses-total, first_uses-NodupKeys,
}
use gekko.Audit.Issuance.Repeats.{add_use_knows}
use gekko.Audit.Issuance.Laws.{all_backed_iff}

first_uses_knows :
    (key : TokenUse) (d d' : Dict TokenUse Entry) (es : List Entry)
    → first_uses d es ≡ ok d'
    → (lookup key d ≢ none) ⊎ UsedToken key es
    → lookup key d' ≢ none
unfolding first_uses
first_uses_knows key d d' [] h (inl known) = subst (λ x. lookup key x ≢ none) (ok-injective h) known
first_uses_knows key d d' [] h (inr never) = absurd never
first_uses_knows key d d' (x ∷ es) h known =
    let (d1, added, rest) = >>=-eq-ok (add_use d x) (λ y. first_uses y es) h in
    first_uses_knows key d1 d' es rest (elim known [
      | inl old ↦ inl (add_use_knows key d d1 x added (inl old))
      | inr (inl now) ↦ inl (add_use_knows key d d1 x added (inr now))
      | inr (inr later) ↦ inr later
    ])

-- A token that is used has a first use.
pub UsedToken-FirstUse :
    (key : TokenUse) (ds_logs : List Entry)
    → HasTextUses ds_logs
    → UsedToken key ds_logs
    → (e : Entry) × FirstUse key e ds_logs
UsedToken-FirstUse key ds text used =
    let (seen, collected) = first_uses-total [] ds text in
    elim (Option-cases (lookup key seen)) [
      | inl new ↦ absurd (first_uses_knows key [] seen ds collected (inr used) new)
      | inr (e, found) ↦ elim ((first_uses-lookup key e [] seen ds collected).0 found) [
        | inl old ↦ absurd (unfold lookup in cc old)
        | inr (_, first) ↦ (e, first)
      ]
    ]

-- For logs in which every token comes with texts for itself and its service, the verdict is
-- negative as soon as one entry uses a token at a service for which no event records its issue.
pub verdict2_unissued :
    (key : TokenUse) (ds_logs kc_logs : List Entry) (exchanged : Issues)
    → HasTextUses ds_logs
    → parse_token_exchange_events kc_logs ≡ ok exchanged
    → UsedToken key ds_logs
    → lookup key exchanged ≡ none
    → verdict2 ds_logs kc_logs ≡ ok false
unfolding verdict2
verdict2_unissued key ds kc exchanged text parsed used missing =
    let (seen, collected) = first_uses-total [] ds text in
    let known = first_uses_knows key [] seen ds collected (inr used) in
    let backed = all_backed_iff exchanged seen (first_uses-NodupKeys [] seen ds tt collected) in
    rw (parsed, collected)
      (elim (Bool-cases (all_backed exchanged seen)) [
        | inr bad ↦ rw bad refl
        | inl good ↦ elim (Option-cases (lookup key seen)) [
          | inl new ↦ absurd (known new)
          | inr (e, found) ↦
              let (issue, there, _) = backed.0 good key e found in cc (there, missing)
        ]
      ])

-- The same for the whole check, on what its two queries return.
pub check2_unissued :
    (lookback_seconds : ℕ) (src : Source) (start_ns end_ns : ℤ) (key : TokenUse)
    (ds_logs kc_logs : List Entry) (exchanged : Issues)
    → query_loki src access_query start_ns end_ns default_limit ≡ ok ds_logs
    → query_loki src event_query
        (minus start_ns (lookback_seconds * 1000000000))
        end_ns
        default_limit
      ≡ ok kc_logs
    → HasTextUses ds_logs
    → parse_token_exchange_events kc_logs ≡ ok exchanged
    → UsedToken key ds_logs
    → lookup key exchanged ≡ none
    → check2 lookback_seconds src start_ns end_ns ≡ ok false
unfolding check2
check2_unissued lookback src start end key ds kc exchanged logs events text parsed used missing =
    rw (logs, events) (verdict2_unissued key ds kc exchanged text parsed used missing)
