-- ===== src/Audit/Issuance/Laws.antt =====
-- audit/audit.py: the verdict of `check2` on the first uses and the records.
use gekko.Base.{
  ℕ, ◌*◌, Bool, true, some, List, [], ◌∷◌, ◌≡◌, ◌≢◌, ◌↔◌, inl, inr, refl, arith, string_eq, pair_eq,
  Option-cases,
}
use gekko.Base.Dict.{Dict, lookup, lookup-cons, NodupKeys}
use gekko.Python.Errors.{ok}
use gekko.Python.Json.{ℤ}
use gekko.Python.Integers.{minus}
use gekko.Audit.Loki.{Entry, Source, IsDown, query_loki, default_limit, query_loki_down}
use gekko.Audit.Events.Laws.{parse_token_exchange_events_nil}
use gekko.Audit.Events.{Issue, Issues, parse_token_exchange_events}
use gekko.Audit.Issuance.{
  TokenUse, first_uses, judge, is_backed, all_backed, verdict2, access_query, event_query, check2,
}
use mathlib.Core.Path.{subst}
use gekko.Audit.Issuance.Subjects.{AllowsSubject, differs-AllowsSubject_iff}
use gekko.Audit.Issuance.Uses.{
  FirstUse, HasTextUses, first_uses-lookup, first_uses-total, first_uses-NodupKeys,
}

-- The token was issued for the service, and to the subject of the access if the event names one.
abbrev pub IsBacked : Issues → TokenUse → Entry → Type 0
IsBacked exchanged key e =
    (issue : Issue) × (lookup key exchanged ≡ some issue) × AllowsSubject issue.sub (lookup "sub" e)

IsBacked-iff :
    (exchanged : Issues) (key : TokenUse) (e : Entry)
    → (is_backed (judge (lookup key exchanged) e) ≡ true) ↔ IsBacked exchanged key e
unfolding judge
IsBacked-iff exchanged key e = elim (Option-cases (lookup key exchanged)) [
  | inl missing ↦ (λ h. absurd (ground arith), λ (issue, found, same). ground arith)
  | inr (issue, found) ↦
      let (to, from) = differs-AllowsSubject_iff issue.sub (lookup "sub" e) in
      (
        λ h. (issue, found, to (ground arith)),
        λ (issue', found', same).
            let is_it : issue' ≡ issue = ground (arith, found, found') in
            let agreed = from (subst (λ x. AllowsSubject x.sub (lookup "sub" e)) is_it same) in
            ground arith,
      )
]

not_in_empty : (key : TokenUse) (e : Entry) → lookup key [] ≢ some e
unfolding lookup
not_in_empty key e h = cc

pub all_backed_iff :
    (exchanged : Issues) (d : Dict TokenUse Entry)
    → NodupKeys d
    → (all_backed exchanged d ≡ true)
      ↔ ((key : TokenUse) (e : Entry) → lookup key d ≡ some e → IsBacked exchanged key e)
unfolding all_backed
all_backed_iff exchanged [] n = (λ h key e p. absurd (not_in_empty key e p), λ h. refl)
all_backed_iff exchanged ((k, x) ∷ d) (fresh, n) =
    let (to, from) = all_backed_iff exchanged d n in
    let (judged, backed) = IsBacked-iff exchanged k x in
    (
      λ h key e p. elim (pair_eq.dec key k) [
        | yes q ↦
            let same : x ≡ e = ground (arith, lookup-cons key k x d) in
            rw (q, ← same) (judged (ground arith))
        | no q ↦ to (ground arith) key e (ground (arith, lookup-cons key k x d))
      ],
      λ h. ground (
        arith,
        backed (h k x (ground (arith, lookup-cons k k x d))),
        from (λ key e p. h key e (ground (arith, lookup-cons key k x d))),
      ),
    )

-- For logs in which every token comes with texts for itself and its service, and events that are
-- read into records, the verdict is positive exactly when the first use of every token at every
-- service has a record of its issue for that service, and the subject of that use is the recorded
-- one where the record names one.
pub verdict2-true_iff :
    (ds_logs kc_logs : List Entry) (exchanged : Issues)
    → HasTextUses ds_logs
    → parse_token_exchange_events kc_logs ≡ ok exchanged
    → (verdict2 ds_logs kc_logs ≡ ok true)
      ↔ ((key : TokenUse) (e : Entry) → FirstUse key e ds_logs → IsBacked exchanged key e)
unfolding verdict2 lookup
verdict2-true_iff ds kc exchanged text parsed =
    let (seen, collected) = first_uses-total [] ds text in
    let (to, from) = all_backed_iff exchanged seen (first_uses-NodupKeys [] seen ds tt collected) in
    let seen_at = λ (key : TokenUse) (e : Entry). first_uses-lookup key e [] seen ds collected in
    rw (parsed, collected)
      (
        λ h key e u. to (ground arith) key e ((seen_at key e).1 (inr (refl, u))),
        λ h. rw (from (λ key e p. h key e (ground (arith, (seen_at key e).0 p)))),
      )

pub verdict2-total :
    (ds_logs kc_logs : List Entry) (exchanged : Issues)
    → HasTextUses ds_logs
    → parse_token_exchange_events kc_logs ≡ ok exchanged
    → (passed : Bool) × (verdict2 ds_logs kc_logs ≡ ok passed)
unfolding verdict2
verdict2-total ds kc exchanged text parsed =
    let (seen, collected) = first_uses-total [] ds text in
    (all_backed exchanged seen, rw (parsed, collected) refl)

-- The check is its verdict on what the queries return.
pub check2-verdict2 :
    (lookback_seconds : ℕ) (src : Source) (start_ns end_ns : ℤ) (ds_logs kc_logs : List Entry)
    → query_loki src access_query start_ns end_ns default_limit ≡ ok ds_logs
    → query_loki src event_query
        (minus start_ns (lookback_seconds * 1000000000))
        end_ns
        default_limit
      ≡ ok kc_logs
    → check2 lookback_seconds src start_ns end_ns ≡ verdict2 ds_logs kc_logs
unfolding check2
check2-verdict2 lookback_seconds src start_ns end_ns ds kc qd qk = rw (qd, qk) refl

-- With no logs at all the check passes.
pub check2_nothing :
    (lookback_seconds : ℕ) (src : Source) (start_ns end_ns : ℤ)
    → IsDown src
    → check2 lookback_seconds src start_ns end_ns ≡ ok true
unfolding check2 verdict2 first_uses all_backed
check2_nothing lookback_seconds src start_ns end_ns down =
    let q = query_loki_down src down in simp q (rw parse_token_exchange_events_nil)
