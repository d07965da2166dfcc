-- ===== src/Audit/Output/Total/Issuance.antt =====
-- audit/audit.py: `check2` ends, with all that it prints, where the times can be shown.
use mathlib.Core.Path.{subst}
use gekko.Base.{ℕ, ◌*◌, Bool, true, false, List, [], ◌∷◌, ◌≡◌, refl, In, string_eq, pair_eq}
use gekko.Base.Dict.{Dict}
use gekko.Python.Errors.{ok}
use gekko.Python.Json.{ℤ}
use gekko.Python.Integers.{minus}
use gekko.Audit.Loki.{Entry, Source, time_of, query_loki, default_limit}
use gekko.Audit.Events.{Issues, parse_token_exchange_events}
use gekko.Audit.Issuance.{
  TokenUse, Finding, TimedUse, first_uses, reported, is_no_record, is_sub_mismatch, by_time,
  access_query, event_query,
}
use gekko.Audit.Issuance.Uses.{HasTextUses, first_uses-total}
use gekko.Audit.Issuance.Timed.{by_time-total, by_time-In_iff}
use gekko.Audit.Issuance.Reported.{reported-FirstUse}
use gekko.Audit.Output.Laws.{outcome, outcome->>=, outcome-print_query}
use gekko.Audit.Output.Shown.{HasText, IsShowable, AreShowable, FirstUse-AllEntries, for_each-total}
use gekko.Audit.Output.Issuance.{
  print_unissued, print_mismatched, print_no_records, print_mismatches, print_backed, print_uses,
  print_check2,
}

-- The times of these uses can be shown.
abbrev UsesShown : List (TokenUse × Entry) → Type 0
UsesShown uses = (key : TokenUse) (e : Entry) → In (key, e) uses → IsShowable e

reported-UsesShown :
    (wanted : Finding → Bool) (exchanged : Issues) (ds : List Entry) (seen : Dict TokenUse Entry)
    → first_uses [] ds ≡ ok seen
    → AreShowable ds
    → UsesShown (reported wanted exchanged seen)
reported-UsesShown wanted exchanged ds seen collected shown key e there =
    FirstUse-AllEntries IsShowable key e ds shown
      ((reported-FirstUse wanted exchanged ds seen collected key e).0 there).0

same_time : (e : Entry) (t : ℤ) → IsShowable e → time_of e ≡ ok t → HasText t
same_time e t ((u, timed, shown), _) at = subst HasText (cc (timed, at)) shown

-- The uses can be sorted, and each of them has a time that can be shown.
by_time-shown :
    (exchanged : Issues) (uses : List (TokenUse × Entry))
    → UsesShown uses
    → (us : List TimedUse) × (by_time exchanged uses ≡ ok us)
      × ((u : TimedUse) → In u us → HasText u.ts_ns)
by_time-shown exchanged uses shown =
    let (us, sorted) =
      by_time-total exchanged uses
        (λ key e p. let ((t, timed, _), _) = shown key e p in (t, timed)) in
    (
      us,
      sorted,
      λ u p.
          let (there, timed, _) = (by_time-In_iff exchanged uses us sorted u).0 p in
          same_time u.entry u.ts_ns (shown u.key u.entry there) timed,
    )

print_no_records-total :
    (exchanged : Issues) (uses : List (TokenUse × Entry))
    → UsesShown uses
    → outcome (print_no_records exchanged uses) ≡ ok tt
unfolding print_no_records print_unissued
print_no_records-total exchanged [] shown = refl
print_no_records-total exchanged (x ∷ xs) shown =
    let (us, sorted, texts) = by_time-shown exchanged (x ∷ xs) shown in
    simp (outcome->>=, sorted)
      (for_each-total print_unissued us
        (λ u p. let (at, told) = texts u p in simp (outcome->>=, told) refl))

print_mismatches-total :
    (exchanged : Issues) (uses : List (TokenUse × Entry))
    → UsesShown uses
    → outcome (print_mismatches exchanged uses) ≡ ok tt
unfolding print_mismatches print_mismatched
print_mismatches-total exchanged [] shown = refl
print_mismatches-total exchanged (x ∷ xs) shown =
    let (us, sorted, texts) = by_time-shown exchanged (x ∷ xs) shown in
    simp (outcome->>=, sorted)
      (for_each-total print_mismatched us
        (λ u p. let (at, told) = texts u p in simp (outcome->>=, told) refl))

print_backed-total :
    (seen : Dict TokenUse Entry) (missing mismatches : List (TokenUse × Entry))
    → (b : Bool) × (outcome (print_backed seen missing mismatches) ≡ ok b)
unfolding print_backed
print_backed-total seen (u ∷ us) ws = (false, refl)
print_backed-total seen [] (w ∷ ws) = (false, refl)
print_backed-total [] [] [] = (true, refl)
print_backed-total (first ∷ seen) [] [] = (true, refl)

pub print_check2-total :
    (lookback_seconds : ℕ) (src : Source) (start_ns end_ns : ℤ) (ds_logs kc_logs : List Entry)
    (exchanged : Issues)
    → query_loki src access_query start_ns end_ns default_limit ≡ ok ds_logs
    → query_loki src event_query
        (minus start_ns (lookback_seconds * 1000000000))
        end_ns
        default_limit
      ≡ ok kc_logs
    → HasTextUses ds_logs
    → AreShowable ds_logs
    → parse_token_exchange_events kc_logs ≡ ok exchanged
    → (b : Bool) × (outcome (print_check2 lookback_seconds src start_ns end_ns) ≡ ok b)
unfolding print_check2 print_uses
print_check2-total lookback src start_ns end_ns ds kc exchanged ds_read kc_read text shown parsed =
    let (seen, collected) = first_uses-total [] ds text in
    let missing = reported is_no_record exchanged seen in
    let mismatches = reported is_sub_mismatch exchanged seen in
    let first =
      print_no_records-total exchanged missing
        (reported-UsesShown is_no_record exchanged ds seen collected shown) in
    let second =
      print_mismatches-total exchanged mismatches
        (reported-UsesShown is_sub_mismatch exchanged ds seen collected shown) in
    let (b, told) = print_backed-total seen missing mismatches in
    (
      b,
      simp (outcome->>=, outcome-print_query, ds_read, kc_read, parsed, collected, first, second)
          told,
    )
