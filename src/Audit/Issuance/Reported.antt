-- ===== src/Audit/Issuance/Reported.antt =====
-- audit/audit.py: which uses of tokens `check2` reports.
use mathlib.Core.Path.{subst}
use gekko.Base.{
  In, ◌+◌, Bool, true, none, some, List, [], ◌∷◌, ◌≡◌, ◌↔◌, inl, inr, refl, sym, ap, arith,
  string_eq, pair_eq, length,
}
use gekko.Base.Dict.{Dict, lookup, In-lookup_iff}
use gekko.Python.Errors.{ok}
use gekko.Python.Json.{ℤ}
use gekko.Python.Sorting.{Sorted}
use gekko.Audit.Loki.{Entry, time_of}
use gekko.Audit.Issuance.Timed.{by_time-Sorted, length-by_time, by_time-In_iff, by_time-total}
use gekko.Audit.Events.{Issue, Issues, parse_token_exchange_events}
use gekko.Audit.Issuance.Subjects.{AllowsSubject}
use gekko.Audit.Issuance.{
  TokenUse, Finding, judge, is_no_record, is_sub_mismatch, reported, Report, report_of, report2,
  first_uses, verdict2, TimedUse, recorded_sub, by_time,
}
use gekko.Audit.Issuance.Uses.{
  FirstUse, HasTextUses, first_uses-lookup, first_uses-total, first_uses-NodupKeys,
}
use gekko.Audit.Issuance.Findings.{
  reported-In_iff, counts, all_backed-reported_iff, judge-no_record_iff, judge-sub_mismatch_iff,
}

-- A reported use is the first one of its token, with that finding.
pub reported-FirstUse :
    (wanted : Finding → Bool) (exchanged : Issues) (ds : List Entry) (seen : Dict TokenUse Entry)
    → first_uses [] ds ≡ ok seen
    → (key : TokenUse) (e : Entry)
    → In (key, e) (reported wanted exchanged seen)
      ↔ (FirstUse key e ds × (wanted (judge (lookup key exchanged) e) ≡ true))
unfolding lookup
reported-FirstUse wanted exchanged ds seen collected key e =
    let nodup = first_uses-NodupKeys [] seen ds tt collected in
    let (to, from) = reported-In_iff wanted exchanged key e seen in
    let (at, placed) = In-lookup_iff key e seen nodup in
    let (shown, kept) = first_uses-lookup key e [] seen ds collected in
    (
      λ h.
          let (there, w) = to h in
          (elim (shown (at there)) [ inl never ↦ absurd (cc never) | inr (_, u) ↦ u ], w),
      λ (u, w). from (placed (kept (inr (refl, u))), w),
    )

-- Every entry has a time.
abbrev pub HasTimes : List Entry → Type 0
HasTimes [] = Unit
HasTimes (e ∷ es) = ((t : ℤ) × (time_of e ≡ ok t)) × HasTimes es

FirstUse-time :
    (key : TokenUse) (e : Entry) (es : List Entry)
    → HasTimes es
    → FirstUse key e es
    → (t : ℤ) × (time_of e ≡ ok t)
FirstUse-time key e [] times never = absurd never
FirstUse-time key e (x ∷ es) ((t, timed), times) (inl (_, same)) =
    (t, subst (λ y. time_of y ≡ ok t) (sym same) timed)
FirstUse-time key e (x ∷ es) (_, times) (inr (_, later)) = FirstUse-time key e es times later

-- The list under one finding has the first uses with it, at their times.
listed :
    (wanted : Finding → Bool) (exchanged : Issues) (ds : List Entry) (seen : Dict TokenUse Entry)
    → first_uses [] ds ≡ ok seen
    → HasTimes ds
    → (us : List TimedUse) × (by_time exchanged (reported wanted exchanged seen) ≡ ok us)
      × ((u : TimedUse)
          → In u us ↔ (
              FirstUse u.key u.entry ds
              × (time_of u.entry ≡ ok u.ts_ns)
              × (wanted (judge (lookup u.key exchanged) u.entry) ≡ true)
              × (u.exchanged_sub ≡ recorded_sub (lookup u.key exchanged))))
listed wanted exchanged ds seen collected times =
    let uses = reported wanted exchanged seen in
    let (us, sorted) = by_time-total exchanged uses (λ key e p.
      FirstUse-time key e ds times
        ((reported-FirstUse wanted exchanged ds seen collected key e).0 p).0) in
    (
      us,
      sorted,
      λ u.
          let (to, from) = by_time-In_iff exchanged uses us sorted u in
          let (first, listed_use) =
            reported-FirstUse wanted exchanged ds seen collected u.key u.entry in
          (
            λ p. let (there, t, r) = to p in let (f, w) = first there in (f, t, w, r),
            λ (f, t, w, r). from (listed_use (f, w), t, r),
          ),
    )

-- For logs in which every token comes with texts for itself and its service, and every entry with
-- a time, and for events that are read into records, the report has under "no record" exactly the
-- first uses without a record of issue, and under "mismatch" exactly those whose record names
-- another subject, with that subject, each with its time and in the order of the times. It counts all the others as
-- confirmed. The verdict is positive exactly when all uses are confirmed.
pub report2-lists :
    (ds_logs kc_logs : List Entry) (exchanged : Issues)
    → HasTextUses ds_logs
    → HasTimes ds_logs
    → parse_token_exchange_events kc_logs ≡ ok exchanged
    → (report : Report) × (report2 ds_logs kc_logs ≡ ok report)
      × ((u : TimedUse)
          → In u report.no_record ↔ (
              FirstUse u.key u.entry ds_logs
              × (time_of u.entry ≡ ok u.ts_ns)
              × (lookup u.key exchanged ≡ none)
              × (u.exchanged_sub ≡ none)))
      × ((u : TimedUse)
          → In u report.sub_mismatch ↔ (
              FirstUse u.key u.entry ds_logs
              × (time_of u.entry ≡ ok u.ts_ns)
              × ((issue : Issue) × (lookup u.key exchanged ≡ some issue)
                  × (¬ AllowsSubject issue.sub (lookup "sub" u.entry))
                  × (u.exchanged_sub ≡ issue.sub))))
      × Sorted (λ u. u.ts_ns) report.no_record
      × Sorted (λ u. u.ts_ns) report.sub_mismatch
      × (report.confirmed + length report.no_record + length report.sub_mismatch ≡ report.uses)
      × ((verdict2 ds_logs kc_logs ≡ ok true) ↔ (report.confirmed ≡ report.uses))
unfolding report2 report_of verdict2 lookup
report2-lists ds kc exchanged text times parsed =
    let (seen, collected) = first_uses-total [] ds text in
    let same_counts = counts exchanged seen in
    let (passed, pass) = all_backed-reported_iff exchanged seen in
    let missing = reported is_no_record exchanged seen in
    let mismatched = reported is_sub_mismatch exchanged seen in
    let (ms, ms_ok, ms_iff) = listed is_no_record exchanged ds seen collected times in
    let (ws, ws_ok, ws_iff) = listed is_sub_mismatch exchanged ds seen collected times in
    let ms_length = length-by_time exchanged missing ms ms_ok in
    let ws_length = length-by_time exchanged mismatched ws ws_ok in
    rw (parsed, collected, ms_ok, ws_ok)
      (
        _,
        refl,
        λ u. ground (arith, ms_iff u, judge-no_record_iff (lookup u.key exchanged) u.entry),
        λ u. ground (arith, ws_iff u, judge-sub_mismatch_iff (lookup u.key exchanged) u.entry),
        by_time-Sorted exchanged missing ms ms_ok,
        by_time-Sorted exchanged mismatched ws ws_ok,
        omega (arith, same_counts, ms_length, ws_length),
        (
          λ h. let all = passed (ground arith) in omega (arith, all, same_counts),
          λ h. ap (λ b. ok b) (pass (omega (arith, h, same_counts))),
        ),
      )
