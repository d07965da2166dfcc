-- ===== src/Audit/Output/Issuance.antt =====
-- audit/audit.py: `check2` with what it prints.
use gekko.Base.{
  ℕ, ◌-◌, ◌*◌, String, Bool, true, false, Option, none, some, List, [], ◌∷◌, length, string_eq,
}
use gekko.Base.Dict.{Dict, lookup}
use gekko.Python.Json.{ℤ, str, or_default}
use gekko.Python.Integers.{minus}
use gekko.Audit.Clock.{ts_str}
use gekko.Audit.Loki.{Entry, Source, default_limit}
use gekko.Audit.Events.{Issues, parse_token_exchange_events}
use gekko.Audit.Issuance.{
  TokenUse, first_uses, reported, is_no_record, is_sub_mismatch, TimedUse, by_time, access_query,
  event_query,
}
use gekko.Audit.Output.{
  Printing, ◌>>=◌, ◌>>◌, pure, lift, print, for_each, print_query, print_header, use_counts,
  no_records, unissued, sub_mismatches, mismatched, no_uses, all_issued,
}

unfoldable pub print_unissued : TimedUse → Printing (Unit {0})
print_unissued u = do
  at ← lift (ts_str u.ts_ns)
  print (
      unissued u.key.0 u.key.1 (or_default (str "") (lookup "method" u.entry))
        (or_default (str "") (lookup "path" u.entry)) (or_default (str "-") (lookup "sub" u.entry))
        (or_default (str "-") (lookup "status" u.entry)) at)

-- A mismatch has a subject on record, which is not empty.
abbrev text_of : Option String → String
text_of none = ""
text_of (some s) = s

unfoldable pub print_mismatched : TimedUse → Printing (Unit {0})
print_mismatched u = do
  at ← lift (ts_str u.ts_ns)
  print (
      mismatched u.key.0 u.key.1 (or_default (str "-") (lookup "sub" u.entry))
        (text_of u.exchanged_sub) at)

unfoldable pub print_no_records : Issues → List (TokenUse × Entry) → Printing (Unit {0})
print_no_records exchanged [] = pure tt
print_no_records exchanged (u ∷ us) = do
  print (no_records (length (u ∷ us)))
  timed ← lift (by_time exchanged (u ∷ us))
  for_each print_unissued timed

unfoldable pub print_mismatches : Issues → List (TokenUse × Entry) → Printing (Unit {0})
print_mismatches exchanged [] = pure tt
print_mismatches exchanged (u ∷ us) = do
  print (sub_mismatches (length (u ∷ us)))
  timed ← lift (by_time exchanged (u ∷ us))
  for_each print_mismatched timed

-- The last line, and `ok`.
unfoldable pub print_backed :
    Dict TokenUse Entry → List (TokenUse × Entry) → List (TokenUse × Entry) → Printing Bool
print_backed seen (u ∷ us) _ = pure false
print_backed seen [] (u ∷ us) = pure false
print_backed [] [] [] = print no_uses >> pure true
print_backed (first ∷ seen) [] [] = print all_issued >> pure true

unfoldable pub print_uses : Issues → Dict TokenUse Entry → Printing Bool
print_uses exchanged seen = do
  let missing = reported is_no_record exchanged seen
  let mismatches = reported is_sub_mismatch exchanged seen
  print (use_counts (length seen) (length seen - length missing - length mismatches))
  print_no_records exchanged missing
  print_mismatches exchanged mismatches
  print_backed seen missing mismatches

unfoldable pub print_check2 : ℕ → Source → ℤ → ℤ → Printing Bool
print_check2 lookback_seconds src start_ns end_ns = do
  print_header 2
  ds_logs ← print_query src access_query start_ns end_ns default_limit
  kc_logs ←
      print_query src event_query (minus start_ns (lookback_seconds * 1000000000)) end_ns
        default_limit
  exchanged ← lift (parse_token_exchange_events kc_logs)
  seen ← lift (first_uses [] ds_logs)
  print_uses exchanged seen
