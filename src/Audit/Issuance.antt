-- ===== src/Audit/Issuance.antt =====
-- audit/audit.py: `check2`, which looks for tokens that no exchange has issued.
pub mod Uses
pub mod Repeats
pub mod Unissued
pub mod Timed
pub mod Subjects
pub mod Findings
pub mod Reported
pub mod Laws
use gekko.Base.{
  ℕ, ◌-◌, ◌*◌, length, String, Bool, true, false, Option, none, some, List, [], ◌∷◌, ◌==◌, ◌||◌,
  ◌&&◌, not, if◌then◌else◌, string_eq, pair_eq,
}
use gekko.Base.Dict.{Dict, lookup, insert}
use gekko.Python.Errors.{Result, ok, raise, ◌>>=◌, outside_model}
use gekko.Python.Json.{ℤ, Json, str, truthy, equals_text, optional_equals_text, is_some}
use gekko.Python.Integers.{minus}
use gekko.Python.Traverse.{traverse}
use gekko.Python.Sorting.{sort_by}
use gekko.Python.Text.{◌<>◌}
use gekko.Audit.Keys.{text_key, exchanged_token_services, access_logs_of}
use gekko.Audit.Loki.{Entry, Source, time_of, query_loki, default_limit}
use gekko.Audit.Events.{Issue, Issues, parse_token_exchange_events}

-- A jti and the service that was called with it.
abbrev pub TokenUse : Type 0
TokenUse = String × String

-- `if not jti or jti in ("-", ""): continue`
abbrev pub used_jti : Entry → Option Json
used_jti e = elim (lookup "jti" e) [
  | none ↦ none
  | some v ↦ if truthy v && not (equals_text v "-" || equals_text v "") then some v else none
]

-- `e.get("_service")`; without it the key holds `None`, which is left out.
abbrev service_key : Option Json → Result String
service_key none = raise outside_model
service_key (some v) = text_key v

-- The first entry of a key stays.
abbrev keep_first_use : TokenUse → Entry → Dict TokenUse Entry → Dict TokenUse Entry
keep_first_use key e seen = if is_some (lookup key seen) then seen else insert key e seen

pub add_use : Dict TokenUse Entry → Entry → Result (Dict TokenUse Entry)
add_use seen e = elim (used_jti e) [
  | none ↦ ok seen
  | some v ↦ text_key v >>= λ jti.
      service_key (lookup "_service" e) >>= λ audience. ok (keep_first_use (jti, audience) e seen)
]

unfoldable pub first_uses : Dict TokenUse Entry → List Entry → Result (Dict TokenUse Entry)
first_uses seen [] = ok seen
first_uses seen (e ∷ es) = add_use seen e >>= λ seen'. first_uses seen' es

pub data Finding : Type 0 where
  backed no_record sub_mismatch : Finding

-- `record["sub"] and record["sub"] != e.get("sub")`
abbrev pub differs : Option String → Option Json → Bool
differs none sub = false
differs (some user_id) sub = not (user_id == "") && not (optional_equals_text sub user_id)

pub judge : Option Issue → Entry → Finding
judge none e = no_record
judge (some issue) e = if differs issue.sub (lookup "sub" e) then sub_mismatch else backed

abbrev is_backed : Finding → Bool
is_backed backed = true
is_backed _ = false

-- No use is reported.
pub all_backed : Issues → Dict TokenUse Entry → Bool
all_backed exchanged [] = true
all_backed exchanged ((key, e) ∷ seen) =
    is_backed (judge (lookup key exchanged) e) && all_backed exchanged seen

-- The uses with one finding.
unfoldable pub reported : (Finding → Bool) → Issues → Dict TokenUse Entry → List (TokenUse × Entry)
reported wanted exchanged [] = []
reported wanted exchanged ((key, e) ∷ seen) =
    let rest = reported wanted exchanged seen in
    if wanted (judge (lookup key exchanged) e) then (key, e) ∷ rest else rest

abbrev pub is_no_record : Finding → Bool
is_no_record no_record = true
is_no_record _ = false

abbrev pub is_sub_mismatch : Finding → Bool
is_sub_mismatch sub_mismatch = true
is_sub_mismatch _ = false

-- A use as it is printed: the jti with the service, the entry and its time, and the subject that
-- the record of the issue names, which is printed beside a mismatch.
pub record TimedUse : Type 0 where
  pub key : TokenUse
  pub entry : Entry
  pub ts_ns : ℤ
  pub exchanged_sub : Option String

-- `record["sub"]`, where there is a record.
abbrev pub recorded_sub : Option Issue → Option String
recorded_sub none = none
recorded_sub (some issue) = issue.sub

abbrev pub with_time : Issues → TokenUse × Entry → Result TimedUse
with_time exchanged (key, e) = time_of e >>= λ ts. ok (record {
  key = key;
  entry = e;
  ts_ns = ts;
  exchanged_sub = recorded_sub (lookup key exchanged);
})

-- `sorted(…, key=lambda v: v[2]["_ts_ns"])`
unfoldable pub by_time : Issues → List (TokenUse × Entry) → Result (List TimedUse)
by_time exchanged uses =
    traverse (with_time exchanged) uses >>= λ timed. ok (sort_by (λ u. u.ts_ns) timed)

-- What is printed of the uses: their number, how many are confirmed, and those reported.
pub record Report : Type 0 where
  pub uses : ℕ
  pub confirmed : ℕ
  pub no_record : List TimedUse
  pub sub_mismatch : List TimedUse

pub report_of : Issues → Dict TokenUse Entry → Result Report
report_of exchanged seen = do
  let missing = reported is_no_record exchanged seen
  let mismatched = reported is_sub_mismatch exchanged seen
  missing_by_time ← by_time exchanged missing
  mismatched_by_time ← by_time exchanged mismatched
  ok (record {
    uses = length seen;
    confirmed = length seen - length missing - length mismatched;
    no_record = missing_by_time;
    sub_mismatch = mismatched_by_time;
  })

pub report2 : List Entry → List Entry → Result Report
report2 ds_logs kc_logs = do
  exchanged ← parse_token_exchange_events kc_logs
  seen ← first_uses [] ds_logs
  report_of exchanged seen

unfoldable pub verdict2 : List Entry → List Entry → Result Bool
verdict2 ds_logs kc_logs = do
  exchanged ← parse_token_exchange_events kc_logs
  seen ← first_uses [] ds_logs
  ok (all_backed exchanged seen)

-- The query for the accesses, without those that were refused, and the one for the events.
abbrev pub access_query : String
access_query = access_logs_of exchanged_token_services <> " | status != 401"

abbrev pub event_query : String
event_query = "{service=\"keycloak\"} |= \"TOKEN_EXCHANGE\""

unfoldable pub check2 : ℕ → Source → ℤ → ℤ → Result Bool
check2 lookback_seconds src start_ns end_ns = do
  ds_logs ← query_loki src access_query start_ns end_ns default_limit
  kc_logs ←
      query_loki src event_query (minus start_ns (lookback_seconds * 1000000000)) end_ns
        default_limit
  verdict2 ds_logs kc_logs
