-- ===== src/Audit/Login.antt =====
-- audit/audit.py: `check3`, which looks for accesses before the first login.
pub mod Earliest
pub mod Entries
pub mod Services
pub mod Ties
pub mod First
pub mod Laws
pub mod Order
pub mod View
pub mod Before
pub mod Counts
pub mod Reported
use gekko.Base.{
  ℕ, ◌-◌, length, filter_map, String, Bool, true, false, Option, none, some, List, [], ◌∷◌, ◌==◌,
  ◌||◌, ◌&&◌, not, if◌then◌else◌, string_eq,
}
use gekko.Base.Dict.{Dict, lookup, insert}
use gekko.Python.Errors.{
  Result, ok, raise, ◌>>=◌, key_error, type_error, outside_model, get_or_raise,
}
use gekko.Python.Json.{ℤ, Json, int, str, truthy, equals_text}
use gekko.Python.Integers.{ltb_ℤ}
use gekko.Python.Text.{◌<>◌}
use gekko.Python.Sorting.{sort_by}
use gekko.Audit.Keys.{text_key, user_facing_services, downstream_services, access_logs_of}
pub use gekko.Audit.Loki.{time_of}
use gekko.Audit.Loki.{Entry, Source, query_loki, default_limit}
use gekko.Audit.Events.{kv_extract}

-- `sub` where it is neither empty nor "-".
abbrev pub used_sub : Entry → Option Json
used_sub e = elim (lookup "sub" e) [
  | none ↦ none
  | some v ↦ if truthy v && not (equals_text v "-") then some v else none
]

-- `k not in d or ts < d[k]`
abbrev pub is_earlier : ℤ → Option ℤ → Bool
is_earlier ts none = true
is_earlier ts (some old) = ltb_ℤ ts old

abbrev pub keep_earliest : String → ℤ → Dict String ℤ → Dict String ℤ
keep_earliest k ts d = if is_earlier ts (lookup k d) then insert k ts d else d

-- A pair of `first_access`: the time, and the service that was called.
pub record Access : Type 0 where
  pub ts_ns : ℤ
  pub service : Json

-- `first_access[sub][0]`, where the subject is known.
abbrev pub known_time : Option Access → Option ℤ
known_time none = none
known_time (some access) = some access.ts_ns

-- The service is read only where the access is the earliest so far.
abbrev pub keep_access : String → ℤ → Entry → Dict String Access → Result (Dict String Access)
keep_access sub ts e first =
    if is_earlier ts (known_time (lookup sub first))
    then (get_or_raise key_error (lookup "_service" e) >>= λ service.
        ok (insert sub (record { ts_ns = ts; service = service }) first))
    else ok first

unfoldable pub add_access : Dict String Access → Entry → Result (Dict String Access)
add_access first e = elim (used_sub e) [
  | none ↦ ok first
  | some v ↦ time_of e >>= λ ts. text_key v >>= λ sub. keep_access sub ts e first
]

unfoldable pub first_accesses : Dict String Access → List Entry → Result (Dict String Access)
first_accesses first [] = ok first
first_accesses first (e ∷ es) = add_access first e >>= λ first'. first_accesses first' es

-- `a or b`, where both may be missing.
abbrev or_else : Option Json → Option Json → Option Json
or_else none b = b
or_else (some v) b = if truthy v then some v else b

abbrev if_truthy : Option Json → Option Json
if_truthy none = none
if_truthy (some v) = if truthy v then some v else none

-- `kv_extract(raw, "userId")` of a value.
abbrev from_raw : Option Json → Result (Option Json)
from_raw none = ok none
from_raw (some (str line)) =
    ok (elim (kv_extract line "userId") [ none ↦ none | some s ↦ some (str s) ])
from_raw (some _) = raise type_error

-- The user of a login event: from its members, or from its raw line.
unfoldable pub user_of : Entry → Result (Option Json)
user_of e = elim (if_truthy (or_else (lookup "userId" e) (lookup "user_id" e))) [
  | none ↦ from_raw (lookup "_raw" e)
  | some v ↦ ok (some v)
]

unfoldable pub add_login : Dict String ℤ → Entry → Result (Dict String ℤ)
add_login logins e = user_of e >>= λ found. elim found [
  | none ↦ ok logins
  | some v ↦ time_of e >>= λ ts. text_key v >>= λ uid. ok (keep_earliest uid ts logins)
]

unfoldable pub first_logins : Dict String ℤ → List Entry → Result (Dict String ℤ)
first_logins logins [] = ok logins
first_logins logins (e ∷ es) = add_login logins e >>= λ logins'. first_logins logins' es

-- The login is known, and later than the access.
abbrev pub is_violation : Option ℤ → ℤ → Bool
is_violation none access = false
is_violation (some login) access = ltb_ℤ access login

-- No subject is a hard violation.
pub no_violation : Dict String ℤ → Dict String Access → Bool
no_violation logins [] = true
no_violation logins ((sub, access) ∷ first) =
    not (is_violation (lookup sub logins) access.ts_ns) && no_violation logins first

unfoldable pub verdict3 : List Entry → List Entry → Result Bool
verdict3 svc_logs kc_logs = do
  first ← first_accesses [] svc_logs
  logins ← first_logins [] kc_logs
  ok (no_violation logins first)

-- A subject whose first login is later than its first access, with the two times, and the service.
pub record Violation : Type 0 where
  pub sub : String
  pub login : ℤ
  pub access : Access

-- What the loop over the first accesses appends to either list for a subject.
abbrev pub violation_of : Dict String ℤ → String × Access → Option Violation
violation_of logins (sub, access) = elim (lookup sub logins) [
  | none ↦ none
  | some login ↦
      if ltb_ℤ access.ts_ns login
      then some (record { sub = sub; login = login; access = access })
      else none
]

abbrev pub without_login_of : Dict String ℤ → String × Access → Option (String × Access)
without_login_of logins (sub, access) = elim (lookup sub logins) [
  | none ↦ some (sub, access)
  | some login ↦ none
]

abbrev pub hard_violations : Dict String ℤ → Dict String Access → List Violation
hard_violations logins first = filter_map (violation_of logins) first

abbrev pub info_only : Dict String ℤ → Dict String Access → List (String × Access)
info_only logins first = filter_map (without_login_of logins) first

-- The numbers of subjects, and the two lists, each by the time of the access.
pub record LoginReport : Type 0 where
  pub subs : ℕ
  pub confirmed : ℕ
  pub without_login : List (String × Access)
  pub violations : List Violation

pub report3 : List Entry → List Entry → Result LoginReport
report3 svc_logs kc_logs = do
  first ← first_accesses [] svc_logs
  logins ← first_logins [] kc_logs
  ok (record {
    subs = length first;
    confirmed =
        length first - length (hard_violations logins first) - length (info_only logins first);
    without_login = sort_by (λ v. v.1.ts_ns) (info_only logins first);
    violations = sort_by (λ v. v.access.ts_ns) (hard_violations logins first);
  })

abbrev pub all_access_query : String
all_access_query = access_logs_of (user_facing_services <> ("|" <> downstream_services))

abbrev pub login_query : String
login_query = "{service=\"keycloak\"} |= \"type=\\\"LOGIN\\\"\""

unfoldable pub check3 : Source → ℤ → ℤ → Result Bool
check3 src start_ns end_ns = do
  svc_logs ← query_loki src all_access_query start_ns end_ns default_limit
  kc_logs ← query_loki src login_query start_ns end_ns default_limit
  verdict3 svc_logs kc_logs
