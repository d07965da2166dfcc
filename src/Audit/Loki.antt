-- ===== src/Audit/Loki.antt =====
-- audit/audit.py: `query_loki`, which turns the reply of Loki into log entries.
pub mod Reads
use gekko.Base.{ℕ, String, Option, none, some, List, [], ◌∷◌, ◌++◌, string_eq, ◌≡◌}
use gekko.Base.Dict.{Dict, lookup}
use gekko.Python.Errors.{
  Result, ok, raise, ◌>>=◌, attribute_error, value_error, key_error, outside_model, get_or_raise,
}
use gekko.Python.Json.{ℤ, pos, Json, str, int, obj, entries}
use gekko.Python.Integers.{int_of_text}

-- A log entry is a dict: the members of a JSON line, or the raw line under `_raw`.
abbrev pub Entry : Type 0
Entry = Dict String Json

-- `e["_ts_ns"]`; a time that is no integer is left out.
abbrev as_time : Json → Result ℤ
as_time (int n) = ok n
as_time _ = raise outside_model

abbrev pub time_of : Entry → Result ℤ
time_of e = get_or_raise key_error (lookup "_ts_ns" e) >>= as_time

-- One element of `data.result` in Loki's reply: the label `service`, and pairs of a time stamp
-- in nanoseconds and a line.
pub record Stream : Type 0 where
  pub service : Option String
  pub values : List (String × String)

-- Loki and `json.loads`. A query has a text, the two ends of its window and a limit; `none` is
-- a `RequestException`. A line that is no JSON text has no value.
pub record Source : Type 0 where
  pub query_range : String → ℤ → ℤ → ℕ → Option (List Stream)
  pub loads : String → Option Json

-- `d.setdefault(key, value)`
abbrev pub set_default : String → Json → Entry → Entry
set_default k v d = elim (lookup k d) [ none ↦ d ++ (k, v) ∷ [] | some _ ↦ d ]

-- `labels.get("service", "")`
abbrev service_label : Option String → String
service_label none = ""
service_label (some s) = s

module _ (src : Source) where
  -- The entry before its defaults. A JSON value that is no object lacks `setdefault`.
  unfoldable pub parsed : String → Result Entry
  parsed line = elim (src.loads line) [
    | none ↦ ok (("_raw", str line) ∷ [])
    | some v ↦ elim v [ obj fs ↦ ok (entries fs) | _ ↦ raise attribute_error ]
  ]

  unfoldable pub read_value : Option String → String × String → Result Entry
  read_value service (ts_ns, line) = do
    entry ← parsed line
    ts ← get_or_raise value_error (int_of_text ts_ns)
    ok (
        set_default "_service" (str (service_label service))
          (set_default "_ts_ns" (int (pos ts)) entry))

  unfoldable pub read_values : Option String → List (String × String) → Result (List Entry)
  read_values service [] = ok []
  read_values service (v ∷ vs) = do
    entry ← read_value service v
    rest ← read_values service vs
    ok (entry ∷ rest)

  unfoldable pub read_streams : List Stream → Result (List Entry)
  read_streams [] = ok []
  read_streams (s ∷ ss) = do
    here ← read_values s.service s.values
    rest ← read_streams ss
    ok (here ++ rest)

  -- A failed query counts as one that found nothing.
  unfoldable pub query_loki : String → ℤ → ℤ → ℕ → Result (List Entry)
  query_loki logql start_ns end_ns limit = elim (src.query_range logql start_ns end_ns limit) [
    | none ↦ ok []
    | some streams ↦ read_streams streams
  ]

-- The default of the parameter `limit`.
abbrev pub default_limit : ℕ
default_limit = 5000

-- Every query fails.
abbrev pub IsDown : Source → Type 0
IsDown src = (q : String) (a b : ℤ) (limit : ℕ) → src.query_range q a b limit ≡ none

pub query_loki_down :
    (src : Source)
    → IsDown src
    → (q : String) (a b : ℤ) (limit : ℕ) → query_loki src q a b limit ≡ ok []
unfolding query_loki
query_loki_down src down q a b limit = rw (down q a b limit, query_loki)
