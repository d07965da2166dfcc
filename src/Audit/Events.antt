-- ===== src/Audit/Events.antt =====
-- audit/audit.py: `kv_extract` and `parse_token_exchange_events`, the reading of Keycloak's events.
pub mod Extract
pub mod Tests
pub mod Laws
pub mod Contents
use Prim.Native.String.{[], ◌∷◌}
use gekko.Base.{
  ℕ, Char, code, String, Bool, true, false, Option, none, some, List, [], ◌∷◌, ◌==◌, ◌||◌,
  if◌then◌else◌, string_eq, pair_eq, ℕ_discrete,
}
use gekko.Base.Dict.{Dict, lookup, insert}
use gekko.Python.Errors.{Result, ok, raise, ◌>>=◌, type_error, key_error, get_or_raise}
use gekko.Python.Json.{Json, null, str}
use gekko.Python.Text.{nat_eq, ◌<>◌}
use gekko.Audit.Loki.{Entry}

-- The text behind `prefix`, if that begins the text.
pub strip_prefix : String → String → Option String
strip_prefix [] s = some s
strip_prefix (d ∷ t) [] = none
strip_prefix (d ∷ t) (c ∷ s) = if code d == code c then strip_prefix t s else none

-- The text behind the first place at which `t` stands.
find_after : String → String → Option String
find_after t [] = strip_prefix t []
find_after t (c ∷ s) =
    let later = find_after t s in
    elim (strip_prefix t (c ∷ s)) [ some rest ↦ some rest | none ↦ later ]

pub ends_value : ℕ → Bool
ends_value c = c == b'"' || c == b','

-- `[^",]*`
take_value : String → String
take_value [] = []
take_value (c ∷ s) = let rest = take_value s in if ends_value (code c) then [] else c ∷ rest

-- `"?([^",]*)"?`: the group, behind an optional quote. What follows cannot fail to match.
quoted_value : String → String
quoted_value [] = []
quoted_value (c ∷ s) = if code c == b'"' then take_value s else take_value (c ∷ s)

-- `m.group(1) or None`
abbrev nonempty : String → Option String
nonempty [] = none
nonempty (c ∷ s) = some (c ∷ s)

-- The value of the first place at which the key stands in front of `=`.
pub kv_extract : String → String → Option String
kv_extract line key = elim (find_after (key <> "=") line) [
  | none ↦ none
  | some rest ↦ nonempty (quoted_value rest)
]

-- What Keycloak recorded of an exchange.
pub record Issue : Type 0 where
  pub sub : Option String
  pub ts_ns : Json

abbrev pub Issues : Type 0
Issues = Dict (String × String) Issue

-- The two parts of the key, where both are there.
abbrev both : Option String → Option String → Option (String × String)
both (some token_id) (some audience) = some (token_id, audience)
both _ _ = none

abbrev pub event_key : String → Option (String × String)
event_key raw = both (kv_extract raw "token_id") (kv_extract raw "audience")

-- An event with its raw line: it is skipped without a key, and replaces what the key had before.
pub record_event : Issues → Entry → String → Result Issues
record_event records e raw = elim (event_key raw) [
  | none ↦ ok records
  | some key ↦ get_or_raise key_error (lookup "_ts_ns" e) >>= λ ts.
      ok (insert key (record { sub = kv_extract raw "userId"; ts_ns = ts }) records)
]

-- One round of the loop: an entry with no raw line is skipped.
pub add_event : Issues → Entry → Result Issues
add_event records e = elim (lookup "_raw" e) [
  | none ↦ ok records
  | some raw ↦ elim raw [
    | null ↦ ok records
    | str line ↦ record_event records e line
    | _ ↦ raise type_error
  ]
]

unfoldable pub add_events : Issues → List Entry → Result Issues
add_events records [] = ok records
add_events records (e ∷ es) = do records' ← add_event records e; add_events records' es

unfoldable pub parse_token_exchange_events : List Entry → Result Issues
parse_token_exchange_events kc_logs = add_events [] kc_logs
