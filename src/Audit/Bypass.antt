-- ===== src/Audit/Bypass.antt =====
-- audit/audit.py: `check1`, which looks for tokens that two layers share.
pub mod Ascending
pub mod Last
pub mod Shown
pub mod Reported
pub mod Laws
use Prim.Native.Nat.{Ordering}
use Prim.Native.String
use gekko.Base.{
  is_nil, length, ℕ, String, Bool, true, false, Option, none, some, List, [], ◌∷◌, ◌==◌, ◌||◌, not,
  if◌then◌else◌, string_eq,
}
use gekko.Base.Dict.{Dict, lookup, insert}
use gekko.Python.Errors.{Result, ok, raise, ◌>>=◌, key_error, get_or_raise}
use gekko.Python.Json.{ℤ, Json, null, str, is_some, or_default}
use gekko.Python.Traverse.{traverse}
use gekko.Audit.Keys.{text_key, user_facing_services, downstream_services, access_logs_of}
use gekko.Audit.Loki.{Entry, Source, time_of, query_loki, default_limit}

-- `e.get("jti") not in (None, "-", "")`
abbrev pub is_jti : Json → Bool
is_jti null = false
is_jti (str s) = not (s == "-" || s == "")
is_jti _ = true

abbrev pub usable_jti : Entry → Option Json
usable_jti e = elim (lookup "jti" e) [ none ↦ none | some v ↦ if is_jti v then some v else none ]

unfoldable pub add_jti : Dict String Entry → Entry → Result (Dict String Entry)
add_jti d e = elim (usable_jti e) [
  | none ↦ ok d
  | some v ↦ text_key v >>= λ jti. ok (insert jti e d)
]

-- `{e["jti"]: e for e in logs if …}`
unfoldable pub by_jti : Dict String Entry → List Entry → Result (Dict String Entry)
by_jti d [] = ok d
by_jti d (e ∷ es) = add_jti d e >>= λ d'. by_jti d' es

-- The keys of the first dict that are keys of the second.
unfoldable pub shared_keys : Dict String Entry → Dict String Entry → List String
shared_keys [] ds = []
shared_keys ((jti, _) ∷ us) ds =
    let rest = shared_keys us ds in if is_some (lookup jti ds) then jti ∷ rest else rest

abbrev le_text : String → String → Bool
le_text s t = elim (String.compare s t) [ Ordering.gt ↦ false | _ ↦ true ]

unfoldable pub insert_sorted : String → List String → List String
insert_sorted s [] = s ∷ []
insert_sorted s (t ∷ ts) = if le_text s t then s ∷ t ∷ ts else t ∷ insert_sorted s ts

unfoldable pub sorted : List String → List String
sorted [] = []
sorted (s ∷ ss) = insert_sorted s (sorted ss)

-- The shared identifiers, as the report lists them.
unfoldable pub bypassed : List Entry → List Entry → Result (List String)
bypassed user_logs ds_logs = do
  user_jtis ← by_jti [] user_logs
  ds_jtis ← by_jti [] ds_logs
  ok (sorted (shared_keys user_jtis ds_jtis))

-- What the report shows of a use: the service, the subject and the time.
pub record Sighting : Type 0 where
  pub service : Json
  pub sub : Json
  pub ts_ns : ℤ

unfoldable pub sighting : Entry → Result Sighting
sighting e = do
  service ← get_or_raise key_error (lookup "_service" e)
  ts ← time_of e
  ok (record { service = service; sub = or_default (str "-") (lookup "sub" e); ts_ns = ts })

-- A shared token, with a use in either layer.
pub record SharedUse : Type 0 where
  pub jti : String
  pub user_facing : Sighting
  pub downstream : Sighting

pub shown_use : Dict String Entry → Dict String Entry → String → Result SharedUse
shown_use us ds jti = do
  ue ← get_or_raise key_error (lookup jti us)
  de ← get_or_raise key_error (lookup jti ds)
  user_facing ← sighting ue
  downstream ← sighting de
  ok (record { jti = jti; user_facing = user_facing; downstream = downstream })

abbrev pub shown : Dict String Entry → Dict String Entry → List String → Result (List SharedUse)
shown us ds jtis = traverse (shown_use us ds) jtis

-- The numbers of tokens in the two layers, and those that they share.
pub record SharedReport : Type 0 where
  pub user_jtis : ℕ
  pub ds_jtis : ℕ
  pub findings : List SharedUse

pub report1 : List Entry → List Entry → Result SharedReport
report1 user_logs ds_logs = do
  us ← by_jti [] user_logs
  ds ← by_jti [] ds_logs
  findings ← shown us ds (sorted (shared_keys us ds))
  ok (record { user_jtis = length us; ds_jtis = length ds; findings = findings })

unfoldable pub check1 : Source → ℤ → ℤ → Result Bool
check1 src start_ns end_ns = do
  user_logs ← query_loki src (access_logs_of user_facing_services) start_ns end_ns default_limit
  ds_logs ← query_loki src (access_logs_of downstream_services) start_ns end_ns default_limit
  shared ← bypassed user_logs ds_logs
  ok (is_nil shared)
