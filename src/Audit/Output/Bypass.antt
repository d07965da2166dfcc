-- ===== src/Audit/Output/Bypass.antt =====
-- audit/audit.py: `check1` with what it prints.
use gekko.Base.{String, Bool, true, false, List, [], ◌∷◌, length, string_eq}
use gekko.Base.Dict.{Dict, lookup}
use gekko.Python.Errors.{key_error, get_or_raise}
use gekko.Python.Json.{ℤ}
use gekko.Audit.Clock.{ts_str}
use gekko.Audit.Keys.{user_facing_services, downstream_services, access_logs_of}
use gekko.Audit.Loki.{Entry, Source, default_limit}
use gekko.Audit.Bypass.{by_jti, shared_keys, sorted, sighting}
use gekko.Audit.Output.{
  Printing, ◌>>=◌, ◌>>◌, pure, lift, print, for_each, print_query, print_header, jti_counts,
  bypasses, shared_jti, sighted, no_bypass,
}

-- The service, the subject and the time of an entry.
unfoldable pub print_sighting : Entry → Printing (Unit {0})
print_sighting e = do
  seen ← lift (sighting e)
  at ← lift (ts_str seen.ts_ns)
  print (sighted seen.service seen.sub at)

-- `ue, de = user_jtis[jti], ds_jtis[jti]`, and the three lines of a shared token.
abbrev pub print_shared : Dict String Entry → Dict String Entry → String → Printing (Unit {0})
print_shared user_jtis ds_jtis jti = do
  ue ← lift (get_or_raise key_error (lookup jti user_jtis))
  de ← lift (get_or_raise key_error (lookup jti ds_jtis))
  print (shared_jti jti)
  print_sighting ue
  print_sighting de

abbrev pub print_bypassed : Dict String Entry → Dict String Entry → List String → Printing Bool
print_bypassed user_jtis ds_jtis [] = print no_bypass >> pure true
print_bypassed user_jtis ds_jtis (jti ∷ jtis) = do
  print (bypasses (length (jti ∷ jtis)))
  for_each (print_shared user_jtis ds_jtis) (jti ∷ jtis)
  pure false

unfoldable pub print_check1 : Source → ℤ → ℤ → Printing Bool
print_check1 src start_ns end_ns = do
  print_header 1
  user_logs ← print_query src (access_logs_of user_facing_services) start_ns end_ns default_limit
  ds_logs ← print_query src (access_logs_of downstream_services) start_ns end_ns default_limit
  user_jtis ← lift (by_jti [] user_logs)
  ds_jtis ← lift (by_jti [] ds_logs)
  print (jti_counts (length user_jtis) (length ds_jtis))
  print_bypassed user_jtis ds_jtis (sorted (shared_keys user_jtis ds_jtis))
