-- ===== src/Audit/Output/Login.antt =====
-- audit/audit.py: `check3` with what it prints.
use gekko.Base.{◌-◌, String, Bool, true, false, List, [], ◌∷◌, length}
use gekko.Base.Dict.{Dict}
use gekko.Python.Json.{ℤ}
use gekko.Python.Sorting.{sort_by}
use gekko.Audit.Clock.{ts_str}
use gekko.Audit.Loki.{Source, default_limit}
use gekko.Audit.Login.{
  Access, first_accesses, first_logins, Violation, hard_violations, info_only, all_access_query,
  login_query,
}
use gekko.Audit.Output.{
  Printing, ◌>>=◌, ◌>>◌, pure, lift, print, for_each, print_query, print_header, sub_counts,
  without_logins, without_login, violations, access_before_login, no_accesses, all_logged_in,
}

unfoldable pub print_without_login : String × Access → Printing (Unit {0})
print_without_login (sub, access) = do
  at ← lift (ts_str access.ts_ns)
  print (without_login sub at access.service)

unfoldable pub print_violation : Violation → Printing (Unit {0})
print_violation v = do
  login ← lift (ts_str v.login)
  at ← lift (ts_str v.access.ts_ns)
  print (access_before_login v.sub login at v.access.service)

unfoldable pub print_info_only : List (String × Access) → Printing (Unit {0})
print_info_only [] = pure tt
print_info_only (x ∷ xs) = do
  print (without_logins (length (x ∷ xs)))
  for_each print_without_login (sort_by (λ v. v.1.ts_ns) (x ∷ xs))

-- The last line of a check without violations.
unfoldable pub print_in_order : Dict String Access → List (String × Access) → Printing Bool
print_in_order [] _ = print no_accesses >> pure true
print_in_order (x ∷ xs) [] = print all_logged_in >> pure true
print_in_order (x ∷ xs) (y ∷ ys) = pure true

unfoldable pub print_violations :
    Dict String Access → List (String × Access) → List Violation → Printing Bool
print_violations first info [] = print_in_order first info
print_violations first info (v ∷ vs) = do
  print (violations (length (v ∷ vs)))
  for_each print_violation (sort_by (λ v. v.access.ts_ns) (v ∷ vs))
  pure false

unfoldable pub print_subs : Dict String ℤ → Dict String Access → Printing Bool
print_subs logins first = do
  let hard = hard_violations logins first
  let info = info_only logins first
  print (sub_counts (length first) (length first - length hard - length info))
  print_info_only info
  print_violations first info hard

unfoldable pub print_check3 : Source → ℤ → ℤ → Printing Bool
print_check3 src start_ns end_ns = do
  print_header 3
  svc_logs ← print_query src all_access_query start_ns end_ns default_limit
  kc_logs ← print_query src login_query start_ns end_ns default_limit
  first ← lift (first_accesses [] svc_logs)
  logins ← lift (first_logins [] kc_logs)
  print_subs logins first
