-- ===== src/Audit/Output/Refinement.antt =====
-- audit/audit.py: the checks that print refine those that only judge.
use gekko.Base.{is_nil, ◌&&◌, ◌*◌, ℕ, String, Bool, true, false, List, [], ◌∷◌, ◌≡◌, sym, ◌∙◌, ap}
use gekko.Base.Dict.{Dict}
use gekko.Python.Errors.{ok, >>=-eq-ok}
use gekko.Python.Json.{ℤ}
use gekko.Audit.Loki.{Entry, Source, query_loki, default_limit}
use gekko.Audit.Keys.{user_facing_services, downstream_services, access_logs_of}
use gekko.Audit.Bypass.{by_jti, shared_keys, sorted, bypassed, check1}
use gekko.Python.Integers.{minus}
use gekko.Python.Sorting.{sort_by}
use gekko.Audit.Events.{Issues, parse_token_exchange_events}
use gekko.Audit.Issuance.{
  TokenUse, first_uses, reported, is_no_record, is_sub_mismatch, all_backed, verdict2, access_query,
  event_query, check2,
}
use gekko.Audit.Issuance.Findings.{all_backed-is_nil}
use gekko.Audit.Login.{
  Access, Violation, first_accesses, first_logins, hard_violations, info_only, no_violation,
  verdict3, all_access_query, login_query, check3,
}
use gekko.Audit.Login.Counts.{no_violation-is_nil}
use gekko.Audit.Output.Issuance.{
  print_no_records, print_mismatches, print_backed, print_uses, print_check2,
}
use gekko.Audit.Output.Login.{
  print_info_only, print_in_order, print_violation, print_violations, print_subs, print_check3,
}
use gekko.Audit.Output.{Printing, ◌>>=◌, pure, for_each}
use gekko.Audit.Output.Laws.{outcome, outcome->>=, outcome-print_query}
use gekko.Audit.Output.Bypass.{print_bypassed, print_shared, print_check1}

-- A computation that returns a value has a first part that returns, and a rest.
pub >>=-returns :
    {A B : Type 0} (m : Printing A) (k : A → Printing B) (b : B)
    → outcome (m >>= k) ≡ ok b
    → (a : A) × (outcome m ≡ ok a) × (outcome (k a) ≡ ok b)
>>=-returns m k b h = >>=-eq-ok (outcome m) (λ a. outcome (k a)) (sym (outcome->>= m k) ∙ h)

print_bypassed-returns :
    (us ds : Dict String Entry) (jtis : List String) (b : Bool)
    → outcome (print_bypassed us ds jtis) ≡ ok b
    → ok (is_nil jtis) ≡ ok b
print_bypassed-returns us ds [] b h = h
print_bypassed-returns us ds (jti ∷ jtis) b h =
    let (_, _, last) =
      >>=-returns (for_each (print_shared us ds) (jti ∷ jtis)) (λ _. pure false) b h in
    last

pub print_check1-check1 :
    (src : Source) (start_ns end_ns : ℤ) (b : Bool)
    → outcome (print_check1 src start_ns end_ns) ≡ ok b
    → check1 src start_ns end_ns ≡ ok b
unfolding print_check1 check1 bypassed
print_check1-check1 src start_ns end_ns b h =
    let (us_logs, us_read, h1) =
      >>=-eq-ok (query_loki src (access_logs_of user_facing_services) start_ns end_ns default_limit)
        _ (simp (outcome->>=, outcome-print_query) at h) in
    let (ds_logs, ds_read, h2) =
      >>=-eq-ok (query_loki src (access_logs_of downstream_services) start_ns end_ns default_limit)
        _ h1 in
    let (us, us_ok, h3) = >>=-eq-ok (by_jti [] us_logs) _ h2 in
    let (ds, ds_ok, h4) = >>=-eq-ok (by_jti [] ds_logs) _ h3 in
    rw (us_read, ds_read, us_ok, ds_ok)
      (print_bypassed-returns us ds (sorted (shared_keys us ds)) b h4)

print_backed-returns :
    (seen : Dict TokenUse Entry) (missing mismatches : List (TokenUse × Entry)) (b : Bool)
    → outcome (print_backed seen missing mismatches) ≡ ok b
    → ok (is_nil missing && is_nil mismatches) ≡ ok b
unfolding print_backed
print_backed-returns seen (u ∷ us) ws b h = h
print_backed-returns seen [] (u ∷ us) b h = h
print_backed-returns [] [] [] b h = h
print_backed-returns (first ∷ seen) [] [] b h = h

print_uses-returns :
    (exchanged : Issues) (seen : Dict TokenUse Entry) (b : Bool)
    → outcome (print_uses exchanged seen) ≡ ok b
    → ok (all_backed exchanged seen) ≡ ok b
unfolding print_uses
print_uses-returns exchanged seen b h =
    let missing = reported is_no_record exchanged seen in
    let mismatches = reported is_sub_mismatch exchanged seen in
    let (_, _, h1) = >>=-returns (print_no_records exchanged missing) _ b h in
    let (_, _, h2) = >>=-returns (print_mismatches exchanged mismatches) _ b h1 in
    ap (λ x. ok x) (all_backed-is_nil exchanged seen)
    ∙ print_backed-returns seen missing mismatches b h2

pub print_check2-check2 :
    (lookback_seconds : ℕ) (src : Source) (start_ns end_ns : ℤ) (b : Bool)
    → outcome (print_check2 lookback_seconds src start_ns end_ns) ≡ ok b
    → check2 lookback_seconds src start_ns end_ns ≡ ok b
unfolding print_check2 check2 verdict2
print_check2-check2 lookback src start_ns end_ns b h =
    let before = minus start_ns (lookback * 1000000000) in
    let (ds_logs, ds_read, h1) =
      >>=-eq-ok (query_loki src access_query start_ns end_ns default_limit) _
        (simp (outcome->>=, outcome-print_query) at h) in
    let (kc_logs, kc_read, h2) =
      >>=-eq-ok (query_loki src event_query before end_ns default_limit) _ h1 in
    let (exchanged, parsed, h3) = >>=-eq-ok (parse_token_exchange_events kc_logs) _ h2 in
    let (seen, collected, h4) = >>=-eq-ok (first_uses [] ds_logs) _ h3 in
    rw (ds_read, kc_read, parsed, collected) (print_uses-returns exchanged seen b h4)

print_in_order-returns :
    (first : Dict String Access) (info : List (String × Access)) (b : Bool)
    → outcome (print_in_order first info) ≡ ok b
    → ok true ≡ ok b
unfolding print_in_order
print_in_order-returns [] info b h = h
print_in_order-returns (x ∷ xs) [] b h = h
print_in_order-returns (x ∷ xs) (y ∷ ys) b h = h

print_violations-returns :
    (first : Dict String Access) (info : List (String × Access)) (hard : List Violation) (b : Bool)
    → outcome (print_violations first info hard) ≡ ok b
    → ok (is_nil hard) ≡ ok b
unfolding print_violations
print_violations-returns first info [] b h = print_in_order-returns first info b h
print_violations-returns first info (v ∷ vs) b h =
    let (_, _, last) =
      >>=-returns (for_each print_violation (sort_by (λ w. w.access.ts_ns) (v ∷ vs)))
        (λ _. pure false) b h in
    last

print_subs-returns :
    (logins : Dict String ℤ) (first : Dict String Access) (b : Bool)
    → outcome (print_subs logins first) ≡ ok b
    → ok (no_violation logins first) ≡ ok b
unfolding print_subs
print_subs-returns logins first b h =
    let hard = hard_violations logins first in
    let info = info_only logins first in
    let (_, _, h1) = >>=-returns (print_info_only info) _ b h in
    ap (λ x. ok x) (no_violation-is_nil logins first)
    ∙ print_violations-returns first info hard b h1

pub print_check3-check3 :
    (src : Source) (start_ns end_ns : ℤ) (b : Bool)
    → outcome (print_check3 src start_ns end_ns) ≡ ok b
    → check3 src start_ns end_ns ≡ ok b
unfolding print_check3 check3 verdict3
print_check3-check3 src start_ns end_ns b h =
    let (svc_logs, svc_read, h1) =
      >>=-eq-ok (query_loki src all_access_query start_ns end_ns default_limit) _
        (simp (outcome->>=, outcome-print_query) at h) in
    let (kc_logs, kc_read, h2) =
      >>=-eq-ok (query_loki src login_query start_ns end_ns default_limit) _ h1 in
    let (first, kept, h3) = >>=-eq-ok (first_accesses [] svc_logs) _ h2 in
    let (logins, known, h4) = >>=-eq-ok (first_logins [] kc_logs) _ h3 in
    rw (svc_read, kc_read, kept, known) (print_subs-returns logins first b h4)
