-- ===== src/Audit/Output/Total/Bypass.antt =====
-- audit/audit.py: `check1` ends, with all that it prints, where times and services can be shown.
use gekko.Base.{
  String, Bool, true, false, some, List, [], ◌∷◌, ◌≡◌, refl, ◌∙◌, ap, In, string_eq, pair_eq,
}
use gekko.Base.Dict.{Dict, lookup}
use gekko.Python.Errors
use gekko.Python.Errors.{Result, ok, get_or_raise, key_error}
use gekko.Python.Json.{ℤ, is_some}
use gekko.Audit.Keys.{access_logs_of, user_facing_services, downstream_services}
use gekko.Audit.Loki.{Entry, Source, query_loki, default_limit}
use gekko.Audit.Bypass.{by_jti, shared_keys, sorted}
use gekko.Audit.Bypass.Laws.{HasTextJtis, by_jti-total, sorted-In, shared_keys-In}
use gekko.Audit.Bypass.Reported.{is_some-found}
use gekko.Audit.Bypass.Last.{by_jti-LastNamed_iff}
use gekko.Audit.Output.{for_each, pure}
use gekko.Audit.Output.Laws.{outcome, outcome->>=, outcome-print_query}
use gekko.Audit.Output.Shown.{
  IsShowable, AreShowable, sighting-total, LastNamed-AllEntries, for_each-total,
}
use gekko.Audit.Output.Bypass.{print_sighting, print_shared, print_bypassed, print_check1}

print_sighting-total : (e : Entry) → IsShowable e → outcome (print_sighting e) ≡ ok tt
unfolding print_sighting
print_sighting-total e shown =
    let (s, seen, (at, told)) = sighting-total e shown in simp (outcome->>=, seen, told) refl

-- The dict of a log has entries of the log.
by_jti-IsShowable :
    (logs : List Entry) (d : Dict String Entry) (jti : String)
    → AreShowable logs
    → by_jti [] logs ≡ ok d
    → is_some (lookup jti d) ≡ true
    → (e : Entry) × (lookup jti d ≡ some e) × IsShowable e
by_jti-IsShowable logs d jti shown read has =
    let (e, at) = is_some-found (lookup jti d) has in
    (
      e,
      at,
      LastNamed-AllEntries IsShowable jti e logs shown
          ((by_jti-LastNamed_iff jti e d logs read).0 at),
    )

module _ (us_logs ds_logs : List Entry) (us ds : Dict String Entry) (us_shown : AreShowable us_logs)
    (ds_shown : AreShowable ds_logs) (us_ok : by_jti [] us_logs ≡ ok us)
    (ds_ok : by_jti [] ds_logs ≡ ok ds) where
  print_shared-total :
      (jti : String)
      → In jti (sorted (shared_keys us ds))
      → outcome (print_shared us ds jti) ≡ ok tt
  print_shared-total jti there =
      let (has_us, has_ds) =
        (shared_keys-In jti us ds).0 ((sorted-In jti (shared_keys us ds)).0 there) in
      let (ue, in_us, ue_shown) = by_jti-IsShowable us_logs us jti us_shown us_ok has_us in
      let (de, in_ds, de_shown) = by_jti-IsShowable ds_logs ds jti ds_shown ds_ok has_ds in
      simp (outcome->>=, in_us, in_ds, print_sighting-total ue ue_shown)
        (print_sighting-total de de_shown)

print_bypassed-total :
    (us ds : Dict String Entry) (jtis : List String)
    → ((jti : String) → In jti jtis → outcome (print_shared us ds jti) ≡ ok tt)
    → (b : Bool) × (outcome (print_bypassed us ds jtis) ≡ ok b)
print_bypassed-total us ds [] can = (true, refl)
print_bypassed-total us ds (jti ∷ jtis) can =
    let told = for_each-total (print_shared us ds) (jti ∷ jtis) can in
    (
      false,
      outcome->>= (for_each (print_shared us ds) (jti ∷ jtis)) (λ _. pure false)
          ∙ ap (λ r. Errors.◌>>=◌ r (λ _. ok false)) told,
    )

pub print_check1-total :
    (src : Source) (start_ns end_ns : ℤ) (us_logs ds_logs : List Entry)
    → query_loki src (access_logs_of user_facing_services) start_ns end_ns default_limit
      ≡ ok us_logs
    → query_loki src (access_logs_of downstream_services) start_ns end_ns default_limit ≡ ok ds_logs
    → HasTextJtis us_logs
    → HasTextJtis ds_logs
    → AreShowable us_logs
    → AreShowable ds_logs
    → (b : Bool) × (outcome (print_check1 src start_ns end_ns) ≡ ok b)
unfolding print_check1
print_check1-total src start_ns end_ns us_logs ds_logs us_read ds_read us_text ds_text us_shown
      ds_shown =
    let (us, us_ok) = by_jti-total [] us_logs us_text in
    let (ds, ds_ok) = by_jti-total [] ds_logs ds_text in
    let (b, told) =
      print_bypassed-total us ds (sorted (shared_keys us ds))
        (print_shared-total us_logs ds_logs us ds us_shown ds_shown us_ok ds_ok) in
    (b, simp (outcome->>=, outcome-print_query, us_read, ds_read, us_ok, ds_ok) told)
