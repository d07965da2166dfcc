-- ===== src/Audit/Bypass/Shown.antt =====
-- audit/audit.py: the findings that `check1` shows of two dicts.
use mathlib.Core.Path.{subst}
use mathlib.Core.List.{map}
use gekko.Python.Traverse.{traverse-In_iff, traverse-map, traverse-total}
use gekko.Base.{In, String, some, List, ◌≡◌, ◌↔◌, refl, sym, ap, arith, string_eq}
use gekko.Base.Dict.{Dict, lookup}
use gekko.Python.Errors.{ok, from_ok, get_or_raise, key_error}
use gekko.Audit.Loki.{Entry}
use gekko.Audit.Bypass.{sighting, SharedUse, shown_use, shown}

abbrev pub jtis_of : List SharedUse → List String
jtis_of fs = map (λ f. f.jti) fs

-- The finding shows the entries of its token in the two dicts.
pub record Shows (us ds : Dict String Entry) (f : SharedUse) : Type 0 where
  pub ue : Entry
  pub de : Entry
  pub in_us : lookup f.jti us ≡ some ue
  pub in_ds : lookup f.jti ds ≡ some de
  pub user_facing : sighting ue ≡ ok f.user_facing
  pub downstream : sighting de ≡ ok f.downstream

shown_use-Shows :
    (us ds : Dict String Entry) (j : String) (f : SharedUse)
    → shown_use us ds j ≡ ok f
    → (f.jti ≡ j) × Shows us ds f
unfolding shown_use
shown_use-Shows us ds j f h =
    let (ue, got_ue) = from_ok (get_or_raise key_error (lookup j us)) (λ e q. ground arith) in
    let (de, got_de) = from_ok (get_or_raise key_error (lookup j ds)) (λ e q. ground arith) in
    let (u, u_ok) = from_ok (sighting ue) (λ e q. ground arith) in
    let (d, d_ok) = from_ok (sighting de) (λ e q. ground arith) in
    let same : record { jti = j; user_facing = u; downstream = d } ≡ f = ground arith in
    let shows : Shows us ds (record { jti = j; user_facing = u; downstream = d }) = record {
      ue = ue;
      de = de;
      in_us = ground arith;
      in_ds = ground arith;
      user_facing = u_ok;
      downstream = d_ok;
    } in
    (ap (λ x. x.jti) (sym same), subst (Shows us ds) same shows)

Shows-shown_use :
    (us ds : Dict String Entry) (f : SharedUse) → Shows us ds f → shown_use us ds f.jti ≡ ok f
unfolding shown_use
Shows-shown_use us ds f shows =
    rw (shows.in_us, shows.in_ds, shows.user_facing, shows.downstream) refl

pub shown-In_iff :
    (us ds : Dict String Entry) (js : List String) (fs : List SharedUse)
    → shown us ds js ≡ ok fs
    → (f : SharedUse) → In f fs ↔ (In f.jti js × Shows us ds f)
shown-In_iff us ds js fs h f =
    let (to, from) = traverse-In_iff (shown_use us ds) js fs h f in
    (
      λ p.
          let (j, there, found) = to p in
          let (same, shows) = shown_use-Shows us ds j f found in
          (subst (λ k. In k js) (sym same) there, shows),
      λ (there, shows). from (f.jti, there, Shows-shown_use us ds f shows),
    )

pub shown-jtis_of :
    (us ds : Dict String Entry) (js : List String) (fs : List SharedUse)
    → shown us ds js ≡ ok fs
    → jtis_of fs ≡ js
shown-jtis_of us ds =
    traverse-map (shown_use us ds) (λ f. f.jti) (λ j f h. (shown_use-Shows us ds j f h).0)

pub shown-total :
    (us ds : Dict String Entry) (js : List String)
    → ((j : String) → In j js → (f : SharedUse) × (f.jti ≡ j) × Shows us ds f)
    → (fs : List SharedUse) × (shown us ds js ≡ ok fs)
shown-total us ds js can = traverse-total (shown_use us ds) js (λ j p.
    let (f, jti, shows) = can j p in
    (f, subst (λ k. shown_use us ds k ≡ ok f) jti (Shows-shown_use us ds f shows)))
