-- ===== src/Audit/Bypass/Reported.antt =====
-- audit/audit.py: what the report of `check1` shows.
use mathlib.Core.Path.{subst}
use gekko.Base.{
  In, length, String, true, Option, none, some, List, [], ◌∷◌, ◌≡◌, ◌↔◌, inl, inr, refl, sym, ap,
  arith, string_eq,
}
use gekko.Base.Dict.{Dict, lookup}
use gekko.Python.Errors.{ok}
use gekko.Python.Json.{is_some}
use gekko.Audit.Loki.{Entry}
use gekko.Audit.Latest.{LastNamed}
use gekko.Audit.Bypass.{
  by_jti, shared_keys, sorted, bypassed, Sighting, sighting, SharedUse, SharedReport, report1,
}
use gekko.Audit.Bypass.Laws.{HasTextJtis, by_jti-total, sorted-In, shared_keys-In}
use gekko.Audit.Bypass.Last.{Names, by_jti-LastNamed_iff}
use gekko.Audit.Bypass.Shown.{jtis_of, Shows, shown-In_iff, shown-jtis_of, shown-total}

-- Every entry has a service and a time.
abbrev pub HasSightings : List Entry → Type 0
HasSightings [] = Unit
HasSightings (e ∷ es) = ((s : Sighting) × (sighting e ≡ ok s)) × HasSightings es

LastNamed-sighting :
    (j : String) (e : Entry) (es : List Entry)
    → HasSightings es
    → LastNamed Names j e es
    → (s : Sighting) × (sighting e ≡ ok s)
LastNamed-sighting j e [] seen never = absurd never
LastNamed-sighting j e (x ∷ es) (now, seen) (inl later) = LastNamed-sighting j e es seen later
LastNamed-sighting j e (x ∷ es) ((s, now), seen) (inr ((_, same), _)) =
    (s, subst (λ y. sighting y ≡ ok s) (sym same) now)

-- The finding shows the last use of its token in each of the two logs.
pub record ShowsLast (us ds : List Entry) (f : SharedUse) : Type 0 where
  pub ue : Entry
  pub de : Entry
  pub last_ue : LastNamed Names f.jti ue us
  pub last_de : LastNamed Names f.jti de ds
  pub user_facing : sighting ue ≡ ok f.user_facing
  pub downstream : sighting de ≡ ok f.downstream

pub is_some-found : (o : Option Entry) → is_some o ≡ true → (e : Entry) × (o ≡ some e)
is_some-found none h = absurd (cc h)
is_some-found (some e) h = (e, refl)

module _ (us_logs ds_logs : List Entry) (us ds : Dict String Entry)
    (us_ok : by_jti [] us_logs ≡ ok us) (ds_ok : by_jti [] ds_logs ≡ ok ds) where
  Shows-ShowsLast : (f : SharedUse) → Shows us ds f → ShowsLast us_logs ds_logs f
  Shows-ShowsLast f s = record {
    ue = s.ue;
    de = s.de;
    last_ue = (by_jti-LastNamed_iff f.jti s.ue us us_logs us_ok).0 s.in_us;
    last_de = (by_jti-LastNamed_iff f.jti s.de ds ds_logs ds_ok).0 s.in_ds;
    user_facing = s.user_facing;
    downstream = s.downstream;
  }

  ShowsLast-Shows : (f : SharedUse) → ShowsLast us_logs ds_logs f → Shows us ds f
  ShowsLast-Shows f s = record {
    ue = s.ue;
    de = s.de;
    in_us = (by_jti-LastNamed_iff f.jti s.ue us us_logs us_ok).1 s.last_ue;
    in_ds = (by_jti-LastNamed_iff f.jti s.de ds ds_logs ds_ok).1 s.last_de;
    user_facing = s.user_facing;
    downstream = s.downstream;
  }

  In-Shows :
      HasSightings us_logs
      → HasSightings ds_logs
      → (j : String) → In j (sorted (shared_keys us ds))
      → (f : SharedUse) × (f.jti ≡ j) × Shows us ds f
  In-Shows seen_us seen_ds j there =
      let (has_us, has_ds) =
        (shared_keys-In j us ds).0 ((sorted-In j (shared_keys us ds)).0 there) in
      let (ue, in_us) = is_some-found (lookup j us) has_us in
      let (de, in_ds) = is_some-found (lookup j ds) has_ds in
      let (u, u_ok) =
        LastNamed-sighting j ue us_logs seen_us
          ((by_jti-LastNamed_iff j ue us us_logs us_ok).0 in_us) in
      let (d, d_ok) =
        LastNamed-sighting j de ds_logs seen_ds
          ((by_jti-LastNamed_iff j de ds ds_logs ds_ok).0 in_ds) in
      (
        record { jti = j; user_facing = u; downstream = d },
        refl,
        record {
          ue = ue;
          de = de;
          in_us = in_us;
          in_ds = in_ds;
          user_facing = u_ok;
          downstream = d_ok;
        },
      )

  Shows-In : (f : SharedUse) → Shows us ds f → In f.jti (sorted (shared_keys us ds))
  Shows-In f s =
      (sorted-In f.jti (shared_keys us ds)).1
        ((shared_keys-In f.jti us ds).1 (ground (arith, s.in_us), ground (arith, s.in_ds)))

-- For logs whose token identifiers are texts or null, and whose entries have services and times,
-- the report of the first check lists the shared tokens in the order of `bypassed`. A finding is
-- listed exactly when it shows the last use of its token in either layer.
pub report1-lists :
    (user_logs ds_logs : List Entry)
    → HasTextJtis user_logs
    → HasTextJtis ds_logs
    → HasSightings user_logs
    → HasSightings ds_logs
    → (report : SharedReport) × (report1 user_logs ds_logs ≡ ok report)
      × (bypassed user_logs ds_logs ≡ ok (jtis_of report.findings))
      × ((f : SharedUse) → In f report.findings ↔ ShowsLast user_logs ds_logs f)
unfolding report1 bypassed
report1-lists us_logs ds_logs text_us text_ds seen_us seen_ds =
    let (us, us_ok) = by_jti-total [] us_logs text_us in
    let (ds, ds_ok) = by_jti-total [] ds_logs text_ds in
    let (fs, listed) =
      shown-total us ds (sorted (shared_keys us ds))
        (In-Shows us_logs ds_logs us ds us_ok ds_ok seen_us seen_ds) in
    (
      record { user_jtis = length us; ds_jtis = length ds; findings = fs },
      rw (us_ok, ds_ok, listed) refl,
      rw (us_ok, ds_ok)
          (ap (λ js. ok js) (sym (shown-jtis_of us ds (sorted (shared_keys us ds)) fs listed))),
      λ f.
          let (to, from) = shown-In_iff us ds (sorted (shared_keys us ds)) fs listed f in
          (
            λ p. Shows-ShowsLast us_logs ds_logs us ds us_ok ds_ok f (to p).1,
            λ s.
                let shows = ShowsLast-Shows us_logs ds_logs us ds us_ok ds_ok f s in
                from (Shows-In us_logs ds_logs us ds us_ok ds_ok f shows, shows),
          ),
    )
