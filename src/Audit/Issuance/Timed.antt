-- ===== src/Audit/Issuance/Timed.antt =====
-- audit/audit.py: the uses that `check2` reports, by their time.
use mathlib.Core.Path.{subst}
use gekko.Base.{List, In, ◌≡◌, ◌↔◌, ◌∙◌, refl, ap, sym, length, string_eq, pair_eq}
use gekko.Python.Errors.{Result, ok, ◌>>=◌, >>=-eq-ok, ok-injective}
use gekko.Python.Json.{ℤ}
use gekko.Python.Traverse.{traverse, traverse-In_iff, traverse-total, length-traverse}
use gekko.Python.Sorting.{sort_by, Sorted, sort_by-Sorted, sort_by-In_iff, length-sort_by}
use gekko.Audit.Loki.{Entry, time_of}
use gekko.Audit.Issuance.{TokenUse, TimedUse, with_time, recorded_sub, by_time}
use gekko.Audit.Events.{Issues}
use gekko.Base.Dict.{lookup}

module _ (exchanged : Issues) where
  abbrev use_at : TokenUse → Entry → ℤ → Result TimedUse
  use_at key e t = ok (record {
    key = key;
    entry = e;
    ts_ns = t;
    exchanged_sub = recorded_sub (lookup key exchanged);
  })

  with_time_iff :
      (key : TokenUse) (e : Entry) (u : TimedUse)
      → (with_time exchanged (key, e) ≡ ok u) ↔ (
          (u.key ≡ key)
          × (u.entry ≡ e)
          × (time_of e ≡ ok u.ts_ns)
          × (u.exchanged_sub ≡ recorded_sub (lookup key exchanged)))
  with_time_iff key e u = (
    λ h.
        let (ts, timed, same) = >>=-eq-ok (time_of e) (use_at key e) h in
        let parts = sym (ok-injective same) in
        (
          ap (λ x. x.key) parts,
          ap (λ x. x.entry) parts,
          timed ∙ ap (λ x. ok x.ts_ns) (sym parts),
          ap (λ x. x.exchanged_sub) parts,
        ),
    λ (k, x, timed, recorded). ap (λ r. r >>= use_at key e) timed ∙ (λ i. ok (record {
      key = sym k i;
      entry = sym x i;
      ts_ns = u.ts_ns;
      exchanged_sub = sym recorded i;
    })),
  )

  -- The list before it is sorted.
  parts :
      (uses : List (TokenUse × Entry)) (us : List TimedUse)
      → by_time exchanged uses ≡ ok us
      → (ts : List TimedUse) × (traverse (with_time exchanged) uses ≡ ok ts)
        × (sort_by (λ u. u.ts_ns) ts ≡ us)
  unfolding by_time
  parts uses us h =
      let (ts, timed, same) =
        >>=-eq-ok (traverse (with_time exchanged) uses) (λ ts. ok (sort_by (λ u. u.ts_ns) ts)) h in
      (ts, timed, ok-injective same)

  pub by_time-Sorted :
      (uses : List (TokenUse × Entry)) (us : List TimedUse)
      → by_time exchanged uses ≡ ok us
      → Sorted (λ u. u.ts_ns) us
  by_time-Sorted uses us h =
      let (ts, _, same) = parts uses us h in
      subst (Sorted (λ u. u.ts_ns)) same (sort_by-Sorted (λ u. u.ts_ns) ts)

  pub length-by_time :
      (uses : List (TokenUse × Entry)) (us : List TimedUse)
      → by_time exchanged uses ≡ ok us
      → length us ≡ length uses
  length-by_time uses us h =
      let (ts, timed, same) = parts uses us h in
      ap length (sym same)
      ∙ length-sort_by (λ u. u.ts_ns) ts
      ∙ length-traverse (with_time exchanged) uses ts timed

  pub by_time-In_iff :
      (uses : List (TokenUse × Entry)) (us : List TimedUse)
      → by_time exchanged uses ≡ ok us
      → (u : TimedUse)
      → In u us ↔ (
          In (u.key, u.entry) uses
          × (time_of u.entry ≡ ok u.ts_ns)
          × (u.exchanged_sub ≡ recorded_sub (lookup u.key exchanged)))
  by_time-In_iff uses us h u =
      let (ts, timed, same) = parts uses us h in
      let (to, from) = sort_by-In_iff (λ v. v.ts_ns) u ts in
      let (seen, see) = traverse-In_iff (with_time exchanged) uses ts timed u in
      (
        λ p.
            let ((key, e), there, q) = seen (to (subst (In u) (sym same) p)) in
            let (k, x, t, r) = (with_time_iff key e u).0 q in
            (
              subst (λ y. In y uses) (λ i. (sym k i, sym x i)) there,
              subst (λ y. time_of y ≡ ok u.ts_ns) (sym x) t,
              r ∙ ap (λ y. recorded_sub (lookup y exchanged)) (sym k),
            ),
        λ (there, t, r). subst (In u) same (
            from (
              see ((u.key, u.entry), there, (with_time_iff u.key u.entry u).1 (refl, refl, t, r)))),
      )

  pub by_time-total :
      (uses : List (TokenUse × Entry))
      → ((key : TokenUse) (e : Entry) → In (key, e) uses → (t : ℤ) × (time_of e ≡ ok t))
      → (us : List TimedUse) × (by_time exchanged uses ≡ ok us)
  unfolding by_time
  by_time-total uses timed =
      let (ts, listed) = traverse-total (with_time exchanged) uses (λ (key, e) p.
        let (t, h) = timed key e p in
        let u : TimedUse = record {
          key = key;
          entry = e;
          ts_ns = t;
          exchanged_sub = recorded_sub (lookup key exchanged);
        } in
        (u, (with_time_iff key e u).1 (refl, refl, h, refl))) in
      (sort_by (λ u. u.ts_ns) ts, rw listed refl)
