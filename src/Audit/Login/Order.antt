-- ===== src/Audit/Login/Order.antt =====
-- audit/audit.py: `check3` looks at its logs as sets.
use mathlib.Core.Path.{subst}
use gekko.Base.{Bool, true, List, [], ◌∷◌, ◌≡◌, ◌↔◌, inl, inr, refl, sym, arith}
use gekko.Python.Errors.{ok}
use gekko.Audit.Loki.{Entry}
use gekko.Audit.Login.{verdict3}
use gekko.Audit.Login.Entries.{
  Accessed, LoggedIn, AnyEntry, AllEntries, NamesAccess, NamesLogin, NamesAccesses, NamesLogins,
}
use gekko.Audit.Login.Laws.{verdict3-true_iff, verdict3-total}

-- The entry is in the log.
abbrev pub Has : List Entry → Entry → Type 0
Has es e = AnyEntry (λ x. e ≡ x) es

-- The two logs have the same entries, in whatever order and number.
abbrev pub SameEntries : List Entry → List Entry → Type 0
SameEntries es es' = (e : Entry) → Has es e ↔ Has es' e

AnyEntry-Has : (P : Entry → Type 0) (es : List Entry) → AnyEntry P es → (e : Entry) × P e × Has es e
AnyEntry-Has P [] never = absurd never
AnyEntry-Has P (e ∷ es) (inl p) = (e, p, inl refl)
AnyEntry-Has P (e ∷ es) (inr later) =
    let (x, p, there) = AnyEntry-Has P es later in (x, p, inr there)

pub Has-AnyEntry :
    (P : Entry → Type 0) (es : List Entry) (e : Entry) → P e → Has es e → AnyEntry P es
Has-AnyEntry P [] e p never = never
Has-AnyEntry P (x ∷ es) e p (inl same) = inl (subst P same p)
Has-AnyEntry P (x ∷ es) e p (inr later) = inr (Has-AnyEntry P es e p later)

AnyEntry-SameEntries :
    (P : Entry → Type 0) (es es' : List Entry) → SameEntries es es' → AnyEntry P es → AnyEntry P es'
AnyEntry-SameEntries P es es' same any =
    let (e, p, there) = AnyEntry-Has P es any in Has-AnyEntry P es' e p ((same e).0 there)

AllEntries-Has :
    (P : Entry → Type 0) (es : List Entry) (e : Entry) → AllEntries P es → Has es e → P e
AllEntries-Has P [] e all never = absurd never
AllEntries-Has P (x ∷ es) e (p, all) (inl same) = subst P (sym same) p
AllEntries-Has P (x ∷ es) e (p, all) (inr later) = AllEntries-Has P es e all later

Has-AllEntries :
    (P : Entry → Type 0) (es : List Entry) → ((e : Entry) → Has es e → P e) → AllEntries P es
Has-AllEntries P [] h = tt
Has-AllEntries P (e ∷ es) h = (h e (inl refl), Has-AllEntries P es (λ x p. h x (inr p)))

AllEntries-SameEntries :
    (P : Entry → Type 0) (es es' : List Entry)
    → SameEntries es es'
    → AllEntries P es
    → AllEntries P es'
AllEntries-SameEntries P es es' same all =
    Has-AllEntries P es' (λ e p. AllEntries-Has P es e all ((same e).1 p))

-- A pass is kept by logs with the same entries.
verdict3_kept :
    (svc kc svc' kc' : List Entry)
    → SameEntries svc svc'
    → SameEntries kc kc'
    → NamesAccesses svc
    → NamesLogins kc
    → verdict3 svc kc ≡ ok true
    → verdict3 svc' kc' ≡ ok true
verdict3_kept svc kc svc' kc' same_svc same_kc accesses logged h =
    let accesses' = AllEntries-SameEntries NamesAccess svc svc' same_svc accesses in
    let logged' = AllEntries-SameEntries NamesLogin kc kc' same_kc logged in
    (verdict3-true_iff svc' kc' accesses' logged').1 (λ s a l p q.
      let back =
        AnyEntry-SameEntries (Accessed s a) svc' svc (λ e. ((same_svc e).1, (same_svc e).0)) p in
      let back' =
        AnyEntry-SameEntries (LoggedIn s l) kc' kc (λ e. ((same_kc e).1, (same_kc e).0)) q in
      let (earlier, r, le) = (verdict3-true_iff svc kc accesses logged).0 h s a l back back' in
      (earlier, AnyEntry-SameEntries (LoggedIn s earlier) kc kc' same_kc r, le))

bool_equal : (b b' : Bool) → (b ≡ true → b' ≡ true) → (b' ≡ true → b ≡ true) → b ≡ b'
bool_equal b b' to from = ground arith

-- For logs in which every access names nobody, or a subject with a time and a service, and every
-- login nobody, or a user with a time, the verdict depends only on which entries the logs have,
-- and neither on their order nor on their number.
pub verdict3-SameEntries :
    (svc_logs svc_logs' kc_logs kc_logs' : List Entry)
    → NamesAccesses svc_logs
    → NamesLogins kc_logs
    → SameEntries svc_logs svc_logs'
    → SameEntries kc_logs kc_logs'
    → verdict3 svc_logs kc_logs ≡ verdict3 svc_logs' kc_logs'
verdict3-SameEntries svc svc' kc kc' accesses logged same_svc same_kc =
    let accesses' = AllEntries-SameEntries NamesAccess svc svc' same_svc accesses in
    let logged' = AllEntries-SameEntries NamesLogin kc kc' same_kc logged in
    let (b, is_b) = verdict3-total svc kc accesses logged in
    let (b', is_b') = verdict3-total svc' kc' accesses' logged' in
    let to = verdict3_kept svc kc svc' kc' same_svc same_kc accesses logged in
    let from =
      verdict3_kept svc' kc' svc kc (λ e. ((same_svc e).1, (same_svc e).0))
        (λ e. ((same_kc e).1, (same_kc e).0)) accesses' logged' in
    let same : b ≡ b' =
      bool_equal b b' (λ p. cc (is_b', to (cc (is_b, p)))) (λ p. cc (is_b, from (cc (is_b', p)))) in
    cc (is_b, is_b', same)
