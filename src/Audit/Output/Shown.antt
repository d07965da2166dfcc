-- ===== src/Audit/Output/Shown.antt =====
-- audit/audit.py: entries whose time and service can be printed.
use mathlib.Core.Path.{subst}
use gekko.Base.{String, some, List, [], ◌∷◌, ◌≡◌, inl, inr, refl, sym, In, string_eq, pair_eq}
use gekko.Base.Dict.{lookup}
use gekko.Python.Errors.{ok}
use gekko.Python.Json.{ℤ, Json, str, or_default}
use gekko.Audit.Clock.{ts_str}
use gekko.Audit.Latest.{LastNamed}
use gekko.Audit.Loki.{Entry, time_of}
use gekko.Audit.Bypass.{Sighting, sighting}
use gekko.Audit.Bypass.Last.{Names}
use gekko.Audit.Issuance.{TokenUse}
use gekko.Audit.Issuance.Uses.{FirstUse}
use gekko.Audit.Login.Entries.{AnyEntry, AllEntries}
use gekko.Audit.Output.{Printing, for_each}
use gekko.Audit.Output.Laws.{outcome, outcome->>=}

-- The time can be shown.
abbrev pub HasText : ℤ → Type 0
HasText t = (at : String) × (ts_str t ≡ ok at)

-- The entry has a time that can be shown, and a service.
abbrev pub IsShowable : Entry → Type 0
IsShowable e =
    ((t : ℤ) × (time_of e ≡ ok t) × HasText t)
    × ((service : Json) × (lookup "_service" e ≡ some service))

abbrev pub AreShowable : List Entry → Type 0
AreShowable es = AllEntries IsShowable es

pub sighting-total :
    (e : Entry) → IsShowable e → (s : Sighting) × (sighting e ≡ ok s) × HasText s.ts_ns
unfolding sighting
sighting-total e ((t, timed, shown), (service, at)) = (
  record { service = service; sub = or_default (str "-") (lookup "sub" e); ts_ns = t },
  rw (at, timed) refl,
  shown,
)

pub LastNamed-AllEntries :
    (P : Entry → Type 0) (j : String) (e : Entry) (es : List Entry)
    → AllEntries P es
    → LastNamed Names j e es
    → P e
LastNamed-AllEntries P j e [] all never = absurd never
LastNamed-AllEntries P j e (x ∷ es) (_, all) (inl later) = LastNamed-AllEntries P j e es all later
LastNamed-AllEntries P j e (x ∷ es) (here, _) (inr ((_, same), _)) = subst P (sym same) here

pub FirstUse-AllEntries :
    (P : Entry → Type 0) (key : TokenUse) (e : Entry) (es : List Entry)
    → AllEntries P es
    → FirstUse key e es
    → P e
FirstUse-AllEntries P key e [] all never = absurd never
FirstUse-AllEntries P key e (x ∷ es) (here, _) (inl (_, same)) = subst P (sym same) here
FirstUse-AllEntries P key e (x ∷ es) (_, all) (inr (_, later)) =
    FirstUse-AllEntries P key e es all later

pub AnyEntry-AllEntries :
    (P Q : Entry → Type 0) (es : List Entry)
    → AllEntries P es
    → AnyEntry Q es
    → (e : Entry) × P e × Q e
AnyEntry-AllEntries P Q [] all never = absurd never
AnyEntry-AllEntries P Q (e ∷ es) (p, _) (inl q) = (e, p, q)
AnyEntry-AllEntries P Q (e ∷ es) (_, all) (inr later) = AnyEntry-AllEntries P Q es all later

-- A loop ends if its body does.
pub for_each-total :
    {A : Type 0} (body : A → Printing (Unit {0})) (xs : List A)
    → ((x : A) → In x xs → outcome (body x) ≡ ok tt)
    → outcome (for_each body xs) ≡ ok tt
for_each-total body [] can = refl
for_each-total body (x ∷ xs) can =
    simp (outcome->>=, can x (inl refl)) (for_each-total body xs (λ y p. can y (inr p)))
