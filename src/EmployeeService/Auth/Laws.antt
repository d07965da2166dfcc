-- ===== src/EmployeeService/Auth/Laws.antt =====
-- When a request is authenticated, and what `get_claims` leaves behind.
use gekko.Base.{
  ℕ, String, true, false, none, some, List, [], ◌∷◌, ◌≡◌, ◌≢◌, ◌↔◌, ◌⊎◌, inl, inr, refl, arith,
  string_eq, code, Char,
}
use Prim.Native.String.{[], ◌∷◌}
use text.Mathlib.TextLemmas.{nil-append, cons-append}
use gekko.Base.Dict.{Dict, lookup}
use gekko.Python.Errors.{Exception, http, ok, raise, ◌>>=◌, Result}
use gekko.Python.Json.{
  Json, Fields, Items, nil, end, get, member_of, str, arr, obj, elements, entries, any_equals_text,
}
use gekko.Python.Text.{partition, ◌<>◌, nat_eq}
use gekko.EmployeeService.Request.{Request, Libraries, Jwt, decoded, jwt_error}
use gekko.EmployeeService.Dpop.{validate_dpop}
use gekko.EmployeeService.Dpop.Claims.{equals_text-eq}
use gekko.EmployeeService.Dpop.Errors.{
  Only401, Only401-bind, Only401-get, Only401-member_of, validate_dpop-Only401,
}
use gekko.EmployeeService.Auth.{
  AuthContext, credentials, verify, authenticate, has_role, or_default,
}

-- The separator does not occur in the text.
abbrev pub Lacks : ℕ → String → Type 0
Lacks sep [] = Unit
Lacks sep (c ∷ s) = (code c ≢ sep) × Lacks sep s

partition-append :
    (sep : Char) (s t : String)
    → Lacks (code sep) s
    → partition (code sep) (s <> (sep ∷ t)) ≡ (s, t)
unfolding partition
partition-append sep [] t h = rw nil-append (ground arith)
partition-append sep (c ∷ s) t h = rw cons-append (ground (arith, partition-append sep s t h.1))

-- An authorization header that consists of a scheme without a space, a space and a token is read
-- as that scheme and that token.
pub credentials_of_header :
    (req : Request) (scheme token : String)
    → Lacks b' ' scheme
    → req.header "Authorization" ≡ some (scheme <> (" " ∷ token))
    → credentials req ≡ (scheme, token)
unfolding credentials
credentials_of_header req scheme token h e = rw e (partition-append " " scheme token h)

pub Jwt-cases :
    {A : Type 0} (d : Jwt A) → ((a : A) × (d ≡ decoded a)) ⊎ ((e : String) × (d ≡ jwt_error e))
Jwt-cases (decoded a) = inl (a, refl)
Jwt-cases (jwt_error e) = inr (e, refl)

module _ (L : Libraries) (ctx : AuthContext) (req : Request) (now : ℕ) where
  -- The request carries a verified token, with a proof of possession if the token is bound.
  pub record IsAuthentic (claims : Dict String Json) : Type 0 where
    pub scheme : ((credentials req).0 ≡ "Bearer") ⊎ ((credentials req).0 ≡ "DPoP")
    pub token : (credentials req).1 ≢ ""
    pub verified : verify L ctx (credentials req).1 ≡ decoded claims
    pub possession : validate_dpop L req now (credentials req).1 claims ≡ ok tt

  authenticate-IsAuthentic :
      (claims : Dict String Json) → authenticate L ctx req now ≡ ok claims → IsAuthentic claims
  unfolding authenticate
  authenticate-IsAuthentic claims h = record {
    scheme = ground arith;
    token = ground arith;
    verified = ground arith;
    possession = ground arith;
  }

  -- The authentication returns claims exactly when the scheme is `Bearer` or `DPoP`, the token is
  -- not empty, its verification gives these claims, and the validation of the proof returns.
  pub authenticate-IsAuthentic_iff :
      (claims : Dict String Json) → (authenticate L ctx req now ≡ ok claims) ↔ IsAuthentic claims
  unfolding authenticate
  authenticate-IsAuthentic_iff claims = (authenticate-IsAuthentic claims, λ a. ground arith)

  -- An exception of the proof's validation is the exception of the authentication.
  pub authenticate-raise :
      (claims : Dict String Json) (e : Exception)
      → ((credentials req).0 ≡ "Bearer") ⊎ ((credentials req).0 ≡ "DPoP")
      → (credentials req).1 ≢ ""
      → verify L ctx (credentials req).1 ≡ decoded claims
      → validate_dpop L req now (credentials req).1 claims ≡ raise e
      → authenticate L ctx req now ≡ raise e
  unfolding authenticate
  authenticate-raise claims e scheme token good failed = ground arith

  -- An HTTP error of the authentication is a 401.
  pub authenticate-Only401 : Only401 (authenticate L ctx req now)
  unfolding authenticate
  authenticate-Only401 = elim (Jwt-cases (verify L ctx (credentials req).1)) [
    | inl (claims, good) ↦
        ground (arith, validate_dpop-Only401 L req now (credentials req).1 claims)
    | inr (message, bad) ↦ ground arith
  ]

-- The value stands in the list.
abbrev pub Contains : Json → List Json → Type 0
Contains v [] = ⊥
Contains v (w ∷ ws) = (w ≡ v) ⊎ Contains v ws

any_equals_text-Contains :
    (vs : List Json) (t : String) → any_equals_text vs t ≡ true → Contains (str t) vs
any_equals_text-Contains [] t h = cc
any_equals_text-Contains (v ∷ vs) t h =
    ground (arith, equals_text-eq v t, any_equals_text-Contains vs t)

any_equals_text_of_Contains :
    (vs : List Json) (t : String) → Contains (str t) vs → any_equals_text vs t ≡ true
any_equals_text_of_Contains [] t h = absurd h
any_equals_text_of_Contains (v ∷ vs) t (inl e) = rw e (ground arith)
any_equals_text_of_Contains (v ∷ vs) t (inr h) = ground (arith, any_equals_text_of_Contains vs t h)

-- For claims with a list of realm roles, `has_role` answers true exactly when the role stands in
-- the list.
pub has_role-Contains_iff :
    (claims : Dict String Json) (realm : Fields) (roles : Items) (role : String)
    → lookup "realm_access" claims ≡ some (obj realm)
    → lookup "roles" (entries realm) ≡ some (arr roles)
    → (has_role claims role ≡ ok true) ↔ Contains (str role) (elements roles)
unfolding has_role
has_role-Contains_iff claims realm roles role e f = (
  λ h. any_equals_text-Contains (elements roles) role (ground arith),
  λ c. ground (arith, any_equals_text_of_Contains (elements roles) role c),
)

-- A token with no roles in it has none.
pub has_role_absent :
    (claims : Dict String Json) (role : String)
    → lookup "realm_access" claims ≡ none
    → has_role claims role ≡ ok false
unfolding has_role lookup
has_role_absent claims role e = ground arith

pub has_role-Only401 : (claims : Dict String Json) (role : String) → Only401 (has_role claims role)
unfolding has_role
has_role-Only401 claims role =
    let realm = or_default (obj end) (lookup "realm_access" claims) in
    Only401-bind (get realm "roles") (λ roles. member_of role (or_default (arr nil) roles))
      (Only401-get realm "roles") (λ roles. Only401-member_of role (or_default (arr nil) roles))

-- The computation raises no `HTTPException`.
abbrev pub NoHttp {ℓ} : {A : Type ℓ} → Result A → Type 0
NoHttp (ok a) = Unit
NoHttp (raise (http status detail)) = ⊥
NoHttp (raise e) = Unit

member_of-NoHttp : (k : String) (v : Json) → NoHttp (member_of k v)
member_of-NoHttp k v = ground arith

get-NoHttp : (v : Json) (k : String) → NoHttp (get v k)
get-NoHttp (obj fs) k = tt
get-NoHttp (str s) k = tt
get-NoHttp _ k = tt

bind-NoHttp {ℓ κ} :
    {A : Type ℓ} {B : Type κ} (m : Result A) (f : A → Result B)
    → NoHttp m
    → ((a : A) → NoHttp (f a))
    → NoHttp (m >>= f)
bind-NoHttp (ok a) f h k = k a
bind-NoHttp (raise e) f h k = h

pub has_role-NoHttp : (claims : Dict String Json) (role : String) → NoHttp (has_role claims role)
unfolding has_role
has_role-NoHttp claims role =
    let realm = or_default (obj end) (lookup "realm_access" claims) in
    bind-NoHttp (get realm "roles") (λ roles. member_of role (or_default (arr nil) roles))
      (get-NoHttp realm "roles") (λ roles. member_of-NoHttp role (or_default (arr nil) roles))
