-- ===== src/EmployeeService/Dpop/Claims.antt =====
-- employee-service/dpop.py: the claims of a proof, which name the request, its time and the token.
use gekko.Base.{
  ℕ, suc, ◌+◌, ◌*◌, String, true, Option, none, some, ◌≡◌, ◌≤◌, refl, arith, string_eq,
}
use gekko.Base.Dict.{lookup}
use gekko.Python.Errors.{Result, ok, raise}
use gekko.Python.Json.{
  ℤ, pos, negsuc, Json, str, obj, Fields, entries, equals_text, optional_equals_text,
}
use gekko.Python.Text.{partition}
use gekko.EmployeeService.Request.{Request, Libraries}
use gekko.EmployeeService.Dpop.{as_number, or_zero, base64url_sha256, check_claims}

pub equals_text-eq : (v : Json) (t : String) → equals_text v t ≡ true → v ≡ str t
equals_text-eq (str s) t h = ground arith
equals_text-eq _ t h = cc

pub optional-eq :
    (v : Option Json) (t : String) → optional_equals_text v t ≡ true → v ≡ some (str t)
optional-eq none t h = cc
optional-eq (some v) t h = ground (arith, equals_text-eq v t)

pub optional-eq_refl :
    (v : Option Json) (t : String) → v ≡ some (str t) → optional_equals_text v t ≡ true
optional-eq_refl v t h = ground arith

-- The time at which a proof says that it was made.
abbrev pub issued_at : Fields → Result ℤ
issued_at claims = as_number (or_zero (lookup "iat" (entries claims)))

-- That time, in seconds, is known, and at most 60 seconds before or after the present.
abbrev pub IsFresh : ℕ → Result ℤ → Type 0
IsFresh now (ok (pos iat)) = (now ≤ iat * 1000000 + 60000000) × (iat * 1000000 ≤ now + 60000000)
IsFresh now (ok (negsuc n)) = now + suc n * 1000000 ≤ 60000000
IsFresh now (raise e) = ⊥

module _ (L : Libraries) (req : Request) (now : ℕ) (access_token : String) where
  -- The claims of a proof name the request, the present time and the access token.
  pub record Matches (claims : Fields) : Type 0 where
    pub method : lookup "htm" (entries claims) ≡ some (str req.method)
    pub url : lookup "htu" (entries claims) ≡ some (str (partition b'?' req.url).0)
    pub fresh : IsFresh now (issued_at claims)
    pub token : lookup "ath" (entries claims) ≡ some (str (base64url_sha256 L access_token))

  check_claims-Matches :
      (claims : Fields) → check_claims L req now access_token (obj claims) ≡ ok tt → Matches claims
  unfolding check_claims
  check_claims-Matches claims h = ground (
    arith,
    optional-eq (lookup "htm" (entries claims)) req.method,
    optional-eq (lookup "htu" (entries claims)) (partition b'?' req.url).0,
    optional-eq (lookup "ath" (entries claims)) (base64url_sha256 L access_token),
  )

  pub check_claims_of_Matches :
      (claims : Fields) → Matches claims → check_claims L req now access_token (obj claims) ≡ ok tt
  unfolding check_claims
  check_claims_of_Matches claims m = ground arith

  pub check_claims-object :
      (claims : Json)
      → check_claims L req now access_token claims ≡ ok tt
      → (fs : Fields) × (claims ≡ obj fs) × Matches fs
  check_claims-object (obj fs) h = (fs, refl, check_claims-Matches fs h)
  check_claims-object (str s) h = unfold check_claims in cc
  check_claims-object _ h = unfold check_claims in cc
