-- ===== src/EmployeeService/Dpop/Errors.antt =====
-- Which exceptions leave `validate_dpop`.
use gekko.Base.{
  ℕ, ◌-◌, ◌%◌, length, String, Bool, true, false, Option, none, some, List, [], ◌∷◌, ◌≡◌, ◌≢◌, refl,
  arith, string_eq,
}
use gekko.Base.Dict.{Dict, lookup}
use gekko.Python.Errors.{http, value_error, Result, ok, raise, ◌>>=◌, require}
use gekko.Python.Json.{Json, null, obj, member_of, get, subscript}
use gekko.Python.Text.{split, ◌<>◌, repeat, text_length}
use gekko.Python.Base64.Errors.{decode-OnlyValueError}
use gekko.EmployeeService.Request.{Request, Libraries, Jwt}
use gekko.EmployeeService.Encoding.{b64url_decode}
use gekko.EmployeeService.Dpop.{
  present, three_parts, as_text, as_number, or_zero, canonical, jwk_thumbprint, load_part,
  coordinate, jwk_public_key, signature_verdict, check_claims, check_thumbprint, read_proof,
  check_key, validate_proof, bound_to, check_bound, validate_dpop,
}
use gekko.EmployeeService.Dpop.Proof.{IsBoundBy}

-- An HTTP error of the computation has the status 401.
abbrev pub Only401 {ℓ} : {A : Type ℓ} → Result A → Type 0
Only401 (ok a) = Unit
Only401 (raise (http status detail)) = status ≡ 401
Only401 (raise e) = Unit

pub Only401-bind {ℓ κ} :
    {A : Type ℓ} {B : Type κ} (m : Result A) (f : A → Result B)
    → Only401 m
    → ((a : A) → Only401 (f a))
    → Only401 (m >>= f)
Only401-bind (ok a) f h k = k a
Only401-bind (raise e) f h k = h

Only401-require : (t : Bool) (d : String) → Only401 (require t (http 401 d))
Only401-require true d = tt
Only401-require false d = refl

Only401-b64url_decode : (s : String) → Only401 (b64url_decode s)
unfolding b64url_decode
Only401-b64url_decode s =
    ground (arith, decode-OnlyValueError (s <> repeat "=" ((4 - text_length s % 4) % 4)))

Only401-subscript : (v : Json) (k : String) → Only401 (subscript v k)
Only401-subscript (obj fs) k = ground arith
Only401-subscript null k = tt
Only401-subscript _ k = tt

pub Only401-get : (v : Json) (k : String) → Only401 (get v k)
Only401-get (obj fs) k = tt
Only401-get null k = tt
Only401-get _ k = tt

Only401-as_text : (v : Json) → Only401 (as_text v)
Only401-as_text v = ground arith

Only401-present : (o : Option String) → Only401 (present o)
Only401-present o = ground arith

Only401-as_number : (v : Json) → Only401 (as_number v)
Only401-as_number v = ground arith

pub Only401-member_of : (k : String) (v : Json) → Only401 (member_of k v)
Only401-member_of k v = ground arith

Only401-three_parts : (ps : List String) → Only401 (three_parts ps)
Only401-three_parts (a ∷ b ∷ c ∷ []) = tt
Only401-three_parts (a ∷ b ∷ []) = tt
Only401-three_parts (a ∷ []) = tt
Only401-three_parts _ = tt

three_parts_fail : (ps : List String) → length ps ≢ 3 → three_parts ps ≡ raise value_error
three_parts_fail (a ∷ b ∷ c ∷ []) h = absurd (h refl)
three_parts_fail (a ∷ b ∷ []) h = refl
three_parts_fail (a ∷ []) h = refl
three_parts_fail _ h = refl

Only401-canonical : (jwk : Json) → Only401 (canonical jwk)
unfolding canonical
Only401-canonical jwk = ground (
  arith,
  Only401-subscript jwk "crv",
  Only401-subscript jwk "kty",
  Only401-subscript jwk "x",
  Only401-subscript jwk "y",
)

Only401-coordinate : (jwk : Json) (name : String) → Only401 (coordinate jwk name)
unfolding coordinate
Only401-coordinate jwk name = Only401-bind _ _ (Only401-subscript jwk name) λ value.
    Only401-bind _ _ (Only401-as_text value)
      λ text. Only401-bind _ _ (Only401-b64url_decode text) λ bytes. tt

module _ (L : Libraries) where
  Only401-load_part : (s : String) → Only401 (load_part L s)
  unfolding load_part
  Only401-load_part s = ground (arith, Only401-b64url_decode s)

  Only401-public_key : (jwk : Json) → Only401 (jwk_public_key L jwk)
  unfolding jwk_public_key
  Only401-public_key jwk =
      Only401-bind _ _ (Only401-coordinate jwk "x")
        λ x. Only401-bind _ _ (Only401-coordinate jwk "y") λ y. ground arith

  Only401-thumbprint : (cnf jwk : Json) → Only401 (check_thumbprint L cnf jwk)
  unfolding check_thumbprint jwk_thumbprint
  Only401-thumbprint cnf jwk =
      Only401-bind _ _ (Only401-bind _ _ (Only401-canonical jwk) λ bytes. tt)
        λ print. Only401-bind _ _ (Only401-subscript cnf "jkt") λ jkt. Only401-require _ _

  Only401-verdict : (d : Jwt (Dict String Json)) → Only401 (signature_verdict L d)
  Only401-verdict d = ground arith

  module _ (req : Request) (now : ℕ) (access_token : String) where
    Only401-check_claims : (claims : Json) → Only401 (check_claims L req now access_token claims)
    unfolding check_claims
    Only401-check_claims claims = Only401-bind _ _ (Only401-get claims "htm") λ htm.
        Only401-bind _ _ (Only401-require _ _) λ _.
          Only401-bind _ _ (Only401-get claims "htu") λ htu.
            Only401-bind _ _ (Only401-require _ _) λ _.
              Only401-bind _ _ (Only401-get claims "iat") λ given.
                Only401-bind _ _ (Only401-as_number (or_zero given)) λ iat.
                  Only401-bind _ _ (Only401-require _ _)
                    λ _. Only401-bind _ _ (Only401-get claims "ath") λ ath. Only401-require _ _

    Only401-read_proof : Only401 (read_proof L req now access_token)
    unfolding read_proof
    Only401-read_proof = Only401-bind _ _ (Only401-present (req.header "DPoP")) λ proof.
        Only401-bind _ _ (Only401-three_parts (split b'.' proof)) λ parts.
          Only401-bind _ _ (Only401-load_part parts.0)
            λ head. Only401-bind _ _ (Only401-load_part parts.1) λ claims. tt

    Only401-check_key :
        (cnf : Json) (proof : String) (head : Json)
        → Only401 (check_key L req now access_token cnf proof head)
    unfolding check_key
    Only401-check_key cnf proof head = Only401-bind _ _ (Only401-get head "typ") λ typ.
        Only401-bind _ _ (Only401-require _ _) λ _.
          Only401-bind _ _ (Only401-subscript head "jwk") λ jwk.
            Only401-bind _ _ (Only401-public_key jwk) λ key.
              Only401-bind _ _ (Only401-verdict (L.decode_proof proof key))
                λ _. Only401-thumbprint cnf jwk

    Only401-check_bound : (o : Option Json) → Only401 (check_bound L req now access_token o)
    unfolding validate_proof
    Only401-check_bound none = tt
    Only401-check_bound (some cnf) = Only401-bind _ _ Only401-read_proof λ sent.
        Only401-bind _ _ (Only401-check_key cnf sent.proof sent.head)
          λ _. Only401-check_claims sent.claims

    Only401-bound_to : (o : Option Json) → Only401 (bound_to L req now access_token o)
    unfolding bound_to
    Only401-bound_to none = tt
    Only401-bound_to (some cnf) = ground (arith, Only401-member_of "jkt" cnf)

    -- Whatever the token and the proof are, if `validate_dpop` raises an HTTP error, its status is
    -- 401.
    pub validate_dpop-Only401 :
        (claims : Dict String Json) → Only401 (validate_dpop L req now access_token claims)
    unfolding validate_dpop
    validate_dpop-Only401 claims =
        Only401-bind _ _ (Only401-bound_to (lookup "cnf" claims)) λ o. Only401-check_bound o

    -- A proof that does not consist of three parts makes `validate_dpop` raise a `ValueError`,
    -- which is no HTTP error.
    pub validate_dpop_malformed :
        (claims : Dict String Json) (cnf : Json) (proof : String)
        → IsBoundBy claims cnf
        → req.header "DPoP" ≡ some proof
        → proof ≢ ""
        → length (split b'.' proof) ≢ 3
        → validate_dpop L req now access_token claims ≡ raise value_error
    unfolding validate_dpop validate_proof bound_to read_proof
    validate_dpop_malformed claims cnf proof bound sent nonempty parts =
        ground (arith, three_parts_fail (split b'.' proof) parts)
