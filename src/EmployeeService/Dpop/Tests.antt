-- ===== src/EmployeeService/Dpop/Tests.antt =====
-- Two requests with one proof that is genuine for both.
use gekko.Base.{
  ℕ, String, Option, none, some, List, [], ◌∷◌, ◌==◌, ◌≡◌, ◌⊎◌, arith, if◌then◌else◌, refl,
  string_eq,
}
use gekko.Base.Dict.{Dict, lookup}
use gekko.Python.Errors.{ok}
use gekko.Python.Json.{Json, Fields, str, int, obj, pos, end, field, subscript}
use gekko.Python.Text.{partition, split, nat_eq}
use gekko.Python.Base64.{encode, decode}
use gekko.Python.Dumps.{dumps_compact, utf8}
use gekko.EmployeeService.Encoding.{b64url_decode, b64url_encode, strip_padding}
use gekko.EmployeeService.Request.{Request, Libraries, decoded, jwt_error}
use gekko.EmployeeService.Dpop.{
  canonical, coordinate, jwk_thumbprint, load_part, base64url_sha256, jwk_public_key,
  check_thumbprint, check_claims, read_proof, check_key, validate_proof, bound_to, validate_dpop,
}
use gekko.EmployeeService.Dpop.Proof.{IsBoundBy}
use gekko.Python.Base64.Roundtrip.{IsBytes}
use gekko.EmployeeService.Dpop.Keys.{SigningKey, AreSame, Collide, validate_dpop_one_key}
use gekko.EmployeeService.Dpop.Transfer.{validate_dpop_transfer}

abbrev head : Fields
head = field "typ" (str "dpop+jwt") (
    field "jwk"
      (obj (
        field "crv" (str "P-256")
          (field "kty" (str "EC") (field "x" (str "AAAA") (field "y" (str "AAAA") end)))))
      end)

abbrev claims : Fields
claims =
    field "htm" (str "GET")
      (field "htu" (str "http://e/x") (field "iat" (int (pos 1)) (field "ath" (str "AAAA") end)))

abbrev loads : List ℕ → Option Json
loads (a ∷ b ∷ n ∷ []) = some (if n == 0 then obj head else obj claims)
loads _ = none

-- The libraries, with the answer of `jwt.decode` to the access token; every hash is the same.
abbrev libraries : Libraries
libraries = record {
  Key = Unit {0};
  SigningKey = Unit {0};
  sha256 = λ bs. 0 ∷ 0 ∷ 0 ∷ [];
  loads = loads;
  public_key = λ x y. some tt;
  decode_proof = λ proof key. decoded [];
  signing_key = λ url token. decoded tt;
  decode_token = λ token key audience issuer. jwt_error "bad";
}

abbrev request_to : String → Request
request_to url = record {
  method = "GET";
  path = "/x";
  url = url;
  header = λ name. if name == "DPoP" then some "AAAA.AAAB.s" else none;
}

abbrev cnf : Json
cnf = obj (field "jkt" (str "AAAA") end)

abbrev token_claims : Dict String Json
token_claims = ("cnf", cnf) ∷ []

-- The second request has a query, and comes a second later.
accepted :
    (validate_dpop libraries (request_to "http://e/x") 2000000 "t" token_claims ≡ ok tt)
    × (validate_dpop libraries (request_to "http://e/x?y") 3000000 "t" token_claims ≡ ok tt)
unfolding b64url_decode b64url_encode strip_padding encode decode dumps_compact utf8 partition split
    lookup string_eq canonical coordinate jwk_thumbprint load_part base64url_sha256 jwk_public_key
    check_thumbprint check_claims read_proof check_key validate_proof bound_to validate_dpop
accepted = (refl, refl)

bound : IsBoundBy token_claims cnf
unfolding lookup string_eq
bound = (refl, refl, refl)

validate_dpop_transfer_example :
    (◌≡◌ {A = String} "GET" "GET")
    × ((partition b'?' "http://e/x").0 ≡ (partition b'?' "http://e/x?y").0)
    × (base64url_sha256 libraries "t" ≡ base64url_sha256 libraries "t")
    × (subscript cnf "jkt" ≡ subscript cnf "jkt")
validate_dpop_transfer_example =
    validate_dpop_transfer libraries libraries refl refl (request_to "http://e/x")
      (request_to "http://e/x?y") 2000000 3000000 "t" "t" refl token_claims token_claims cnf cnf
      bound bound accepted.0 accepted.1

sha256-IsBytes : (bytes : List ℕ) → IsBytes (libraries.sha256 bytes)
sha256-IsBytes bytes = (omega arith, (omega arith, (omega arith, tt)))

validate_dpop_one_key_example :
    (k : SigningKey libraries (request_to "http://e/x")) × (k' : SigningKey libraries
      (request_to "http://e/x?y"))
    × (AreSame k k' ⊎ Collide k k')
validate_dpop_one_key_example =
    validate_dpop_one_key libraries libraries refl sha256-IsBytes (request_to "http://e/x")
      (request_to "http://e/x?y") 2000000 3000000 "t" "t" token_claims token_claims cnf cnf bound
      bound refl accepted.0 accepted.1
