-- ===== src/EmployeeService/Dpop.antt =====
-- employee-service/dpop.py
pub mod Claims
pub mod Proof
pub mod Errors
pub mod Transfer
pub mod Keys
mod Tests
use gekko.Base.{
  ℕ, suc, ◌+◌, ◌-◌, ◌*◌, code, String, Bool, true, false, Option, none, some, List, [], ◌∷◌, ◌==◌,
  leb, if◌then◌else◌, string_eq,
}
use gekko.Base.Dict.{Dict, lookup}
use gekko.Python.Errors.{
  Exception, http, type_error, key_error, attribute_error, value_error, Result, ok, raise, ◌>>=◌,
  ◌>>◌, require, get_or_raise,
}
use gekko.Python.Json.{
  ℤ, pos, negsuc, Json, null, bool, int, str, arr, obj, Fields, end, field, equals_text,
  optional_equals_text, truthy, member_of, subscript, get,
}
use gekko.Python.Text.{split, partition, ◌<>◌}
use gekko.Python.Dumps.{dumps_compact, utf8}
use gekko.EmployeeService.Encoding.{b64url_decode, b64url_encode}
use gekko.EmployeeService.Request.{Request, Libraries, Jwt, decoded, jwt_error}

-- `IAT_TOLERANCE_SECONDS`, in microseconds as all times here.
abbrev pub iat_tolerance : ℕ
iat_tolerance = 60 * 1000000

abbrev pub unauthorized : String → Exception
unauthorized detail = http 401 detail

-- `_b64url_decode` of a value that is no text fails at `len` or at `+`.
abbrev as_text : Json → Result String
as_text (str s) = ok s
as_text _ = raise type_error

-- `int.from_bytes(bs, "big")`
big_endian : ℕ → List ℕ → ℕ
big_endian acc [] = acc
big_endian acc (b ∷ bs) = big_endian (acc * 256 + b) bs

-- The JSON text of exactly the four members, in this order.
pub canonical : Json → Result (List ℕ)
canonical jwk = do
  crv ← subscript jwk "crv"
  kty ← subscript jwk "kty"
  x ← subscript jwk "x"
  y ← subscript jwk "y"
  ok (dumps_compact (obj (field "crv" crv (field "kty" kty (field "x" x (field "y" y end))))))

-- `|time.time() - iat|`, from a clock that counts microseconds.
abbrev pub gap : ℕ → ℤ → ℕ
gap now (pos n) = (now - n * 1000000) + (n * 1000000 - now)
gap now (negsuc n) = now + suc n * 1000000

-- A Boolean is a number in arithmetic; other values raise.
abbrev as_number : Json → Result ℤ
as_number (int n) = ok n
as_number (bool true) = ok (pos 1)
as_number (bool false) = ok (pos 0)
as_number _ = raise type_error

-- `payload.get("iat", 0)`
abbrev or_zero : Option Json → Json
or_zero none = int (pos 0)
or_zero (some v) = v

-- `if not proof: raise`
abbrev present : Option String → Result String
present none = raise (unauthorized "DPoP proof is missing for a DPoP-bound token")
present (some proof) =
    if proof == ""
    then raise (unauthorized "DPoP proof is missing for a DPoP-bound token")
    else ok proof

-- `header_b64, payload_b64, _ = proof.split(".")`
abbrev three_parts : List String → Result (String × String)
three_parts (a ∷ b ∷ c ∷ []) = ok (a, b)
three_parts _ = raise value_error

-- `int.from_bytes(_b64url_decode(jwk[name]), "big")`
pub coordinate : Json → String → Result ℕ
coordinate jwk name = do
  value ← subscript jwk name
  text ← as_text value
  bytes ← b64url_decode text
  ok (big_endian 0 bytes)

-- A proof with its two loaded parts.
pub record Sent : Type 0 where
  pub proof : String
  pub head : Json
  pub claims : Json

module _ (L : Libraries) where
  pub jwk_thumbprint : Json → Result String
  jwk_thumbprint jwk = do bytes ← canonical jwk; ok (b64url_encode (L.sha256 bytes))

  pub base64url_sha256 : String → String
  base64url_sha256 value = b64url_encode (L.sha256 (utf8 value))

  -- `json.loads(_b64url_decode(text))`
  pub load_part : String → Result Json
  load_part text = do bytes ← b64url_decode text; get_or_raise value_error (L.loads bytes)

  pub jwk_public_key : Json → Result L.Key
  jwk_public_key jwk = do
    x ← coordinate jwk "x"
    y ← coordinate jwk "y"
    get_or_raise value_error (L.public_key x y)

  abbrev signature_verdict : Jwt (Dict String Json) → Result (Unit {0})
  signature_verdict (decoded _) = ok tt
  signature_verdict (jwt_error e) = raise (unauthorized ("DPoP proof signature is invalid: " <> e))

  pub check_thumbprint : Json → Json → Result (Unit {0})
  check_thumbprint cnf jwk = do
    thumbprint ← jwk_thumbprint jwk
    jkt ← subscript cnf "jkt"
    require (equals_text jkt thumbprint)
        (unauthorized "DPoP proof key does not match the token's cnf.jkt")

  -- The checks of a proof against the request, in the order of the code.
  module _ (req : Request) (now : ℕ) (access_token : String) where
    pub check_claims : Json → Result (Unit {0})
    check_claims claims = do
      htm ← get claims "htm"
      require (optional_equals_text htm req.method)
          (unauthorized "DPoP proof htm does not match the request method")
      htu ← get claims "htu"
      require (optional_equals_text htu (partition b'?' req.url).0)
          (unauthorized "DPoP proof htu does not match the request URL")
      iat_claim ← get claims "iat"
      iat ← as_number (or_zero iat_claim)
      require (leb (gap now iat) iat_tolerance)
          (unauthorized "DPoP proof iat is outside the acceptable window")
      ath ← get claims "ath"
      require (optional_equals_text ath (base64url_sha256 access_token))
          (unauthorized "DPoP proof ath does not match the presented access token")

    -- The header of the request, taken apart and loaded.
    pub read_proof : Result Sent
    read_proof = do
      proof ← present (req.header "DPoP")
      parts ← three_parts (split b'.' proof)
      head ← load_part parts.0
      claims ← load_part parts.1
      ok (record { proof = proof; head = head; claims = claims })

    -- The key that signed the proof is the key of the access token.
    pub check_key : Json → String → Json → Result (Unit {0})
    check_key cnf proof head = do
      typ ← get head "typ"
      require (optional_equals_text typ "dpop+jwt") (unauthorized "DPoP proof has wrong typ header")
      jwk ← subscript head "jwk"
      key ← jwk_public_key jwk
      signature_verdict (L.decode_proof proof key)
      check_thumbprint cnf jwk

    -- The part that runs for a bound token.
    pub validate_proof : Json → Result (Unit {0})
    validate_proof cnf = do
      sent ← read_proof
      check_key cnf sent.proof sent.head
      check_claims sent.claims

    -- The confirmation claim to which the token is bound, if it is.
    unfoldable pub bound_to : Option Json → Result (Option Json)
    bound_to none = ok none
    bound_to (some cnf) =
        let bound = member_of "jkt" cnf >>= λ b. ok (if b then some cnf else none) in
        if truthy cnf then bound else ok none

    abbrev check_bound : Option Json → Result (Unit {0})
    check_bound none = ok tt
    check_bound (some cnf) = validate_proof cnf

    unfoldable pub validate_dpop : Dict String Json → Result (Unit {0})
    validate_dpop claims = bound_to (lookup "cnf" claims) >>= check_bound
