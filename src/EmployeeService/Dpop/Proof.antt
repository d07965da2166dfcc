-- ===== src/EmployeeService/Dpop/Proof.antt =====
-- employee-service/dpop.py: what a DPoP proof has to be for `validate_dpop`.
use gekko.Base.{ℕ, String, true, Option, some, List, ◌≡◌, ◌≢◌, ◌↔◌, refl, arith, string_eq, [], ◌∷◌}
use gekko.Base.Dict.{Dict, lookup}
use gekko.Python.Errors.{Exception, ok, raise, from_ok}
use gekko.Python.Json.{Json, str, obj, Fields, entries, truthy, member_of, subscript}
use gekko.Python.Text.{split}
use gekko.EmployeeService.Request.{Request, Libraries, Jwt, decoded, jwt_error}
use gekko.EmployeeService.Dpop.{
  present, three_parts, jwk_thumbprint, load_part, jwk_public_key, signature_verdict,
  check_thumbprint, Sent, read_proof, check_key, validate_proof, bound_to, validate_dpop,
}
use gekko.EmployeeService.Dpop.Claims.{
  equals_text-eq, optional-eq, Matches, check_claims_of_Matches, check_claims-object,
}

subscript-eq :
    (fs : Fields) (k : String) (v : Json)
    → subscript (obj fs) k ≡ ok v
    → lookup k (entries fs) ≡ some v
subscript-eq fs k v h = ground arith

three_parts-eq :
    (ps : List String) (a b : String)
    → three_parts ps ≡ ok (a, b)
    → (c : String) × (ps ≡ a ∷ b ∷ c ∷ [])
three_parts-eq (a' ∷ b' ∷ c ∷ []) a b h = (c, ground arith)
three_parts-eq (a' ∷ b' ∷ c ∷ _) a b h = cc
three_parts-eq _ a b h = cc

present-eq :
    (o : Option String) (proof : String) → present o ≡ ok proof → (o ≡ some proof) × (proof ≢ "")
present-eq o proof h = ground arith

-- The token names the key to which it is bound.
abbrev pub IsBoundBy : Dict String Json → Json → Type 0
IsBoundBy claims cnf =
    (lookup "cnf" claims ≡ some cnf) × (truthy cnf ≡ true) × (member_of "jkt" cnf ≡ ok true)

module _ (L : Libraries) where
  -- The thumbprint of the key is the one that `cnf` names.
  pub record IsKeyOf (cnf jwk : Json) : Type 0 where
    pub thumbprint : String
    pub hashed : jwk_thumbprint L jwk ≡ ok thumbprint
    pub confirmed : subscript cnf "jkt" ≡ ok (str thumbprint)

  check_thumbprint-IsKeyOf : (cnf jwk : Json) → check_thumbprint L cnf jwk ≡ ok tt → IsKeyOf cnf jwk
  unfolding check_thumbprint
  check_thumbprint-IsKeyOf cnf jwk h =
      let (print, print_ok) = from_ok (jwk_thumbprint L jwk) (λ e q. ground arith) in
      let (jkt, jkt_ok) = from_ok (subscript cnf "jkt") (λ e q. ground arith) in
      let confirmed = equals_text-eq jkt print (ground arith) in
      record { thumbprint = print; hashed = print_ok; confirmed = cc }

  check_thumbprint_of_IsKeyOf :
      (cnf jwk : Json) → IsKeyOf cnf jwk → check_thumbprint L cnf jwk ≡ ok tt
  unfolding check_thumbprint
  check_thumbprint_of_IsKeyOf cnf jwk k = ground arith

module _ (L : Libraries) (req : Request) (now : ℕ) (access_token : String) where
  verdict-ok :
      (d : Jwt (Dict String Json))
      → ((e : Exception) → signature_verdict L d ≢ raise e)
      → signature_verdict L d ≡ ok tt
  verdict-ok (decoded c) h = refl
  verdict-ok (jwt_error e) h = absurd (h _ refl)

  -- What the header of the request holds.
  pub record IsSent (sent : Sent) : Type 0 where
    pub header : req.header "DPoP" ≡ some sent.proof
    pub nonempty : sent.proof ≢ ""
    pub head_text : String
    pub claims_text : String
    pub signature_text : String
    pub parts : split b'.' sent.proof ≡ head_text ∷ claims_text ∷ signature_text ∷ []
    pub head_loaded : load_part L head_text ≡ ok sent.head
    pub claims_loaded : load_part L claims_text ≡ ok sent.claims

  -- The proof is signed by the key in its head, which is the key of `cnf`.
  pub record IsSigned (cnf : Json) (proof : String) (head : Fields) : Type 0 where
    pub typ : lookup "typ" (entries head) ≡ some (str "dpop+jwt")
    pub jwk : Json
    pub jwk_given : lookup "jwk" (entries head) ≡ some jwk
    pub key : L.Key
    pub key_valid : jwk_public_key L jwk ≡ ok key
    pub verified : signature_verdict L (L.decode_proof proof key) ≡ ok tt
    pub confirmed : IsKeyOf L cnf jwk

  read_proof-IsSent : {sent : Sent} → read_proof L req now access_token ≡ ok sent → IsSent sent
  unfolding read_proof
  read_proof-IsSent {sent} h =
      let (proof, given) = from_ok (present (req.header "DPoP")) (λ e q. ground arith) in
      let (parts, split_ok) = from_ok (three_parts (split b'.' proof)) (λ e q. ground arith) in
      let (head, head_ok) = from_ok (load_part L parts.0) (λ e q. ground arith) in
      let (claims, claims_ok) = from_ok (load_part L parts.1) (λ e q. ground arith) in
      let (signature, three) = three_parts-eq (split b'.' proof) parts.0 parts.1 split_ok in
      let (sent_as, nonempty) = present-eq (req.header "DPoP") proof given in
      let same : sent ≡ record { proof = proof; head = head; claims = claims } = ground arith in
      rw same (record {
        header = sent_as;
        nonempty = nonempty;
        head_text = parts.0;
        claims_text = parts.1;
        signature_text = signature;
        parts = three;
        head_loaded = head_ok;
        claims_loaded = claims_ok;
      })

  read_proof_of_IsSent : {sent : Sent} → IsSent sent → read_proof L req now access_token ≡ ok sent
  unfolding read_proof
  read_proof_of_IsSent s = ground arith

  check_key-IsSigned :
      (cnf : Json) (proof : String) (head : Fields)
      → check_key L req now access_token cnf proof (obj head) ≡ ok tt
      → IsSigned cnf proof head
  unfolding check_key
  check_key-IsSigned cnf proof head h =
      let typ = optional-eq (lookup "typ" (entries head)) "dpop+jwt" (ground arith) in
      let (jwk, jwk_got) = from_ok (subscript (obj head) "jwk") (λ e q. ground arith) in
      let (key, key_ok) = from_ok (jwk_public_key L jwk) (λ e q. ground arith) in
      let verified = verdict-ok (L.decode_proof proof key) (λ e q. ground arith) in
      let confirmed = check_thumbprint-IsKeyOf L cnf jwk (ground arith) in
      record {
        typ = typ;
        jwk = jwk;
        jwk_given = subscript-eq head "jwk" jwk jwk_got;
        key = key;
        key_valid = key_ok;
        verified = verified;
        confirmed = confirmed;
      }

  check_key_of_IsSigned :
      (cnf : Json) (proof : String) (head : Fields)
      → IsSigned cnf proof head
      → check_key L req now access_token cnf proof (obj head) ≡ ok tt
  unfolding check_key
  check_key_of_IsSigned cnf proof head s =
      ground (arith, check_thumbprint_of_IsKeyOf L cnf s.jwk s.confirmed)

  -- A proof that is bound to the key of `cnf`, the request, the time and the token.
  pub record IsProof (cnf : Json) : Type 0 where
    pub sent : Sent
    pub received : IsSent sent
    pub head : Fields
    pub head_object : sent.head ≡ obj head
    pub signed : IsSigned cnf sent.proof head
    pub claims : Fields
    pub claims_object : sent.claims ≡ obj claims
    pub matching : Matches L req now access_token claims

  check_key-object :
      (cnf : Json) (proof : String) (head : Json)
      → check_key L req now access_token cnf proof head ≡ ok tt
      → (hs : Fields) × (head ≡ obj hs) × IsSigned cnf proof hs
  check_key-object cnf proof (obj hs) h = (hs, refl, check_key-IsSigned cnf proof hs h)
  check_key-object cnf proof (str s) h = unfold check_key in cc
  check_key-object cnf proof _ h = unfold check_key in cc

  validate_proof-IsProof :
      (cnf : Json) → validate_proof L req now access_token cnf ≡ ok tt → IsProof cnf
  unfolding validate_proof
  validate_proof-IsProof cnf h =
      let (sent, read) = from_ok (read_proof L req now access_token) (λ e q. ground arith) in
      let (hs, is_head, signed) = check_key-object cnf sent.proof sent.head (ground arith) in
      let (cs, is_claims, matching) =
        check_claims-object L req now access_token sent.claims (ground arith) in
      record {
        sent = sent;
        received = read_proof-IsSent read;
        head = hs;
        head_object = is_head;
        signed = signed;
        claims = cs;
        claims_object = is_claims;
        matching = matching;
      }

  validate_proof_of_IsProof :
      (cnf : Json) → IsProof cnf → validate_proof L req now access_token cnf ≡ ok tt
  unfolding validate_proof
  validate_proof_of_IsProof cnf p = ground (
    arith,
    read_proof_of_IsSent p.received,
    check_key_of_IsSigned cnf p.sent.proof p.head p.signed,
    check_claims_of_Matches L req now access_token p.claims p.matching,
  )

  -- For a token that is bound to a key, `validate_dpop` returns exactly when the request carries a
  -- proof of possession of that key: signed by it, and made for this request, at about this time
  -- and for this token.
  pub validate_dpop-IsProof_iff :
      (claims : Dict String Json) (cnf : Json)
      → IsBoundBy claims cnf
      → (validate_dpop L req now access_token claims ≡ ok tt) ↔ IsProof cnf
  unfolding validate_dpop bound_to
  validate_dpop-IsProof_iff claims cnf b = (
    λ h. validate_proof-IsProof cnf (ground arith),
    λ p. ground (arith, validate_proof_of_IsProof cnf p),
  )
