-- ===== src/EmployeeService/Dpop/Keys.antt =====
-- employee-service/dpop.py: which keys can sign proofs for a bound token.
use mathlib.Core.List.{List-discrete}
use gekko.Base.{
  ℕ, String, some, List, ◌∷◌, ◌≡◌, ◌≢◌, ◌⊎◌, inl, inr, sym, ap, ◌∙◌, arith, string_eq, ℕ_discrete,
}
use gekko.Base.Dict.{Dict, lookup}
use gekko.Python.Errors.{ok, ◌>>=◌, from_ok, ok-injective}
use gekko.Python.Json.{Json, Fields, str, obj, end, field, entries, subscript}
use gekko.Python.Text.{split}
use gekko.Python.Base64.Roundtrip.{IsBytes}
use gekko.Python.Dumps.{dumps_compact}
use gekko.Python.Dumps.Injective.{dumps_compact-injective}
use gekko.EmployeeService.Encoding.{b64url_decode, b64url_encode}
use gekko.EmployeeService.Encoding.Roundtrip.{b64url_decode-b64url_encode}
use gekko.EmployeeService.Request.{Request, Libraries}
use gekko.EmployeeService.Dpop.{
  as_text, big_endian, load_part, canonical, coordinate, jwk_thumbprint, jwk_public_key,
  signature_verdict, validate_dpop,
}
use gekko.EmployeeService.Dpop.Proof.{IsBoundBy, IsProof, validate_dpop-IsProof_iff}

-- What the canonical text of a key is made of.
record IsCanonical (jwk : Json) (bytes : List ℕ) : Type 0 where
  crv : Json
  kty : Json
  x : Json
  y : Json
  has_x : subscript jwk "x" ≡ ok x
  has_y : subscript jwk "y" ≡ ok y
  text :
      bytes
      ≡ dumps_compact (obj (field "crv" crv (field "kty" kty (field "x" x (field "y" y end)))))

canonical-IsCanonical :
    (jwk : Json) (bytes : List ℕ) → canonical jwk ≡ ok bytes → IsCanonical jwk bytes
unfolding canonical
canonical-IsCanonical jwk bytes h =
    let (crv, crv_ok) = from_ok (subscript jwk "crv") (λ e q. ground arith) in
    let (kty, kty_ok) = from_ok (subscript jwk "kty") (λ e q. ground arith) in
    let (x, x_ok) = from_ok (subscript jwk "x") (λ e q. ground arith) in
    let (y, y_ok) = from_ok (subscript jwk "y") (λ e q. ground arith) in
    record { crv = crv; kty = kty; x = x; y = y; has_x = x_ok; has_y = y_ok; text = ground arith }

-- Two keys with the same canonical text have the same coordinates.
canonical-coordinates :
    (jwk jwk' : Json) (bytes bytes' : List ℕ)
    → canonical jwk ≡ ok bytes
    → canonical jwk' ≡ ok bytes'
    → bytes ≡ bytes'
    → (coordinate jwk "x" ≡ coordinate jwk' "x") × (coordinate jwk "y" ≡ coordinate jwk' "y")
unfolding coordinate
canonical-coordinates jwk jwk' bytes bytes' h h' same =
    let k = canonical-IsCanonical jwk bytes h in
    let k' = canonical-IsCanonical jwk' bytes' h' in
    let objects = dumps_compact-injective _ _ (sym k.text ∙ (same ∙ k'.text)) in
    let xs : k.x ≡ k'.x = cc objects in
    let ys : k.y ≡ k'.y = cc objects in
    let read = λ (v : Json). as_text v >>= λ t. b64url_decode t >>= λ bs. ok (big_endian 0 bs) in
    (
      ap (λ v. v >>= read) (k.has_x ∙ (ap (λ v. ok v) xs ∙ sym k'.has_x)),
      ap (λ v. v >>= read) (k.has_y ∙ (ap (λ v. ok v) ys ∙ sym k'.has_y)),
    )

b64url_encode-injective :
    (a b : List ℕ) → IsBytes a → IsBytes b → b64url_encode a ≡ b64url_encode b → a ≡ b
b64url_encode-injective a b p q h =
    ok-injective (
      sym (b64url_decode-b64url_encode a p)
      ∙ (ap b64url_decode h ∙ b64url_decode-b64url_encode b q))

-- The first part of the proof is an object with this key in it.
abbrev pub HasJwk : Libraries → String → Json → Type 0
HasJwk L proof jwk =
    (head : String) × (rest : List String) × (fields : Fields) × (split b'.' proof ≡ head ∷ rest)
    × (load_part L head ≡ ok (obj fields))
    × (lookup "jwk" (entries fields) ≡ some jwk)

-- The proof in the request with the key that signed it: the text whose digest is the thumbprint of
-- the key in its head, and the key's coordinates.
pub record SigningKey (L : Libraries) (req : Request) : Type 0 where
  pub proof : String
  pub sent : req.header "DPoP" ≡ some proof
  pub jwk : Json
  pub in_head : HasJwk L proof jwk
  pub text : List ℕ
  pub canonical_text : canonical jwk ≡ ok text
  pub x : ℕ
  pub y : ℕ
  pub has_x : coordinate jwk "x" ≡ ok x
  pub has_y : coordinate jwk "y" ≡ ok y
  pub key : L.Key
  pub valid : L.public_key x y ≡ some key
  pub verified : signature_verdict L (L.decode_proof proof key) ≡ ok tt

-- The keys have the same coordinates.
abbrev pub AreSame :
    {L L' : Libraries} {req req' : Request} → SigningKey L req → SigningKey L' req' → Type 0
AreSame k k' = (k.x ≡ k'.x) × (k.y ≡ k'.y)

-- The keys have two texts with the same digest.
abbrev pub Collide :
    {L L' : Libraries} {req req' : Request} → SigningKey L req → SigningKey L' req' → Type 0
Collide {L} k k' = (k.text ≢ k'.text) × (L.sha256 k.text ≡ L.sha256 k'.text)

module _ (L : Libraries) where
  hashed_text :
      (jwk : Json) (thumbprint : String)
      → jwk_thumbprint L jwk ≡ ok thumbprint
      → (bytes : List ℕ) × (canonical jwk ≡ ok bytes)
        × (b64url_encode (L.sha256 bytes) ≡ thumbprint)
  unfolding jwk_thumbprint
  hashed_text jwk thumbprint h =
      let (bytes, text) = from_ok (canonical jwk) (λ e q. ground arith) in
      (bytes, text, ground arith)

  -- The key with which an accepted proof is signed; its thumbprint is the one that `cnf` names.
  SigningKey-IsProof :
      (req : Request) (now : ℕ) (token : String) (cnf : Json)
      → IsProof L req now token cnf
      → (k : SigningKey L req) × (subscript cnf "jkt" ≡ ok (str (b64url_encode (L.sha256 k.text))))
  unfolding jwk_public_key
  SigningKey-IsProof req now token cnf p =
      let s = p.signed in
      let r = p.received in
      let jwk = s.jwk in
      let (x, x_ok) = from_ok (coordinate jwk "x") (λ e q. ground (arith, s.key_valid)) in
      let (y, y_ok) = from_ok (coordinate jwk "y") (λ e q. ground (arith, s.key_valid)) in
      let (text, text_ok, hash) = hashed_text jwk s.confirmed.thumbprint s.confirmed.hashed in
      (
        record {
          proof = p.sent.proof;
          sent = r.header;
          jwk = jwk;
          in_head = (
            r.head_text,
            _,
            p.head,
            r.parts,
            r.head_loaded ∙ ap (λ v. ok v) p.head_object,
            s.jwk_given,
          );
          text = text;
          canonical_text = text_ok;
          x = x;
          y = y;
          has_x = x_ok;
          has_y = y_ok;
          key = s.key;
          valid = ground (arith, s.key_valid);
          verified = s.verified;
        },
        s.confirmed.confirmed ∙ ap (λ t. ok (str t)) (sym hash),
      )

-- The libraries at two times: what they verify may differ, but not how they hash.
module _ (L L' : Libraries) (same_hash : L.sha256 ≡ L'.sha256)
    (digests : (bytes : List ℕ) → IsBytes (L.sha256 bytes)) where
  SigningKey-cases :
      {req req' : Request} (k : SigningKey L req) (k' : SigningKey L' req')
      → b64url_encode (L.sha256 k.text) ≡ b64url_encode (L'.sha256 k'.text)
      → AreSame k k' ⊎ Collide k k'
  SigningKey-cases k k' prints =
      let hashes : b64url_encode (L.sha256 k.text) ≡ b64url_encode (L.sha256 k'.text) =
        prints ∙ ap (λ f. b64url_encode (f k'.text)) (sym same_hash) in
      elim (List-discrete ℕ_discrete k.text k'.text) [
        | yes same ↦
            let (xs, ys) =
              canonical-coordinates k.jwk k'.jwk k.text k'.text k.canonical_text k'.canonical_text
                same in
            inl (cc (xs, k.has_x, k'.has_x), cc (ys, k.has_y, k'.has_y))
        | no other ↦ inr (
          other,
          b64url_encode-injective (L.sha256 k.text) (L.sha256 k'.text) (digests k.text)
              (digests k'.text) hashes,
        )
      ]

  -- Two requests whose tokens are bound to the same thumbprint are accepted, at whatever times,
  -- only with proofs that are signed with the keys in their heads, and these keys have the same
  -- coordinates, as long as SHA-256 stays the same and makes bytes; otherwise the canonical texts
  -- of these two keys are different and have the same SHA-256.
  pub validate_dpop_one_key :
      (req req' : Request) (now now' : ℕ) (token token' : String)
      (claims claims' : Dict String Json) (cnf cnf' : Json)
      → IsBoundBy claims cnf
      → IsBoundBy claims' cnf'
      → subscript cnf "jkt" ≡ subscript cnf' "jkt"
      → validate_dpop L req now token claims ≡ ok tt
      → validate_dpop L' req' now' token' claims' ≡ ok tt
      → (k : SigningKey L req) × (k' : SigningKey L' req') × (AreSame k k' ⊎ Collide k k')
  validate_dpop_one_key req req' now now' token token' claims claims' cnf cnf' b b' same h h' =
      let p = (validate_dpop-IsProof_iff L req now token claims cnf b).0 h in
      let p' = (validate_dpop-IsProof_iff L' req' now' token' claims' cnf' b').0 h' in
      let (k, print) = SigningKey-IsProof L req now token cnf p in
      let (k', print') = SigningKey-IsProof L' req' now' token' cnf' p' in
      (k, k', SigningKey-cases k k' (cc (print, print', same)))
