-- ===== src/EmployeeService/Dpop/Transfer.antt =====
-- employee-service/dpop.py: what one proof can be used for.
use gekko.Base.{ℕ, String, ◌≡◌, sym, ap, ◌∙◌, string_eq}
use gekko.Base.Dict.{Dict}
use gekko.Python.Errors.{ok, ◌>>=◌, value_error, get_or_raise}
use gekko.Python.Json.{Json, str, obj, Fields, subscript}
use gekko.Python.Text.{partition, split}
use gekko.Python.Dumps.{utf8}
use gekko.EmployeeService.Encoding.{b64url_decode, b64url_encode}
use gekko.EmployeeService.Request.{Request, Libraries}
use gekko.EmployeeService.Dpop.{
  canonical, jwk_thumbprint, load_part, base64url_sha256, Sent, validate_dpop,
}
use gekko.EmployeeService.Dpop.Proof.{IsBoundBy, IsSent, IsSigned, validate_dpop-IsProof_iff}

-- The libraries at two times: what they verify may differ, but not how they load and hash.
module _ (L L' : Libraries) (same_loads : L.loads ≡ L'.loads)
    (same_hash : L.sha256 ≡ L'.sha256) where
  load_part-equal : (t : String) → load_part L t ≡ load_part L' t
  unfolding load_part
  load_part-equal t =
      ap (λ f. b64url_decode t >>= λ bytes. get_or_raise value_error (f bytes)) same_loads

  jwk_thumbprint-equal : (jwk : Json) → jwk_thumbprint L jwk ≡ jwk_thumbprint L' jwk
  unfolding jwk_thumbprint
  jwk_thumbprint-equal jwk =
      ap (λ f. canonical jwk >>= λ bytes. ok (b64url_encode (f bytes))) same_hash

  base64url_sha256-equal : (t : String) → base64url_sha256 L t ≡ base64url_sha256 L' t
  unfolding base64url_sha256
  base64url_sha256-equal t = ap (λ f. b64url_encode (f (utf8 t))) same_hash

  -- Two requests with the same header `DPoP`.
  module _ (req req' : Request) (now now' : ℕ) (token token' : String)
      (same_header : req.header "DPoP" ≡ req'.header "DPoP") where
    sent_equal :
        (s s' : Sent)
        → IsSent L req now token s
        → IsSent L' req' now' token' s'
        → (s.head ≡ s'.head) × (s.claims ≡ s'.claims)
    sent_equal s s' i i' =
        let proofs : s.proof ≡ s'.proof = cc (same_header, i.header, i'.header) in
        let parts = sym i.parts ∙ ap (split b'.') proofs ∙ i'.parts in
        (
          cc (parts, i.head_loaded, i'.head_loaded, load_part-equal i.head_text),
          cc (parts, i.claims_loaded, i'.claims_loaded, load_part-equal i.claims_text),
        )

    keys_equal :
        {cnf cnf' : Json} {proof proof' : String} {head head' : Fields}
        → IsSigned L req now token cnf proof head
        → IsSigned L' req' now' token' cnf' proof' head'
        → obj head ≡ obj head'
        → subscript cnf "jkt" ≡ subscript cnf' "jkt"
    keys_equal s s' heads =
        let keys : s.jwk ≡ s'.jwk = cc (heads, s.jwk_given, s'.jwk_given) in
        let k = s.confirmed in
        let k' = s'.confirmed in
        let prints : k.thumbprint ≡ k'.thumbprint =
          cc (keys, k.hashed, k'.hashed, jwk_thumbprint-equal s.jwk) in
        k.confirmed ∙ ap (λ t. ok (str t)) prints ∙ sym k'.confirmed

    -- A proof that is accepted in two requests with bound tokens, at whatever times, is a proof for
    -- one method, one URL without its query, tokens of one hash, and one key to which both tokens
    -- are bound, as long as `json.loads` and SHA-256 stay the same.
    pub validate_dpop_transfer :
        (claims claims' : Dict String Json) (cnf cnf' : Json)
        → IsBoundBy claims cnf
        → IsBoundBy claims' cnf'
        → validate_dpop L req now token claims ≡ ok tt
        → validate_dpop L' req' now' token' claims' ≡ ok tt
        → (req.method ≡ req'.method)
          × ((partition b'?' req.url).0 ≡ (partition b'?' req'.url).0)
          × (base64url_sha256 L token ≡ base64url_sha256 L token')
          × (subscript cnf "jkt" ≡ subscript cnf' "jkt")
    validate_dpop_transfer claims claims' cnf cnf' b b' h h' =
        let p = (validate_dpop-IsProof_iff L req now token claims cnf b).0 h in
        let p' = (validate_dpop-IsProof_iff L' req' now' token' claims' cnf' b').0 h' in
        let (heads, loaded) = sent_equal p.sent p'.sent p.received p'.received in
        let same_head = sym p.head_object ∙ heads ∙ p'.head_object in
        let same_claims = sym p.claims_object ∙ loaded ∙ p'.claims_object in
        (
          cc (same_claims, p.matching.method, p'.matching.method),
          cc (same_claims, p.matching.url, p'.matching.url),
          cc (same_claims, p.matching.token, p'.matching.token, base64url_sha256-equal token'),
          keys_equal p.signed p'.signed same_head,
        )
