-- ===== src/Scenario/Token/Laws.antt =====
-- audit/scenario.py: `decode_jwt_claims` on a token as an issuer writes it.
use Prim.Native.String.{[], ◌∷◌}
use text.Mathlib.TextLemmas.{nil-append, cons-append}
use gekko.Base.{
  ℕ, ◌<◌, code, String, true, false, ℕ_discrete, List, [], ◌∷◌, ◌==◌, ◌≡◌, refl, ap, ◌∙◌, arith,
}
use gekko.Python.Errors.{value_error, get_or_raise}
use gekko.Python.Text.{nat_eq, ◌<>◌, Lacks, split, split-append}
use gekko.Python.Base64.{letter}
use gekko.Python.Base64.Letters.{letter-IsCoded}
use gekko.Python.Base64.Roundtrip.{IsBytes, bare}
use gekko.EmployeeService.Encoding.{b64url_encode}
use gekko.EmployeeService.Encoding.Roundtrip.{strip-encode, b64url_decode-b64url_encode}
use gekko.Scenario.Web.{Net}
use gekko.Scenario.Token.{decode_jwt_claims}

no_dot : (i : ℕ) → i < 64 → (code (letter i) == b'.') ≡ false
no_dot i h = (letter-IsCoded i h).no_dot

bare-Lacks : (bs : List ℕ) → IsBytes bs → Lacks b'.' (bare bs)
unfolding bare
bare-Lacks [] h = tt
bare-Lacks (a ∷ []) h = (no_dot _ (omega arith), (no_dot _ (omega arith), tt))
bare-Lacks (a ∷ b ∷ []) h =
    (no_dot _ (omega arith), (no_dot _ (omega arith), (no_dot _ (omega arith), tt)))
bare-Lacks (a ∷ b ∷ c ∷ rest) h = (
  no_dot _ (omega arith),
  (
    no_dot _ (omega arith),
    (no_dot _ (omega arith), (no_dot _ (omega arith), bare-Lacks rest h.1.1.1)),
  ),
)

is_dot : (code "." == b'.') ≡ true
unfolding ℕ_discrete
is_dot = refl

b64url_encode-Lacks : (bs : List ℕ) → IsBytes bs → Lacks b'.' (b64url_encode bs)
unfolding b64url_encode
b64url_encode-Lacks bs h = rw (strip-encode bs h) (bare-Lacks bs h)

split-dot : (s t : String) → Lacks b'.' s → split b'.' (s <> ("." <> t)) ≡ s ∷ split b'.' t
split-dot s t plain =
    ap (λ u. split b'.' (s <> u)) (cons-append "." "" t ∙ ap (λ u. "." ∷ u) (nil-append t))
    ∙ split-append b'.' "." s t plain is_dot

-- From a token of three parts between dots, with the unpadded base64url text of some bytes in the
-- middle, the claims are what `json.loads` reads from these bytes, whatever the signature is.
pub decode_jwt_claims-payload :
    (net : Net) (head signature : String) (claims : List ℕ)
    → Lacks b'.' head
    → IsBytes claims
    → decode_jwt_claims net (head <> ("." <> (b64url_encode claims <> ("." <> signature))))
      ≡ get_or_raise value_error (net.loads claims)
unfolding decode_jwt_claims
decode_jwt_claims-payload net head signature claims plain bytes = rw (
  split-dot head (b64url_encode claims <> ("." <> signature)) plain,
  split-dot (b64url_encode claims) signature (b64url_encode-Lacks claims bytes),
  b64url_decode-b64url_encode claims bytes,
)
