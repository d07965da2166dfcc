-- ===== src/EmployeeService/Encoding/Roundtrip.antt =====
-- Decoding the text of a digest gives the digest back.
use Prim.Native.String.{[], ◌∷◌}
use gekko.Base.{
  ℕ, ◌+◌, ◌*◌, ◌/◌, ◌%◌, ◌<◌, code, String, false, List, [], ◌∷◌, ◌==◌, ◌≡◌, refl, ap, ◌∙◌, arith,
}
use gekko.Python.Errors.{ok}
use gekko.Python.Text.{nat_eq}
use gekko.Python.Base64.{encode, letter}
use gekko.Python.Base64.Letters.{letter-IsCoded}
use gekko.Python.Base64.Roundtrip.{IsBytes, bare, decode-bare}
use gekko.EmployeeService.Encoding.{b64url_decode, b64url_encode, strip_padding}

not_pad : (i : ℕ) → i < 64 → (code (letter i) == b'=') ≡ false
not_pad i h = (letter-IsCoded i h).no_pad

strip-letter :
    (i : ℕ) (s : String) → i < 64 → strip_padding (letter i ∷ s) ≡ letter i ∷ strip_padding s
unfolding strip_padding
strip-letter i s h = rw (not_pad i h)

strip-two :
    (i j : ℕ) (s : String)
    → i < 64
    → j < 64
    → strip_padding (letter i ∷ letter j ∷ s) ≡ letter i ∷ letter j ∷ strip_padding s
strip-two i j s hi hj = strip-letter i (letter j ∷ s) hi ∙ ap (◌∷◌ (letter i)) (strip-letter j s hj)

pub strip-encode : (bs : List ℕ) → IsBytes bs → strip_padding (encode bs) ≡ bare bs
unfolding encode bare strip_padding
strip-encode [] h = refl
strip-encode (a ∷ []) h = strip-two (a / 4) (a % 4 * 16) "==" (omega arith) (omega arith)
strip-encode (a ∷ b ∷ []) h =
    strip-two (a / 4) (a % 4 * 16 + b / 16) (letter (b % 16 * 4) ∷ "=") (omega arith) (omega arith)
    ∙ ap (λ s. letter (a / 4) ∷ letter (a % 4 * 16 + b / 16) ∷ s)
        (strip-letter (b % 16 * 4) "=" (omega arith))
strip-encode (a ∷ b ∷ c ∷ rest) h =
    let k = b % 16 * 4 + c / 64 in
    let l = c % 64 in
    strip-two (a / 4) (a % 4 * 16 + b / 16) (letter k ∷ letter l ∷ encode rest) (omega arith)
      (omega arith)
    ∙ ap (λ s. letter (a / 4) ∷ letter (a % 4 * 16 + b / 16) ∷ s)
        (strip-two k l (encode rest) (omega arith) (omega arith)
          ∙ ap (λ s. letter k ∷ letter l ∷ s) (strip-encode rest h.1.1.1))

-- The text of a digest, a list of bytes, as thumbprints and `ath` values are written without
-- padding, decodes to that digest.
pub b64url_decode-b64url_encode :
    (digest : List ℕ) → IsBytes digest → b64url_decode (b64url_encode digest) ≡ ok digest
unfolding b64url_decode b64url_encode
b64url_decode-b64url_encode digest h = rw (strip-encode digest h) (decode-bare digest h)
