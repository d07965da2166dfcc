-- ===== src/EmployeeService/Encoding.antt =====
-- employee-service/dpop.py: the base64url texts of a proof, written without their padding.
pub mod Roundtrip
use Prim.Native.String.{[], ◌∷◌}
use gekko.Base.{ℕ, ◌-◌, ◌%◌, code, String, true, false, List, ◌==◌, ◌&&◌, if◌then◌else◌, ℕ_discrete}
use gekko.Python.Errors.{Result}
use gekko.Python.Text.{nat_eq, ◌<>◌, text_length, repeat, is_empty}
use gekko.Python.Base64.{encode, decode}

-- `-len(value) % 4`; Python's remainder is not negative.
abbrev missing : ℕ → ℕ
missing n = (4 - n % 4) % 4

unfoldable pub b64url_decode : String → Result (List ℕ)
unfolding decode
b64url_decode value = decode (value <> repeat "=" (missing (text_length value)))

-- `.rstrip(b"=")`
unfoldable pub strip_padding : String → String
unfolding ℕ_discrete
strip_padding [] = []
strip_padding (c ∷ s) =
    let rest = strip_padding s in if code c == b'=' && is_empty rest then [] else c ∷ rest

-- `base64.urlsafe_b64encode(digest).rstrip(b"=").decode()`
unfoldable pub b64url_encode : List ℕ → String
unfolding strip_padding encode
b64url_encode digest = strip_padding (encode digest)
