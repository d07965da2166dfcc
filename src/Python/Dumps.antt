-- ===== src/Python/Dumps.antt =====
-- `json.dumps` and `str.encode`, as lists of bytes.
pub mod Escapes
pub mod Texts
pub mod Numbers
pub mod Printable
pub mod Marks
pub mod Parts
pub mod Injective
use Prim.Native.String.{[], ◌∷◌}
use gekko.Base.{
  ℕ, suc, ◌+◌, ◌-◌, ◌/◌, ◌%◌, code, String, true, false, List, [], ◌∷◌, ◌++◌, ◌==◌, ◌&&◌, leb, ltb,
  if◌then◌else◌, ℕ_discrete,
}
use gekko.Python.Text.{nat_eq, codes, decimal}
use gekko.Python.Json.{
  pos, negsuc, Json, null, bool, int, str, arr, obj, Items, nil, cons, Fields, end, field,
}

abbrev pub hex_digit : ℕ → ℕ
hex_digit d = if ltb d 10 then 48 + d else 87 + d

-- `"\\u{0:04x}".format(n)`
abbrev pub unicode_escape : ℕ → List ℕ
unicode_escape n =
    b'\\'
    ∷ b'u'
    ∷ hex_digit (n / 4096 % 16)
    ∷ hex_digit (n / 256 % 16)
    ∷ hex_digit (n / 16 % 16)
    ∷ hex_digit (n % 16)
    ∷ []

-- One character, with `ensure_ascii`.
unfoldable pub escape : ℕ → List ℕ
unfolding ℕ_discrete
escape c =
    if c == 34
    then b'\\' ∷ 34 ∷ []
    else if c == 92
    then b'\\' ∷ 92 ∷ []
    else if c == 10
    then b'\\' ∷ b'n' ∷ []
    else if c == 13
    then b'\\' ∷ b'r' ∷ []
    else if c == 9
    then b'\\' ∷ b't' ∷ []
    else if c == 12
    then b'\\' ∷ b'f' ∷ []
    else if c == 8
    then b'\\' ∷ b'b' ∷ []
    else if leb 32 c && leb c 126
    then c ∷ []
    else if ltb c 65536
    then unicode_escape c
    else unicode_escape (55296 + (c - 65536) / 1024 % 1024)
      ++ unicode_escape (56320 + (c - 65536) % 1024)

unfoldable pub escape_all : List ℕ → List ℕ
escape_all [] = []
escape_all (c ∷ cs) = escape c ++ escape_all cs

unfoldable pub dumps_text : String → List ℕ
unfolding escape_all escape
dumps_text s = 34 ∷ (escape_all (codes s) ++ 34 ∷ [])

abbrev pub digits : ℕ → List ℕ
digits n = codes (decimal n)

-- The two texts are the separators of items and of keys from values.
unfoldable mutual
  unfolding dumps_text decimal

  pub dumps_with : List ℕ → List ℕ → Json → List ℕ
  dumps_with sep colon null = codes "null"
  dumps_with sep colon (bool true) = codes "true"
  dumps_with sep colon (bool false) = codes "false"
  dumps_with sep colon (int (pos n)) = digits n
  dumps_with sep colon (int (negsuc n)) = b'-' ∷ digits (suc n)
  dumps_with sep colon (str s) = dumps_text s
  dumps_with sep colon (arr nil) = codes "[]"
  dumps_with sep colon (arr (cons v vs)) =
      b'[' ∷ (dumps_with sep colon v ++ dumps_items sep colon vs)
  dumps_with sep colon (obj end) = codes "{}"
  dumps_with sep colon (obj (field k v fs)) =
      b'{' ∷ (dumps_text k ++ (colon ++ (dumps_with sep colon v ++ dumps_fields sep colon fs)))

  dumps_items : List ℕ → List ℕ → Items → List ℕ
  dumps_items sep colon nil = codes "]"
  dumps_items sep colon (cons v vs) = sep ++ (dumps_with sep colon v ++ dumps_items sep colon vs)

  dumps_fields : List ℕ → List ℕ → Fields → List ℕ
  dumps_fields sep colon end = codes "}"
  dumps_fields sep colon (field k v fs) =
      sep ++ (dumps_text k ++ (colon ++ (dumps_with sep colon v ++ dumps_fields sep colon fs)))

-- `json.dumps(v)`
unfoldable pub dumps : Json → List ℕ
unfolding dumps_with
dumps v = dumps_with (codes ", ") (codes ": ") v

-- `json.dumps(v, separators=(",", ":"))`
unfoldable pub dumps_compact : Json → List ℕ
unfolding dumps_with
dumps_compact v = dumps_with (codes ",") (codes ":") v

-- `str.encode`: UTF-8.
abbrev utf8_char : ℕ → List ℕ
utf8_char c =
    if ltb c 128
    then c ∷ []
    else if ltb c 2048
    then (192 + c / 64) ∷ (128 + c % 64) ∷ []
    else if ltb c 65536
    then (224 + c / 4096) ∷ (128 + c / 64 % 64) ∷ (128 + c % 64) ∷ []
    else (240 + c / 262144) ∷ (128 + c / 4096 % 64) ∷ (128 + c / 64 % 64) ∷ (128 + c % 64) ∷ []

unfoldable pub utf8 : String → List ℕ
utf8 [] = []
utf8 (c ∷ s) = utf8_char (code c) ++ utf8 s
