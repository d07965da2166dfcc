-- ===== src/Python/Json.antt =====
-- The values that `json.loads` and `jwt.decode` return, with the operations that the code applies
-- to them without looking at their type first. Numbers are integers.
use gekko.Base.{
  ℕ, zero, suc, String, Bool, true, false, Option, none, some, List, [], ◌∷◌, ◌==◌, not, string_eq,
  if◌then◌else◌,
}
use gekko.Base.Dict.{Dict, lookup}
use gekko.Python.Errors.{Result, ok, raise, type_error, key_error, attribute_error, get_or_raise}
use gekko.Python.Text.{is_infix}

-- `negsuc n` is -(n + 1).
pub data ℤ : Type 0 where
  pos : ℕ → ℤ
  negsuc : ℕ → ℤ

mutual
  pub data Json : Type 0 where
    null : Json
    bool : Bool → Json
    int : ℤ → Json
    str : String → Json
    arr : Items → Json
    obj : Fields → Json

  pub data Items : Type 0 where
    nil : Items
    cons : Json → Items → Items

  pub data Fields : Type 0 where
    end : Fields
    field : String → Json → Fields → Fields

abbrev pub entries : Fields → Dict String Json
entries end = []
entries (field k v fs) = (k, v) ∷ entries fs

abbrev pub elements : Items → List Json
elements nil = []
elements (cons v vs) = v ∷ elements vs

-- `v == text`, for a value that may be of any type.
abbrev pub equals_text : Json → String → Bool
equals_text (str s) t = s == t
equals_text _ t = false

abbrev pub optional_equals_text : Option Json → String → Bool
optional_equals_text none t = false
optional_equals_text (some v) t = equals_text v t

-- `bool(v)`
abbrev pub truthy : Json → Bool
truthy null = false
truthy (bool b) = b
truthy (int (pos zero)) = false
truthy (int (pos (suc _))) = true
truthy (int (negsuc _)) = true
truthy (str s) = not (s == "")
truthy (arr nil) = false
truthy (arr (cons _ _)) = true
truthy (obj end) = false
truthy (obj (field _ _ _)) = true

abbrev pub any_equals_text : List Json → String → Bool
any_equals_text [] t = false
any_equals_text (v ∷ vs) t = if equals_text v t then true else any_equals_text vs t

abbrev pub is_some {ℓ} : {A : Type ℓ} → Option A → Bool
is_some none = false
is_some (some _) = true

-- `text in v`: membership in an array, a key of an object, a part of a text.
abbrev pub member_of : String → Json → Result Bool
member_of t (arr vs) = ok (any_equals_text (elements vs) t)
member_of t (obj fs) = ok (is_some (lookup t (entries fs)))
member_of t (str s) = ok (is_infix t s)
member_of t _ = raise type_error

-- `v[key]` with a text for the key.
abbrev pub subscript : Json → String → Result Json
subscript (obj fs) k = get_or_raise key_error (lookup k (entries fs))
subscript _ k = raise type_error

-- `d.get(key, default)`
abbrev pub or_default : Json → Option Json → Json
or_default d none = d
or_default d (some v) = v

-- `v.get(key)`; only an object has the method.
abbrev pub get : Json → String → Result (Option Json)
get (obj fs) k = ok (lookup k (entries fs))
get _ k = raise attribute_error
