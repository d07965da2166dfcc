-- ===== src/Python/Dumps/Marks.antt =====
-- `json.dumps`: the first byte of a text says of what type the value is.
use gekko.Base.{ℕ, String, Bool, true, false, List, [], ◌∷◌, ◌++◌, if◌then◌else◌, ◌≡◌, refl, arith}
use gekko.Python.Json.{pos, negsuc, Json, null, bool, int, str, arr, obj, Items, Fields}
use gekko.Python.Dumps.Numbers.{is_digit_code}

-- What the first byte of a text says of the value: a digit that it is a number, and so on.
abbrev pub mark : List ℕ → ℕ
mark [] = 0
mark (c ∷ cs) = if is_digit_code c then 48 else c

abbrev pub mark_of : Json → ℕ
mark_of null = 110
mark_of (bool true) = 116
mark_of (bool false) = 102
mark_of (int (pos n)) = 48
mark_of (int (negsuc n)) = 45
mark_of (str s) = 34
mark_of (arr vs) = 91
mark_of (obj fs) = 123

pub cancel : (p a b : List ℕ) → p ++ a ≡ p ++ b → a ≡ b
cancel [] a b h = h
cancel (c ∷ p) a b h = cancel p a b (cc h)

-- The values with one mark.
pub as_null : (w : Json) → 110 ≡ mark_of w → null ≡ w
as_null null h = refl
as_null w h = absurd (ground arith)

pub as_bool : (b : Bool) (w : Json) → mark_of (bool b) ≡ mark_of w → (c : Bool) × (bool c ≡ w)
as_bool b (bool c) h = (c, refl)
as_bool true w h = absurd (ground arith)
as_bool false w h = absurd (ground arith)

pub as_pos : (w : Json) → 48 ≡ mark_of w → (n : ℕ) × (int (pos n) ≡ w)
as_pos (int (pos n)) h = (n, refl)
as_pos w h = absurd (ground arith)

pub as_negsuc : (w : Json) → 45 ≡ mark_of w → (n : ℕ) × (int (negsuc n) ≡ w)
as_negsuc (int (negsuc n)) h = (n, refl)
as_negsuc w h = absurd (ground arith)

pub as_str : (w : Json) → 34 ≡ mark_of w → (s : String) × (str s ≡ w)
as_str (str s) h = (s, refl)
as_str w h = absurd (ground arith)

pub as_arr : (w : Json) → 91 ≡ mark_of w → (vs : Items) × (arr vs ≡ w)
as_arr (arr vs) h = (vs, refl)
as_arr w h = absurd (ground arith)

pub as_obj : (w : Json) → 123 ≡ mark_of w → (fs : Fields) × (obj fs ≡ w)
as_obj (obj fs) h = (fs, refl)
as_obj w h = absurd (ground arith)
