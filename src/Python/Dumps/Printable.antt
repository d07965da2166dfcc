-- ===== src/Python/Dumps/Printable.antt =====
-- `json.dumps`: the text of a value has printable characters of ASCII only.
use gekko.Base.{
  ℕ, suc, ◌+◌, ◌-◌, ◌/◌, ◌%◌, ◌<◌, ◌≤◌, String, Bool, true, false, List, [], ◌∷◌, ◌++◌, ◌&&◌, leb,
  ltb, if◌then◌else◌, ◌≡◌, refl, sym, inl, inr, arith,
}
use Prim.Native.String.{[], ◌∷◌}
use gekko.Python.Json.{
  pos, negsuc, Json, null, bool, int, str, arr, obj, Items, nil, cons, Fields, end, field,
}
use gekko.Python.Text.{codes, nat_eq}
use gekko.Python.Dumps.{
  hex_digit, unicode_escape, escape, escape_all, dumps_text, digits, dumps_with, dumps_items,
  dumps_fields, dumps,
}
use mathlib.Core.Path.{subst}
use gekko.Python.Dumps.Escapes.{escape_shapes, long_escape}
use gekko.Python.Dumps.Numbers.{AllDigits, digits-AllDigits}

abbrev pub IsPrintable : ℕ → Type 0
IsPrintable c = (32 ≤ c) × (c ≤ 126)

abbrev pub AllPrintable : List ℕ → Type 0
AllPrintable [] = Unit
AllPrintable (c ∷ cs) = IsPrintable c × AllPrintable cs

both : (cs ds : List ℕ) → AllPrintable cs → AllPrintable ds → AllPrintable (cs ++ ds)
both [] ds p q = q
both (c ∷ cs) ds (is, p) q = (is, both cs ds p q)

either :
    (b : Bool) (cs ds : List ℕ)
    → (b ≡ true → AllPrintable cs)
    → AllPrintable ds
    → AllPrintable (if b then cs else ds)
either true cs ds p q = p refl
either false cs ds p q = q

hex_digit-IsPrintable : (d : ℕ) → d < 16 → IsPrintable (hex_digit d)
hex_digit-IsPrintable d h = ground arith

unicode_escape-AllPrintable : (n : ℕ) → AllPrintable (unicode_escape n)
unicode_escape-AllPrintable n = (
  omega arith,
  (
    omega arith,
    (
      hex_digit-IsPrintable (n / 4096 % 16) (omega arith),
      (
        hex_digit-IsPrintable (n / 256 % 16) (omega arith),
        (
          hex_digit-IsPrintable (n / 16 % 16) (omega arith),
          (hex_digit-IsPrintable (n % 16) (omega arith), tt),
        ),
      ),
    ),
  ),
)

long_escape-AllPrintable : (c : ℕ) → AllPrintable (long_escape c)
long_escape-AllPrintable c =
    let high = 55296 + (c - 65536) / 1024 % 1024 in
    let low = 56320 + (c - 65536) % 1024 in
    either (leb 32 c && leb c 126) (c ∷ [])
      (if ltb c 65536 then unicode_escape c else unicode_escape high ++ unicode_escape low)
      (λ shown. (ground arith, tt))
      (either (ltb c 65536) (unicode_escape c) (unicode_escape high ++ unicode_escape low)
        (λ _. unicode_escape-AllPrintable c)
        (both (unicode_escape high) (unicode_escape low) (unicode_escape-AllPrintable high)
          (unicode_escape-AllPrintable low)))

escape-AllPrintable : (c : ℕ) → AllPrintable (escape c)
escape-AllPrintable c = elim (escape_shapes c) [
  | inl (d, shape, shown, _, _) ↦ subst AllPrintable (sym shape) (omega arith, (shown, tt))
  | inr (_, _, long) ↦ subst AllPrintable (sym long) (long_escape-AllPrintable c)
]

escape_all-AllPrintable : (cs : List ℕ) → AllPrintable (escape_all cs)
unfolding escape_all
escape_all-AllPrintable [] = tt
escape_all-AllPrintable (c ∷ cs) =
    both (escape c) (escape_all cs) (escape-AllPrintable c) (escape_all-AllPrintable cs)

dumps_text-AllPrintable : (s : String) → AllPrintable (dumps_text s)
unfolding dumps_text
dumps_text-AllPrintable s = (
  omega arith,
  both (escape_all (codes s)) (34 ∷ []) (escape_all-AllPrintable (codes s)) ((omega arith, tt)),
)

of_digits : (cs : List ℕ) → AllDigits cs → AllPrintable cs
of_digits [] _ = tt
of_digits (c ∷ cs) (is, all) = (ground arith, of_digits cs all)

digits-AllPrintable : (n : ℕ) → AllPrintable (digits n)
digits-AllPrintable n = of_digits (digits n) (digits-AllDigits n)

module _ (sep colon : List ℕ) (sep_shown : AllPrintable sep)
    (colon_shown : AllPrintable colon) where
  mutual
    unfolding dumps_with dumps_items dumps_fields

    value_shown : (v : Json) → AllPrintable (dumps_with sep colon v)
    value_shown null = ground arith
    value_shown (bool true) = ground arith
    value_shown (bool false) = ground arith
    value_shown (int (pos n)) = digits-AllPrintable n
    value_shown (int (negsuc n)) = (omega arith, digits-AllPrintable (suc n))
    value_shown (str s) = dumps_text-AllPrintable s
    value_shown (arr nil) = ground arith
    value_shown (arr (cons v vs)) = (
      omega arith,
      both (dumps_with sep colon v) (dumps_items sep colon vs) (value_shown v) (items_shown vs),
    )
    value_shown (obj end) = ground arith
    value_shown (obj (field k v fs)) = (
      omega arith,
      both (dumps_text k) _ (dumps_text-AllPrintable k) (
          both colon _ colon_shown (
            both (dumps_with sep colon v) (dumps_fields sep colon fs) (value_shown v)
              (fields_shown fs))),
    )

    items_shown : (vs : Items) → AllPrintable (dumps_items sep colon vs)
    items_shown nil = ground arith
    items_shown (cons v vs) =
        both sep _ sep_shown (
          both (dumps_with sep colon v) (dumps_items sep colon vs) (value_shown v) (items_shown vs))

    fields_shown : (fs : Fields) → AllPrintable (dumps_fields sep colon fs)
    fields_shown end = ground arith
    fields_shown (field k v fs) = both sep _ sep_shown (
        both (dumps_text k) _ (dumps_text-AllPrintable k) (
          both colon _ colon_shown (
            both (dumps_with sep colon v) (dumps_fields sep colon fs) (value_shown v)
              (fields_shown fs))))

pub dumps-AllPrintable : (v : Json) → AllPrintable (dumps v)
unfolding dumps
dumps-AllPrintable v = value_shown (codes ", ") (codes ": ") (ground arith) (ground arith) v
