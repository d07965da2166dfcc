-- ===== src/Python/Replace.antt =====
-- `str.replace`
use Prim.Native.String.{[], ◌∷◌}
use text.Mathlib.TextLemmas.{nil-append, cons-append}
use gekko.Base.{ℕ, zero, suc, Char, ◌-◌, String, true, false, ◌≡◌, refl, arith, if◌then◌else◌}
use gekko.Python.Text.{nat_eq, ◌<>◌, text_length, begins_with, is_infix}

-- The number counts the characters that are left of an occurrence.
replace_from : String → String → ℕ → String → String
replace_from old new skip [] = []
replace_from old new (suc skip) (c ∷ s) = replace_from old new skip s
replace_from old new zero (c ∷ s) =
    let hit = new <> replace_from old new (text_length old - 1) s in
    let miss = c ∷ replace_from old new 0 s in if begins_with old (c ∷ s) then hit else miss

-- `s.replace(old, new)` for an `old` that is not empty: its occurrences, from the left.
unfoldable pub replace : String → String → String → String
unfolding replace_from
replace old new s = replace_from old new 0 s

pub begins_with-append : (t s : String) → begins_with t (t <> s) ≡ true
unfolding begins_with
begins_with-append [] s = refl
begins_with-append (c ∷ t) s = rw cons-append (ground (arith, begins_with-append t s))

replace_from-skip :
    (old new t s : String)
    → replace_from old new (text_length t) (t <> s) ≡ replace_from old new 0 s
unfolding replace_from
replace_from-skip old new [] s = rw nil-append
replace_from-skip old new (c ∷ t) s = rw cons-append (replace_from-skip old new t s)

-- An occurrence at the front is replaced, and the rest after it.
pub replace-append :
    (c : Char) (old new s : String)
    → replace (c ∷ old) new ((c ∷ old) <> s) ≡ new <> replace (c ∷ old) new s
unfolding replace replace_from
replace-append c old new s =
    let front = begins_with-append (c ∷ old) s in
    rw cons-append
      (ground (arith, front, replace_from-skip (c ∷ old) new old s, cons-append c old s))

-- Without an occurrence nothing changes.
pub replace_absent : (old new s : String) → is_infix old s ≡ false → replace old new s ≡ s
unfolding replace replace_from is_infix
replace_absent old new [] h = refl
replace_absent old new (c ∷ s) h = ground (arith, replace_absent old new s)
