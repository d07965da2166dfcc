-- ===== src/Audit/Events/Extract.antt =====
-- What `kv_extract` finds in an event.
use Prim.Native.String.{[], ◌∷◌}
use text.Mathlib.TextLemmas.{nil-append, cons-append}
use gekko.Base.{code, String, false, none, some, ◌≡◌, ◌∙◌, ap, arith, ℕ_discrete}
use gekko.Python.Text.{nat_eq, ◌<>◌}
use gekko.Audit.Events.{
  strip_prefix, find_after, ends_value, take_value, quoted_value, nonempty, kv_extract,
}

-- The text `t` begins at no character of `before`, in the line `before <> after`.
abbrev pub NotBefore : String → String → String → Type 0
NotBefore t [] after = Unit
NotBefore t (c ∷ before) after =
    (strip_prefix t (c ∷ (before <> after)) ≡ none) × NotBefore t before after

-- Neither a quote nor a comma is in the text.
abbrev pub IsPlain : String → Type 0
IsPlain [] = Unit
IsPlain (c ∷ s) = (ends_value (code c) ≡ false) × IsPlain s

strip_prefix-append : (t s : String) → strip_prefix t (t <> s) ≡ some s
unfolding strip_prefix
strip_prefix-append [] s = rw nil-append
strip_prefix-append (c ∷ t) s = rw cons-append (ground (arith, strip_prefix-append t s))

find_after_here : (t s rest : String) → strip_prefix t s ≡ some rest → find_after t s ≡ some rest
unfolding find_after
find_after_here t [] rest h = h
find_after_here t (c ∷ s) rest h = rw (h, find_after)

find_after-append :
    (t before after : String)
    → NotBefore t before after
    → find_after t (before <> after) ≡ find_after t after
unfolding find_after
find_after-append t [] after h = rw nil-append
find_after-append t (c ∷ before) after h =
    rw (cons-append, find_after, h.0) (find_after-append t before after h.1)

take_value-append :
    (value rest : String) → IsPlain value → take_value (value <> ("\"" <> rest)) ≡ value
unfolding take_value ends_value
take_value-append [] rest h = rw (nil-append, cons-append) (ground arith)
take_value-append (c ∷ value) rest h =
    rw cons-append (ground (arith, take_value-append value rest h.1))

quoted_value-quote : (s : String) → quoted_value ("\"" <> s) ≡ take_value s
unfolding quoted_value ℕ_discrete
quoted_value-quote s = rw (cons-append, nil-append)

-- In a line where the key with `=` behind it first stands in front of a quoted value, with no
-- quote or comma in it, that value is found, or `None` if it is empty. The key may be the end of a
-- longer name.
pub kv_extract_quoted :
    (before key value rest : String)
    → IsPlain value
    → NotBefore (key <> "=") before ((key <> "=") <> ("\"" <> (value <> ("\"" <> rest))))
    → kv_extract (before <> ((key <> "=") <> ("\"" <> (value <> ("\"" <> rest))))) key
      ≡ nonempty value
unfolding kv_extract
kv_extract_quoted before key value rest plain first =
    let after = "\"" <> (value <> ("\"" <> rest)) in
    let found : find_after (key <> "=") (before <> ((key <> "=") <> after)) ≡ some after =
      find_after-append (key <> "=") before ((key <> "=") <> after) first
      ∙ find_after_here (key <> "=") ((key <> "=") <> after) after
          (strip_prefix-append (key <> "=") after) in
    let read : quoted_value after ≡ value =
      quoted_value-quote (value <> ("\"" <> rest)) ∙ take_value-append value rest plain in
    rw (found, kv_extract) (ap nonempty read)
