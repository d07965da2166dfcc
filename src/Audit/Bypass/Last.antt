-- ===== src/Audit/Bypass/Last.antt =====
-- audit/audit.py: `check1` keeps the last use of each token.
use gekko.Base.{
  String, Option, none, some, List, [], ◌∷◌, ◌≡◌, ◌↔◌, inl, inr, refl, sym, ◌∙◌, arith, string_eq,
  Bool-cases,
}
use gekko.Base.Dict.{Dict, lookup}
use gekko.Python.Errors.{Result, ok, ◌>>=◌}
use gekko.Python.Json.{Json, str}
use gekko.Audit.Keys.{text_key}
use gekko.Audit.Loki.{Entry}
use gekko.Audit.Latest.{put, fill, fill_step, LastNamed, lookup-fill_named}
use gekko.Audit.Bypass.{usable_jti, is_jti, add_jti, by_jti}
use gekko.Audit.Bypass.Laws.{UsesJti}

-- The entry is a use of this token.
abbrev pub Names : String → Entry → Entry → Type 0
Names j e x = UsesJti j x × (e ≡ x)

says : Entry → Result (Option (String × Entry))
says e = elim (usable_jti e) [ none ↦ ok none | some v ↦ text_key v >>= λ jti. ok (some (jti, e)) ]

add_jti-says : (d : Dict String Entry) (e : Entry) → add_jti d e ≡ (says e >>= λ o. ok (put o d))
unfolding add_jti says
add_jti-says d e = ground arith

by_jti-fill : (d : Dict String Entry) (es : List Entry) → by_jti d es ≡ fill says d es
unfolding by_jti
by_jti-fill d [] = refl
by_jti-fill d (e ∷ es) =
    rw (add_jti-says d e)
      (fill_step says d es (says e) (λ d'. by_jti d' es) (λ d'. by_jti-fill d' es))

says-Names : (j : String) (e x : Entry) → says x ≡ ok (some (j, e)) → Names j e x
unfolding says
says-Names j e x h = go (lookup "jti" x) refl
  where
    go : (o : Option Json) → lookup "jti" x ≡ o → Names j e x
    go none p = absurd (ground arith)
    go (some (str t)) p = elim (Bool-cases (is_jti (str t))) [
      | inl good ↦ ground arith
      | inr bad ↦ absurd (ground arith)
    ]
    go (some _) p = absurd (ground arith)

Names-says : (j : String) (e x : Entry) → Names j e x → says x ≡ ok (some (j, e))
unfolding says
Names-says j e x (used, same) = ground arith

pub by_jti-LastNamed_iff :
    (j : String) (e : Entry) (d : Dict String Entry) (es : List Entry)
    → by_jti [] es ≡ ok d
    → (lookup j d ≡ some e) ↔ LastNamed Names j e es
by_jti-LastNamed_iff j e d es h =
    lookup-fill_named Names says (λ k v x. (says-Names k v x, Names-says k v x)) j e d es
      (sym (by_jti-fill [] es) ∙ h)
