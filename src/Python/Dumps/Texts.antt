-- ===== src/Python/Dumps/Texts.antt =====
-- `json.dumps`: the text of a string determines the string, whatever follows it.
use Prim.Native.String.{[], ◌∷◌}
use mathlib.Core.List.{append_assoc}
use text.Mathlib.TextEquality.{Char-path}
use gekko.Base.{
  ℕ, code, Char, String, none, some, List, [], ◌∷◌, ◌++◌, ◌≡◌, refl, sym, ap, ◌∙◌, ℕ_discrete,
}
use gekko.Python.Text.{codes}
use gekko.Python.Dumps.{escape, escape_all, dumps_text}
use gekko.Python.Dumps.Escapes.{code-Scalar, unescape, unescape-escape}

some-injective : {A : Type 0} {a b : A} → some a ≡ some b → a ≡ b
some-injective h = cc

-- What stands at the beginning of an escaped text and its quotation mark.
unescape-cons :
    (c : Char) (s : String) (rest : List ℕ)
    → unescape (escape_all (codes (c ∷ s)) ++ rest) ≡ some (code c, escape_all (codes s) ++ rest)
unfolding escape_all
unescape-cons c s rest =
    ap unescape (append_assoc (escape (code c)) (escape_all (codes s)) rest)
    ∙ unescape-escape (code c) (escape_all (codes s) ++ rest) (code-Scalar c)

unescape-quote : (rest : List ℕ) → unescape (34 ∷ rest) ≡ none
unfolding unescape ℕ_discrete
unescape-quote rest = refl

escaped_prefix :
    (s t : String) (r r' : List ℕ)
    → escape_all (codes s) ++ (34 ∷ r) ≡ escape_all (codes t) ++ (34 ∷ r')
    → (s ≡ t) × (r ≡ r')
unfolding escape_all
escaped_prefix [] [] r r' h = (refl, cc h)
escaped_prefix [] (d ∷ t) r r' h =
    absurd (cc (sym (unescape-quote r) ∙ (ap unescape h ∙ unescape-cons d t (34 ∷ r'))))
escaped_prefix (c ∷ s) [] r r' h =
    absurd (cc (sym (unescape-cons c s (34 ∷ r)) ∙ (ap unescape h ∙ unescape-quote r')))
escaped_prefix (c ∷ s) (d ∷ t) r r' h =
    let parts =
      some-injective
        (sym (unescape-cons c s (34 ∷ r)) ∙ (ap unescape h ∙ unescape-cons d t (34 ∷ r'))) in
    let (same, rest) = escaped_prefix s t r r' (ap (λ p. p.1) parts) in
    let first : c ≡ d = Char-path c d (ap (λ p. p.0) parts) in ((λ i. first i ∷ same i), rest)

pub dumps_text_prefix :
    (s t : String) (r r' : List ℕ) → dumps_text s ++ r ≡ dumps_text t ++ r' → (s ≡ t) × (r ≡ r')
unfolding dumps_text
dumps_text_prefix s t r r' h = escaped_prefix s t r r' (
    sym (append_assoc (escape_all (codes s)) (34 ∷ []) r)
    ∙ (cc h ∙ append_assoc (escape_all (codes t)) (34 ∷ []) r'))
