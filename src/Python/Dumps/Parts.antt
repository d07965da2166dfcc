-- ===== src/Python/Dumps/Parts.antt =====
-- `json.dumps`: the parts of lists and objects in a text.
use mathlib.Core.List.{append_assoc}
use gekko.Base.{
  ℕ, String, Bool, true, false, List, [], ◌∷◌, ◌++◌, ◌≡◌, ◌≢◌, refl, sym, ap, ◌∙◌, arith,
}
use gekko.Python.Json.{
  pos, negsuc, Json, null, bool, int, str, arr, obj, Items, nil, cons, Fields, end, field,
}
use gekko.Python.Text.{codes}
use gekko.Python.Dumps.{dumps_text, dumps_with, dumps_items, dumps_fields}
use gekko.Python.Dumps.Texts.{dumps_text_prefix}
use gekko.Python.Dumps.Numbers.{is_digit_code, Ends, digits_first}
use gekko.Python.Dumps.Marks.{mark, mark_of, cancel}

-- The separators: a comma with what follows it, and what stands behind a key.
module _ (more colon : List ℕ) where
  abbrev pub sep : List ℕ
  sep = 44 ∷ more

  pub mark-dumps : (v : Json) (r : List ℕ) → mark (dumps_with sep colon v ++ r) ≡ mark_of v
  unfolding dumps_with dumps_text
  mark-dumps null r = refl
  mark-dumps (bool true) r = refl
  mark-dumps (bool false) r = refl
  mark-dumps (int (pos n)) r = let (c, cs, first, is) = digits_first n in rw (first, is) refl
  mark-dumps (int (negsuc n)) r = refl
  mark-dumps (str s) r = refl
  mark-dumps (arr nil) r = refl
  mark-dumps (arr (cons v vs)) r = refl
  mark-dumps (obj end) r = refl
  mark-dumps (obj (field k v fs)) r = refl

  pub same_mark :
      (v w : Json) (r r' : List ℕ)
      → dumps_with sep colon v ++ r ≡ dumps_with sep colon w ++ r'
      → mark_of v ≡ mark_of w
  same_mark v w r r' h = sym (mark-dumps v r) ∙ (ap mark h ∙ mark-dumps w r')

  pub items_end : (vs : Items) (r : List ℕ) → Ends (dumps_items sep colon vs ++ r)
  unfolding dumps_items
  items_end nil r = refl
  items_end (cons v vs) r = refl

  pub fields_end : (fs : Fields) (r : List ℕ) → Ends (dumps_fields sep colon fs ++ r)
  unfolding dumps_fields
  fields_end end r = refl
  fields_end (field k v fs) r = refl

  -- An item and a member, with what follows.
  pub items-cons :
      (v : Json) (vs : Items) (r : List ℕ)
      → dumps_items sep colon (cons v vs) ++ r
        ≡ sep ++ (dumps_with sep colon v ++ (dumps_items sep colon vs ++ r))
  unfolding dumps_items
  items-cons v vs r =
      append_assoc sep (dumps_with sep colon v ++ dumps_items sep colon vs) r
      ∙ ap (λ l. sep ++ l) (append_assoc (dumps_with sep colon v) (dumps_items sep colon vs) r)

  unfoldable pub member : String → Json → List ℕ → List ℕ
  member k v rest = dumps_text k ++ (colon ++ (dumps_with sep colon v ++ rest))

  pub member-append :
      (k : String) (v : Json) (a r : List ℕ)
      → (dumps_text k ++ (colon ++ (dumps_with sep colon v ++ a))) ++ r ≡ member k v (a ++ r)
  unfolding member
  member-append k v a r =
      append_assoc (dumps_text k) (colon ++ (dumps_with sep colon v ++ a)) r
      ∙ ap (λ l. dumps_text k ++ l)
          (append_assoc colon (dumps_with sep colon v ++ a) r
            ∙ ap (λ l. colon ++ l) (append_assoc (dumps_with sep colon v) a r))

  pub fields-cons :
      (k : String) (v : Json) (fs : Fields) (r : List ℕ)
      → dumps_fields sep colon (field k v fs) ++ r
        ≡ sep ++ member k v (dumps_fields sep colon fs ++ r)
  unfolding dumps_fields
  fields-cons k v fs r =
      append_assoc sep
        (dumps_text k ++ (colon ++ (dumps_with sep colon v ++ dumps_fields sep colon fs))) r
      ∙ ap (λ l. sep ++ l) (member-append k v (dumps_fields sep colon fs) r)

  pub bool_prefix :
      (b c : Bool) (r r' : List ℕ)
      → dumps_with sep colon (bool b) ++ r ≡ dumps_with sep colon (bool c) ++ r'
      → (b ≡ c) × (r ≡ r')
  unfolding dumps_with
  bool_prefix true true r r' h = (refl, cc h)
  bool_prefix false false r r' h = (refl, cc h)
  bool_prefix b c r r' h = absurd (ground (arith, same_mark (bool b) (bool c) r r' h))

  -- A value after which the list goes on is no closing bracket.
  pub no_bracket :
      (w : Json) (r r' : List ℕ) (c : ℕ)
      → is_digit_code c ≡ false
      → mark_of w ≢ c
      → c ∷ r ≢ dumps_with sep colon w ++ r'
  no_bracket w r r' c no_digit other h =
      let marked : mark (c ∷ r) ≡ c = rw no_digit refl in
      other (sym (sym marked ∙ (ap mark h ∙ mark-dumps w r')))

  pub mark_bracket : (w : Json) → mark_of w ≢ 93
  mark_bracket w h = ground arith

  -- Two members with the same text have the same key.
  pub member_prefix :
      (k l : String) (v w : Json) (a b : List ℕ)
      → member k v a ≡ member l w b
      → (k ≡ l) × (dumps_with sep colon v ++ a ≡ dumps_with sep colon w ++ b)
  unfolding member
  member_prefix k l v w a b h =
      let (key, more) =
        dumps_text_prefix k l (colon ++ (dumps_with sep colon v ++ a))
          (colon ++ (dumps_with sep colon w ++ b)) h in
      (key, cancel colon _ _ more)

  -- Where one list or object ends, another one does not go on.
  pub nil_cons :
      (w : Json) (ws : Items) (r r' : List ℕ)
      → dumps_with sep colon (arr nil) ++ r ≢ dumps_with sep colon (arr (cons w ws)) ++ r'
  unfolding dumps_with
  nil_cons w ws r r' h = no_bracket w r (dumps_items sep colon ws ++ r') 93 refl (mark_bracket w) (
      cancel (b'[' ∷ []) _ _ h
      ∙ append_assoc (dumps_with sep colon w) (dumps_items sep colon ws) r')

  pub end_field :
      (k : String) (v : Json) (fs : Fields) (r r' : List ℕ)
      → dumps_with sep colon (obj end) ++ r ≢ dumps_with sep colon (obj (field k v fs)) ++ r'
  unfolding dumps_with dumps_text
  end_field k v fs r r' h =
      let marked : 125 ≡ 34 = ap mark (cancel (b'{' ∷ []) _ _ h) in absurd (omega (arith, marked))

  pub no_more_items :
      (r r' : List ℕ) → dumps_items sep colon nil ++ r ≡ dumps_items sep colon nil ++ r' → r ≡ r'
  unfolding dumps_items
  no_more_items r r' h = cancel (codes "]") r r' h

  pub no_item :
      (w : Json) (ws : Items) (r r' : List ℕ)
      → dumps_items sep colon nil ++ r ≢ dumps_items sep colon (cons w ws) ++ r'
  unfolding dumps_items
  no_item w ws r r' h = let marked : 93 ≡ 44 = ap mark h in absurd (omega (arith, marked))

  pub no_more_fields :
      (r r' : List ℕ) → dumps_fields sep colon end ++ r ≡ dumps_fields sep colon end ++ r' → r ≡ r'
  unfolding dumps_fields
  no_more_fields r r' h = cancel (codes "}") r r' h

  pub no_field :
      (k : String) (v : Json) (fs : Fields) (r r' : List ℕ)
      → dumps_fields sep colon end ++ r ≢ dumps_fields sep colon (field k v fs) ++ r'
  unfolding dumps_fields
  no_field k v fs r r' h = let marked : 125 ≡ 44 = ap mark h in absurd (omega (arith, marked))
