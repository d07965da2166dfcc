-- ===== src/Python/Dumps/Injective.antt =====
-- `json.dumps`: the text of a value determines the value.
use mathlib.Core.Path.{subst}
use mathlib.Core.List.{append_assoc, append-nil}
use gekko.Base.{ℕ, suc, List, [], ◌∷◌, ◌++◌, ◌≡◌, refl, sym, ap, ◌∙◌, arith}
use gekko.Python.Json.{
  pos, negsuc, Json, null, bool, int, str, arr, obj, Items, nil, cons, Fields, end, field,
}
use gekko.Python.Text.{codes}
use gekko.Python.Dumps.{dumps_with, dumps_items, dumps_fields, dumps, dumps_compact}
use gekko.Python.Dumps.Texts.{dumps_text_prefix}
use gekko.Python.Dumps.Numbers.{Ends, digits_prefix}
use gekko.Python.Dumps.Marks.{cancel, as_null, as_bool, as_pos, as_negsuc, as_str, as_arr, as_obj}
use gekko.Python.Dumps.Parts.{
  same_mark, items_end, fields_end, items-cons, member-append, fields-cons, bool_prefix,
  member_prefix, nil_cons, end_field, no_more_items, no_item, no_more_fields, no_field,
}

-- The separators: a comma with what follows it, and what stands behind a key.
module _ (space colon : List ℕ) where
  -- Two texts of which the first is that of a value with a known shape.
  of_shape :
      {A : Type 0} (shape : A → Json) (w : Json) (r r' l : List ℕ) (P : A → Type 0)
      → (a : A) × (shape a ≡ w)
      → l ≡ dumps_with (44 ∷ space) colon w ++ r'
      → ((a : A) → l ≡ dumps_with (44 ∷ space) colon (shape a) ++ r' → P a × (r ≡ r'))
      → (a : A) × (shape a ≡ w) × P a × (r ≡ r')
  of_shape shape w r r' l P (a, same) h next =
      let (p, rest) =
        next a (subst (λ x. l ≡ dumps_with (44 ∷ space) colon x ++ r') (sym same) h) in
      (a, same, p, rest)

  scalar_prefix :
      (n m : ℕ) (r r' : List ℕ)
      → Ends r
      → Ends r'
      → dumps_with (44 ∷ space) colon (int (negsuc n)) ++ r
        ≡ dumps_with (44 ∷ space) colon (int (negsuc m)) ++ r'
      → (n ≡ m) × (r ≡ r')
  unfolding dumps_with
  scalar_prefix n m r r' e e' h =
      let (same, rest) = digits_prefix (suc n) (suc m) r r' e e' (cc h) in
      (omega (arith, same), rest)

  null_prefix :
      (r r' : List ℕ)
      → dumps_with (44 ∷ space) colon null ++ r ≡ dumps_with (44 ∷ space) colon null ++ r'
      → r ≡ r'
  unfolding dumps_with
  null_prefix r r' h = cancel (codes "null") r r' h

  mutual
    unfolding dumps_with

    -- A value, a list and an object, each with what follows it.
    value_prefix :
        (v w : Json) (r r' : List ℕ)
        → Ends r
        → Ends r'
        → dumps_with (44 ∷ space) colon v ++ r ≡ dumps_with (44 ∷ space) colon w ++ r'
        → (v ≡ w) × (r ≡ r')
    value_prefix null w r r' e e' h =
        let same = as_null w (same_mark space colon null w r r' h) in
        (
          same,
          null_prefix r r' (
              subst
                (λ x.
                  dumps_with (44 ∷ space) colon null ++ r ≡ dumps_with (44 ∷ space) colon x ++ r')
                (sym same) h),
        )
    value_prefix (bool b) w r r' e e' h =
        let (c, shape, same, rest) =
          of_shape (λ c. bool c) w r r' (dumps_with (44 ∷ space) colon (bool b) ++ r) (λ c. b ≡ c)
            (as_bool b w (same_mark space colon (bool b) w r r' h)) h
            (λ c. bool_prefix space colon b c r r') in
        (ap (λ x. bool x) same ∙ shape, rest)
    value_prefix (int (pos n)) w r r' e e' h =
        let (c, shape, same, rest) =
          of_shape (λ c. int (pos c)) w r r' (dumps_with (44 ∷ space) colon (int (pos n)) ++ r)
            (λ c. n ≡ c) (as_pos w (same_mark space colon (int (pos n)) w r r' h)) h
            (λ c. digits_prefix n c r r' e e') in
        (ap (λ x. int (pos x)) same ∙ shape, rest)
    value_prefix (int (negsuc n)) w r r' e e' h =
        let (c, shape, same, rest) =
          of_shape (λ c. int (negsuc c)) w r r'
            (dumps_with (44 ∷ space) colon (int (negsuc n)) ++ r) (λ c. n ≡ c)
            (as_negsuc w (same_mark space colon (int (negsuc n)) w r r' h)) h
            (λ c. scalar_prefix n c r r' e e') in
        (ap (λ x. int (negsuc x)) same ∙ shape, rest)
    value_prefix (str s) w r r' e e' h =
        let (c, shape, same, rest) =
          of_shape (λ c. str c) w r r' (dumps_with (44 ∷ space) colon (str s) ++ r) (λ c. s ≡ c)
            (as_str w (same_mark space colon (str s) w r r' h)) h
            (λ c. dumps_text_prefix s c r r') in
        (ap (λ x. str x) same ∙ shape, rest)
    value_prefix (arr vs) w r r' e e' h =
        let (c, shape, same, rest) =
          of_shape (λ c. arr c) w r r' (dumps_with (44 ∷ space) colon (arr vs) ++ r) (λ c. vs ≡ c)
            (as_arr w (same_mark space colon (arr vs) w r r' h)) h (λ c. arr_prefix vs c r r') in
        (ap (λ x. arr x) same ∙ shape, rest)
    value_prefix (obj fs) w r r' e e' h =
        let (c, shape, same, rest) =
          of_shape (λ c. obj c) w r r' (dumps_with (44 ∷ space) colon (obj fs) ++ r) (λ c. fs ≡ c)
            (as_obj w (same_mark space colon (obj fs) w r r' h)) h (λ c. obj_prefix fs c r r') in
        (ap (λ x. obj x) same ∙ shape, rest)

    arr_prefix :
        (vs ws : Items) (r r' : List ℕ)
        → dumps_with (44 ∷ space) colon (arr vs) ++ r ≡ dumps_with (44 ∷ space) colon (arr ws) ++ r'
        → (vs ≡ ws) × (r ≡ r')
    arr_prefix nil nil r r' h = (refl, cancel (codes "[]") r r' h)
    arr_prefix nil (cons w ws) r r' h = absurd (nil_cons space colon w ws r r' h)
    arr_prefix (cons v vs) nil r r' h = absurd (nil_cons space colon v vs r' r (sym h))
    arr_prefix (cons v vs) (cons w ws) r r' h =
        let (first, more) =
          value_prefix v w (dumps_items (44 ∷ space) colon vs ++ r)
            (dumps_items (44 ∷ space) colon ws ++ r') (items_end space colon vs r)
            (items_end space colon ws r')
            (sym (
                append_assoc (dumps_with (44 ∷ space) colon v) (dumps_items (44 ∷ space) colon vs)
                  r)
              ∙ (cancel (b'[' ∷ []) _ _ h
                  ∙ append_assoc (dumps_with (44 ∷ space) colon w)
                      (dumps_items (44 ∷ space) colon ws) r')) in
        let (others, rest) = items_prefix vs ws r r' more in
        ((λ i. cons (first i) (others i)), rest)

    obj_prefix :
        (fs gs : Fields) (r r' : List ℕ)
        → dumps_with (44 ∷ space) colon (obj fs) ++ r ≡ dumps_with (44 ∷ space) colon (obj gs) ++ r'
        → (fs ≡ gs) × (r ≡ r')
    obj_prefix end end r r' h = (refl, cancel (codes "{}") r r' h)
    obj_prefix end (field l w gs) r r' h = absurd (end_field space colon l w gs r r' h)
    obj_prefix (field k v fs) end r r' h = absurd (end_field space colon k v fs r' r (sym h))
    obj_prefix (field k v fs) (field l w gs) r r' h =
        let (key, more) =
          member_prefix space colon k l v w (dumps_fields (44 ∷ space) colon fs ++ r)
            (dumps_fields (44 ∷ space) colon gs ++ r')
            (sym (member-append space colon k v (dumps_fields (44 ∷ space) colon fs) r)
              ∙ (cancel (b'{' ∷ []) _ _ h
                  ∙ member-append space colon l w (dumps_fields (44 ∷ space) colon gs) r')) in
        let (value, others) =
          value_prefix v w (dumps_fields (44 ∷ space) colon fs ++ r)
            (dumps_fields (44 ∷ space) colon gs ++ r') (fields_end space colon fs r)
            (fields_end space colon gs r') more in
        let (same, rest) = fields_prefix fs gs r r' others in
        ((λ i. field (key i) (value i) (same i)), rest)

    items_prefix :
        (vs ws : Items) (r r' : List ℕ)
        → dumps_items (44 ∷ space) colon vs ++ r ≡ dumps_items (44 ∷ space) colon ws ++ r'
        → (vs ≡ ws) × (r ≡ r')
    items_prefix nil nil r r' h = (refl, no_more_items space colon r r' h)
    items_prefix nil (cons w ws) r r' h = absurd (no_item space colon w ws r r' h)
    items_prefix (cons v vs) nil r r' h = absurd (no_item space colon v vs r' r (sym h))
    items_prefix (cons v vs) (cons w ws) r r' h =
        let (first, more) =
          value_prefix v w (dumps_items (44 ∷ space) colon vs ++ r)
            (dumps_items (44 ∷ space) colon ws ++ r') (items_end space colon vs r)
            (items_end space colon ws r')
            (cancel (44 ∷ space) _ _
              (sym (items-cons space colon v vs r) ∙ (h ∙ items-cons space colon w ws r'))) in
        let (others, rest) = items_prefix vs ws r r' more in
        ((λ i. cons (first i) (others i)), rest)

    fields_prefix :
        (fs gs : Fields) (r r' : List ℕ)
        → dumps_fields (44 ∷ space) colon fs ++ r ≡ dumps_fields (44 ∷ space) colon gs ++ r'
        → (fs ≡ gs) × (r ≡ r')
    fields_prefix end end r r' h = (refl, no_more_fields space colon r r' h)
    fields_prefix end (field l w gs) r r' h = absurd (no_field space colon l w gs r r' h)
    fields_prefix (field k v fs) end r r' h = absurd (no_field space colon k v fs r' r (sym h))
    fields_prefix (field k v fs) (field l w gs) r r' h =
        let (key, more) =
          member_prefix space colon k l v w (dumps_fields (44 ∷ space) colon fs ++ r)
            (dumps_fields (44 ∷ space) colon gs ++ r')
            (cancel (44 ∷ space) _ _
              (sym (fields-cons space colon k v fs r) ∙ (h ∙ fields-cons space colon l w gs r'))) in
        let (value, others) =
          value_prefix v w (dumps_fields (44 ∷ space) colon fs ++ r)
            (dumps_fields (44 ∷ space) colon gs ++ r') (fields_end space colon fs r)
            (fields_end space colon gs r') more in
        let (same, rest) = fields_prefix fs gs r r' others in
        ((λ i. field (key i) (value i) (same i)), rest)

  dumps_with-injective :
      (v w : Json) → dumps_with (44 ∷ space) colon v ≡ dumps_with (44 ∷ space) colon w → v ≡ w
  dumps_with-injective v w h =
      (value_prefix v w [] [] tt tt (
        append-nil (dumps_with (44 ∷ space) colon v)
        ∙ (h ∙ sym (append-nil (dumps_with (44 ∷ space) colon w))))).0

pub dumps-injective : (v w : Json) → dumps v ≡ dumps w → v ≡ w
unfolding dumps
dumps-injective v w h = dumps_with-injective (codes " ") (codes ": ") v w h

pub dumps_compact-injective : (v w : Json) → dumps_compact v ≡ dumps_compact w → v ≡ w
unfolding dumps_compact
dumps_compact-injective v w h = dumps_with-injective [] (codes ":") v w h
