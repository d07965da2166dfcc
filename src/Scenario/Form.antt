-- ===== src/Scenario/Form.antt =====
-- audit/scenario.py: the two regular expressions that look for the action of Keycloak's form.
use Prim.Native.String.{[], ◌∷◌}
use gekko.Base.{
  Char, code, String, Bool, false, Option, none, some, ◌==◌, ◌&&◌, ◌||◌, if◌then◌else◌, ltb,
  ℕ_discrete, ◌≡◌, refl,
}
use gekko.Python.Text.{nat_eq, text_length, begins_with}

-- What follows the text, where `s` begins with it.
strip : String → String → Option String
unfolding ℕ_discrete
strip [] s = some s
strip (d ∷ t) [] = none
strip (d ∷ t) (c ∷ s) = if code d == code c then strip t s else none

abbrev or_else : Option String → Option String → Option String
or_else none b = b
or_else (some a) b = some a

-- `re.search`: the first place at which the expression matches, as the group there.
search_group : (String → Option String) → String → Option String
search_group at_front [] = at_front []
search_group at_front (c ∷ s) = or_else (at_front (c ∷ s)) (search_group at_front s)

abbrev keep : Char → Option String → Option String
keep c none = none
keep c (some s) = some (c ∷ s)

-- `[^"]*"`, without the quote.
closed_value : String → Option String
unfolding ℕ_discrete
closed_value [] = none
closed_value (c ∷ s) = if code c == b'"' then some [] else keep c (closed_value s)

abbrev nonempty : Option String → Option String
nonempty none = none
nonempty (some []) = none
nonempty (some (c ∷ s)) = some (c ∷ s)

-- `action="([^"]+)"`
action_at : String → Option String
unfolding strip closed_value
action_at s = elim (strip "action=\"" s) [ none ↦ none | some rest ↦ nonempty (closed_value rest) ]

-- `[^>]*action="([^"]+)"`: as far right in the tag as it matches.
tag_action : String → Option String
unfolding ℕ_discrete action_at
tag_action [] = action_at []
tag_action (c ∷ s) =
    let here = action_at (c ∷ s) in
    let later = tag_action s in if code c == b'>' then here else or_else later here

-- `id="kc-form-login"[^>]*action="([^"]+)"`
kc_form : String → Option String
unfolding strip tag_action
kc_form s = elim (strip "id=\"kc-form-login\"" s) [ none ↦ none | some rest ↦ tag_action rest ]

-- `authenticate[^"]+` from some place on.
authenticate_then_more : String → Bool
authenticate_then_more [] = false
authenticate_then_more (c ∷ s) =
    begins_with "authenticate" (c ∷ s) && ltb (text_length "authenticate") (text_length (c ∷ s))
    || authenticate_then_more s

abbrev has_authenticate : String → Bool
has_authenticate [] = false
has_authenticate (c ∷ s) = authenticate_then_more s

-- `action="([^"]+authenticate[^"]+)"`
authenticate_action : String → Option String
unfolding action_at authenticate_then_more
authenticate_action s = elim (action_at s) [
  | none ↦ none
  | some v ↦ if has_authenticate v then some v else none
]

unfoldable pub form_action : String → Option String
unfolding search_group kc_form authenticate_action
form_action text = or_else (search_group kc_form text) (search_group authenticate_action text)

page :
    form_action "<a action=\"x\"><form id=\"kc-form-login\" x action=\"one\" action=\"two\">"
    ≡ some "two"
unfolding form_action begins_with
page = refl

other_page :
    form_action "<form action=\"/authenticate\"><form action=\"/a/authenticate?x\">"
    ≡ some "/a/authenticate?x"
unfolding form_action begins_with
other_page = refl
