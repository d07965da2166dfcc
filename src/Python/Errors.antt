-- ===== src/Python/Errors.antt =====
-- Exceptions as values. `http` is FastAPI's `HTTPException`, with its status code and detail; the
-- others are the built-in exceptions that an operation raises on a value of the wrong form.
use gekko.Base.{ℕ, String, Bool, true, false, ◌≡◌, ◌≢◌, ◌⊎◌, inl, inr, refl, Option, none, some}

pub data Exception : Type 0 where
  http : ℕ → String → Exception
  type_error key_error attribute_error value_error index_error : Exception
  runtime_error : String → Exception
  -- The exceptions of `requests`.
  request_error : Exception
  -- A case of the language that the model leaves out.
  outside_model : Exception

pub data Result {ℓ} (A : Type ℓ) : Type ℓ where
  ok : A → Result A
  raise : Exception → Result A

infixl 5 ◌>>=◌ ◌>>◌
-- `if not test: raise e`
abbrev pub require : Bool → Exception → Result (Unit {0})
require false e = raise e
require true e = ok tt

-- An exception skips what follows.
abbrev pub ◌>>=◌ {ℓ κ} : {A : Type ℓ} {B : Type κ} → Result A → (A → Result B) → Result B
raise e >>= next = raise e
ok value >>= next = next value

abbrev pub get_or_raise {ℓ} : {A : Type ℓ} → Exception → Option A → Result A
get_or_raise e none = raise e
get_or_raise e (some a) = ok a

abbrev pub ◌>>◌ {ℓ} : {B : Type ℓ} → Result (Unit {0}) → Result B → Result B
check >> rest = check >>= λ _. rest

-- What ran to its end did so step by step.
pub >>=-eq-ok {ℓ κ} :
    {A : Type ℓ} {B : Type κ} (first : Result A) (next : A → Result B) {b : B}
    → (first >>= next) ≡ ok b
    → (a : A) × (first ≡ ok a) × (next a ≡ ok b)
>>=-eq-ok (raise e) next h = cc
>>=-eq-ok (ok a) next h = (a, refl, h)

pub require-eq-ok : (t : Bool) (e : Exception) {u : Unit {0}} → require t e ≡ ok u → t ≡ true
require-eq-ok true e h = refl
require-eq-ok false e h = cc

-- The value of a computation that cannot raise.
pub from_ok {ℓ} :
    {A : Type ℓ} (r : Result A) → ((e : Exception) → r ≢ raise e) → (a : A) × (r ≡ ok a)
from_ok (ok a) h = (a, refl)
from_ok (raise e) h = absurd (h e refl)

pub Result-cases {ℓ} :
    {A : Type ℓ} (r : Result A) → ((a : A) × (r ≡ ok a)) ⊎ ((e : Exception) × (r ≡ raise e))
Result-cases (ok a) = inl (a, refl)
Result-cases (raise e) = inr (e, refl)

pub ok-injective {ℓ} : {A : Type ℓ} {a b : A} → ok a ≡ ok b → a ≡ b
ok-injective h = cc
