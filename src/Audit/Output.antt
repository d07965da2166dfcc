-- ===== src/Audit/Output.antt =====
-- audit/audit.py: what the audit prints, as lines with their data but without their layout. The
-- modules below have the three checks and `main` with their calls of `print`.
pub mod Laws
pub mod Refinement
pub mod Quiet
pub mod Shown
pub mod Total
pub mod Tests
pub mod Bypass
pub mod Issuance
pub mod Login
pub mod Run
use gekko.Base.{ℕ, String, Bool, none, some, List, [], ◌∷◌, ◌++◌, length, leb, if◌then◌else◌}
use gekko.Python.Errors.{Result, ok, raise}
use gekko.Python.Json.{ℤ, Json}
use gekko.Audit.Loki.{Entry, Source, read_streams}

-- A call of `print`: times are texts as `ts_str` makes them. `query_failed` and `limit_reached` go
-- to the standard error.
pub data Line : Type 0 where
  report_title : ℕ → Line
  check_title : ℕ → Line
  querying : String → Line
  query_failed : Line
  fetched : ℕ → Line
  limit_reached : ℕ → Line
  jti_counts : ℕ → ℕ → Line
  bypasses : ℕ → Line
  shared_jti : String → Line
  -- A layer's service, the subject and the time.
  sighted : Json → Json → String → Line
  no_bypass : Line
  use_counts : ℕ → ℕ → Line
  no_records : ℕ → Line
  -- The jti and the service, then the method, the path, the subject and the status, and the time.
  unissued : String → String → Json → Json → Json → Json → String → Line
  sub_mismatches : ℕ → Line
  -- The jti and the service, the subject that used it and the one on record, and the time.
  mismatched : String → String → Json → String → String → Line
  no_uses : Line
  all_issued : Line
  sub_counts : ℕ → ℕ → Line
  without_logins : ℕ → Line
  -- The subject, and the time and the service of its first access.
  without_login : String → String → Json → Line
  violations : ℕ → Line
  -- The subject, the time of the login, and the time and the service of the first access.
  access_before_login : String → String → String → Json → Line
  no_accesses : Line
  all_logged_in : Line
  verdicts : Bool → Bool → Bool → Line
  conclusion : Bool → Line

-- What is printed until the end, or until an exception.
abbrev pub Printing : Type 0 → Type 0
Printing A = List Line × Result A

infixl 5 ◌>>=◌ ◌>>◌
abbrev pub followed_by : {B : Type 0} → List Line → Printing B → Printing B
followed_by before (after, r) = (before ++ after, r)

abbrev pub ◌>>=◌ : {A B : Type 0} → Printing A → (A → Printing B) → Printing B
◌>>=◌ (lines, ok a) k = followed_by lines (k a)
◌>>=◌ (lines, raise e) k = (lines, raise e)

abbrev pub ◌>>◌ : {A B : Type 0} → Printing A → Printing B → Printing B
m >> k = m >>= λ _. k

abbrev pub pure : {A : Type 0} → A → Printing A
pure a = ([], ok a)

abbrev pub lift : {A : Type 0} → Result A → Printing A
lift r = ([], r)

abbrev pub print : Line → Printing (Unit {0})
print line = (line ∷ [], ok tt)

-- `header`, for the check with this number.
abbrev pub print_header : ℕ → Printing (Unit {0})
print_header n = print (check_title n)

-- `for x in xs: body`
abbrev pub for_each : {A : Type 0} → (A → Printing (Unit {0})) → List A → Printing (Unit {0})
for_each body [] = pure tt
for_each body (x ∷ xs) = body x >> for_each body xs

-- The entries of a reply, and a warning where the reply has as many as the limit allows.
abbrev pub count_entries : ℕ → List Entry → Printing (List Entry)
count_entries limit entries = do
  print (fetched (length entries))
  if leb limit (length entries) then (print (limit_reached limit) >> pure entries) else pure entries

-- `query_loki` with what it prints.
unfoldable pub print_query : Source → String → ℤ → ℤ → ℕ → Printing (List Entry)
print_query src logql start_ns end_ns limit = do
  print (querying logql)
  elim (src.query_range logql start_ns end_ns limit) [
    | none ↦ (print query_failed >> pure [])
    | some streams ↦ (lift (read_streams src streams) >>= count_entries limit)
  ]
