-- ===== src/Audit/Output/Laws.antt =====
-- audit/audit.py: printing does not change what a computation returns.
use mathlib.Core.List.{append_assoc}
use gekko.Base.{
  ◌++◌, List, ap, sym, ◌∙◌, ℕ, String, List, length, leb, ◌≡◌, refl, inl, inr, Option-cases,
  Bool-cases,
}
use gekko.Python.Errors
use gekko.Python.Errors.{Result, ok, raise, Result-cases, ok-injective}
use gekko.Python.Json.{ℤ}
use gekko.Audit.Loki.{Entry, Source, read_streams, query_loki}
use gekko.Audit.Output.{Line, Printing, ◌>>=◌, count_entries, print_query}

-- What a computation returns in the end.
abbrev pub outcome : {A : Type 0} → Printing A → Result A
outcome m = m.1

pub outcome->>= :
    {A B : Type 0} (m : Printing A) (k : A → Printing B)
    → outcome (m >>= k) ≡ Errors.◌>>=◌ (outcome m) (λ a. outcome (k a))
outcome->>= (lines, ok a) k = refl
outcome->>= (lines, raise e) k = refl

outcome-count_entries :
    (limit : ℕ) (entries : List Entry) → outcome (count_entries limit entries) ≡ ok entries
outcome-count_entries limit entries = elim (Bool-cases (leb limit (length entries))) [
  | inl full ↦ rw full refl
  | inr short ↦ rw short refl
]

pub outcome-print_query :
    (src : Source) (logql : String) (start_ns end_ns : ℤ) (limit : ℕ)
    → outcome (print_query src logql start_ns end_ns limit)
      ≡ query_loki src logql start_ns end_ns limit
unfolding print_query query_loki
outcome-print_query src logql start_ns end_ns limit =
    elim (Option-cases (src.query_range logql start_ns end_ns limit)) [
      | inl down ↦ rw (query_loki, down) refl
      | inr (streams, reply) ↦ elim (Result-cases (read_streams src streams)) [
        | inl (entries, got) ↦ rw (query_loki, reply, got) (outcome-count_entries limit entries)
        | inr (e, failed) ↦ rw (query_loki, reply, failed) refl
      ]
    ]

-- The last lines that are printed.
abbrev pub EndsWith : {A : Type 0} → List Line → Printing A → Type 0
EndsWith last m = (before : List Line) × (m.0 ≡ before ++ last)

pub >>=-EndsWith :
    {A B : Type 0} (m : Printing A) (k : A → Printing B) (a : A) (last : List Line)
    → outcome m ≡ ok a
    → EndsWith last (k a)
    → EndsWith last (m >>= k)
>>=-EndsWith (lines, ok a') k a last returns (before, ends) = (
  lines ++ before,
  ap (λ x. lines ++ (k x).0) (ok-injective returns)
      ∙ ap (λ ls. lines ++ ls) ends
      ∙ sym (append_assoc lines before last),
)
>>=-EndsWith (lines, raise e) k a last returns ends = absurd (cc returns)
