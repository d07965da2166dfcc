-- ===== src/Audit/Output/Quiet.antt =====
-- audit/audit.py: a run that prints neither an error nor a warning had complete replies of Loki.
use gekko.Base.{
  ℕ, ◌<◌, String, Bool, true, false, some, List, [], ◌∷◌, ◌++◌, length, leb, ◌≡◌, refl, inl, inr,
  arith, Option-cases, Bool-cases,
}
use gekko.Python.Errors.{ok, raise, Result-cases}
use gekko.Python.Json.{ℤ}
use gekko.Audit.Loki.{Entry, Source, Stream, read_streams}
use gekko.Audit.Output.{
  Line, Printing, ◌>>=◌, print_query, count_entries, query_failed, limit_reached,
}
use gekko.Audit.Output.Laws.{outcome}

-- The lines for the standard error.
abbrev pub is_trouble : Line → Bool
is_trouble query_failed = true
is_trouble (limit_reached n) = true
is_trouble _ = false

-- Nothing is printed there.
abbrev pub Quiet : List Line → Type 0
Quiet [] = Unit
Quiet (l ∷ ls) = (is_trouble l ≡ false) × Quiet ls

Quiet-append : (ls ls' : List Line) → Quiet (ls ++ ls') → Quiet ls × Quiet ls'
Quiet-append [] ls' q = (tt, q)
Quiet-append (l ∷ ls) ls' (here, q) = let (a, b) = Quiet-append ls ls' q in ((here, a), b)

-- The computation returns this value, and is quiet.
abbrev pub Runs : {A : Type 0} → Printing A → A → Type 0
Runs m a = (outcome m ≡ ok a) × Quiet m.0

pub >>=-Runs :
    {A B : Type 0} (m : Printing A) (k : A → Printing B) (b : B)
    → Runs (m >>= k) b
    → (a : A) × Runs m a × Runs (k a) b
>>=-Runs (lines, ok a) k b (returns, quiet) =
    let (before, after) = Quiet-append lines (k a).0 quiet in (a, (refl, before), (returns, after))
>>=-Runs (lines, raise e) k b (returns, quiet) = absurd (cc returns)

-- Loki answered the query, and with fewer entries than the limit.
abbrev pub Answered : Source → String → ℤ → ℤ → ℕ → Type 0
Answered src logql start_ns end_ns limit =
    (streams : List Stream) × (src.query_range logql start_ns end_ns limit ≡ some streams)
    × ((entries : List Entry) × (read_streams src streams ≡ ok entries) × (length entries < limit))

count_entries-short :
    (limit : ℕ) (entries : List Entry)
    → Quiet (count_entries limit entries).0
    → length entries < limit
count_entries-short limit entries quiet = elim (Bool-cases (leb limit (length entries))) [
  | inl full ↦ let (_, (bad, _)) = rw full at quiet in absurd (cc bad)
  | inr short ↦ ground arith
]

pub print_query-Answered :
    (src : Source) (logql : String) (start_ns end_ns : ℤ) (limit : ℕ) (es : List Entry)
    → Runs (print_query src logql start_ns end_ns limit) es
    → Answered src logql start_ns end_ns limit
unfolding print_query
print_query-Answered src logql start_ns end_ns limit es (returns, quiet) =
    elim (Option-cases (src.query_range logql start_ns end_ns limit)) [
      | inl down ↦ let (_, (bad, _)) = rw (print_query, down) at quiet in absurd (cc bad)
      | inr (streams, reply) ↦ elim (Result-cases (read_streams src streams)) [
        | inr (e, failed) ↦
            let never = rw (print_query, reply, failed) at returns in absurd (cc never)
        | inl (entries, got) ↦ (
          streams,
          reply,
          (
            entries,
            got,
            count_entries-short limit entries (rw (print_query, reply, got) at quiet).1,
          ),
        )
      ]
    ]
