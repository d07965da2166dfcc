-- ===== src/Audit/Loki/Reads.antt =====
-- audit/audit.py: which entries `query_loki` makes of the lines in a reply.
use gekko.Base.{
  ℕ, String, Option, none, some, List, [], ◌∷◌, ◌++◌, ◌≡◌, refl, ◌∙◌, arith, string_eq, ◌==◌,
  if◌then◌else◌, Option-cases, inl, inr, ap, sym, ◌⊎◌,
}
use gekko.Base.Dict.{lookup}
use gekko.Python.Errors.{Result, ok, raise, ◌>>=◌, Result-cases}
use gekko.Python.Json.{ℤ, pos, Json, str, int, obj, Fields, entries}
use gekko.Python.Integers.{int_of_text}
use gekko.Audit.Loki.{
  Entry, Stream, Source, set_default, service_label, parsed, read_value, read_values, read_streams,
  query_loki,
}

-- A line of a reply, with the label of its stream and its time stamp.
pub record Line : Type 0 where
  pub service : Option String
  pub time : String
  pub text : String

-- The first of two values that is there.
abbrev pub first_of : Option Json → Option Json → Option Json
first_of none b = b
first_of (some v) b = some v

lookup-append :
    (k : String) (d d' : Entry) → lookup k (d ++ d') ≡ first_of (lookup k d) (lookup k d')
unfolding lookup
lookup-append k [] d' = refl
lookup-append k ((j, v) ∷ d) d' = ground (arith, lookup-append k d d')

first_of-none : (o : Option Json) → first_of o none ≡ o
first_of-none none = refl
first_of-none (some v) = refl

first_of_assoc : (a b c : Option Json) → first_of (first_of a b) c ≡ first_of a (first_of b c)
first_of_assoc none b c = refl
first_of_assoc (some v) b c = refl

lookup-one : (k j : String) (v : Json) → lookup k ((j, v) ∷ []) ≡ (if k == j then some v else none)
unfolding lookup
lookup-one k j v = refl

-- A key that is there already hides a default for it.
found_first :
    (k j : String) (v w : Json) (d : Entry)
    → lookup j d ≡ some w
    → lookup k d ≡ first_of (lookup k d) (lookup k ((j, v) ∷ []))
found_first k j v w d found = elim (string_eq.dec k j) [
  | yes same ↦ let there : lookup k d ≡ some w = ap (λ x. lookup x d) same ∙ found in rw there refl
  | no other ↦
      let nothing : lookup k ((j, v) ∷ []) ≡ none = ground (arith, lookup-one k j v) in
      rw nothing (sym (first_of-none (lookup k d)))
]

lookup-set_default :
    (k j : String) (v : Json) (d : Entry)
    → lookup k (set_default j v d) ≡ first_of (lookup k d) (lookup k ((j, v) ∷ []))
lookup-set_default k j v d = elim (Option-cases (lookup j d)) [
  | inl missing ↦ rw (set_default, missing) (lookup-append k d ((j, v) ∷ []))
  | inr (w, found) ↦ rw (set_default, found) (found_first k j v w d found)
]

-- What the entry has beside the members of the line.
abbrev pub defaults : Line → ℕ → Entry
defaults l ts = ("_ts_ns", int (pos ts)) ∷ ("_service", str (service_label l.service)) ∷ []

-- The lines of a reply, stream by stream.
unfoldable pub lines_of_values : Option String → List (String × String) → List Line
lines_of_values service [] = []
lines_of_values service ((ts_ns, line) ∷ vs) =
    record { service = service; time = ts_ns; text = line } ∷ lines_of_values service vs

unfoldable pub lines_of : List Stream → List Line
lines_of [] = []
lines_of (s ∷ ss) = lines_of_values s.service s.values ++ lines_of ss

module _ (src : Source) where
  -- The members of a line: of the object that it is, or itself where it is no JSON text.
  abbrev pub HasMembers : String → Entry → Type 0
  HasMembers text d =
      ((src.loads text ≡ none) × (d ≡ ("_raw", str text) ∷ []))
      ⊎ ((fs : Fields) × (src.loads text ≡ some (obj fs)) × (d ≡ entries fs))

  -- The line has members, and its time stamp is a number.
  pub record IsReadable (l : Line) : Type 0 where
    pub members : Entry
    pub has_members : HasMembers l.text members
    pub ts : ℕ
    pub time_read : int_of_text l.time ≡ some ts

  -- An entry has the members of the line, and behind them the defaults.
  abbrev pub IsEntryOf : (l : Line) → IsReadable l → Entry → Type 0
  IsEntryOf l r e =
      (k : String) → lookup k e ≡ first_of (lookup k r.members) (lookup k (defaults l r.ts))

  abbrev pub AreReadable : List Line → Type 0
  AreReadable [] = Unit
  AreReadable (l ∷ ls) = IsReadable l × AreReadable ls

  abbrev pub AreEntriesOf : (ls : List Line) → AreReadable ls → List Entry → Type 0
  AreEntriesOf [] rs [] = Unit
  AreEntriesOf [] rs (e ∷ es) = ⊥
  AreEntriesOf (l ∷ ls) rs [] = ⊥
  AreEntriesOf (l ∷ ls) (r, rs) (e ∷ es) = IsEntryOf l r e × AreEntriesOf ls rs es

  parsed-HasMembers : (text : String) (d : Entry) → HasMembers text d → parsed src text ≡ ok d
  unfolding parsed
  parsed-HasMembers text d (inl (none_loaded, raw)) = rw (parsed, none_loaded, raw) refl
  parsed-HasMembers text d (inr (fs, loaded, same)) = rw (parsed, loaded, same) refl

  read_value-IsEntryOf :
      (l : Line) (r : IsReadable l)
      → (e : Entry) × (read_value src l.service (l.time, l.text) ≡ ok e) × IsEntryOf l r e
  unfolding read_value
  read_value-IsEntryOf l r =
      let timed = int (pos r.ts) in
      let service = str (service_label l.service) in
      (
        set_default "_service" service (set_default "_ts_ns" timed r.members),
        rw (parsed-HasMembers l.text r.members r.has_members, r.time_read) refl,
        λ k.
            lookup-set_default k "_service" service (set_default "_ts_ns" timed r.members)
            ∙ ap (λ x. first_of x (lookup k (("_service", service) ∷ [])))
                (lookup-set_default k "_ts_ns" timed r.members)
            ∙ first_of_assoc (lookup k r.members) (lookup k (("_ts_ns", timed) ∷ []))
                (lookup k (("_service", service) ∷ []))
            ∙ ap (first_of (lookup k r.members))
                (sym (lookup-append k (("_ts_ns", timed) ∷ []) (("_service", service) ∷ []))),
      )

  -- The loop over the lines of all streams.
  read_lines : List Line → Result (List Entry)
  read_lines [] = ok []
  read_lines (l ∷ ls) = do
    e ← read_value src l.service (l.time, l.text)
    es ← read_lines ls
    ok (e ∷ es)

  append_step :
      (e : Entry) (here there : Result (List Entry))
      → ((here >>= λ es. there >>= λ es'. ok (es ++ es')) >>= λ es. ok (e ∷ es))
        ≡ ((here >>= λ es. ok (e ∷ es)) >>= λ es. there >>= λ es'. ok (es ++ es'))
  append_step e (ok es) (ok es') = refl
  append_step e (ok es) (raise x) = refl
  append_step e (raise x) there = refl

  ok_right : (there : Result (List Entry)) → there ≡ (there >>= λ es. ok es)
  ok_right (ok es) = refl
  ok_right (raise x) = refl

  read_lines-append :
      (ls ls' : List Line)
      → read_lines (ls ++ ls') ≡ (read_lines ls >>= λ es. read_lines ls' >>= λ es'. ok (es ++ es'))
  unfolding read_lines
  read_lines-append [] ls' = ok_right (read_lines ls')
  read_lines-append (l ∷ ls) ls' = elim (Result-cases (read_value src l.service (l.time, l.text))) [
    | inl (e, read) ↦
        rw (read, read_lines-append ls ls') (append_step e (read_lines ls) (read_lines ls'))
    | inr (x, failed) ↦ rw failed refl
  ]

  read_values-lines :
      (service : Option String) (vs : List (String × String))
      → read_values src service vs ≡ read_lines (lines_of_values service vs)
  unfolding read_values lines_of_values read_lines
  read_values-lines service [] = refl
  read_values-lines service (v ∷ vs) = rw (read_values-lines service vs) refl

  read_streams-lines : (ss : List Stream) → read_streams src ss ≡ read_lines (lines_of ss)
  unfolding read_streams lines_of read_lines
  read_streams-lines [] = refl
  read_streams-lines (s ∷ ss) =
      rw (read_lines-append (lines_of_values s.service s.values) (lines_of ss))
        (rw (read_values-lines s.service s.values, read_streams-lines ss) refl)

  read_lines-AreEntriesOf :
      (ls : List Line) (rs : AreReadable ls)
      → (es : List Entry) × (read_lines ls ≡ ok es) × AreEntriesOf ls rs es
  unfolding read_lines
  read_lines-AreEntriesOf [] rs = ([], refl, tt)
  read_lines-AreEntriesOf (l ∷ ls) (r, rs) =
      let (e, read, is_entry) = read_value-IsEntryOf l r in
      let (es, more, are_entries) = read_lines-AreEntriesOf ls rs in
      (e ∷ es, rw (read, more) refl, (is_entry, are_entries))

  -- Where each line of the reply is an object or no JSON text, and has a number as its time stamp,
  -- the query returns one entry for each line, in their order. An entry has the members of its
  -- line, and the time stamp and the label of the stream where the line has no member of its own
  -- under `_ts_ns` or `_service`.
  pub query_loki-AreEntriesOf :
      (logql : String) (start_ns end_ns : ℤ) (limit : ℕ) (streams : List Stream)
      → src.query_range logql start_ns end_ns limit ≡ some streams
      → (rs : AreReadable (lines_of streams))
      → (es : List Entry) × (query_loki src logql start_ns end_ns limit ≡ ok es)
        × AreEntriesOf (lines_of streams) rs es
  unfolding query_loki
  query_loki-AreEntriesOf logql start end limit streams replied rs =
      let (es, read, are_entries) = read_lines-AreEntriesOf (lines_of streams) rs in
      (es, rw (query_loki, replied) (read_streams-lines streams ∙ read), are_entries)
