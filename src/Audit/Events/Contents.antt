-- ===== src/Audit/Events/Contents.antt =====
-- Which event a record of `parse_token_exchange_events` comes from.
use gekko.Base.{
  String, Option, none, some, List, [], ◌∷◌, ◌≡◌, ◌↔◌, ◌⊎◌, ap, inl, inr, refl, sym, ◌∙◌, arith,
  string_eq, pair_eq, Option-cases,
}
use gekko.Base.Dict.{lookup}
use gekko.Python.Errors.{Result, ok, raise, ◌>>=◌, type_error, key_error, get_or_raise}
use gekko.Python.Json.{Json, null, str}
use gekko.Audit.Loki.{Entry}
use gekko.Audit.Latest.{put, fill, fill_step, LastNamed, lookup-fill_named}
use gekko.Audit.Events.{
  Issue, Issues, kv_extract, event_key, record_event, add_event, add_events,
  parse_token_exchange_events,
}

abbrev Key : Type 0
Key = String × String

-- The event has a raw line that names the token and the audience, and the issue is what it says.
abbrev pub Names : Key → Issue → Entry → Type 0
Names key issue e =
    (line : String) × (ts : Json) × (lookup "_raw" e ≡ some (str line))
    × (event_key line ≡ some key)
    × (lookup "_ts_ns" e ≡ some ts)
    × (issue ≡ record { sub = kv_extract line "userId"; ts_ns = ts })

line_says : Entry → String → Result (Option (Key × Issue))
line_says e line = elim (event_key line) [
  | none ↦ ok none
  | some key ↦ get_or_raise key_error (lookup "_ts_ns" e) >>= λ ts.
      ok (some (key, record { sub = kv_extract line "userId"; ts_ns = ts }))
]

raw_says : Entry → Option Json → Result (Option (Key × Issue))
raw_says e none = ok none
raw_says e (some null) = ok none
raw_says e (some (str line)) = line_says e line
raw_says e (some _) = raise type_error

abbrev says : Entry → Result (Option (Key × Issue))
says e = raw_says e (lookup "_raw" e)

record_event-line_says :
    (r : Issues) (e : Entry) (line : String)
    → record_event r e line ≡ (line_says e line >>= λ o. ok (put o r))
unfolding record_event line_says
record_event-line_says r e line = ground arith

add_event-says : (r : Issues) (e : Entry) → add_event r e ≡ (says e >>= λ o. ok (put o r))
unfolding add_event raw_says
add_event-says r e = go (lookup "_raw" e) refl
  where
    go : (o : Option Json) → lookup "_raw" e ≡ o → add_event r e ≡ (says e >>= λ o. ok (put o r))
    go none p = rw (add_event, p) refl
    go (some null) p = rw (add_event, p) refl
    go (some (str line)) p = rw (add_event, p) (record_event-line_says r e line)
    go (some _) p = rw (add_event, p) refl

add_events-fill : (r : Issues) (es : List Entry) → add_events r es ≡ fill says r es
unfolding add_events
add_events-fill r [] = refl
add_events-fill r (e ∷ es) =
    rw (add_event-says r e)
      (fill_step says r es (says e) (λ r'. add_events r' es) (λ r'. add_events-fill r' es))

line_says-Names :
    (key : Key) (issue : Issue) (e : Entry) (line : String)
    → line_says e line ≡ ok (some (key, issue))
    → (ts : Json) × (event_key line ≡ some key)
      × (lookup "_ts_ns" e ≡ some ts)
      × (issue ≡ record { sub = kv_extract line "userId"; ts_ns = ts })
unfolding line_says
line_says-Names key issue e line h = elim (Option-cases (event_key line)) [
  | inl none_named ↦ absurd (ground arith)
  | inr (k, named) ↦ elim (Option-cases (lookup "_ts_ns" e)) [
    | inl missing ↦ absurd (ground arith)
    | inr (ts, timed) ↦ (ts, ground arith, timed, ground arith)
  ]
]

says-Names :
    (key : Key) (issue : Issue) (e : Entry) → says e ≡ ok (some (key, issue)) → Names key issue e
unfolding raw_says
says-Names key issue e h = go (lookup "_raw" e) refl h
  where
    go :
        (o : Option Json)
        → lookup "_raw" e ≡ o
        → raw_says e o ≡ ok (some (key, issue))
        → Names key issue e
    go none p said = absurd (cc said)
    go (some null) p said = absurd (cc said)
    go (some (str line)) p said =
        let (ts, named, timed, same) = line_says-Names key issue e line said in
        (line, ts, p, named, timed, same)
    go (some _) p said = absurd (cc said)

Names-says :
    (key : Key) (issue : Issue) (e : Entry) → Names key issue e → says e ≡ ok (some (key, issue))
unfolding raw_says line_says
Names-says key issue e (line, ts, raw, named, timed, same) = rw raw (ground arith)

-- The entry has no raw line, or a raw line that is a text and a time.
abbrev pub IsEvent : Entry → Type 0
IsEvent e =
    (lookup "_raw" e ≡ none)
    ⊎ ((line : String) × (ts : Json) × (lookup "_raw" e ≡ some (str line))
        × (lookup "_ts_ns" e ≡ some ts))

abbrev pub AreEvents : List Entry → Type 0
AreEvents [] = Unit
AreEvents (e ∷ es) = IsEvent e × AreEvents es

line_says-total :
    (e : Entry) (line : String) (ts : Json)
    → lookup "_ts_ns" e ≡ some ts
    → (o : Option (Key × Issue)) × (line_says e line ≡ ok o)
unfolding line_says
line_says-total e line ts timed = elim (Option-cases (event_key line)) [
  | inl unnamed ↦ (none, rw (line_says, unnamed) refl)
  | inr (key, named) ↦ (
    some (key, record { sub = kv_extract line "userId"; ts_ns = ts }),
    rw (line_says, named, timed) refl,
  )
]

says-total : (e : Entry) → IsEvent e → (o : Option (Key × Issue)) × (says e ≡ ok o)
unfolding raw_says
says-total e (inl without) = (none, rw without refl)
says-total e (inr (line, ts, raw, timed)) = rw raw (line_says-total e line ts timed)

fill-total :
    (r : Issues) (es : List Entry) → AreEvents es → (r' : Issues) × (fill says r es ≡ ok r')
fill-total r [] _ = (r, refl)
fill-total r (e ∷ es) (is, are) =
    let (o, said) = says-total e is in
    let (r', rest) = fill-total (put o r) es are in
    (r', ap (λ m. m >>= λ p. fill says (put p r) es) said ∙ rest)

pub parse-total :
    (kc_logs : List Entry)
    → AreEvents kc_logs
    → (records : Issues) × (parse_token_exchange_events kc_logs ≡ ok records)
unfolding parse_token_exchange_events
parse-total kc_logs are =
    let (records, filled) = fill-total [] kc_logs are in
    (records, add_events-fill [] kc_logs ∙ filled)

-- Where the events are read without an exception, the record of a token and an audience is the
-- one of the last event that names both: its `userId` and its time.
pub parse-LastNamed_iff :
    (kc_logs : List Entry) (records : Issues) (key : Key) (issue : Issue)
    → parse_token_exchange_events kc_logs ≡ ok records
    → (lookup key records ≡ some issue) ↔ LastNamed Names key issue kc_logs
unfolding parse_token_exchange_events
parse-LastNamed_iff kc_logs records key issue h =
    lookup-fill_named Names says (λ k v x. (says-Names k v x, Names-says k v x)) key issue records
      kc_logs (sym (add_events-fill [] kc_logs) ∙ h)
