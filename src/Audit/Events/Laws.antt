-- ===== src/Audit/Events/Laws.antt =====
-- The records that `parse_token_exchange_events` returns have the keys of the events.
use gekko.Base.{
  String, true, Option, none, some, List, [], ◌∷◌, ◌≡◌, ◌↔◌, ◌⊎◌, inl, inr, ◌≢◌, sym, ◌∙◌, refl,
  arith, string_eq, pair_eq, Option-cases,
}
use gekko.Base.Dict.{lookup, insert, lookup-insert}
use gekko.Python.Errors.{ok, >>=-eq-ok}
use gekko.Python.Json.{Json, null, str, is_some}
use gekko.Audit.Loki.{Entry}
use gekko.Audit.Events.{
  Issue, Issues, kv_extract, event_key, record_event, add_event, add_events,
  parse_token_exchange_events,
}

-- The entry is an event of Keycloak with this token id and this audience.
abbrev pub Records : String × String → Entry → Type 0
Records key e = (line : String) × (lookup "_raw" e ≡ some (str line)) × (event_key line ≡ some key)

abbrev pub Recorded : String × String → List Entry → Type 0
Recorded key [] = ⊥
Recorded key (e ∷ es) = Records key e ⊎ Recorded key es

record_event-lookup :
    (key : String × String) (r r' : Issues) (e : Entry) (line : String)
    → record_event r e line ≡ ok r'
    → (is_some (lookup key r') ≡ true)
      ↔ ((is_some (lookup key r) ≡ true) ⊎ (event_key line ≡ some key))
unfolding record_event
record_event-lookup key r r' e line h = go (event_key line) refl
  where
    go :
        (o : Option (String × String))
        → event_key line ≡ o
        → (is_some (lookup key r') ≡ true)
          ↔ ((is_some (lookup key r) ≡ true) ⊎ (event_key line ≡ some key))
    go none p = let same : r' ≡ r = ground arith in rw same (ground arith)
    go (some k) p = elim (Option-cases (lookup "_ts_ns" e)) [
      | inl missing ↦ absurd (ground arith)
      | inr (ts, found) ↦
          let issue : Issue = record { sub = kv_extract line "userId"; ts_ns = ts } in
          let new : r' ≡ insert k issue r = ground arith in
          rw new (ground (arith, lookup-insert key k issue r))
    ]

add_event-lookup :
    (key : String × String) (r r' : Issues) (e : Entry)
    → add_event r e ≡ ok r'
    → (is_some (lookup key r') ≡ true) ↔ ((is_some (lookup key r) ≡ true) ⊎ Records key e)
unfolding add_event
add_event-lookup key r r' e h = go (lookup "_raw" e) refl
  where
    unread :
        (o : Option Json)
        → r' ≡ r
        → lookup "_raw" e ≡ o
        → ((line : String) → o ≢ some (str line))
        → (is_some (lookup key r') ≡ true) ↔ ((is_some (lookup key r) ≡ true) ⊎ Records key e)
    unread o same p none_read = rw same (
      λ q. inl q,
      elim [ inl old ↦ old | inr (line, q, _) ↦ absurd (none_read line (sym p ∙ q)) ],
    )

    go :
        (o : Option Json)
        → lookup "_raw" e ≡ o
        → (is_some (lookup key r') ≡ true) ↔ ((is_some (lookup key r) ≡ true) ⊎ Records key e)
    go none p = unread none (ground arith) p (λ l q. ground arith)
    go (some (str line)) p =
        let (to, from) = record_event-lookup key r r' e line (ground arith) in
        (
          λ q. elim (to q) [ inl old ↦ inl old | inr new ↦ inr (line, p, new) ],
          elim [ inl old ↦ from (inl old) | inr (line', p', new) ↦ from (inr (ground arith)) ],
        )
    go (some null) p = unread (some null) (ground arith) p (λ l q. ground arith)
    go (some _) p = absurd (ground arith)

add_events-lookup :
    (key : String × String) (r r' : Issues) (es : List Entry)
    → add_events r es ≡ ok r'
    → (is_some (lookup key r') ≡ true) ↔ ((is_some (lookup key r) ≡ true) ⊎ Recorded key es)
unfolding add_events
add_events-lookup key r r' [] h = ground arith
add_events-lookup key r r' (e ∷ es) h =
    let (r1, added, rest) = >>=-eq-ok (add_event r e) (λ y. add_events y es) h in
    ground (arith, add_event-lookup key r r1 e added, add_events-lookup key r1 r' es rest)

-- Where the events are read without an exception, a token and an audience have a record exactly
-- when the raw line of some event names both.
pub parse-Recorded_iff :
    (kc_logs : List Entry) (records : Issues) (key : String × String)
    → parse_token_exchange_events kc_logs ≡ ok records
    → (is_some (lookup key records) ≡ true) ↔ Recorded key kc_logs
unfolding parse_token_exchange_events lookup
parse-Recorded_iff kc_logs records key h =
    ground (arith, add_events-lookup key [] records kc_logs h)

pub parse_token_exchange_events_nil : parse_token_exchange_events [] ≡ ok []
unfolding parse_token_exchange_events add_events
parse_token_exchange_events_nil = refl
