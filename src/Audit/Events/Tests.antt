-- ===== src/Audit/Events/Tests.antt =====
-- An event of Keycloak, and the theorems about events at it.
use gekko.Base.{String, some, [], ◌∷◌, ◌≡◌, ◌↔◌, refl, string_eq, pair_eq, ℕ_discrete}
use gekko.Base.Dict.{lookup, insert}
use gekko.Python.Errors.{ok}
use gekko.Python.Json.{pos, str, int}
use gekko.Python.Text.{◌<>◌}
use gekko.Audit.Loki.{Entry}
use gekko.Audit.Events.{
  kv_extract, parse_token_exchange_events, Issues, Issue, strip_prefix, find_after, quoted_value,
  take_value, ends_value, add_events, add_event, record_event,
}
use gekko.Audit.Events.Extract.{kv_extract_quoted}
use gekko.Audit.Latest.{LastNamed}
use gekko.Audit.Events.Contents.{Names, parse-LastNamed_iff}

abbrev pub event : Entry
event =
    (
      "_raw",
      str "type=\"TOKEN_EXCHANGE\", token_id=\"t1\", audience=\"order-service\", userId=\"u1\"",
    )
    ∷ ("_ts_ns", int (pos 5))
    ∷ ("_service", str "keycloak")
    ∷ []

abbrev pub issue : Issue
issue = record { sub = some "u1"; ts_ns = int (pos 5) }

abbrev pub issued : Issues
issued = (("t1", "order-service"), issue) ∷ []

pub parsed_event : parse_token_exchange_events (event ∷ []) ≡ ok issued
unfolding parse_token_exchange_events add_events add_event record_event kv_extract find_after
    strip_prefix quoted_value take_value ends_value ℕ_discrete string_eq lookup insert
parsed_event = refl

-- The exchange of a token for the employee service.
abbrev pub exchange_line : String
exchange_line =
    "type=\"TOKEN_EXCHANGE\", token_id=\"j2\", audience=\"employee-service\", userId=\"s2\""

abbrev pub exchange : Entry
exchange = ("_raw", str exchange_line) ∷ ("_ts_ns", int (pos 5)) ∷ ("_service", str "keycloak") ∷ []

abbrev pub exchange_issue : Issue
exchange_issue = record { sub = some "s2"; ts_ns = int (pos 5) }

pub parsed_exchange :
    parse_token_exchange_events (exchange ∷ [])
    ≡ ok ((("j2", "employee-service"), exchange_issue) ∷ [])
unfolding parse_token_exchange_events add_events add_event record_event kv_extract find_after
    strip_prefix quoted_value take_value ends_value ℕ_discrete string_eq lookup insert
parsed_exchange = refl

parse-LastNamed_iff_example :
    (lookup ("t1", "order-service") issued ≡ some issue)
    ↔ LastNamed Names ("t1", "order-service") issue (event ∷ [])
parse-LastNamed_iff_example =
    parse-LastNamed_iff (event ∷ []) issued ("t1", "order-service") issue parsed_event

-- The value of another field, whose name ends in the key.
kv_extract_quoted_example :
    kv_extract ("subject_" <> (("token_id" <> "=") <> ("\"" <> ("x" <> ("\"" <> ""))))) "token_id"
    ≡ some "x"
unfolding strip_prefix ends_value ℕ_discrete
kv_extract_quoted_example =
    kv_extract_quoted "subject_" "token_id" "x" "" (refl, tt)
      (refl, (refl, (refl, (refl, (refl, (refl, (refl, (refl, tt))))))))
