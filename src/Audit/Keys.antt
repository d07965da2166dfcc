-- ===== src/Audit/Keys.antt =====
-- Values that serve as keys of dicts, and the queries' services.
use gekko.Base.{String}
use gekko.Python.Errors.{Result, ok, raise, type_error, outside_model}
use gekko.Python.Json.{Json, str, arr, obj}
use gekko.Python.Text.{◌<>◌}

-- A text is a key; arrays and objects cannot be hashed; numbers and `None` are left out.
abbrev pub text_key : Json → Result String
text_key (str s) = ok s
text_key (arr _) = raise type_error
text_key (obj _) = raise type_error
text_key _ = raise outside_model

abbrev pub user_facing_services : String
user_facing_services = "frontend|order-service"

abbrev pub downstream_services : String
downstream_services = "inventory-service|warehouse-service|employee-service"

abbrev pub exchanged_token_services : String
exchanged_token_services = "order-service|inventory-service|warehouse-service|employee-service"

-- The query for the access logs of some services.
unfoldable pub access_logs_of : String → String
access_logs_of services = "{service=~\"" <> (services <> "\"} | json | type = \"access_log\"")
