-- ===== src/Audit/Demo.antt =====
-- Logs and replies of Loki for the tests.
use gekko.Base.{String, some, List, [], ◌∷◌, ◌≡◌, refl, inl, inr, string_eq, pair_eq}
use gekko.Base.Dict.{lookup}
use gekko.Python.Errors.{ok}
use gekko.Python.Integers.{int_of_text}
use gekko.Python.Json.{ℤ, pos, str, int, obj, end, field}
use gekko.Audit.Loki.{
  Entry, Stream, Source, query_loki, default_limit, parsed, read_value, read_values, read_streams,
}
use gekko.Audit.Login.{user_of}
use gekko.Audit.Report.{Config}
use gekko.Audit.Report.Verdict.{Logs, Readable, Reads}

-- Both layers have used one token.
abbrev pub reused_stream : Stream
reused_stream = record { service = some "order-service"; values = ("7", "line") ∷ [] }

abbrev pub reused : Source
reused = record {
  query_range = λ q a b limit. some (reused_stream ∷ []);
  loads = λ line. some (obj (field "jti" (str "t1") end));
}

abbrev pub reused_log : List Entry
reused_log =
    (("jti", str "t1") ∷ ("_ts_ns", int (pos 7)) ∷ ("_service", str "order-service") ∷ []) ∷ []

pub reused_read : (q : String) (a b : ℤ) → query_loki reused q a b default_limit ≡ ok reused_log
unfolding query_loki read_streams read_values read_value parsed int_of_text lookup string_eq
reused_read q a b = refl

abbrev pub config : Config
config = record { window_seconds = 3600; exchange_lookback_seconds = 300 }

abbrev pub reused_logs : Logs
reused_logs = record {
  user_facing = reused_log;
  downstream = reused_log;
  uses = reused_log;
  events = reused_log;
  accesses = reused_log;
  logins = reused_log;
}

pub reused-Reads : Reads config reused 5 reused_logs
reused-Reads = record {
  user_facing = reused_read _ _ _;
  downstream = reused_read _ _ _;
  uses = reused_read _ _ _;
  events = reused_read _ _ _;
  accesses = reused_read _ _ _;
  logins = reused_read _ _ _;
}

pub reused-Readable : Readable reused_logs
unfolding lookup string_eq user_of
reused-Readable = record {
  user_facing = (tt, tt);
  downstream = (tt, tt);
  uses = (inr (tt, tt), tt);
  events = (inl refl, tt);
  accesses = (inl refl, tt);
  logins = (inl refl, tt);
}
