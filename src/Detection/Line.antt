-- ===== src/Detection/Line.antt =====
-- A line of the access log of employee-service/main.py, as audit/audit.py reads it from Loki.
use gekko.Base.{ℕ, String, some, [], ◌∷◌, ◌≡◌, arith, string_eq}
use gekko.Base.Dict.{lookup}
use gekko.Python.Errors.{ok}
use gekko.Python.Json.{pos, str, int, obj}
use gekko.Python.Integers.{int_of_text}
use gekko.EmployeeService.Employee.{AccessLog, log_fields}
use gekko.Audit.Loki.{Entry, Source, parsed, read_value}

-- The entry that the audit makes of a line: the members, the time and the service.
abbrev pub entry_of : AccessLog → ℕ → String → Entry
entry_of log ts service =
    ("type", str "access_log")
    ∷ ("method", str log.method)
    ∷ ("path", str log.path)
    ∷ ("status", int (pos log.status))
    ∷ ("duration_ms", int (pos log.duration_ms))
    ∷ ("sub", log.sub)
    ∷ ("jti", log.jti)
    ∷ ("trace_id", str log.trace_id)
    ∷ ("_ts_ns", int (pos ts))
    ∷ ("_service", str service)
    ∷ []

-- Where `json.loads` reads the line as the object that was printed, the audit has all of its
-- members, with the label of the service and the time beside them.
pub read_value-log_fields :
    (src : Source) (log : AccessLog) (service ts_ns line : String) (ts : ℕ)
    → src.loads line ≡ some (obj (log_fields log))
    → int_of_text ts_ns ≡ some ts
    → read_value src (some service) (ts_ns, line) ≡ ok (entry_of log ts service)
unfolding read_value parsed log_fields lookup string_eq
read_value-log_fields src log service ts_ns line ts loaded time = ground arith
