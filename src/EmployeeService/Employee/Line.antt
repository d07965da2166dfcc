-- ===== src/EmployeeService/Employee/Line.antt =====
-- employee-service/main.py: the line that is printed for a request.
use gekko.Base.{String, ◌≡◌, string_eq}
use gekko.Python.Json.{Json, obj, Fields, field}
use gekko.Python.Dumps.Printable.{AllPrintable, dumps-AllPrintable}
use gekko.Python.Dumps.Injective.{dumps-injective}
use gekko.EmployeeService.Employee.{AccessLog, log_fields, log_text}

fields-injective :
    (j k : String) (v w : Json) (fs gs : Fields) → field j v fs ≡ field k w gs → (v ≡ w) × (fs ≡ gs)
fields-injective j k v w fs gs h = (cc h, cc h)

log_fields-injective : (l l' : AccessLog) → log_fields l ≡ log_fields l' → l ≡ l'
unfolding log_fields
log_fields-injective l l' h =
    let method : l.method ≡ l'.method = cc h in
    let path : l.path ≡ l'.path = cc h in
    let status : l.status ≡ l'.status = cc h in
    let duration_ms : l.duration_ms ≡ l'.duration_ms = cc h in
    let sub : l.sub ≡ l'.sub = cc h in
    let jti : l.jti ≡ l'.jti = cc h in
    let trace_id : l.trace_id ≡ l'.trace_id = cc h in
    λ i. record {
      method = method i;
      path = path i;
      status = status i;
      duration_ms = duration_ms i;
      sub = sub i;
      jti = jti i;
      trace_id = trace_id i;
    }

-- A line of the access log determines the method, path, status, duration, subject, token and trace
-- of its request: entries with the same line are the same, whatever texts a request puts in them.
pub log_text-injective : (l l' : AccessLog) → log_text l ≡ log_text l' → l ≡ l'
unfolding log_text
log_text-injective l l' h =
    let objects = dumps-injective (obj (log_fields l)) (obj (log_fields l')) h in
    log_fields-injective l l' (cc objects)

-- The bytes of a line are printable characters of ASCII: no text in a request begins another line.
log_text-AllPrintable : (l : AccessLog) → AllPrintable (log_text l)
unfolding log_text
log_text-AllPrintable l = dumps-AllPrintable (obj (log_fields l))
