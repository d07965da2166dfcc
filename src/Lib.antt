-- ===== src/Lib.antt =====
-- The Python parts of gekko_05, an example of OAuth 2.0 token exchange (RFC 8693): the employee
-- service, which answers a request once its token and the proof of possession that may come with
-- it are verified, and the audit, which compares the access logs of all services with the events
-- of Keycloak. The two meet in the access log: `get_claims` leaves the subject and the identifier
-- of a token in the state of the request, the middleware prints them, and the audit reads them.
--
-- Base: shared names, equality as an instance, dicts as association lists.
-- Python: what the code uses of the language. Errors has exceptions as values, Json the values
--   that JSON texts stand for with the operations on values of unknown type, Text the operations
--   on texts, Base64 and Dumps the codecs, Integers signed numbers and `int` of a text, Floats the
--   rounding of 64-bit floats, Order the comparison of texts, Decimal `int` of what `str` makes of a
--   number, Sorting `sorted` with a key, Traverse a loop that may raise for an item, Environ and
--   Replace what their names say. The modules below Dumps are about reading a value back from its
--   JSON text.
-- EmployeeService.Encoding, .Dpop: employee-service/dpop.py. `validate_dpop` is `bound_to` and then
--   `validate_proof`, which reads the header (`read_proof`), holds its key against the token
--   (`check_key`) and its claims against the request (`check_claims`).
-- EmployeeService.Auth: employee-service/auth.py. `authenticate` is the part of `get_claims` that
--   may raise; `get_claims` also changes the state of the request. .Presented has what a request
--   has to bring.
-- EmployeeService.Employee: employee-service/main.py. `endpoint` is an endpoint with its dependency,
--   and `serve` is `access_log_middleware` around it. .Start: `lifespan`, which reads the
--   environment.
-- EmployeeService.Request: the request, and the record Libraries of what the service calls:
--   PyJWT, cryptography, SHA-256 and `json.loads`. What a theorem relies on of these is a
--   hypothesis of it, such as that a digest consists of bytes.
-- Audit.Loki, .Events, .Keys: `query_loki`, `kv_extract`, `parse_token_exchange_events` and the
--   queries of audit/audit.py. Loki and `json.loads` of a line are the record Source.
-- Audit.Bypass, .Issuance, .Login: `check1`, `check2` and `check3`, each as its loops over the
--   entries and its verdict, and `report1`, `report2` and `report3` with what they count and list;
--   the modules below them are about the dicts that the loops build. Audit.Latest is about loops
--   in which a later entry replaces an earlier one. Audit.Login.View has the logs of `check3` as
--   sets of entries, which is a quotient.
--   Audit.Report: `main` with its exit status; .Verdict puts the three checks together.
-- Audit.Clock: `ts_str`, by way of the float that the time stamp becomes. Audit.Output: the queries,
--   the checks and `main` once more, with their calls of `print`, in a monad that keeps the lines
--   until an exception; `print_check1` to `print_check3` and `print_run` are the whole functions, and
--   `check1` to `check3` and `run_checks` what they compute.
-- Scenario.Web: the addresses of audit/scenario.py, and a monad in which an action sends requests
--   over a network, prints lines and may raise. .Form: the regular expressions for the login form.
--   .Login: `do_login`, with .Responses for what it takes from each response; .Login.Protocol is
--   its specification as a relation on phases. .Steps: `call` and `run_scenario`. .Token and
--   .Bypass: `decode_jwt_claims` and `run_bypass_attempt`. .Run: `main` with its scenarios.
-- Detection: the programs together, from a request to the check over the line it leaves, from a run
--   of the employee service (.Run) to what `check2` says of its requests (.Vouched), from the exit
--   status of the audit back to a request whose line it has read (.Clean), and from the bypass of
--   the scenario to the exit status.
--
-- Loops over collections are recursions on lists, with no fuel. Two functions on numbers take fuel:
-- `decimal` in Python.Text takes one more than the number, which has fewer digits than that, and
-- `bits` in Python.Floats takes 128, where the numbers that a time stamp leads to have fewer than
-- 100 binary digits as long as `datetime` can show it.
-- JSON numbers are integers: a number with a fraction is not in the model. Times in the employee
-- service are in microseconds, where Python has seconds as a float. Where a log has a number or a
-- null in the place of an identifier, or no integer in the place of a time stamp, the model raises
-- `outside_model`, and so it does where a time before 1970 is shown. A time stamp of Loki consists
-- of decimal digits.
--
-- Not modelled: the layout of the printed lines, which are data; in the title of the report, the
-- two ends of the window and the address of Loki; what is printed elsewhere apart from the access
-- log and the lines of the scenario; and the services in other languages.
pub mod Base
pub mod Python
pub mod EmployeeService
pub mod Audit
pub mod Scenario
pub mod Detection
