-- ===== src/Detection/Bypass/Tests.antt =====
-- A run of the bypass attempt, and the audit of the log that it leaves.
use mathlib.Core.Path.{subst}
use mathlib.Core.Bool.{false≢true}
use text.Mathlib.TextEquality.{eq_iff}
use gekko.Base.{
  In, String, Option, none, some, List, [], ◌∷◌, ◌≡◌, ◌≢◌, inl, inr, refl, sym, ap, string_eq,
  pair_eq, ℕ_discrete,
}
use gekko.Base.Dict.{lookup}
use gekko.Python.Errors.{ok, >>=-eq-ok, get_or_raise, value_error, ◌>>=◌}
use gekko.Python.Environ.{Environ}
use gekko.Python.Json.{ℤ, pos, str, int, obj, Fields, entries, end, field}
use gekko.Python.Text.{split}
use gekko.Python.Base64.{decode}
use gekko.Python.Integers.{int_of_text}
use gekko.EmployeeService.Encoding.{b64url_decode}
use gekko.Audit.Loki.{
  Entry, Source, query_loki, default_limit, read_streams, read_values, read_value, parsed,
}
use gekko.Audit.Login.{user_of}
use gekko.Audit.Issuance.Uses.{UsedToken}
use gekko.Audit.Report.{Config, exit_status}
use gekko.Audit.Report.Verdict.{Logs, Readable, Reads}
use gekko.Scenario.Web.{Outgoing, Incoming, Net, State}
use gekko.Scenario.Token.{second_part, decode_jwt_claims}
use gekko.Scenario.Bypass.{inventory_request, run_bypass_attempt}
use gekko.Scenario.Bypass.Laws.{Obtained}
use gekko.Detection.Bypass.{inventory_name, HasJti, AreLogged, run_bypass_attempt_detected}

abbrev claims : Fields
claims = field "jti" (str "b1") end

abbrev answered : String → Incoming
answered token = record {
  status = 200;
  location = none;
  content = [];
  text = "";
  json = some (obj (field "access_token" (str token) end));
}

-- Keycloak answers with a token; nothing else answers.
abbrev answer : Outgoing → List Incoming → Option Incoming × List Incoming
answer q [] = (none, [])
answer q (r ∷ rs) = (some r, rs)

abbrev net : Net
net = record {
  World = List Incoming;
  send = answer;
  loads = λ bytes. some (obj claims);
  unescape = λ text. text;
}

abbrev env : Environ
env = λ key. none

abbrev st : State net
st = record { world = answered "e30.e30.s" ∷ []; sessions = 0; sent = []; printed = [] }

obtained : Obtained net env st.world (str "e30.e30.s")
unfolding lookup string_eq
obtained = (answered "e30.e30.s", [], refl, refl)

has_jti : HasJti net "e30.e30.s" "b1"
unfolding decode_jwt_claims b64url_decode decode split ℕ_discrete lookup string_eq
has_jti = (claims, refl, refl)

-- Loki has one line, for every query.
abbrev src : Source
src = record {
  query_range = λ q a b limit.
      some (record { service = some inventory_name; values = ("7", "line") ∷ [] } ∷ []);
  loads = λ line. some (obj claims);
}

abbrev log : List Entry
log = (("jti", str "b1") ∷ ("_ts_ns", int (pos 7)) ∷ ("_service", str inventory_name) ∷ []) ∷ []

read : (q : String) (a b : ℤ) → query_loki src q a b default_limit ≡ ok log
unfolding query_loki read_streams read_values read_value parsed int_of_text lookup string_eq
read q a b = refl

abbrev logs : Logs
logs = record {
  user_facing = log;
  downstream = log;
  uses = log;
  events = log;
  accesses = log;
  logins = log;
}

abbrev config : Config
config = record { window_seconds = 3600; exchange_lookback_seconds = 300 }

logs-Reads : Reads config src 5 logs
logs-Reads = record {
  user_facing = read _ _ _;
  downstream = read _ _ _;
  uses = read _ _ _;
  events = read _ _ _;
  accesses = read _ _ _;
  logins = read _ _ _;
}

logs-Readable : Readable logs
unfolding lookup string_eq user_of
logs-Readable = record {
  user_facing = (tt, tt);
  downstream = (tt, tt);
  uses = (inr (tt, tt), tt);
  events = (inl refl, tt);
  accesses = (inl refl, tt);
  logins = (inl refl, tt);
}

-- Every token here is the same one.
only_jti : (text jti : String) → HasJti net text jti → jti ≡ "b1"
unfolding decode_jwt_claims lookup string_eq
only_jti text jti (found, decoded, named) =
    let (payload, _, more) =
      >>=-eq-ok (second_part (split b'.' text))
        (λ p. b64url_decode p >>= λ bytes. get_or_raise value_error (net.loads bytes)) decoded in
    let (bytes, _, rest) =
      >>=-eq-ok (b64url_decode payload) (λ bs. get_or_raise value_error (net.loads bs)) more in
    let same : obj claims ≡ obj found = cc rest in
    let fields : claims ≡ found = cc same in cc (ap (λ fs. lookup "jti" (entries fs)) fields, named)

full : ◌≢◌ {A = String} "b1" ""
full p = false≢true ((eq_iff "b1" "").1 p)

dash : ◌≢◌ {A = String} "b1" "-"
dash p = false≢true ((eq_iff "b1" "-").1 p)

used : UsedToken ("b1", inventory_name) logs.uses
unfolding lookup string_eq
used = inl (refl, full, dash, refl)

tokens-AreLogged : AreLogged net env ((run_bypass_attempt net env st).1).sent logs.uses
tokens-AreLogged text jti there has =
    subst (λ j. UsedToken (j, inventory_name) logs.uses) (sym (only_jti text jti has)) used

run_bypass_attempt_detected_example :
    In (inventory_request env "e30.e30.s") ((run_bypass_attempt net env st).1).sent
    × (exit_status config src 5 ≡ 1)
unfolding lookup string_eq
run_bypass_attempt_detected_example =
    run_bypass_attempt_detected net env st "e30.e30.s" "b1" config src 5 logs obtained has_jti
      logs-Reads logs-Readable tokens-AreLogged ((λ issue (line, ts, raw, _, _, _). cc), tt)
