-- ===== src/Detection/Run.antt =====
-- A run of the employee service, whose lines the audit reads from Loki.
use mathlib.Core.List.{append-nil}
use gekko.Base.{ℕ, String, none, some, List, [], ◌∷◌, ◌≡◌, ◌⊎◌, inr, refl, ap, string_eq}
use gekko.Base.Dict.{lookup}
use gekko.Python.Errors.{ok}
use gekko.Python.Json.{ℤ, str, obj}
use gekko.Python.Integers.{int_of_text}
use gekko.EmployeeService.Request.{Request, Libraries}
use gekko.EmployeeService.Employee.{App, Readings, AccessLog, log_fields, serve}
use gekko.EmployeeService.Employee.Named.{HasTextClaims, IsNamed, serve-IsNamed}
use gekko.Audit.Loki.{Entry, Source, Stream, read_values, read_streams, query_loki, default_limit}
use gekko.Audit.Issuance.{used_jti}
use gekko.Audit.Issuance.Uses.{IsText, HasTextUses}
use gekko.Detection.Line.{entry_of, read_value-log_fields}
use gekko.Detection.Token.{service_name}

-- A request with the line that it has left, and what Loki has of that line: a time stamp and a text,
-- from which `json.loads` gives back the object that was printed.
pub record Served (L : Libraries) (app : App) (src : Source) : Type 0 where
  pub req : Request
  pub readings : Readings
  pub log : AccessLog
  pub logged : (serve L app req readings).0 ≡ log ∷ []
  pub texts : HasTextClaims L app req readings
  pub ts_ns : String
  pub ts : ℕ
  pub timed : int_of_text ts_ns ≡ some ts
  pub line : String
  pub loaded : src.loads line ≡ some (obj (log_fields log))

module _ {L : Libraries} {app : App} {src : Source} where
  -- The stream in which Loki has the lines, and the entries that stand for them.
  abbrev pub values_of : List (Served L app src) → List (String × String)
  values_of [] = []
  values_of (s ∷ ss) = (s.ts_ns, s.line) ∷ values_of ss

  abbrev pub stream_of : List (Served L app src) → Stream
  stream_of ss = record { service = some service_name; values = values_of ss }

  abbrev pub entries_of : List (Served L app src) → List Entry
  entries_of [] = []
  entries_of (s ∷ ss) = entry_of s.log s.ts service_name ∷ entries_of ss

  read_values-entries_of :
      (ss : List (Served L app src))
      → read_values src (some service_name) (values_of ss) ≡ ok (entries_of ss)
  unfolding read_values
  read_values-entries_of [] = refl
  read_values-entries_of (s ∷ ss) =
      rw
        (
          read_value-log_fields src s.log service_name s.ts_ns s.line s.ts s.loaded s.timed,
          read_values-entries_of ss,
        )
        refl

  pub query_loki-entries_of :
      (ss : List (Served L app src)) (q : String) (a b : ℤ)
      → src.query_range q a b default_limit ≡ some (stream_of ss ∷ [])
      → query_loki src q a b default_limit ≡ ok (entries_of ss)
  unfolding query_loki read_streams
  query_loki-entries_of ss q a b reply =
      rw (query_loki, reply, read_values-entries_of ss)
        (ap (λ es. ok es) (append-nil (entries_of ss)))

-- An entry with texts for its token and its service is one that `check2` can read.
module _ (e : Entry) where
  uses_texts :
      (jti service : String)
      → lookup "jti" e ≡ some (str jti)
      → lookup "_service" e ≡ some (str service)
      → (used_jti e ≡ none) ⊎ (IsText (lookup "jti" e) × IsText (lookup "_service" e))
  uses_texts jti service named called = inr (rw named tt, rw called tt)

module _ {L : Libraries} {app : App} {src : Source} where
  Served-IsNamed : (s : Served L app src) → IsNamed s.log.sub × IsNamed s.log.jti
  Served-IsNamed s = serve-IsNamed L app s.req s.readings s.log s.texts s.logged

  pub entries_of-HasTextUses : (ss : List (Served L app src)) → HasTextUses (entries_of ss)
  unfolding lookup string_eq
  entries_of-HasTextUses [] = tt
  entries_of-HasTextUses (s ∷ ss) =
      let (_, (jti, named)) = Served-IsNamed s in
      (
        uses_texts (entry_of s.log s.ts service_name) jti service_name (ap (λ v. some v) named)
            refl,
        entries_of-HasTextUses ss,
      )
