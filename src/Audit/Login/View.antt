-- ===== src/Audit/Login/View.antt =====
-- audit/audit.py: what `check3` says of two logs, as a function of the sets of their entries.
use mathlib.Core.Quot
use mathlib.Core.Quot.{Quot}
use gekko.Base.{Bool, List, ◌≡◌, ◌∙◌, sym}
use gekko.Python.Errors.{ok, ok-injective}
use gekko.Audit.Loki.{Entry}
use gekko.Audit.Login.{verdict3}
use gekko.Audit.Login.Entries.{NamesAccesses, NamesLogins}
use gekko.Audit.Login.Laws.{verdict3-total}
use gekko.Audit.Login.Order.{SameEntries, verdict3-SameEntries}

-- The two logs, in which every entry names somebody as it should, or nobody.
pub record LoginLogs : Type 0 where
  pub svc_logs : List Entry
  pub kc_logs : List Entry
  pub accesses : NamesAccesses svc_logs
  pub logins : NamesLogins kc_logs

-- The entries are the same, in whatever order and number.
abbrev pub SameLogs : LoginLogs → LoginLogs → Type 0
SameLogs x y = SameEntries x.svc_logs y.svc_logs × SameEntries x.kc_logs y.kc_logs

-- Logs up to order and number: the two sets of their entries.
abbrev pub LogSets : Type 0
LogSets = Quot SameLogs

abbrev pub sets_of : LoginLogs → LogSets
sets_of = Quot.mk

passed : LoginLogs → Bool
passed x = (verdict3-total x.svc_logs x.kc_logs x.accesses x.logins).0

verdict3-passed : (x : LoginLogs) → verdict3 x.svc_logs x.kc_logs ≡ ok (passed x)
unfolding passed
verdict3-passed x = (verdict3-total x.svc_logs x.kc_logs x.accesses x.logins).1

passed-SameLogs : (x y : LoginLogs) → SameLogs x y → passed x ≡ passed y
passed-SameLogs x y (same_svc, same_kc) = ok-injective (
    sym (verdict3-passed x)
    ∙ verdict3-SameEntries x.svc_logs y.svc_logs x.kc_logs y.kc_logs x.accesses x.logins same_svc
        same_kc
    ∙ verdict3-passed y)

-- The verdict on two sets of entries.
pub verdict_on : LogSets → Bool
verdict_on = Quot.lift (hlevel) passed passed-SameLogs

-- The verdict on logs, in which every access names nobody, or a subject with a time and a service,
-- and every login nobody, or a user with a time, is there, and it is a function of the sets of their
-- entries: logs with the same entries are the same sets, and what is computed from the logs is the
-- value of the function on their sets.
pub verdict3_refines :
    (logs : LoginLogs)
    → (verdict3 logs.svc_logs logs.kc_logs ≡ ok (verdict_on (sets_of logs)))
      × ((other : LoginLogs) → SameLogs logs other → sets_of logs ≡ sets_of other)
unfolding verdict_on
verdict3_refines logs = (verdict3-passed logs, λ other same. Quot.sound same)
