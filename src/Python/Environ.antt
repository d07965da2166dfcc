-- ===== src/Python/Environ.antt =====
-- `os.environ`
use gekko.Base.{String, Option, none, some}

abbrev pub Environ : Type 0
Environ = String → Option String

-- `os.environ.get(key, fallback)`
abbrev pub environ_get : Environ → String → String → String
environ_get env key fallback = elim (env key) [ none ↦ fallback | some v ↦ v ]
