-- ===== src/Detection/Vouched.antt =====
-- What a passing `check2` of audit/audit.py vouches for in a run of employee-service/main.py.
use gekko.Base.{string_eq, pair_eq}
use gekko.Base.Dict.{Dict}
use gekko.Python.Json.{Json}
