-- ===== src/Audit/Login/Before.antt =====
-- audit/audit.py: an access before the login makes `check3` fail.
use gekko.Base.{String, false, List, ◌≡◌, refl, inl, inr, Bool-cases}
use gekko.Python.Errors.{ok}
use gekko.Python.Json.{ℤ}
use gekko.Python.Integers.{◌≤ℤ◌}
use gekko.Audit.Loki.{Entry, Source, query_loki, default_limit}
use gekko.Audit.Login.{all_access_query, login_query, check3}
use gekko.Audit.Login.Entries.{Accessed, LoggedIn, AnyEntry, NamesAccesses, NamesLogins}
use gekko.Audit.Login.Laws.{verdict3-true_iff, verdict3-total}

-- An access of a subject who has a login, but none that is as early, on what the two queries
-- return.
pub check3_before :
    (src : Source) (start_ns end_ns : ℤ) (svc_logs kc_logs : List Entry) (s : String) (a l : ℤ)
    → query_loki src all_access_query start_ns end_ns default_limit ≡ ok svc_logs
    → query_loki src login_query start_ns end_ns default_limit ≡ ok kc_logs
    → NamesAccesses svc_logs
    → NamesLogins kc_logs
    → AnyEntry (Accessed s a) svc_logs
    → AnyEntry (LoggedIn s l) kc_logs
    → ((earlier : ℤ) → AnyEntry (LoggedIn s earlier) kc_logs → ¬ (earlier ≤ℤ a))
    → check3 src start_ns end_ns ≡ ok false
unfolding check3
check3_before src start end svc kc s a l svc_read kc_read accesses logged accessed login late =
    let (passed, judged) = verdict3-total svc kc accesses logged in
    rw (svc_read, kc_read, judged)
      (elim (Bool-cases passed) [
        | inr bad ↦ rw bad refl
        | inl good ↦
            let to = (verdict3-true_iff svc kc accesses logged).0 in
            let (earlier, p, le) = to (cc (judged, good)) s a l accessed login in
            absurd (late earlier p le)
      ])
