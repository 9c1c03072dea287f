-- ===== src/Probe/InTime.antt =====
-- A probe that gives a report was ready in time.
use salus_rs.Prelude.{ℕ, String, ◌≡◌, refl, Bool, true, false, none, some, arith, if◌then◌else◌, ok}
use salus_rs.Error.{AppResult}
use salus_rs.Probe.{ProbeReport, with_probe_timeout}

pub with_probe_timeout-ok :
    (label : String) (timeout : ℕ) (in_time : Bool) (result : AppResult ProbeReport)
    {r : ProbeReport}
    → with_probe_timeout label timeout (if in_time then some result else none) ≡ ok r
    → result ≡ ok r
unfolding with_probe_timeout
with_probe_timeout-ok label timeout true result h = h
with_probe_timeout-ok label timeout false result h = ground arith

pub with_probe_timeout-in_time :
    (label : String) (timeout : ℕ) (in_time : Bool) (result : AppResult ProbeReport)
    {r : ProbeReport}
    → with_probe_timeout label timeout (if in_time then some result else none) ≡ ok r
    → in_time ≡ true
unfolding with_probe_timeout
with_probe_timeout-in_time label timeout true result h = refl
with_probe_timeout-in_time label timeout false result h = ground arith
