-- ===== src/Tests/Connections.antt =====
-- Tests of probes/tcp.rs.
use salus_rs.Prelude.{
  ◌*◌, ◌<◌, ◌≤◌, ◌≡◌, ◌↔◌, refl, arith, true, false, none, some, List, [], ◌∷◌, codes, ok, err,
  is_ipv6, parse_unsigned,
}
use salus_rs.Probe.{ProbeReport, ProbeOptions, deadline_after, with_probe_timeout}
use salus_rs.Validation.{validate_non_empty_str}
use salus_rs.Authority.{
  validate_authority, validate_authority_text, validate_bracketed_host,
  is_unbracketed_ipv6_authority, raw_host_is_empty, check_port, explicit_port, validate_port,
}
use salus_rs.Probes.Tcp.{
  Attempt, Resolver, connect, connect_loop, per_attempt_timeout, one_millisecond, validate_tcp_addr,
  run, run_inner,
}
use salus_rs.Probes.Tcp.Connected.{Connects, connect_loop_iff, per_attempt_timeout-bounds}
use salus_rs.Probes.Tcp.Reached.{IsReachable, run_iff}

abbrev attempts : List Attempt
attempts =
    record { addr = codes "10.0.0.1:80"; now = 0; takes = 5; result = err (codes "refused") }
    ∷ record { addr = codes "10.0.0.2:80"; now = 5; takes = 7; result = ok tt }
    ∷ []

connect_loop_iff_example :
    (connect_loop 3000000000 attempts none ≡ ok tt) ↔ Connects 3000000000 attempts
connect_loop_iff_example = connect_loop_iff 3000000000 attempts none

per_attempt_timeout-bounds_example :
    (one_millisecond ≤ per_attempt_timeout 3000000000 3)
    × (one_millisecond < per_attempt_timeout 3000000000 3
        → 3 * per_attempt_timeout 3000000000 3 ≤ 3000000000)
per_attempt_timeout-bounds_example =
    per_attempt_timeout-bounds 3000000000 3 (omega arith) (omega arith)

abbrev options : ProbeOptions
options = record { timeout = 3000000000; quiet = false; verbose = true; max_latency = some 10 }

abbrev resolver : Resolver
resolver = record { lookup = ok attempts; latest = 10000000000; now = 0 }

abbrev report : ProbeReport
report = record {
  mode = "tcp";
  target = codes "db:80";
  detail = some (codes "connected");
  elapsed = 12;
  options = options;
}

-- The first address refuses the connection, and the second takes it.
second_address : run (λ text. ok text) options (codes "db:80") resolver 12 true ≡ ok report
unfolding run run_inner validate_tcp_addr validate_non_empty_str validate_authority
    validate_authority_text validate_bracketed_host is_unbracketed_ipv6_authority is_ipv6
    raw_host_is_empty check_port explicit_port validate_port parse_unsigned with_probe_timeout
    deadline_after connect connect_loop per_attempt_timeout
second_address = refl

run_iff_example :
    ((r : ProbeReport) × (run (λ text. ok text) options (codes "db:80") resolver 12 true ≡ ok r))
    ↔ ((true ≡ true) × IsReachable (λ text. ok text) 3000000000 (codes "db:80") resolver)
run_iff_example = run_iff (λ text. ok text) options (codes "db:80") resolver 12 true
