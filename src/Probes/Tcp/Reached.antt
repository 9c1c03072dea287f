-- ===== src/Probes/Tcp/Reached.antt =====
-- When the TCP probe succeeds.
use salus_rs.Prelude.{
  ℕ, ◌+◌, ◌≤◌, ◌≡◌, ◌↔◌, refl, sym, subst, Bool, true, false, none, some, List, [], ◌∷◌, arith,
  is_nil, Text, codes, Result, ok, >>=-eq-ok, ok-injective, map_err, map_err-ok, refuse_if,
}
use salus_rs.Validation.{validate_non_empty_str}
use salus_rs.Authority.{required, as_display, validate_authority}
use salus_rs.Authority.Accepted.{IsAccepted, validate_authority_iff}
use salus_rs.Probe.InTime.{with_probe_timeout-ok, with_probe_timeout-in_time}
use salus_rs.Probe.{ProbeOptions, ProbeReport, deadline_after, with_probe_timeout}
use salus_rs.Probes.Tcp.{Attempt, Resolver, connect_loop, validate_tcp_addr, run_inner, run}
use salus_rs.Probes.Tcp.Connected.{Connects, connect_loop_iff}

-- The address is accepted and resolved, and one of its addresses is reached before a deadline that the
-- clock can hold.
pub record IsReachable (parse_authority : Text → Result Text Text) (timeout : ℕ) (addr : Text)
    (resolver : Resolver) : Type 0 where
  pub filled : validate_non_empty_str "--addr" addr ≡ ok tt
  pub host : Text
  pub accepted : IsAccepted parse_authority required addr host
  pub attempts : List Attempt
  pub resolved : resolver.lookup ≡ ok attempts
  pub in_range : resolver.now + timeout ≤ resolver.latest
  pub connects : Connects (resolver.now + timeout) attempts

abbrev pub tcp_report : ProbeOptions → Text → ℕ → ProbeReport
tcp_report options addr elapsed = record {
  mode = "tcp";
  target = addr;
  detail = some (codes "connected");
  elapsed = elapsed;
  options = options;
}

deadline_after-ok :
    (latest now timeout : ℕ) {deadline : ℕ}
    → deadline_after latest now timeout ≡ ok deadline
    → (now + timeout ≤ latest) × (deadline ≡ now + timeout)
unfolding deadline_after
deadline_after-ok latest now timeout h = ground arith

some_attempts :
    (deadline : ℕ) (attempts : List Attempt)
    → connect_loop deadline attempts none ≡ ok tt
    → is_nil attempts ≡ false
unfolding connect_loop
some_attempts deadline [] h = ground (arith, h)
some_attempts deadline (a ∷ attempts) h = refl

module _ (parse_authority : Text → Result Text Text) (options : ProbeOptions) (addr : Text)
    (resolver : Resolver) (elapsed : ℕ) where
  run_inner-IsReachable :
      (host : Text) {r : ProbeReport}
      → validate_non_empty_str "--addr" addr ≡ ok tt
      → IsAccepted parse_authority required addr host
      → run_inner parse_authority options addr resolver elapsed ≡ ok r
      → IsReachable parse_authority options.timeout addr resolver
        × (tcp_report options addr elapsed ≡ r)
  unfolding run_inner
  run_inner-IsReachable host filled accepted h =
      let (attempts, looked_up, h1) = >>=-eq-ok (map_err _ resolver.lookup) _ h in
      let (_, there, h2) = >>=-eq-ok (refuse_if (is_nil attempts) _) _ h1 in
      let (deadline, set, h3) =
        >>=-eq-ok (deadline_after resolver.latest resolver.now options.timeout) _ h2 in
      let (_, connected, h4) = >>=-eq-ok (map_err _ (connect_loop deadline attempts none)) _ h3 in
      let (in_range, same) = deadline_after-ok resolver.latest resolver.now options.timeout set in
      (
        record {
          filled = filled;
          host = host;
          accepted = accepted;
          attempts = attempts;
          resolved = map_err-ok _ resolver.lookup looked_up;
          in_range = in_range;
          connects =
              subst (λ d. Connects d attempts) same
                ((connect_loop_iff deadline attempts none).0
                  (map_err-ok _ (connect_loop deadline attempts none) connected));
        },
        ok-injective h4,
      )

  pub run-IsReachable :
      (in_time : Bool) {r : ProbeReport}
      → run parse_authority options addr resolver elapsed in_time ≡ ok r
      → (in_time ≡ true)
        × IsReachable parse_authority options.timeout addr resolver
        × (tcp_report options addr elapsed ≡ r)
  unfolding run validate_tcp_addr
  run-IsReachable in_time h =
      let (_, filled, h1) = >>=-eq-ok (validate_non_empty_str "--addr" addr) _ h in
      let (_, valid, h2) = >>=-eq-ok (validate_tcp_addr parse_authority addr) _ h1 in
      let (host, checked, h3) =
        >>=-eq-ok (validate_authority parse_authority addr "TCP address" required as_display) _
          valid in
      let (reachable, same) =
        run_inner-IsReachable host filled
          ((validate_authority_iff parse_authority addr "TCP address" required as_display host).0
            checked)
          (with_probe_timeout-ok "TCP" options.timeout in_time _ h2) in
      (with_probe_timeout-in_time "TCP" options.timeout in_time _ h2, reachable, same)

  pub run-reachable :
      IsReachable parse_authority options.timeout addr resolver
      → run parse_authority options addr resolver elapsed true
        ≡ ok (tcp_report options addr elapsed)
  unfolding run run_inner validate_tcp_addr with_probe_timeout deadline_after
  run-reachable r =
      let filled = r.filled in
      let resolved = r.resolved in
      let in_range = r.in_range in
      let valid =
        (validate_authority_iff parse_authority addr "TCP address" required as_display r.host).1
          r.accepted in
      let connected =
        (connect_loop_iff (resolver.now + options.timeout) r.attempts none).1 r.connects in
      let some_there = some_attempts (resolver.now + options.timeout) r.attempts connected in
      ground (arith, filled, valid, resolved, some_there, in_range, connected)

  -- The probe succeeds exactly when it is ready in time, its address is a host with a port that the
  -- checks accept, the name is resolved, the clock can hold the deadline, and one of the addresses
  -- connects within its share of the time that is left before the deadline.
  pub run_iff :
      (in_time : Bool)
      → ((r : ProbeReport) × (run parse_authority options addr resolver elapsed in_time ≡ ok r))
        ↔ ((in_time ≡ true) × IsReachable parse_authority options.timeout addr resolver)
  run_iff in_time = (
    λ s. let (ready, reached, same) = run-IsReachable in_time s.1 in (ready, reached),
    λ s. (
      tcp_report options addr elapsed,
      subst
          (λ b.
            run parse_authority options addr resolver elapsed b
            ≡ ok (tcp_report options addr elapsed))
          (sym s.0) (run-reachable s.1),
    ),
  )
