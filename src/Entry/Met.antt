-- ===== src/Entry/Met.antt =====
-- Which calls end with 0.
use salus_rs.Prelude.{
  ℕ, ◌+◌, ◌<◌, ◌≤◌, ◌≡◌, refl, sym, ◌∙◌, ap, subst, true, some, none, Option, List, arith, map, any,
  Bytes, OsStr, ok,
}
use salus_rs.Validation.{validate_positive_duration}
use salus_rs.Probe.{ProbeOptions, ProbeReport, deadline_after}
use salus_rs.Probes.Http.Args.{HttpArgs, has_body_assertions}
use salus_rs.Probes.Http.Evaluate.Decided.{Decided}
use salus_rs.Probes.Http.Evaluate.Accepted.{IsReadable, run-accepted_response}
use salus_rs.Probes.Tcp.Reached.{IsReachable, run-reachable}
use salus_rs.Probes.Grpc.Accepted.{IsAvailable, run-available}
use salus_rs.Probes.Exec.Args.{ExecArgs, success_codes, is_code, validate_exec_args}
use salus_rs.Probes.Exec.Config.{configured}
use salus_rs.Probes.Exec.Child.{System, exited}
use salus_rs.Probes.Exec.Child.Accepted.{Shows, run-accepted}
use salus_rs.Probes.File.{chunk, validate_file_args}
use salus_rs.Probes.File.Contents.{contents}
use salus_rs.Probes.File.Healthy.{IsHealthy, run-IsHealthy}
use salus_rs.Entry.{
  World, Cli, ProbeCommand, http, tcp, grpc, exec, file, options_from, run_command,
  check_max_latency, run, parse_and_run, main_entry,
}
use salus_rs.Entry.Codes.{IsInTime, run_exit_iff}
use salus_rs.Entry.Contract.{IsRead, asked, expanded}
use salus_rs.Entry.Reports.{run_command-Carries}

-- The command runs, ends with an accepted code, and shows the required texts.
pub record IsAccepted (options : ProbeOptions) (args : ExecArgs) (system : System) : Type 0 where
  pub program : OsStr
  pub code : ℕ
  pub valid : validate_exec_args args ≡ ok program
  pub spawned : system.spawn (configured args program) ≡ ok tt
  pub in_range : system.now + options.timeout ≤ system.latest
  pub exits : system.wait ≡ exited code
  pub accepted : any (is_code code) (success_codes args) ≡ true
  pub stdout : Shows args.max_output args.stdout_contains system.stdout
  pub stderr : Shows args.max_output args.stderr_contains system.stderr

module _ {Uri : Type 0} (w : World Uri) (chunks : List Bytes) where
  -- A response decides the call, and its body can be read where something is asked of it.
  pub record IsAnswered (args : HttpArgs) : Type 0 where
    pub decided : Decided w.library w.webpki w.user_agent args w.network
    pub readable : has_body_assertions args ≡ true → IsReadable args decided.response

  -- What the system has to show to a probe.
  abbrev pub Meets : ProbeOptions → ProbeCommand → Type 0
  Meets options (http args) = IsAnswered args
  Meets options (tcp addr) = IsReachable w.library.parse_authority options.timeout addr w.resolver
  Meets options (grpc args) = IsAvailable w.grpc w.webpki args options.timeout
  Meets options (exec args) = IsAccepted options args w.exec
  Meets options (file args) =
      (validate_file_args args ≡ ok tt) × IsHealthy args w.file (contents chunks)

  -- A call whose probe has what it asks for, in time.
  pub record IsMet (cli : Cli) : Type 0 where
    pub some_time : 0 < cli.timeout
    pub in_range : w.now + cli.timeout ≤ w.latest
    pub in_time : w.in_time ≡ true
    pub some_limit : (limit : ℕ) → cli.max_latency ≡ some limit → 0 < limit
    pub fast : (limit : ℕ) → cli.max_latency ≡ some limit → w.elapsed ≤ limit
    pub meets : Meets (options_from cli) cli.command

  module _ (reads : w.file.reads ≡ map chunk chunks) (ready : w.in_time ≡ true) where
    run_command-Meets :
        (options : ProbeOptions) (command : ProbeCommand)
        → Meets options command
        → (r : ProbeReport) × (run_command w options command ≡ ok r)
    unfolding run_command
    run_command-Meets options (http args) m = rw ready (
      _,
      run-accepted_response w.library w.webpki w.user_agent options args w.network w.elapsed
          m.decided m.readable,
    )
    run_command-Meets options (tcp addr) m =
        rw ready (_, run-reachable w.library.parse_authority options addr w.resolver w.elapsed m)
    run_command-Meets options (grpc args) m =
        rw ready (run-available w.grpc w.webpki args w.library.render options w.elapsed m)
    run_command-Meets options (exec args) m = (
      _,
      run-accepted w.library.render options args w.exec w.elapsed m.program m.code m.valid m.spawned
          m.in_range m.exits m.accepted m.stdout m.stderr,
    )
    run_command-Meets options (file args) m =
        (run-IsHealthy w.library.render options args w.file chunks w.elapsed w.in_time reads).1
          (m.0, ready, m.1)

  check_max_latency-passes :
      (max_latency : Option ℕ)
      → ((limit : ℕ) → max_latency ≡ some limit → 0 < limit)
      → check_max_latency w max_latency ≡ ok tt
  unfolding check_max_latency validate_positive_duration
  check_max_latency-passes none h = refl
  check_max_latency-passes (some limit) h = ground (arith, h limit refl)

  module _ (reads : w.file.reads ≡ map chunk chunks) where
    run-IsMet : (cli : Cli) → IsMet cli → (r : ProbeReport) × (run w cli ≡ ok r) × IsInTime r
    unfolding run validate_positive_duration deadline_after options_from
    run-IsMet cli m =
        let some_time = m.some_time in
        let in_range = m.in_range in
        let limited = check_max_latency-passes cli.max_latency m.some_limit in
        let (r, ran) = run_command-Meets reads m.in_time (options_from cli) cli.command m.meets in
        let (options, elapsed) = run_command-Carries w (options_from cli) cli.command ran in
        (
          r,
          ground (arith, some_time, in_range, limited, ran),
          λ limit e.
              subst (λ t. t ≤ limit) (sym elapsed)
                (m.fast limit (sym (ap (λ o. o.max_latency) options) ∙ e)),
        )

    -- With a file whose reads do not fail, the process ends with 0 if the arguments are a call whose
    -- probe is ready in time, within the limits that it sets, and has what it asks for: a healthy
    -- response that can be read, a name that is reached, a server that says SERVING, a command that ends
    -- as it should, or a file that meets every requirement.
    pub main_entry-IsMet :
        {raw_args args : List OsStr} {cli : Cli}
        → IsRead w raw_args args
        → w.try_parse_from args ≡ ok cli
        → IsMet cli
        → (main_entry w raw_args).code ≡ 0
    unfolding main_entry parse_and_run
    main_entry-IsMet {cli = cli} (asked e) parsed m =
        rw (e, parsed, parse_and_run, main_entry) ((run_exit_iff w cli).1 (run-IsMet cli m))
    main_entry-IsMet {cli = cli} (expanded e e') parsed m =
        rw (e, e', parsed, parse_and_run, main_entry) ((run_exit_iff w cli).1 (run-IsMet cli m))
