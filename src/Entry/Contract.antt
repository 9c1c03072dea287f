-- ===== src/Entry/Contract.antt =====
-- What the exit code 0 promises.
use salus_rs.Prelude.{
  ℕ, ◌+◌, ◌<◌, ◌≤◌, ◌≡◌, refl, sym, ap, ◌∙◌, subst, none, some, List, arith, map, true, Bytes,
  OsStr, ok, err, >>=-eq-ok, Result-cases, Option-cases, Bool-cases, inl, inr,
}
use salus_rs.Validation.{validate_positive_duration}
use salus_rs.Probe.{ProbeOptions, ProbeReport, deadline_after}
use salus_rs.EnvExpand.{expand_argv_with_partial}
use salus_rs.Argv.{with_raw_tail}
use salus_rs.Argv.Quiet.{requests_quiet}
use salus_rs.Argv.Help.{help_or_version_args}
use salus_rs.Probes.Http.Evaluate.Decided.{Decided, run-Decided}
use salus_rs.Probes.Tcp.Reached.{IsReachable, run-IsReachable}
use salus_rs.Probes.Grpc.Serving.{IsServing, run-IsServing}
use salus_rs.Probes.Exec.Child.Succeeded.{Succeeded, run-Succeeded}
use salus_rs.Probes.File.{chunk}
use salus_rs.Probes.File.Contents.{contents}
use salus_rs.Probes.File.Healthy.{IsHealthy, run-IsHealthy}
use salus_rs.Entry.{
  World, Cli, ClapError, ProbeCommand, http, tcp, grpc, exec, file, options_from, run_command,
  check_max_latency, run, run_exit, clap_exit, error_exit, parse_and_run, main_entry,
}
use salus_rs.Entry.Codes.{IsInTime, run_exit_iff, error_exit-fails}
use salus_rs.Entry.Reports.{run_command-Carries}

module _ {Uri : Type 0} (w : World Uri) where
  -- The arguments that are parsed: the raw ones if they ask for help or the version, or the expanded.
  pub data IsRead (raw_args args : List OsStr) : Type 0 where
    asked : help_or_version_args raw_args ≡ some args → IsRead raw_args args
    expanded :
        help_or_version_args raw_args ≡ none
        → expand_argv_with_partial w.lookup raw_args ≡ ok args
        → IsRead raw_args args

module _ {Uri : Type 0} (w : World Uri) (chunks : List Bytes) where
  -- What each probe promises of the system that it asks; `chunks` are the reads of the file.
  abbrev pub Promise : ProbeOptions → ProbeCommand → Type 0
  Promise options (http args) = Decided w.library w.webpki w.user_agent args w.network
  Promise options (tcp addr) = IsReachable w.library.parse_authority options.timeout addr w.resolver
  Promise options (grpc args) = IsServing w.grpc w.webpki args options.timeout
  Promise options (exec args) = Succeeded w.library.render options args w.exec w.elapsed
  Promise options (file args) = IsHealthy args w.file (contents chunks)

  -- What a call promises whose process ends with 0.
  pub record IsKept (cli : Cli) : Type 0 where
    pub promise : Promise (options_from cli) cli.command
    pub some_time : 0 < cli.timeout
    pub in_range : w.now + cli.timeout ≤ w.latest
    pub in_time : (limit : ℕ) → cli.max_latency ≡ some limit → w.elapsed ≤ limit

  module _ (reads : w.file.reads ≡ map chunk chunks) where
    run_command-Promise :
        (options : ProbeOptions) (command : ProbeCommand) {r : ProbeReport}
        → run_command w options command ≡ ok r
        → Promise options command
    unfolding run_command
    run_command-Promise options (http args) h =
        run-Decided w.library w.webpki w.user_agent options args w.network w.elapsed w.in_time h
    run_command-Promise options (tcp addr) h =
        let (_, reached, _) =
          run-IsReachable w.library.parse_authority options addr w.resolver w.elapsed w.in_time h in
        reached
    run_command-Promise options (grpc args) h =
        run-IsServing w.grpc w.webpki args w.library.render options w.elapsed w.in_time h
    run_command-Promise options (exec args) h =
        run-Succeeded w.library.render options args w.exec w.elapsed h
    run_command-Promise options (file args) {r} h =
        ((run-IsHealthy w.library.render options args w.file chunks w.elapsed w.in_time reads).0
          (r, h)).2

    run-IsKept :
        (cli : Cli) {report : ProbeReport} → run w cli ≡ ok report → IsInTime report → IsKept cli
    unfolding run validate_positive_duration deadline_after options_from
    run-IsKept cli {report} h limited =
        let (_, positive, h1) =
          >>=-eq-ok (validate_positive_duration "--timeout" cli.timeout) _ h in
        let (deadline, set, h2) = >>=-eq-ok (deadline_after w.latest w.now cli.timeout) _ h1 in
        let (_, checked, h3) = >>=-eq-ok (check_max_latency w cli.max_latency) _ h2 in
        let (options, elapsed) = run_command-Carries w (options_from cli) cli.command h3 in
        record {
          promise = run_command-Promise (options_from cli) cli.command h3;
          some_time = ground (arith, positive);
          in_range = ground (arith, set);
          in_time = λ limit e.
              subst (λ t. t ≤ limit) elapsed (limited limit (ap (λ o. o.max_latency) options ∙ e));
        }

  -- Why a process ends with 0.
  pub data Contract (raw_args : List OsStr) : Type 0 where
    shown :
        {args : List OsStr} {error : ClapError}
        → IsRead w raw_args args
        → w.try_parse_from args ≡ err error
        → error.displays ≡ true
        → Contract raw_args
    kept :
        {args : List OsStr} {cli : Cli}
        → IsRead w raw_args args
        → w.try_parse_from args ≡ ok cli
        → IsKept cli
        → Contract raw_args

  module _ (reads : w.file.reads ≡ map chunk chunks) where
    parse_and_run-Contract :
        {raw_args args : List OsStr}
        → IsRead w raw_args args
        → (parse_and_run w args).code ≡ 0
        → Contract raw_args
    unfolding parse_and_run clap_exit
    parse_and_run-Contract {raw_args} {args} read h = elim (Result-cases (w.try_parse_from args)) [
      | inl (cli, e) ↦
          let code : (run_exit w cli).code ≡ 0 = sym (rw (e, parse_and_run) refl) ∙ h in
          let (report, ran, limited) = (run_exit_iff w cli).0 code in
          kept read e (run-IsKept reads cli ran limited)
      | inr (error, e) ↦ elim (Bool-cases error.displays) [
        | inl displays ↦ shown read e displays
        | inr other ↦ absurd (ground (arith, h, e, other))
      ]
    ]

    -- A process ends with 0 only if the arguments, as given or expanded, ask for help or the version, or
    -- if they are a call whose probe kept its promise within the limit on its latency: a healthy
    -- response, a connection, a serving service, an accepted run of the command, or a file as it is
    -- asked for, where the reads of the file do not fail.
    pub main_entry-Contract :
        (raw_args : List OsStr) → (main_entry w raw_args).code ≡ 0 → Contract raw_args
    unfolding main_entry error_exit
    main_entry-Contract raw_args h = elim (Option-cases (help_or_version_args raw_args)) [
      | inr (args, e) ↦ parse_and_run-Contract (asked e) (sym (rw (e, main_entry) refl) ∙ h)
      | inl e ↦ elim (Result-cases (expand_argv_with_partial w.lookup raw_args)) [
        | inl (args, e') ↦
            parse_and_run-Contract (expanded e e') (sym (rw (e, e', main_entry) refl) ∙ h)
        | inr (error, e') ↦
            let quiet = requests_quiet (with_raw_tail error.partial_args error.raw_tail) in
            absurd (error_exit-fails w error.error quiet (sym (rw (e, e', main_entry) refl) ∙ h))
      ]
    ]
