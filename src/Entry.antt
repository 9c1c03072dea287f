-- ===== src/Entry.antt =====
-- lib.rs and probes/mod.rs: from the raw arguments to the exit code.
pub mod Codes
pub mod Reports
pub mod Contract
pub mod Silent
pub mod Met
use salus_rs.Prelude.{
  ℕ, String, Bool, true, false, not, ◌||◌, Option, none, some, List, [], ◌∷◌, if◌then◌else◌, Text,
  Bytes, OsStr, Result, ok, err, ◌>>=◌, ◌>>◌,
}
use salus_rs.Error.{AppError, AppResult, Message, display, print_and_exit_code_with_quiet}
use salus_rs.Validation.{validate_positive_duration}
use salus_rs.Probe.{
  ProbeOptions, ProbeReport, enforce_max_latency, deadline_after, report_and_exit_code,
}
use salus_rs.Output.{format_success}
use salus_rs.EnvExpand.{ExpandArgvError, expand_argv_with_partial}
use salus_rs.Argv.{with_raw_tail}
use salus_rs.Argv.Help.{help_or_version_args}
use salus_rs.Argv.Quiet.{requests_quiet}
use salus_rs.Probes.Http.Args.{HttpArgs}
use salus_rs.Probes.Http.Target.{UriLibrary}
use salus_rs.Probes.Http.Evaluate.{Network}
use salus_rs.Probes.Tcp.{Resolver}
use salus_rs.Probes.Grpc.{GrpcArgs, GrpcSystem}
use salus_rs.Probes.Exec.Args.{ExecArgs}
use salus_rs.Probes.Exec.Child.{System}
use salus_rs.Probes.File.{FileArgs, FileSystem}
use salus_rs.Probes.Http.Evaluate
use salus_rs.Probes.Tcp
use salus_rs.Probes.Grpc
use salus_rs.Probes.Exec.Child
use salus_rs.Probes.File

-- `Command` of cli.rs; the TCP probe has one argument.
pub data ProbeCommand : Type 0 where
  http : HttpArgs → ProbeCommand
  tcp : Text → ProbeCommand
  grpc : GrpcArgs → ProbeCommand
  exec : ExecArgs → ProbeCommand
  file : FileArgs → ProbeCommand

pub record Cli : Type 0 where
  pub timeout : ℕ
  pub max_latency : Option ℕ
  pub quiet : Bool
  pub verbose : Bool
  pub command : ProbeCommand

-- `ProbeOptions::from`
unfoldable pub options_from : Cli → ProbeOptions
options_from cli = record {
  timeout = cli.timeout;
  quiet = cli.quiet;
  verbose = cli.verbose;
  max_latency = cli.max_latency;
}

-- An error of clap: whether it is the text of the help or the version, and what it prints.
pub record ClapError : Type 0 where
  pub displays : Bool
  pub text : Text

-- What lies outside: the environment, clap's parser, the URI library, and the systems that the probes
-- ask. `in_time` says whether a probe is ready before its timeout, `elapsed` how long it took.
pub record World (Uri : Type 0) : Type 0 where
  pub lookup : Text → AppResult (Option Text)
  pub try_parse_from : List OsStr → Result ClapError Cli
  pub library : UriLibrary Uri
  pub webpki : Bool
  pub user_agent : Bytes
  pub network : Network Uri
  pub resolver : Resolver
  pub grpc : GrpcSystem
  pub exec : System
  pub file : FileSystem
  pub latest : ℕ
  pub now : ℕ
  pub elapsed : ℕ
  pub in_time : Bool

-- What goes to the standard output and to the standard error, and the exit code.
pub record Exit : Type 0 where
  pub stdout : Option Message
  pub stderr : Option Message
  pub code : ℕ

module _ {Uri : Type 0} (w : World Uri) where
  -- `probes::run`
  unfoldable pub run_command : ProbeOptions → ProbeCommand → AppResult ProbeReport
  run_command options (http args) =
      Evaluate.run w.library w.webpki w.user_agent options args w.network w.elapsed w.in_time
  run_command options (tcp addr) =
      Tcp.run w.library.parse_authority options addr w.resolver w.elapsed w.in_time
  run_command options (grpc args) =
      Grpc.run w.grpc w.webpki w.library.render options args w.elapsed w.in_time
  run_command options (exec args) = (Child.run w.library.render options args w.exec w.elapsed).0
  run_command options (file args) =
      File.run w.library.render options args w.file w.elapsed w.in_time

  check_max_latency : Option ℕ → AppResult Unit
  check_max_latency none = ok tt
  check_max_latency (some max_latency) = validate_positive_duration "--max-latency" max_latency

  unfoldable pub run : Cli → AppResult ProbeReport
  unfolding check_max_latency
  run cli = do
    validate_positive_duration "--timeout" cli.timeout
    deadline ← deadline_after w.latest w.now cli.timeout
    check_max_latency cli.max_latency
    run_command (options_from cli) cli.command

  unfoldable pub error_exit : AppError → Bool → Exit
  error_exit error quiet =
      let (line, code) = print_and_exit_code_with_quiet error quiet in
      record { stdout = none; stderr = line; code = code }

  unfoldable pub success_exit : ProbeReport → Exit
  success_exit report =
      let (line, code) = report_and_exit_code report in
      record {
        stdout = none;
        stderr = elim line [ none ↦ none | some success ↦ some (format_success success) ];
        code = code;
      }

  unfoldable pub clap_exit : ClapError → Bool → Exit
  clap_exit error quiet_requested =
      let line = some (display error.text ∷ []) in
      if error.displays
      then record { stdout = line; stderr = none; code = 0 }
      else record { stdout = none; stderr = if quiet_requested then none else line; code = 3 }

  -- `run(&cli)`, and the verdict on its report.
  unfoldable pub run_exit : Cli → Exit
  run_exit cli = elim (run cli) [
    | err error ↦ error_exit error cli.quiet
    | ok report ↦ elim (enforce_max_latency report) [
      | err error ↦ error_exit error cli.quiet
      | ok report ↦ success_exit report
    ]
  ]

  -- Behind the expansion.
  unfoldable pub parse_and_run : List OsStr → Exit
  parse_and_run args = elim (w.try_parse_from args) [
    | err error ↦ clap_exit error (requests_quiet args)
    | ok cli ↦ run_exit cli
  ]

  unfoldable pub main_entry : List OsStr → Exit
  main_entry raw_args = elim (help_or_version_args raw_args) [
    | some args ↦ parse_and_run args
    | none ↦ elim (expand_argv_with_partial w.lookup raw_args) [
      | ok args ↦ parse_and_run args
      | err error ↦
          error_exit error.error (requests_quiet (with_raw_tail error.partial_args error.raw_tail))
    ]
  ]
