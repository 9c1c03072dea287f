-- ===== src/Entry/Codes.antt =====
-- The exit codes.
use salus_rs.Prelude.{
  ℕ, ◌≤◌, ◌≡◌, refl, sym, ◌∙◌, subst, ◌↔◌, inl, inr, Bool, true, false, some, List, arith, ltb,
  OsStr, ok, Result-cases, Option-cases, Bool-cases,
}
use salus_rs.Error.{
  AppError, failure, invalid_config, internal, exit_code, print_and_exit_code_with_quiet,
}
use salus_rs.Probe.{
  ProbeReport, enforce_max_latency, report_and_exit_code, report_and_exit_code_with_quiet,
}
use salus_rs.EnvExpand.{expand_argv_with_partial}
use salus_rs.Argv.Help.{help_or_version_args}
use salus_rs.Entry.{
  World, Cli, ClapError, error_exit, success_exit, clap_exit, run, run_exit, parse_and_run,
  main_entry,
}

-- 0 for healthy, 1 for unhealthy, 3 for a wrong use, 4 for an internal error.
pub data IsExitCode : ℕ → Type 0 where
  healthy : IsExitCode 0
  unhealthy : IsExitCode 1
  misused : IsExitCode 3
  broken : IsExitCode 4

-- No report, or one that keeps to the limit that it carries.
abbrev pub IsInTime : ProbeReport → Type 0
IsInTime report = (limit : ℕ) → report.options.max_latency ≡ some limit → report.elapsed ≤ limit

pub enforce_max_latency-IsInTime :
    (report r : ProbeReport) → enforce_max_latency report ≡ ok r → (r ≡ report) × IsInTime report
unfolding enforce_max_latency
enforce_max_latency-IsInTime report r h = elim (Option-cases report.options.max_latency) [
  | inl e ↦ (ground (arith, h, e), λ limit e'. absurd (cc (e, e')))
  | inr (limit, e) ↦ elim (Bool-cases (ltb limit report.elapsed)) [
    | inl late ↦ absurd (ground (arith, h, e, late))
    | inr in_time ↦ (ground (arith, h, e, in_time), λ limit' e'. ground (arith, in_time, e, e'))
  ]
]

IsInTime-enforce_max_latency :
    (report : ProbeReport) → IsInTime report → enforce_max_latency report ≡ ok report
unfolding enforce_max_latency
IsInTime-enforce_max_latency report h = elim (Option-cases report.options.max_latency) [
  | inl e ↦ ground (arith, e)
  | inr (limit, e) ↦
      let fits = h limit e in
      let in_time : ltb limit report.elapsed ≡ false = ground (arith, fits) in
      ground (arith, e, in_time)
]

module _ {Uri : Type 0} (w : World Uri) where
  error_exit-code :
      (error : AppError) (quiet : Bool) → (error_exit w error quiet).code ≡ exit_code error
  unfolding error_exit print_and_exit_code_with_quiet
  error_exit-code error true = refl
  error_exit-code error false = refl

  exit_code-IsExitCode : (error : AppError) → IsExitCode (exit_code error)
  unfolding exit_code
  exit_code-IsExitCode (failure m) = unhealthy
  exit_code-IsExitCode (invalid_config m) = misused
  exit_code-IsExitCode (internal m) = broken

  exit_code-ne : (error : AppError) → exit_code error ≡ 0 → ⊥
  unfolding exit_code
  exit_code-ne (failure m) e = omega (arith, e)
  exit_code-ne (invalid_config m) e = omega (arith, e)
  exit_code-ne (internal m) e = omega (arith, e)

  pub error_exit-fails : (error : AppError) (quiet : Bool) → (error_exit w error quiet).code ≡ 0 → ⊥
  error_exit-fails error quiet h = exit_code-ne error (sym (error_exit-code error quiet) ∙ h)

  pub success_exit-code : (report : ProbeReport) → (success_exit w report).code ≡ 0
  unfolding success_exit report_and_exit_code report_and_exit_code_with_quiet
  success_exit-code report = ground arith

  error_exit-IsExitCode :
      (error : AppError) (quiet : Bool) → IsExitCode (error_exit w error quiet).code
  error_exit-IsExitCode error quiet =
      subst IsExitCode (sym (error_exit-code error quiet)) (exit_code-IsExitCode error)

  run_exit-IsExitCode : (cli : Cli) → IsExitCode (run_exit w cli).code
  unfolding run_exit
  run_exit-IsExitCode cli = elim (Result-cases (run w cli)) [
    | inr (error, e) ↦ rw (e, run_exit) (error_exit-IsExitCode error cli.quiet)
    | inl (report, e) ↦ elim (Result-cases (enforce_max_latency report)) [
      | inr (error, e') ↦ rw (e, e', run_exit) (error_exit-IsExitCode error cli.quiet)
      | inl (r, e') ↦ rw (e, e', run_exit) (subst IsExitCode (sym (success_exit-code r)) healthy)
    ]
  ]

  clap_exit-IsExitCode :
      (error : ClapError) (quiet : Bool) → IsExitCode (clap_exit w error quiet).code
  unfolding clap_exit
  clap_exit-IsExitCode error quiet = elim (Bool-cases error.displays) [
    | inl e ↦ rw e healthy
    | inr e ↦ rw e misused
  ]

  parse_and_run-IsExitCode : (args : List OsStr) → IsExitCode (parse_and_run w args).code
  unfolding parse_and_run
  parse_and_run-IsExitCode args = elim (Result-cases (w.try_parse_from args)) [
    | inl (cli, e) ↦ rw (e, parse_and_run) (run_exit-IsExitCode cli)
    | inr (error, e) ↦ rw (e, parse_and_run) (clap_exit-IsExitCode error _)
  ]

  -- Whatever the arguments and the world, the process ends with 0, 1, 3 or 4.
  pub main_entry-IsExitCode : (raw_args : List OsStr) → IsExitCode (main_entry w raw_args).code
  unfolding main_entry
  main_entry-IsExitCode raw_args = elim (Option-cases (help_or_version_args raw_args)) [
    | inr (args, e) ↦ rw (e, main_entry) (parse_and_run-IsExitCode args)
    | inl e ↦ elim (Result-cases (expand_argv_with_partial w.lookup raw_args)) [
      | inl (args, e') ↦ rw (e, e', main_entry) (parse_and_run-IsExitCode args)
      | inr (error, e') ↦ rw (e, e', main_entry) (error_exit-IsExitCode error.error _)
    ]
  ]

  healthy_report :
      (cli : Cli)
      → (run_exit w cli).code ≡ 0
      → (report : ProbeReport) × (run w cli ≡ ok report) × IsInTime report
  unfolding run_exit
  healthy_report cli h = elim (Result-cases (run w cli)) [
    | inr (error, e) ↦ absurd (error_exit-fails error cli.quiet (sym (rw (e, run_exit) refl) ∙ h))
    | inl (report, e) ↦ elim (Result-cases (enforce_max_latency report)) [
      | inr (error, e') ↦
          absurd (error_exit-fails error cli.quiet (sym (rw (e, e', run_exit) refl) ∙ h))
      | inl (r, e') ↦ (report, e, (enforce_max_latency-IsInTime report r e').1)
    ]
  ]

  -- A run of a probe ends with 0 exactly when the probe succeeds and keeps to the limit on its latency.
  pub run_exit_iff :
      (cli : Cli)
      → ((run_exit w cli).code ≡ 0)
        ↔ ((report : ProbeReport) × (run w cli ≡ ok report) × IsInTime report)
  unfolding run_exit
  run_exit_iff cli = (
    healthy_report cli,
    λ s.
        let in_time = IsInTime-enforce_max_latency s.0 s.2 in
        rw (s.1, in_time, run_exit) (success_exit-code s.0),
  )
