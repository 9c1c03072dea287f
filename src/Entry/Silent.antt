-- ===== src/Entry/Silent.antt =====
-- When a run prints nothing.
use salus_rs.Prelude.{
  ℕ, ◌≡◌, refl, ◌∙◌, ap, ◌↔◌, ◌⊎◌, inl, inr, Bool, true, false, none, arith, ok, Result-cases,
  through,
}
use salus_rs.Error.{AppError, print_and_exit_code_with_quiet}
use salus_rs.Validation.{validate_positive_duration}
use salus_rs.Probe.{
  ProbeReport, Carries, deadline_after, enforce_max_latency, report_and_exit_code,
  report_and_exit_code_with_quiet,
}
use salus_rs.Entry.{
  World, Cli, options_from, check_max_latency, run, run_exit, success_exit, error_exit,
}
use salus_rs.Entry.Codes.{enforce_max_latency-IsInTime, error_exit-fails, success_exit-code}
use salus_rs.Entry.Reports.{run_command-Carries}

-- The call asks for silence, or the run ends well and the call does not ask for the line of a success.
abbrev pub IsSilent : Bool → Bool → ℕ → Type 0
IsSilent quiet verbose code = (quiet ≡ true) ⊎ ((code ≡ 0) × (verbose ≡ false))

module _ {Uri : Type 0} (w : World Uri) where
  run-Carries :
      (cli : Cli) {r : ProbeReport} → run w cli ≡ ok r → Carries (options_from cli) w.elapsed r
  unfolding run
  run-Carries cli h = through (validate_positive_duration "--timeout" cli.timeout) _ h (λ _ h1.
      through (deadline_after w.latest w.now cli.timeout) _ h1 (λ deadline h2.
        through (check_max_latency w cli.max_latency) _ h2
          (λ _ h3. run_command-Carries w (options_from cli) cli.command h3)))

  error_exit-IsSilent :
      (error : AppError) (quiet verbose : Bool)
      → ((error_exit w error quiet).stderr ≡ none)
        ↔ IsSilent quiet verbose (error_exit w error quiet).code
  unfolding error_exit print_and_exit_code_with_quiet
  error_exit-IsSilent error true verbose = (λ _. inl refl, λ _. refl)
  error_exit-IsSilent error false verbose = (
    λ printed. absurd (ground (arith, printed)),
    λ silent. absurd (elim silent [
      | inl quiet ↦ ground (arith, quiet)
      | inr (healthy, _) ↦ error_exit-fails w error false healthy
    ]),
  )

  success_exit-IsSilent :
      (report : ProbeReport) (quiet verbose : Bool)
      → report.options.quiet ≡ quiet
      → report.options.verbose ≡ verbose
      → ((success_exit w report).stderr ≡ none)
        ↔ IsSilent quiet verbose (success_exit w report).code
  unfolding success_exit report_and_exit_code report_and_exit_code_with_quiet
  success_exit-IsSilent report true verbose q v = (λ _. inl refl, λ _. ground (arith, q, v))
  success_exit-IsSilent report false true q v = (
    λ printed. absurd (ground (arith, printed, q, v)),
    λ silent. absurd (elim silent [
      | inl quiet ↦ ground (arith, quiet)
      | inr (_, terse) ↦ ground (arith, terse)
    ]),
  )
  success_exit-IsSilent report false false q v =
      (λ _. inr (success_exit-code w report, refl), λ _. ground (arith, q, v))

  -- A run of a probe prints nothing exactly when it is asked to be quiet, or it ends with 0 and is not
  -- asked to be verbose: an error is always told unless it is to be quiet.
  pub run_exit-IsSilent :
      (cli : Cli)
      → ((run_exit w cli).stderr ≡ none) ↔ IsSilent cli.quiet cli.verbose (run_exit w cli).code
  unfolding run_exit options_from
  run_exit-IsSilent cli = elim (Result-cases (run w cli)) [
    | inr (error, e) ↦ rw (e, run_exit) (error_exit-IsSilent error cli.quiet cli.verbose)
    | inl (report, e) ↦ elim (Result-cases (enforce_max_latency report)) [
      | inr (error, e') ↦ rw (e, e', run_exit) (error_exit-IsSilent error cli.quiet cli.verbose)
      | inl (r, e') ↦
          let same = (enforce_max_latency-IsInTime report r e').0 in
          let options = ap (λ r. r.options) same ∙ (run-Carries cli e).0 in
          rw (e, e', run_exit)
            (success_exit-IsSilent r cli.quiet cli.verbose (ap (λ o. o.quiet) options)
              (ap (λ o. o.verbose) options))
    ]
  ]
