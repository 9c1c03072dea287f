-- ===== src/Probe.antt =====
-- probe.rs: the deadline of a probe, its report, and the exit code of a report.
pub mod InTime
use salus_rs.Prelude.{
  ℕ, ◌≡◌, ◌+◌, ◌/◌, String, Bool, not, ◌&&◌, Option, none, some, [], ◌∷◌, ltb, leb, if◌then◌else◌,
  ok, err, Text,
}
use salus_rs.Diagnostic.{value}
use salus_rs.Error.{AppError, AppResult, failure, invalid_config, lit, duration}

probe_timeout_error : String → ℕ → AppError
probe_timeout_error mode_label timeout =
    failure (lit mode_label ∷ lit " probe timed out after " ∷ duration timeout ∷ [])

-- `tokio::time::timeout` gives the future's result, or `none` when the time is over before it.
unfoldable pub with_probe_timeout : {A : Type 0} → String → ℕ → Option (AppResult A) → AppResult A
unfolding probe_timeout_error
with_probe_timeout mode_label timeout (some result) = result
with_probe_timeout mode_label timeout none = err (probe_timeout_error mode_label timeout)

pub record ProbeOptions : Type 0 where
  pub timeout : ℕ
  pub quiet : Bool
  pub verbose : Bool
  pub max_latency : Option ℕ

pub record ProbeReport : Type 0 where
  pub mode : String
  pub target : Text
  pub detail : Option Text
  pub elapsed : ℕ
  pub options : ProbeOptions

-- A report of a run with these options that took this long.
abbrev pub Carries : ProbeOptions → ℕ → ProbeReport → Type 0
Carries options elapsed report = (report.options ≡ options) × (report.elapsed ≡ elapsed)

unfoldable pub enforce_max_latency : ProbeReport → AppResult ProbeReport
enforce_max_latency r = elim r.options.max_latency [
  | none ↦ ok r
  | some limit ↦
      if ltb limit r.elapsed
      then err (
          failure (
            lit r.mode
            ∷ lit " probe to "
            ∷ value r.target
            ∷ lit " exceeded --max-latency "
            ∷ duration limit
            ∷ lit " (observed "
            ∷ duration r.elapsed
            ∷ lit ")"
            ∷ []))
      else ok r
]

-- `Duration::as_millis` of nanoseconds.
abbrev as_millis : ℕ → ℕ
as_millis t = t / 1000000

-- The fields of the line that `format_success` writes, and the exit code.
pub record Success : Type 0 where
  pub mode : String
  pub target : Text
  pub duration_ms : ℕ
  pub detail : Option Text

unfoldable pub report_and_exit_code_with_quiet : ProbeReport → Bool → Option Success × ℕ
report_and_exit_code_with_quiet r quiet =
    if r.options.verbose && not quiet
    then (
      some (record {
        mode = r.mode;
        target = r.target;
        duration_ms = as_millis r.elapsed;
        detail = r.detail;
      }),
      0,
    )
    else (none, 0)

unfoldable pub report_and_exit_code : ProbeReport → Option Success × ℕ
unfolding report_and_exit_code_with_quiet
report_and_exit_code r = report_and_exit_code_with_quiet r r.options.quiet

-- `Instant::now().checked_add(timeout)`, in nanoseconds: `latest` is the last instant that the
-- platform's clock can hold.
unfoldable pub deadline_after : ℕ → ℕ → ℕ → AppResult ℕ
deadline_after latest now timeout =
    if leb (now + timeout) latest
    then ok (now + timeout)
    else err (invalid_config (lit "--timeout is too large: " ∷ duration timeout ∷ []))
