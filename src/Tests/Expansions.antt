-- ===== src/Tests/Expansions.antt =====
-- Tests of env_expand.rs.

use salus_rs.Prelude.{
  ◌≡◌, refl, arith, Option, none, some, List, [], ◌∷◌, equal, if◌then◌else◌, Text, utf8, codes, ok,
  err,
}
use salus_rs.Error.{AppResult, invalid_config, lit, display}
use salus_rs.EnvExpand.{expand_text, expand_argv_with_partial, validate_env_name}
use salus_rs.EnvExpand.Segments.{Segment, plain, variable, defaulted, print, meaning}
use salus_rs.EnvExpand.Expansion.{expand_text-print, double_dollars, expand_text-double_dollars}
use salus_rs.EnvExpand.Partial.{Outcome, expand_argv-Outcome}

abbrev lookup : Text → AppResult (Option Text)
lookup name =
    if equal name (codes "PORT")
    then ok (some (codes "8080"))
    else if equal name (codes "MODE")
    then ok (some [])
    else ok none

expands :
    (expand_text lookup (codes "http://127.0.0.1:${PORT}/healthz")
      ≡ ok (codes "http://127.0.0.1:8080/healthz"))
    × (expand_text lookup (codes "${MODE:-ready}") ≡ ok (codes "ready"))
    × (expand_text lookup (codes "${MODE}") ≡ ok [])
    × (expand_text lookup (codes "$PORT") ≡ ok (codes "$PORT"))
    × (expand_text lookup (codes "$${PORT}") ≡ ok (codes "${PORT}"))
    × (expand_text lookup (codes "${MODE:-${INNER}}") ≡ ok (codes "${INNER}"))
    × (expand_text lookup (codes "${PORT")
        ≡ err (invalid_config (lit "unterminated environment expansion" ∷ [])))
unfolding expand_text equal
expands = (refl, refl, refl, refl, refl, refl, refl)

not_set :
    expand_text lookup (codes "${HOST}")
    ≡ err (
        invalid_config
          (lit "environment variable " ∷ display (codes "HOST") ∷ lit " is not set" ∷ []))
unfolding expand_text equal
not_set = refl

abbrev segments : List Segment
segments = plain b':' ∷ variable (codes "PORT") ∷ defaulted (codes "MODE") (codes "a") ∷ []

expand_text-print_example : expand_text lookup (print segments) ≡ meaning lookup segments
expand_text-print_example =
    expand_text-print lookup segments
      (unfold validate_env_name in (omega arith, (refl, ((refl, (omega arith, tt)), tt))))

expand_text-double_dollars_example :
    expand_text lookup (double_dollars (codes "a$b")) ≡ ok (codes "a$b")
expand_text-double_dollars_example = expand_text-double_dollars lookup (codes "a$b")

expand_argv-Outcome_example :
    Outcome lookup (utf8 (codes "$PORT") ∷ utf8 (codes "${X}") ∷ []) (utf8 (codes "salus") ∷ []) (
      expand_argv_with_partial lookup
        (utf8 (codes "salus") ∷ utf8 (codes "$PORT") ∷ utf8 (codes "${X}") ∷ []))
expand_argv-Outcome_example =
    expand_argv-Outcome lookup (utf8 (codes "salus"))
      (utf8 (codes "$PORT") ∷ utf8 (codes "${X}") ∷ [])
