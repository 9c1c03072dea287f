-- ===== src/Cli/Duration.antt =====
-- `parse_duration` of cli.rs, over the parser of humantime, which gives nanoseconds.
use salus_rs.Prelude.{ℕ, Text, trim, [], ◌∷◌, Result, map_err}
use salus_rs.Error.{AppResult, invalid_config, lit}
use salus_rs.Diagnostic.{value}

unfoldable pub parse_duration : (Text → Result Text ℕ) → Text → AppResult ℕ
parse_duration humantime raw =
    map_err (λ _. invalid_config (lit "invalid duration: " ∷ value raw ∷ [])) (humantime (trim raw))
