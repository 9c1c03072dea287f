-- ===== src/Validation.antt =====
-- validation.rs: the checks of arguments that several probes share.
use salus_rs.Prelude.{
  ℕ, ◌*◌, String, Bool, not, List, [], ◌∷◌, ltb, ◌==◌, if◌then◌else◌, is_nil, OsStr, os_is_empty,
  ok, err, ◌>>◌,
}
use salus_rs.Error.{AppError, AppResult, invalid_config, lit, number}

abbrev pub max_capture_bytes : ℕ
max_capture_bytes = 16 * 1024 * 1024

unfoldable pub validate_capture_limit : String → ℕ → String → Bool → AppResult Unit
validate_capture_limit flag limit assertion_label enabled =
    if not enabled
    then ok tt
    else if limit == 0
    then err (
        invalid_config (
          lit flag
          ∷ lit " must be greater than 0 when "
          ∷ lit assertion_label
          ∷ lit " are used"
          ∷ []))
    else if ltb max_capture_bytes limit
    then err (
        invalid_config (
          lit flag
          ∷ lit " must be at most "
          ∷ number max_capture_bytes
          ∷ lit " bytes when "
          ∷ lit assertion_label
          ∷ lit " are used"
          ∷ []))
    else ok tt

empty_value_error : String → AppError
empty_value_error flag = invalid_config (lit flag ∷ lit " must not be empty" ∷ [])

-- A text is given by its code points or by its bytes: only emptiness matters.
unfoldable pub validate_non_empty_str : String → List ℕ → AppResult Unit
unfolding empty_value_error
validate_non_empty_str flag value = if is_nil value then err (empty_value_error flag) else ok tt

unfoldable pub validate_non_empty_path : String → OsStr → AppResult Unit
unfolding empty_value_error
validate_non_empty_path flag value =
    if os_is_empty value then err (empty_value_error flag) else ok tt

unfoldable pub validate_non_empty_values : String → List (List ℕ) → AppResult Unit
unfolding validate_non_empty_str
validate_non_empty_values flag [] = ok tt
validate_non_empty_values flag (value ∷ values) = do
  validate_non_empty_str flag value
  validate_non_empty_values flag values

-- A duration is in nanoseconds.
unfoldable pub validate_positive_duration : String → ℕ → AppResult Unit
validate_positive_duration flag value =
    if value == 0
    then err (invalid_config (lit flag ∷ lit " must be greater than 0" ∷ []))
    else ok tt
