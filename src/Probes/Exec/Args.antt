-- ===== src/Probes/Exec/Args.antt =====
-- The arguments of the exec probe, and the checks before it starts.
use salus_rs.Prelude.{
  ℕ, ◌+◌, Bool, false, not, ◌||◌, List, [], ◌∷◌, ◌++◌, ◌==◌, leb, if◌then◌else◌, is_nil, Bytes,
  OsStr, os_is_empty, ok, err, ◌>>◌, refuse_if,
}
use salus_rs.Error.{AppResult, invalid_config, Message, lit, number}
use salus_rs.Validation.{validate_capture_limit, validate_non_empty_values}

-- An `i32`: `pos n` is n, `negsuc n` is -1 - n.
pub data I32 : Type 0 where
  pos : ℕ → I32
  negsuc : ℕ → I32

pub record ExecArgs : Type 0 where
  pub exit_code : List I32
  pub stdout_contains : List Bytes
  pub stderr_contains : List Bytes
  pub max_output : ℕ
  pub command : List OsStr

abbrev pub in_byte : I32 → Bool
in_byte (pos n) = leb n 255
in_byte (negsuc n) = false

abbrev pub success_codes : ExecArgs → List I32
success_codes args = if is_nil args.exit_code then pos 0 ∷ [] else args.exit_code

abbrev pub is_code : ℕ → I32 → Bool
is_code code (pos n) = n == code
is_code code (negsuc n) = false

show_code : I32 → Message
show_code (pos n) = number n ∷ []
show_code (negsuc n) = lit "-" ∷ number (n + 1) ∷ []

unfoldable pub check_codes : List I32 → AppResult Unit
unfolding show_code
check_codes [] = ok tt
check_codes (code ∷ codes) = do
  refuse_if (not (in_byte code)) (
      invalid_config
        (lit "invalid exit code " ∷ (show_code code ++ (lit ", expected 0..=255" ∷ []))))
  check_codes codes

check_program : List OsStr → AppResult OsStr
check_program [] = err (invalid_config (lit "missing command to execute" ∷ []))
check_program (program ∷ arguments) = do
  refuse_if (os_is_empty program) (invalid_config (lit "command must not be empty" ∷ []))
  ok program

-- The checks, and the program.
unfoldable pub validate_exec_args : ExecArgs → AppResult OsStr
unfolding check_program
validate_exec_args args = do
  validate_non_empty_values "--stdout-contains" args.stdout_contains
  validate_non_empty_values "--stderr-contains" args.stderr_contains
  validate_capture_limit "--max-output" args.max_output "output assertions"
      (not (is_nil args.stdout_contains) || not (is_nil args.stderr_contains))
  check_codes (success_codes args)
  check_program args.command
