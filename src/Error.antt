-- ===== src/Error.antt =====
-- error.rs: the error of every operation, its exit code, and what is printed of it.
use salus_rs.Prelude.{ℕ, String, List, Bool, true, false, Option, none, some, Result, Text, OsStr}

-- A part of a message: literal text, and an argument shown by `{}` or by `{:?}`. A duration is in
-- nanoseconds, shown by `humantime`.
pub data Piece : Type 0 where
  lit : String → Piece
  display : Text → Piece
  debug : Text → Piece
  debug_os : OsStr → Piece
  number : ℕ → Piece
  duration : ℕ → Piece

-- A message is kept as its format string with the arguments in place.
abbrev pub Message : Type 0
Message = List Piece

pub data AppError : Type 0 where
  failure : Message → AppError
  invalid_config : Message → AppError
  internal : Message → AppError

abbrev pub AppResult : Type 0 → Type 0
AppResult A = Result AppError A

unfoldable pub exit_code : AppError → ℕ
exit_code (failure m) = 1
exit_code (invalid_config m) = 3
exit_code (internal m) = 4

-- `Display` of an error.
abbrev pub message : AppError → Message
message (failure m) = m
message (invalid_config m) = m
message (internal m) = m

-- The line that goes to the standard error, if one does, and the exit code.
unfoldable pub print_and_exit_code_with_quiet : AppError → Bool → Option Message × ℕ
unfolding exit_code
print_and_exit_code_with_quiet e true = (none, exit_code e)
print_and_exit_code_with_quiet e false = (some (message e), exit_code e)
