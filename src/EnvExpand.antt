-- ===== src/EnvExpand.antt =====
-- env_expand.rs: `${NAME}`, `${NAME:-default}` and `$$` in the arguments of the command line.
pub mod Segments
pub mod Expansion
pub mod Partial
use salus_rs.Prelude.{
  ℕ, Bool, true, false, not, ◌&&◌, ◌||◌, Option, none, some, List, [], ◌∷◌, ◌++◌, ◌==◌,
  if◌then◌else◌, is_nil, any, all, Text, OsStr, utf8, other, split_once_two, is_ascii_alphabetic,
  is_ascii_alphanumeric, Result, ok, err, ◌>>=◌, ◌>>◌,
}
use salus_rs.Error.{AppError, AppResult, invalid_config, lit, display, debug}

invalid_name : Text → AppError
invalid_name name = invalid_config (lit "invalid environment variable name " ∷ debug name ∷ [])

abbrev pub is_name_start : ℕ → Bool
is_name_start ch = ch == b'_' || is_ascii_alphabetic ch

abbrev pub is_name_char : ℕ → Bool
is_name_char ch = ch == b'_' || is_ascii_alphanumeric ch

unfoldable pub validate_env_name : Text → AppResult Unit
unfolding invalid_name
validate_env_name [] = err (invalid_name [])
validate_env_name (ch ∷ chars) =
    if is_name_start ch
    then (if all is_name_char chars then ok tt else err (invalid_name (ch ∷ chars)))
    else err (invalid_name (ch ∷ chars))

-- `std::env::var_os` is the argument.
unfoldable pub lookup_env : (Text → Option OsStr) → Text → AppResult (Option Text)
lookup_env var_os name = elim (var_os name) [
  | none ↦ ok none
  | some (utf8 value) ↦ ok (some value)
  | some (other raw) ↦
      err (
        invalid_config
          (lit "environment variable " ∷ display name ∷ lit " is not valid UTF-8" ∷ []))
]

unfoldable pub name_and_default : Text → Text × Option Text
name_and_default expr = elim (split_once_two b':' b'-' expr) [
  | some (name, default) ↦ (name, some default)
  | none ↦ (expr, none)
]

has_dollar : List ℕ → Bool
has_dollar s = any (λ c. c == b'$') s

module _ (lookup : Text → AppResult (Option Text)) where
  -- The `match` on the value and the default.
  unfoldable pub choose : Text → Option Text → Option Text → AppResult Text
  choose name (some value) (some default) = ok (if is_nil value then default else value)
  choose name (some value) none = ok value
  choose name none (some default) = ok default
  choose name none none =
      err (invalid_config (lit "environment variable " ∷ display name ∷ lit " is not set" ∷ []))

  unfoldable pub expand_expression : Text → AppResult Text
  unfolding choose name_and_default validate_env_name
  expand_expression expr = do
    validate_env_name (name_and_default expr).0
    value ← lookup (name_and_default expr).0
    choose (name_and_default expr).0 value (name_and_default expr).1

  -- The two loops over the one iterator: with `none` the outer loop, with `some expr` the inner one,
  -- which reads up to `}`.
  pub expand_from : Option Text → Text → Text → AppResult Text
  expand_from none [] expanded = ok expanded
  expand_from (some expr) [] expanded =
      err (invalid_config (lit "unterminated environment expansion" ∷ []))
  expand_from (some expr) (ch ∷ chars) expanded = elim (ch == b'}') [
    | true ↦ do value ← expand_expression expr; expand_from none chars (expanded ++ value)
    | false ↦ expand_from (some (expr ++ ch ∷ [])) chars expanded
  ]
  -- a last `$` is pushed as it is
  expand_from none (ch ∷ []) expanded = ok (expanded ++ ch ∷ [])
  expand_from none (ch ∷ next ∷ chars) expanded = elim (ch == b'$') [
    | false ↦ expand_from none (next ∷ chars) (expanded ++ ch ∷ [])
    | true ↦ elim (next == b'$') [
      | true ↦ expand_from none chars (expanded ++ b'$' ∷ [])
      | false ↦ elim (next == b'{') [
        | true ↦ expand_from (some []) chars expanded
        | false ↦ expand_from none (next ∷ chars) (expanded ++ b'$' ∷ [])
      ]
    ]
  ]

  unfoldable pub expand_text : Text → AppResult Text
  unfolding expand_from expand_expression
  expand_text raw = expand_from none raw []

  -- The version for Unix.
  unfoldable pub expand_arg_os : OsStr → AppResult OsStr
  unfolding has_dollar expand_text
  expand_arg_os (utf8 raw) =
      if not (has_dollar raw) then ok (utf8 raw) else (do t ← expand_text raw; ok (utf8 t))
  expand_arg_os (other bytes) =
      if not (has_dollar bytes)
      then ok (other bytes)
      else err (invalid_config (lit "environment expansion only supports UTF-8 arguments" ∷ []))

pub record ExpandArgvError : Type 0 where
  pub error : AppError
  pub partial_args : List OsStr
  pub raw_tail : List OsStr

module _ (lookup : Text → AppResult (Option Text)) where
  -- The `while` loop over the arguments behind the first.
  pub expand_args : List OsStr → List OsStr → Result ExpandArgvError (List OsStr)
  expand_args [] expanded = ok expanded
  expand_args (arg ∷ args) expanded = elim (expand_arg_os lookup arg) [
    | ok arg' ↦ expand_args args (expanded ++ arg' ∷ [])
    | err error ↦ err (record { error = error; partial_args = expanded; raw_tail = arg ∷ args })
  ]

  unfoldable pub expand_argv_with_partial : List OsStr → Result ExpandArgvError (List OsStr)
  unfolding expand_args
  expand_argv_with_partial [] = ok []
  expand_argv_with_partial (arg0 ∷ args) = expand_args args (arg0 ∷ [])
