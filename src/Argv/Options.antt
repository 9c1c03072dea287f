-- ===== src/Argv/Options.antt =====
-- How the scanner reads one option: its name, its specification, and what stands behind it.
use salus_rs.Prelude.{
  ℕ, ◌+◌, ◌-◌, Bool, true, false, not, ◌&&◌, ◌||◌, Option, none, some, List, [], ◌∷◌, ltb, ◌==◌,
  if◌then◌else◌, length, any, is_nil, is_none, Text, OsStr, utf8, other, codes, equal, split_once,
  strip_prefix, starts_with, is_ascii_digit,
}
use salus_rs.Cli.{ArgAction, set, append, set_true, Arg, Subcommand, Command}

unfoldable pub split_long_option : Text → Option (Text × Bool)
split_long_option [] = none
split_long_option (a ∷ []) = none
split_long_option (a ∷ b ∷ arg) =
    let (name, has_inline_value) = elim (split_once b'=' arg) as (λ _. Text × Bool) [
      | some (name, value) ↦ (name, true)
      | none ↦ (arg, false)
    ] in
    if a == b'-' && b == b'-'
    then (if is_nil name then none else some (name, has_inline_value))
    else none

has_long : Text → Arg → Bool
has_long long arg = elim arg.long [ none ↦ false | some l ↦ equal l long ]

unfoldable pub find_long_option : List Arg → Text → Option Arg
unfolding has_long
find_long_option [] long = none
find_long_option (arg ∷ args) long =
    if has_long long arg then some arg else find_long_option args long

unfoldable pub action_takes_value : ArgAction → Bool
action_takes_value set = true
action_takes_value append = true
action_takes_value set_true = false

pub record OptionSpec : Type 0 where
  pub takes_value : Bool
  pub has_inline_value : Bool
  pub allow_hyphen_value : Bool
  pub allow_negative_number : Bool

unfoldable pub from_arg : Arg → Bool → OptionSpec
unfolding action_takes_value
from_arg arg has_inline_value = record {
  takes_value = action_takes_value arg.action;
  has_inline_value = has_inline_value;
  allow_hyphen_value = arg.allow_hyphen_values;
  allow_negative_number = arg.allow_negative_numbers;
}

-- `.or_else(…)`
or_else : Option Arg → Option Arg → Option Arg
or_else (some a) b = some a
or_else none b = b

command_option : Option Subcommand → Text → Option Arg
unfolding find_long_option
command_option none long = none
command_option (some command) long = find_long_option command.arguments long

-- The subcommand's own options come before the root's.
unfoldable pub option_spec : Command → Option Subcommand → Text → Option OptionSpec
unfolding split_long_option find_long_option from_arg or_else command_option
option_spec root command arg = elim (split_long_option arg) [
  | none ↦ none
  | some (long, has_inline_value) ↦
      elim (or_else (command_option command long) (find_long_option root.arguments long)) [
        | none ↦ none
        | some found ↦ some (from_arg found has_inline_value)
      ]
]

-- The loop over the bytes behind `-`, from `index` on.
number_loop : ℕ → Bool → Option ℕ → Text → Option (Option ℕ)
number_loop index seen_dot exponent [] = some exponent
number_loop index seen_dot exponent (byte ∷ bytes) =
    let go_on = number_loop (index + 1) seen_dot exponent bytes in
    let dot = number_loop (index + 1) true exponent bytes in
    let power = number_loop (index + 1) seen_dot (some index) bytes in
    if is_ascii_digit byte
    then go_on
    else if byte == b'.' && (not seen_dot && is_none exponent && ltb 0 index)
    then dot
    else if (byte == b'e' || byte == b'E') && (is_none exponent && ltb 0 index)
    then power
    else none

exponent_ok : Option (Option ℕ) → ℕ → Bool
exponent_ok none len = false
exponent_ok (some none) len = true
exponent_ok (some (some index)) len = not (index == len - 1)

unfoldable pub is_negative_number_like : Text → Bool
unfolding number_loop exponent_ok
is_negative_number_like value = elim (strip_prefix b'-' value) [
  | none ↦ false
  | some number ↦ exponent_ok (number_loop 0 false none number) (length number)
]

abbrev pub dashes : Text
dashes = codes "--"

unfoldable pub value_can_follow_option : OsStr → OptionSpec → Bool
unfolding is_negative_number_like
value_can_follow_option (other raw) spec = true
value_can_follow_option (utf8 value) spec =
    not (equal value dashes)
    && (not (starts_with b'-' value)
        || spec.allow_hyphen_value
        || (spec.allow_negative_number && is_negative_number_like value))

-- `next_index_after_option_value`: the index moves on by one or by two, or there is no value.
pub data Advance : Type 0 where
  by_one : Advance
  by_two : Advance

unfoldable pub next_index_after_option_value : OptionSpec → List OsStr → Option Advance
unfolding value_can_follow_option
next_index_after_option_value spec rest = if spec.has_inline_value then some by_one else elim rest [
  | [] ↦ none
  | value ∷ more ↦ if value_can_follow_option value spec then some by_two else none
]

unfoldable pub consume_flag : Command → Option Subcommand → Text → Bool
consume_flag root command arg = elim (option_spec root command arg) [
  | none ↦ false
  | some spec ↦ not spec.takes_value && not spec.has_inline_value
]

-- What `skip_option_value` finds: no option with a value, an option whose value is skipped, or an
-- option whose value is missing.
pub data Skip : Type 0 where
  no_value : Skip
  skipped : Advance → Skip
  missing : Skip

unfoldable pub skip_option_value : Command → Option Subcommand → Text → List OsStr → Skip
skip_option_value root command arg rest = elim (option_spec root command arg) [
  | none ↦ no_value
  | some spec ↦
      if not spec.takes_value
      then no_value
      else elim (next_index_after_option_value spec rest) [ none ↦ missing | some a ↦ skipped a ]
]

unfoldable pub is_help : Text → Bool
is_help arg = equal arg (codes "-h") || equal arg (codes "--help")

unfoldable pub is_version : Text → Bool
is_version arg = equal arg (codes "-V") || equal arg (codes "--version")

unfoldable pub find_subcommand : List Subcommand → Text → Option Subcommand
find_subcommand [] name = none
find_subcommand (c ∷ commands) name =
    if equal c.name name then some c else find_subcommand commands name

unfoldable pub command_accepts_trailing_args : Subcommand → Bool
command_accepts_trailing_args command =
    any (λ (a : Arg). is_none a.long && a.trailing_var_arg) command.arguments
