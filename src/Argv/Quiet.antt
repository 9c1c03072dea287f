-- ===== src/Argv/Quiet.antt =====
-- `requests_quiet`: whether errors of the command line are to be shown.
pub mod Scans
pub mod Asked
use salus_rs.Prelude.{
  Bool, true, false, not, ◌&&◌, Option, none, some, List, [], ◌∷◌, if◌then◌else◌, is_none, Text,
  OsStr, utf8, other, codes, equal,
}
use salus_rs.Cli.{Subcommand, Command, cli_command}
use salus_rs.Argv.Options.{
  dashes, Advance, by_one, by_two, Skip, no_value, skipped, missing, skip_option_value,
  consume_flag, is_help, find_subcommand, command_accepts_trailing_args,
}

pub record OutputRequest : Type 0 where
  pub quiet : Bool
  pub verbose : Bool

abbrev pub default_request : OutputRequest
default_request = record { quiet = false; verbose = false }

-- The new request, and whether the argument was one of the two flags.
unfoldable pub observe_flag : OutputRequest → Text → OutputRequest × Bool
observe_flag output arg =
    if equal arg (codes "--quiet")
    then (record output { quiet = true }, true)
    else if equal arg (codes "--verbose")
    then (record output { verbose = true }, true)
    else (output, false)

abbrev pub quiet_of : OutputRequest → Bool
quiet_of output = output.quiet && not output.verbose

-- `skip_option_value_for_quiet` differs from `skip_option_value` in the answer alone: a missing value
-- stops the scan with what was seen before.
module _ (root : Command) where
  unfoldable pub trailing_quiet : Subcommand → Bool → OutputRequest → List OsStr → Bool
  trailing_quiet command skip output [] = quiet_of output
  trailing_quiet command true output (value ∷ rest) = trailing_quiet command false output rest
  trailing_quiet command false output (other raw ∷ rest) = quiet_of output
  trailing_quiet command false output (utf8 arg ∷ rest) =
      let (seen, is_flag) = observe_flag output arg in
      let next = trailing_quiet command false output rest in
      let behind = trailing_quiet command true output rest in
      let observed = trailing_quiet command false seen rest in
      if equal arg dashes
      then quiet_of output
      else elim (skip_option_value root (some command) arg rest) [
        | missing ↦ quiet_of output
        | skipped by_one ↦ next
        | skipped by_two ↦ behind
        | no_value ↦
            if is_flag
            then observed
            else if consume_flag root (some command) arg
            then next
            else if is_help arg
            then next
            else quiet_of output
      ]

  unfoldable pub quiet_scan : Option Subcommand → Bool → OutputRequest → List OsStr → Bool
  quiet_scan command skip output [] = quiet_of output
  quiet_scan command true output (value ∷ rest) = quiet_scan command false output rest
  quiet_scan command false output (other raw ∷ rest) = quiet_of output
  quiet_scan command false output (utf8 arg ∷ rest) =
      let (seen, is_flag) = observe_flag output arg in
      let next = quiet_scan command false output rest in
      let behind = quiet_scan command true output rest in
      let observed = quiet_scan command false seen rest in
      let inside = λ (c : Subcommand). quiet_scan (some c) false output rest in
      if equal arg dashes then quiet_of output else elim (skip_option_value root command arg rest) [
        | missing ↦ quiet_of output
        | skipped by_one ↦ next
        | skipped by_two ↦ behind
        | no_value ↦
            if is_flag
            then observed
            else if consume_flag root command arg
            then next
            else if is_none command
            then elim (find_subcommand root.subcommands arg) [
              | none ↦ quiet_of output
              | some c ↦
                  if command_accepts_trailing_args c
                  then trailing_quiet c false output rest
                  else inside c
            ]
            else quiet_of output
      ]

-- The scan starts behind the program's name.
unfoldable pub requests_quiet : List OsStr → Bool
requests_quiet [] = false
requests_quiet (program ∷ args) = quiet_scan cli_command none false default_request args
