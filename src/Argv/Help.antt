-- ===== src/Argv/Help.antt =====
-- `help_or_version_args`: the request for help or for the version, if the arguments make one.
pub mod Control
pub mod Complete
pub mod Exact
pub mod First
pub mod Named
pub mod Read
pub mod Skips
pub mod Sound
pub mod Steps
pub mod Words
use salus_rs.Prelude.{
  Bool, true, false, not, ◌&&◌, ◌||◌, Option, none, some, List, [], ◌∷◌, if◌then◌else◌, is_none,
  Text, OsStr, utf8, other, codes, equal,
}
use salus_rs.Cli.{Subcommand, Command, cli_command}
use salus_rs.Argv.Options.{
  dashes, Advance, by_one, by_two, Skip, no_value, skipped, missing, skip_option_value,
  consume_flag, is_help, is_version, find_subcommand, command_accepts_trailing_args,
}

command_part : Option Text → List OsStr → List OsStr
command_part none args = args
command_part (some command) args = utf8 command ∷ args

unfoldable pub control_args : OsStr → Option Text → Text → List OsStr
unfolding command_part
control_args program command flag = program ∷ command_part command (utf8 flag ∷ [])

help_topic : OsStr → OsStr
help_topic (utf8 command) = if is_help command then utf8 (codes "help") else utf8 command
help_topic (other raw) = other raw

unfoldable pub help_subcommand_args : OsStr → List OsStr → List OsStr
unfolding help_topic
help_subcommand_args program [] = program ∷ utf8 (codes "help") ∷ []
help_subcommand_args program (command ∷ args) =
    program ∷ utf8 (codes "help") ∷ help_topic command ∷ []

abbrev pub command_name : Option Subcommand → Option Text
command_name none = none
command_name (some command) = some command.name

module _ (root : Command) (program : OsStr) where
  -- The scanner's index is the list of the arguments from there on. With the flag set, the first of
  -- these is the value of an option, and the index stands behind it.
  unfoldable pub trailing_help : Subcommand → Bool → List OsStr → Option (List OsStr)
  trailing_help command skip [] = none
  trailing_help command true (value ∷ rest) = trailing_help command false rest
  trailing_help command false (other raw ∷ rest) = none
  trailing_help command false (utf8 arg ∷ rest) =
      let next = trailing_help command false rest in
      let behind = trailing_help command true rest in
      if equal arg dashes then none else elim (skip_option_value root (some command) arg rest) [
        | missing ↦ none
        | skipped by_one ↦ next
        | skipped by_two ↦ behind
        | no_value ↦
            if is_help arg
            then some (control_args program (some command.name) arg)
            else if consume_flag root (some command) arg
            then next
            else none
      ]

  unfoldable pub help_scan : Option Subcommand → Bool → List OsStr → Option (List OsStr)
  help_scan command skip [] = none
  help_scan command true (value ∷ rest) = help_scan command false rest
  help_scan command false (other raw ∷ rest) = none
  help_scan command false (utf8 arg ∷ rest) =
      let next = help_scan command false rest in
      let behind = help_scan command true rest in
      let inside = λ (c : Subcommand). help_scan (some c) false rest in
      if equal arg dashes then none else elim (skip_option_value root command arg rest) [
        | missing ↦ none
        | skipped by_one ↦ next
        | skipped by_two ↦ behind
        | no_value ↦
            if is_help arg
            then some (control_args program (command_name command) arg)
            else if is_none command && is_version arg
            then some (control_args program none arg)
            else if is_none command && equal arg (codes "help")
            then some (help_subcommand_args program rest)
            else if consume_flag root command arg
            then next
            else if is_none command
            then elim (find_subcommand root.subcommands arg) [
              | none ↦ none
              | some c ↦
                  if command_accepts_trailing_args c then trailing_help c false rest else inside c
            ]
            else none
      ]

unfoldable pub help_or_version_args : List OsStr → Option (List OsStr)
help_or_version_args [] = none
help_or_version_args (program ∷ args) = help_scan cli_command program none false args
