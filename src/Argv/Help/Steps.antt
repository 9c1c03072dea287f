-- ===== src/Argv/Help/Steps.antt =====
-- One step of the scan.
use salus_rs.Prelude.{
  ◌≡◌, refl, ◌∙◌, ap, Bool, true, false, not, ◌&&◌, Option, none, some, List, [], ◌∷◌, arith,
  if◌then◌else◌, is_none, Text, OsStr, utf8, other, codes, equal,
}
use salus_rs.Cli.{Subcommand, Command, cli_command}
use salus_rs.Argv.Options.{
  from_arg, no_value, missing, find_subcommand, is_help, is_version, dashes, skip_option_value,
  consume_flag, command_accepts_trailing_args,
}
use salus_rs.Argv.Help.{trailing_help, command_name, help_scan, control_args, help_subcommand_args}
use salus_rs.Argv.Help.Control.{IsPassed, inline_value, next_value, flag}
use salus_rs.Argv.Help.Read.{
  takes_value_iff, is_flag_iff, has_inline_value-from_arg, CanFollow-value_can_follow_option,
}
use salus_rs.Argv.Help.Named.{IsOption-option_spec}
use salus_rs.Argv.Help.Words.{Known, help-IsWord, find_subcommand-IsSubcommand}
use salus_rs.Argv.Help.Skips.{
  skip-none, skip-flag, skip-inline, consume-none, consume-some, skip-next, option-no_dashes,
  option-no_help, option-no_word,
}

if-same : {A : Type 0} (b : Bool) (a : A) → (if b then a else a) ≡ a
if-same true a = refl
if-same false a = refl

-- Behind a subcommand both scans do the same.
trailing_help-help_scan :
    (root : Command) (program : OsStr) (c : Subcommand) (skip : Bool) (args : List OsStr)
    → trailing_help root program c skip args ≡ help_scan root program (some c) skip args
unfolding trailing_help help_scan
trailing_help-help_scan root program c skip [] = refl
trailing_help-help_scan root program c true (value ∷ rest) =
    trailing_help-help_scan root program c false rest
trailing_help-help_scan root program c false (other raw ∷ rest) = refl
trailing_help-help_scan root program c false (utf8 arg ∷ rest) =
    let one = trailing_help-help_scan root program c false rest in
    let two = trailing_help-help_scan root program c true rest in ground (arith, one, two)

module _ (program : OsStr) where
  abbrev pub scan : Option Subcommand → List OsStr → Option (List OsStr)
  scan command args = help_scan cli_command program command false args

  -- The scan at a front argument that is no option with a value.
  module _ (command : Option Subcommand) (arg : Text) (rest : List OsStr)
      (no_dashes : equal arg dashes ≡ false)
      (skip : skip_option_value cli_command command arg rest ≡ no_value) where
    pub scan-help :
        is_help arg ≡ true
        → scan command (utf8 arg ∷ rest) ≡ some (control_args program (command_name command) arg)
    unfolding help_scan
    scan-help h = rw (no_dashes, skip, h, help_scan) refl

    scan-flag :
        is_help arg ≡ false
        → is_none command && is_version arg ≡ false
        → is_none command && equal arg (codes "help") ≡ false
        → consume_flag cli_command command arg ≡ true
        → scan command (utf8 arg ∷ rest) ≡ scan command rest
    unfolding help_scan
    scan-flag no_help no_version no_word consumed =
        rw (no_dashes, skip, no_help, no_version, no_word, consumed, help_scan) refl

  module _ (arg : Text) (rest : List OsStr) (no_dashes : equal arg dashes ≡ false)
      (skip : skip_option_value cli_command none arg rest ≡ no_value)
      (no_help : is_help arg ≡ false) where
    pub scan-version :
        is_version arg ≡ true → scan none (utf8 arg ∷ rest) ≡ some (control_args program none arg)
    unfolding help_scan
    scan-version h = rw (no_dashes, skip, no_help, h, help_scan) refl

    pub scan-word :
        is_version arg ≡ false
        → equal arg (codes "help") ≡ true
        → scan none (utf8 arg ∷ rest) ≡ some (help_subcommand_args program rest)
    unfolding help_scan
    scan-word no_version h = rw (no_dashes, skip, no_help, no_version, h, help_scan) refl

    pub scan-unknown :
        is_version arg ≡ false
        → equal arg (codes "help") ≡ false
        → consume_flag cli_command none arg ≡ false
        → find_subcommand cli_command.subcommands arg ≡ none
        → scan none (utf8 arg ∷ rest) ≡ none
    unfolding help_scan
    scan-unknown no_version no_word no_flag unknown =
        rw (no_dashes, skip, no_help, no_version, no_word, no_flag, unknown, help_scan) refl

  pub scan-subcommand :
      (c : Subcommand) (arg : Text) (rest : List OsStr)
      → find_subcommand cli_command.subcommands arg ≡ some c
      → scan none (utf8 arg ∷ rest) ≡ scan (some c) rest
  unfolding help_scan
  scan-subcommand c arg rest found =
      let s = find_subcommand-IsSubcommand arg c found in
      let skip = skip-none none arg rest s.word.no_option in
      let no_flag = consume-none none arg rest s.word.no_option in
      let same = trailing_help-help_scan cli_command program c false rest in
      rw
        (
          s.word.no_dashes, skip, s.word.no_help, s.no_version, s.no_help_word, no_flag, found,
          help_scan, same,
        )
        (if-same (command_accepts_trailing_args c) (scan (some c) rest))

  pub help-scan :
      (rest : List OsStr)
      → scan none (utf8 (codes "help") ∷ rest) ≡ some (help_subcommand_args program rest)
  unfolding equal is_version
  help-scan rest =
      let skip = skip-none none (codes "help") rest help-IsWord.no_option in
      scan-word (codes "help") rest help-IsWord.no_dashes skip help-IsWord.no_help refl refl

  pub passed-scan :
      (command : Option Subcommand) (args rest : List OsStr)
      → Known command
      → IsPassed command args rest
      → scan command args ≡ scan command rest
  unfolding help_scan
  passed-scan command _ _ known (inline_value arg rest a o takes) =
      let found = IsOption-option_spec command arg a true o in
      let no_dashes = option-no_dashes command arg (from_arg a true) found in
      let skip =
        skip-inline command arg rest (from_arg a true) found ((takes_value_iff a true).1 takes)
          (has_inline_value-from_arg a true) in
      rw (no_dashes, skip, help_scan) refl
  passed-scan command _ _ known (next_value arg value rest a o takes follows) =
      let found = IsOption-option_spec command arg a false o in
      let no_dashes = option-no_dashes command arg (from_arg a false) found in
      let skip =
        skip-next command arg value rest (from_arg a false) found
          ((takes_value_iff a false).1 takes) (has_inline_value-from_arg a false)
          (CanFollow-value_can_follow_option a false value follows) in
      rw (no_dashes, skip, help_scan) refl
  passed-scan command _ _ known (flag arg rest a o is_flag) =
      let spec = from_arg a false in
      let found = IsOption-option_spec command arg a false o in
      let takes_none = (is_flag_iff a false).1 is_flag in
      let skip = skip-flag command arg rest spec found takes_none in
      let word = option-no_word command arg spec found in
      let consumed =
        consume-some command arg rest spec found takes_none
        ∙ ap not (has_inline_value-from_arg a false) in
      scan-flag command arg rest (option-no_dashes command arg spec found) skip
        (option-no_help command arg spec known found) word.0 word.1 consumed

  pub scan-dashes :
      (command : Option Subcommand) (arg : Text) (rest : List OsStr)
      → equal arg dashes ≡ true
      → scan command (utf8 arg ∷ rest) ≡ none
  unfolding help_scan
  scan-dashes command arg rest h = rw (h, help_scan) refl

  pub scan-missing :
      (command : Option Subcommand) (arg : Text) (rest : List OsStr)
      → equal arg dashes ≡ false
      → skip_option_value cli_command command arg rest ≡ missing
      → scan command (utf8 arg ∷ rest) ≡ none
  unfolding help_scan
  scan-missing command arg rest no_dashes skip = rw (no_dashes, skip, help_scan) refl

  pub scan-behind :
      (c : Subcommand) (arg : Text) (rest : List OsStr)
      → equal arg dashes ≡ false
      → skip_option_value cli_command (some c) arg rest ≡ no_value
      → is_help arg ≡ false
      → consume_flag cli_command (some c) arg ≡ false
      → scan (some c) (utf8 arg ∷ rest) ≡ none
  unfolding help_scan
  scan-behind c arg rest no_dashes skip no_help no_flag =
      rw (no_dashes, skip, no_help, no_flag, help_scan) refl
