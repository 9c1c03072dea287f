-- ===== src/Argv/Help/Complete.antt =====
-- What is asked for, the scan finds.
use salus_rs.Prelude.{
  ◌≡◌, refl, ◌∙◌, inl, inr, false, Option, none, some, List, [], ◌∷◌, Text, OsStr, utf8, other,
  equal, Bool-cases,
}
use salus_rs.Cli.{Subcommand}
use salus_rs.Argv.Options.{is_help, is_version}
use salus_rs.Argv.Help.{control_args, help_subcommand_args}
use salus_rs.Argv.Help.Control.{
  IsHelpFlag, Asks, help_flag, command_help_flag, version_flag, help_word, help_topic, help_help,
  help_other, passed, subcommand,
}
use salus_rs.Argv.Help.Read.{is_help_iff, is_version_iff, IsMember-find_subcommand}
use salus_rs.Argv.Help.Words.{
  Known, help_dashes, help_option, version-IsWord, find_subcommand-IsSubcommand,
}
use salus_rs.Argv.Help.Skips.{skip-none}
use salus_rs.Argv.Help.Steps.{
  scan, scan-help, scan-version, scan-subcommand, help-scan, passed-scan,
}

module _ (program : OsStr) where
  no_help_flag : (arg : Text) → ¬ IsHelpFlag arg → is_help arg ≡ false
  no_help_flag arg unlike = elim (Bool-cases (is_help arg)) [
    | inl e ↦ absurd (unlike ((is_help_iff arg).0 e))
    | inr e ↦ e
  ]

  pub complete :
      (command : Option Subcommand) (args out : List OsStr)
      → Known command
      → Asks program command args out
      → scan program command args ≡ some out
  unfolding control_args help_subcommand_args equal is_version
  complete _ _ _ known (help_flag arg rest f) =
      let h = (is_help_iff arg).1 f in
      scan-help program none arg rest (help_dashes arg h)
        (skip-none none arg rest (help_option none arg known h)) h
  complete _ _ _ known (command_help_flag c arg rest f) =
      let h = (is_help_iff arg).1 f in
      scan-help program (some c) arg rest (help_dashes arg h)
        (skip-none (some c) arg rest (help_option (some c) arg known h)) h
  complete _ _ _ known (version_flag arg rest f) =
      let h = (is_version_iff arg).1 f in
      let w = version-IsWord arg h in
      scan-version program arg rest w.no_dashes (skip-none none arg rest w.no_option) w.no_help h
  complete _ _ _ known help_word = help-scan program []
  complete _ _ _ known (help_topic topic rest unlike) =
      let h = no_help_flag topic unlike in help-scan program (utf8 topic ∷ rest) ∙ rw h refl
  complete _ _ _ known (help_help topic rest f) =
      let h = (is_help_iff topic).1 f in help-scan program (utf8 topic ∷ rest) ∙ rw h refl
  complete _ _ _ known (help_other raw rest) = help-scan program (other raw ∷ rest)
  complete _ _ _ known (passed command args rest out p asks) =
      passed-scan program command args rest known p ∙ complete command rest out known asks
  complete _ _ _ known (subcommand c rest out member asks) =
      let found = IsMember-find_subcommand c member in
      scan-subcommand program c c.name rest found
      ∙ complete (some c) rest out (find_subcommand-IsSubcommand c.name c found).known asks
