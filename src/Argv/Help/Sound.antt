-- ===== src/Argv/Help/Sound.antt =====
-- What the scan finds is asked for.
use salus_rs.Prelude.{
  ◌≡◌, refl, sym, ◌∙◌, ap, subst, inl, inr, Bool, true, false, not, Option, none, some, List, [],
  ◌∷◌, Text, OsStr, utf8, other, codes, equal, equal_iff, Bool-cases, Option-cases,
}
use salus_rs.Cli.{Arg, set_true, Subcommand, cli_command}
use salus_rs.Argv.Options.{
  from_arg, option_spec, no_value, value_can_follow_option, find_subcommand, is_help, is_version,
  dashes, skip_option_value, consume_flag,
}
use salus_rs.Argv.Help.{command_name, help_scan, control_args, help_subcommand_args}
use salus_rs.Argv.Help.Control.{
  IsOption, IsPassed, inline_value, next_value, flag, Asks, help_flag, command_help_flag,
  version_flag, help_word, help_topic, help_help, help_other, passed, subcommand,
}
use salus_rs.Argv.Help.Read.{
  is_help_iff, is_version_iff, takes_value_iff, is_flag_iff, has_inline_value-from_arg,
  value_can_follow_option-CanFollow, find_subcommand-IsMember,
}
use salus_rs.Argv.Help.Named.{IsOption-option_spec, option_spec-IsOption}
use salus_rs.Argv.Help.Words.{Known, help_option, find_subcommand-IsSubcommand}
use salus_rs.Argv.Help.Skips.{
  skip-none, skip-flag, consume-none, consume-some, skip-alone, skip-refused, option-no_dashes,
}
use salus_rs.Argv.Help.Steps.{
  scan, scan-help, scan-version, scan-word, scan-unknown, scan-subcommand, passed-scan, scan-dashes,
  scan-missing, scan-behind,
}

module _ (program : OsStr) where
  -- What the scan program of `args` finds is asked for there.
  abbrev Sound : Option Subcommand → List OsStr → Type 0
  Sound command args =
      (out : List OsStr) → scan program command args ≡ some out → Asks program command args out

  abbrev SoundBehind : Option Subcommand → List OsStr → Type 0
  SoundBehind command [] = Unit
  SoundBehind command (value ∷ rest) = Sound command rest

  refused :
      (command : Option Subcommand) (args : List OsStr)
      → scan program command args ≡ none
      → Sound command args
  refused command args nothing out h = cc (nothing, h)

  given :
      (command : Option Subcommand) (args found : List OsStr)
      → scan program command args ≡ some found
      → Asks program command args found
      → Sound command args
  given command args found here asks out h =
      let same : found ≡ out = cc (here, h) in subst (Asks program command args) same asks

  through :
      (command : Option Subcommand) (args rest : List OsStr)
      → Known command
      → IsPassed command args rest
      → Sound command rest
      → Sound command args
  through command args rest known p sound out h =
      passed command args rest out p
        (sound out (sym (passed-scan program command args rest known p) ∙ h))

  sound-option :
      (command : Option Subcommand) (arg : Text) (rest : List OsStr) (a : Arg) (inline : Bool)
      → Known command
      → IsOption command arg a inline
      → ¬ (a.action ≡ set_true)
      → Sound command rest
      → SoundBehind command rest
      → Sound command (utf8 arg ∷ rest)
  sound-option command arg rest a true known o takes one two =
      through command (utf8 arg ∷ rest) rest known (inline_value arg rest a o takes) one
  sound-option command arg [] a false known o takes one two =
      let spec = from_arg a false in
      let found = IsOption-option_spec command arg a false o in
      refused command (utf8 arg ∷ []) (
        scan-missing program command arg [] (option-no_dashes command arg spec found) (
          skip-alone command arg spec found ((takes_value_iff a false).1 takes)
            (has_inline_value-from_arg a false)))
  sound-option command arg (value ∷ rest) a false known o takes one two =
      let spec = from_arg a false in
      let found = IsOption-option_spec command arg a false o in
      elim (Bool-cases (value_can_follow_option value spec)) [
        | inl f ↦
            through command (utf8 arg ∷ value ∷ rest) rest known
              (next_value arg value rest a o takes
                (value_can_follow_option-CanFollow a false value f))
              two
        | inr f ↦ refused command (utf8 arg ∷ value ∷ rest) (
            scan-missing program command arg (value ∷ rest)
              (option-no_dashes command arg spec found)
              (skip-refused command arg value rest spec found ((takes_value_iff a false).1 takes)
                (has_inline_value-from_arg a false) f))
      ]

  help-Asks :
      (command : Option Subcommand) (arg : Text) (rest : List OsStr)
      → is_help arg ≡ true
      → Asks program command (utf8 arg ∷ rest) (control_args program (command_name command) arg)
  unfolding control_args
  help-Asks none arg rest h = help_flag arg rest ((is_help_iff arg).0 h)
  help-Asks (some c) arg rest h = command_help_flag c arg rest ((is_help_iff arg).0 h)

  word-Asks :
      (rest : List OsStr)
      → Asks program none (utf8 (codes "help") ∷ rest) (help_subcommand_args program rest)
  unfolding help_subcommand_args
  word-Asks [] = help_word
  word-Asks (utf8 topic ∷ rest) = elim (Bool-cases (is_help topic)) [
    | inl e ↦ rw (e, help_subcommand_args) (help_help topic rest ((is_help_iff topic).0 e))
    | inr e ↦
        rw (e, help_subcommand_args)
          (help_topic topic rest (λ f. let h = (is_help_iff topic).1 f in cc (h, e)))
  ]
  word-Asks (other raw ∷ rest) = help_other raw rest

  -- An argument that is neither an option with a value, nor a flag, nor a help flag.
  sound-word :
      (command : Option Subcommand) (arg : Text) (rest : List OsStr)
      → equal arg dashes ≡ false
      → skip_option_value cli_command command arg rest ≡ no_value
      → is_help arg ≡ false
      → consume_flag cli_command command arg ≡ false
      → ((c : Subcommand) → Known (some c) → Sound (some c) rest)
      → Sound command (utf8 arg ∷ rest)
  unfolding control_args
  sound-word (some c) arg rest no_dashes skip no_help no_flag inside =
      refused (some c) (utf8 arg ∷ rest)
        (scan-behind program c arg rest no_dashes skip no_help no_flag)
  sound-word none arg rest no_dashes skip no_help no_flag inside =
      elim (Bool-cases (is_version arg)) [
        | inl v ↦
            given none (utf8 arg ∷ rest) _ (scan-version program arg rest no_dashes skip no_help v)
              (version_flag arg rest ((is_version_iff arg).0 v))
        | inr v ↦ elim (Bool-cases (equal arg (codes "help"))) [
          | inl w ↦
              given none (utf8 arg ∷ rest) _ (scan-word program arg rest no_dashes skip no_help v w)
                (subst (λ a. Asks program none (utf8 a ∷ rest) (help_subcommand_args program rest))
                  (sym ((equal_iff arg (codes "help")).0 w)) (word-Asks rest))
          | inr w ↦ elim (Option-cases (find_subcommand cli_command.subcommands arg)) [
            | inl u ↦
                refused none (utf8 arg ∷ rest)
                  (scan-unknown program arg rest no_dashes skip no_help v w no_flag u)
            | inr (c, u) ↦ λ out h.
                let (member, named) = find_subcommand-IsMember cli_command.subcommands arg c u in
                subst (λ x. Asks program none (utf8 x ∷ rest) out) named
                  (subcommand c rest out member (
                    inside c (find_subcommand-IsSubcommand arg c u).known out
                      (sym (scan-subcommand program c arg rest u) ∙ h)))
          ]
        ]
      ]

  sound-flag :
      (command : Option Subcommand) (arg : Text) (rest : List OsStr) (a : Arg) (inline : Bool)
      → Known command
      → IsOption command arg a inline
      → equal arg dashes ≡ false
      → is_help arg ≡ false
      → (from_arg a inline).takes_value ≡ false
      → ((c : Option Subcommand) → Known c → Sound c rest)
      → Sound command (utf8 arg ∷ rest)
  sound-flag command arg rest a true known o no_dashes no_help v one =
      let spec = from_arg a true in
      let found = IsOption-option_spec command arg a true o in
      sound-word command arg rest no_dashes (skip-flag command arg rest spec found v) no_help
        (consume-some command arg rest spec found v ∙ ap not (has_inline_value-from_arg a true))
        (λ c. one (some c))
  sound-flag command arg rest a false known o no_dashes no_help v one =
      through command (utf8 arg ∷ rest) rest known (flag arg rest a o ((is_flag_iff a false).0 v))
        (one command known)

  -- An argument that is an option.
  sound-found :
      (command : Option Subcommand) (arg : Text) (rest : List OsStr) (a : Arg) (inline : Bool)
      → Known command
      → IsOption command arg a inline
      → equal arg dashes ≡ false
      → is_help arg ≡ false
      → ((c : Option Subcommand) → Known c → Sound c rest)
      → SoundBehind command rest
      → Sound command (utf8 arg ∷ rest)
  sound-found command arg rest a inline known o no_dashes no_help one two =
      elim (Bool-cases (from_arg a inline).takes_value) [
        | inl v ↦
            sound-option command arg rest a inline known o ((takes_value_iff a inline).0 v)
              (one command known) two
        | inr v ↦ sound-flag command arg rest a inline known o no_dashes no_help v one
      ]

  sound-front :
      (command : Option Subcommand) (arg : Text) (rest : List OsStr)
      → Known command
      → ((c : Option Subcommand) → Known c → Sound c rest)
      → SoundBehind command rest
      → Sound command (utf8 arg ∷ rest)
  sound-front command arg rest known one two = elim (Bool-cases (equal arg dashes)) [
    | inl d ↦ refused command (utf8 arg ∷ rest) (scan-dashes program command arg rest d)
    | inr d ↦ elim (Bool-cases (is_help arg)) [
      | inl e ↦
          let skip = skip-none command arg rest (help_option command arg known e) in
          given command (utf8 arg ∷ rest) _ (scan-help program command arg rest d skip e)
            (help-Asks command arg rest e)
      | inr e ↦ elim (Option-cases (option_spec cli_command command arg)) [
        | inl n ↦
            sound-word command arg rest d (skip-none command arg rest n) e
              (consume-none command arg rest n) (λ c. one (some c))
        | inr (spec, s) ↦
            let (a, inline, o) = option_spec-IsOption command arg spec s in
            sound-found command arg rest a inline known o d e one two
      ]
    ]
  ]

  pub sound : (command : Option Subcommand) (args : List OsStr) → Known command → Sound command args
  unfolding help_scan
  sound command [] known = refused command [] refl
  sound command (other raw ∷ rest) known = refused command (other raw ∷ rest) refl
  sound command (utf8 arg ∷ []) known = sound-front command arg [] known (λ c k. sound c [] k) tt
  sound command (utf8 arg ∷ value ∷ rest) known =
      sound-front command arg (value ∷ rest) known (λ c k. sound c (value ∷ rest) k)
        (sound command rest known)
