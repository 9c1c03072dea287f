-- ===== src/Argv/Help/Skips.antt =====
-- What the scan does about an option at the front.
use salus_rs.Prelude.{
  ◌≡◌, refl, sym, subst, inl, inr, true, false, not, ◌&&◌, Option, none, some, List, [], ◌∷◌, arith,
  is_none, Text, OsStr, codes, equal, equal_iff, Bool-cases,
}
use salus_rs.Cli.{Subcommand, cli_command}
use salus_rs.Argv.Options.{
  OptionSpec, option_spec, no_value, skipped, missing, by_one, by_two, value_can_follow_option,
  is_help, is_version, dashes, skip_option_value, next_index_after_option_value, consume_flag,
}
use salus_rs.Argv.Help.Words.{Known, help_option, IsWord, version-IsWord, help-IsWord}

-- What stands at the front, and where the scan goes on.
module _ (command : Option Subcommand) (arg : Text) (rest : List OsStr) where
  pub skip-none :
      option_spec cli_command command arg ≡ none
      → skip_option_value cli_command command arg rest ≡ no_value
  unfolding skip_option_value
  skip-none h = rw (h, skip_option_value) refl

  pub skip-flag :
      (spec : OptionSpec)
      → option_spec cli_command command arg ≡ some spec
      → spec.takes_value ≡ false
      → skip_option_value cli_command command arg rest ≡ no_value
  unfolding skip_option_value
  skip-flag spec h takes = ground (arith, h, takes)

  pub skip-inline :
      (spec : OptionSpec)
      → option_spec cli_command command arg ≡ some spec
      → spec.takes_value ≡ true
      → spec.has_inline_value ≡ true
      → skip_option_value cli_command command arg rest ≡ skipped by_one
  unfolding skip_option_value next_index_after_option_value
  skip-inline spec h takes inline = ground (arith, h, takes, inline)

  pub consume-none :
      option_spec cli_command command arg ≡ none → consume_flag cli_command command arg ≡ false
  unfolding consume_flag
  consume-none h = rw (h, consume_flag) refl

  pub consume-some :
      (spec : OptionSpec)
      → option_spec cli_command command arg ≡ some spec
      → spec.takes_value ≡ false
      → consume_flag cli_command command arg ≡ not spec.has_inline_value
  unfolding consume_flag
  consume-some spec h takes = ground (arith, h, takes)

pub skip-next :
    (command : Option Subcommand) (arg : Text) (value : OsStr) (rest : List OsStr)
    (spec : OptionSpec)
    → option_spec cli_command command arg ≡ some spec
    → spec.takes_value ≡ true
    → spec.has_inline_value ≡ false
    → value_can_follow_option value spec ≡ true
    → skip_option_value cli_command command arg (value ∷ rest) ≡ skipped by_two
unfolding skip_option_value next_index_after_option_value
skip-next command arg value rest spec h takes apart follows =
    ground (arith, h, takes, apart, follows)

pub skip-alone :
    (command : Option Subcommand) (arg : Text) (spec : OptionSpec)
    → option_spec cli_command command arg ≡ some spec
    → spec.takes_value ≡ true
    → spec.has_inline_value ≡ false
    → skip_option_value cli_command command arg [] ≡ missing
unfolding skip_option_value next_index_after_option_value
skip-alone command arg spec h takes apart = ground (arith, h, takes, apart)

pub skip-refused :
    (command : Option Subcommand) (arg : Text) (value : OsStr) (rest : List OsStr)
    (spec : OptionSpec)
    → option_spec cli_command command arg ≡ some spec
    → spec.takes_value ≡ true
    → spec.has_inline_value ≡ false
    → value_can_follow_option value spec ≡ false
    → skip_option_value cli_command command arg (value ∷ rest) ≡ missing
unfolding skip_option_value next_index_after_option_value
skip-refused command arg value rest spec h takes apart follows =
    ground (arith, h, takes, apart, follows)

-- An option that is no `--`.
pub option-no_dashes :
    (command : Option Subcommand) (arg : Text) (spec : OptionSpec)
    → option_spec cli_command command arg ≡ some spec
    → equal arg dashes ≡ false
unfolding option_spec
option-no_dashes command arg spec h = elim (Bool-cases (equal arg dashes)) [
  | inl e ↦ absurd (
      let same = (equal_iff arg dashes).0 e in
      let none_there : option_spec cli_command command arg ≡ none =
        subst (λ a. option_spec cli_command command a ≡ none) (sym same) refl in
      cc (none_there, h))
  | inr e ↦ e
]

pub option-no_help :
    (command : Option Subcommand) (arg : Text) (spec : OptionSpec)
    → Known command
    → option_spec cli_command command arg ≡ some spec
    → is_help arg ≡ false
option-no_help command arg spec known h = elim (Bool-cases (is_help arg)) [
  | inl e ↦ absurd (let none_there = help_option command arg known e in cc (none_there, h))
  | inr e ↦ e
]

pub option-no_word :
    (command : Option Subcommand) (arg : Text) (spec : OptionSpec)
    → option_spec cli_command command arg ≡ some spec
    → (is_none command && is_version arg ≡ false)
      × (is_none command && equal arg (codes "help") ≡ false)
option-no_word (some c) arg spec h = (refl, refl)
option-no_word none arg spec h = (
  elim (Bool-cases (is_version arg)) [
    | inl e ↦ absurd (let none_there = (version-IsWord arg e).no_option in cc (none_there, h))
    | inr e ↦ e
  ],
  elim (Bool-cases (equal arg (codes "help"))) [
    | inl e ↦ absurd (
        let none_there = subst IsWord (sym ((equal_iff arg (codes "help")).0 e)) help-IsWord in
        let no_option = none_there.no_option in cc (no_option, h))
    | inr e ↦ e
  ],
)
