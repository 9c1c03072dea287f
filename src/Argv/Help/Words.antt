-- ===== src/Argv/Help/Words.antt =====
-- The words that ask for help, and the names of the subcommands, are no options.
use salus_rs.Prelude.{
  ◌≡◌, refl, sym, subst, inl, inr, true, false, Option, none, some, List, [], ◌∷◌, All, arith, Text,
  codes, equal, equal_iff, Bool-cases,
}
use salus_rs.Cli.{Subcommand, cli_command}
use salus_rs.Argv.Options.{
  option_spec, find_long_option, find_subcommand, is_help, is_version, dashes,
}

-- No subcommand has an option `--help` of its own.
abbrev pub Known : Option Subcommand → Type 0
Known none = Unit
Known (some c) = find_long_option c.arguments (codes "help") ≡ none

-- What holds of the two flags holds of a help flag, and so for the version and the subcommands.
pub of_help :
    (P : Text → Type 0) (arg : Text)
    → P (codes "-h")
    → P (codes "--help")
    → is_help arg ≡ true
    → P arg
unfolding is_help
of_help P arg short long h = elim (Bool-cases (equal arg (codes "-h"))) [
  | inl e ↦ subst P (sym ((equal_iff arg (codes "-h")).0 e)) short
  | inr e ↦
      let e' : equal arg (codes "--help") ≡ true = ground (arith, h, e) in
      subst P (sym ((equal_iff arg (codes "--help")).0 e')) long
]

pub of_version :
    (P : Text → Type 0) (arg : Text)
    → P (codes "-V")
    → P (codes "--version")
    → is_version arg ≡ true
    → P arg
unfolding is_version
of_version P arg short long h = elim (Bool-cases (equal arg (codes "-V"))) [
  | inl e ↦ subst P (sym ((equal_iff arg (codes "-V")).0 e)) short
  | inr e ↦
      let e' : equal arg (codes "--version") ≡ true = ground (arith, h, e) in
      subst P (sym ((equal_iff arg (codes "--version")).0 e')) long
]

pub of_subcommand :
    (P : Text → Subcommand → Type 0) (cs : List Subcommand) (arg : Text) (c : Subcommand)
    → All (λ c. P c.name c) cs
    → find_subcommand cs arg ≡ some c
    → P arg c
unfolding find_subcommand
of_subcommand P [] arg c all h = cc h
of_subcommand P (d ∷ cs) arg c all h = elim (Bool-cases (equal d.name arg)) [
  | inl e ↦
      let same : d ≡ c = ground (arith, h, e) in
      subst (P arg) same (subst (λ n. P n d) ((equal_iff d.name arg).0 e) all.0)
  | inr e ↦ of_subcommand P cs arg c all.1 (ground (arith, h, e))
]

pub help_dashes : (arg : Text) → is_help arg ≡ true → equal arg dashes ≡ false
unfolding equal
help_dashes arg = of_help (λ a. equal a dashes ≡ false) arg refl refl

pub help_option :
    (command : Option Subcommand) (arg : Text)
    → Known command
    → is_help arg ≡ true
    → option_spec cli_command command arg ≡ none
unfolding option_spec equal
help_option none arg known = of_help (λ a. option_spec cli_command none a ≡ none) arg refl refl
help_option (some c) arg known =
    of_help (λ a. option_spec cli_command (some c) a ≡ none) arg refl (rw (known, option_spec) refl)

-- A version flag, the word `help` and a subcommand are no options of the program and ask for nothing else.
pub record IsWord (arg : Text) : Type 0 where
  pub no_dashes : equal arg dashes ≡ false
  pub no_help : is_help arg ≡ false
  pub no_option : option_spec cli_command none arg ≡ none

pub version-IsWord : (arg : Text) → is_version arg ≡ true → IsWord arg
unfolding option_spec equal is_help
version-IsWord arg =
    of_version IsWord arg (record { no_dashes = refl; no_help = refl; no_option = refl })
      (record { no_dashes = refl; no_help = refl; no_option = refl })

pub help-IsWord : IsWord (codes "help")
unfolding option_spec equal is_help
help-IsWord = record { no_dashes = refl; no_help = refl; no_option = refl }

-- A subcommand is moreover no version flag and not the word `help`.
pub record IsSubcommand (arg : Text) (c : Subcommand) : Type 0 where
  pub word : IsWord arg
  pub no_version : is_version arg ≡ false
  pub no_help_word : equal arg (codes "help") ≡ false
  pub known : Known (some c)

facts :
    (arg : Text) (c : Subcommand)
    → equal arg dashes ≡ false
    → is_help arg ≡ false
    → option_spec cli_command none arg ≡ none
    → is_version arg ≡ false
    → equal arg (codes "help") ≡ false
    → Known (some c)
    → IsSubcommand arg c
facts arg c no_dashes no_help no_option no_version no_help_word known = record {
  word = record { no_dashes = no_dashes; no_help = no_help; no_option = no_option };
  no_version = no_version;
  no_help_word = no_help_word;
  known = known;
}

-- The table is gone through.
pub find_subcommand-IsSubcommand :
    (arg : Text) (c : Subcommand)
    → find_subcommand cli_command.subcommands arg ≡ some c
    → IsSubcommand arg c
unfolding option_spec equal is_help is_version find_long_option
find_subcommand-IsSubcommand arg c = of_subcommand IsSubcommand cli_command.subcommands arg c (
  facts _ _ refl refl refl refl refl refl,
  (
    facts _ _ refl refl refl refl refl refl,
    (
      facts _ _ refl refl refl refl refl refl,
      (facts _ _ refl refl refl refl refl refl, (facts _ _ refl refl refl refl refl refl, tt)),
    ),
  ),
)
