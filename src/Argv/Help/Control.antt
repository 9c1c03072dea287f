-- ===== src/Argv/Help/Control.antt =====
-- Which arguments ask for help or for the version, and what they are turned into.
use salus_rs.Prelude.{
  ℕ, ◌≡◌, true, false, Bool, Option, none, some, List, [], ◌∷◌, ◌++◌, All, Text, OsStr, utf8, other,
  codes, starts_with,
}
use salus_rs.Authority.{contains}
use salus_rs.Cli.{set_true, Arg, Subcommand, cli_command}
use salus_rs.Argv.Options.{is_negative_number_like}

pub data IsHelpFlag : Text → Type 0 where
  short_help : IsHelpFlag (codes "-h")
  long_help : IsHelpFlag (codes "--help")

pub data IsVersionFlag : Text → Type 0 where
  short_version : IsVersionFlag (codes "-V")
  long_version : IsVersionFlag (codes "--version")

-- An option in writing: its name behind two dashes, and perhaps a value behind `=`.
pub data IsWritten (name : Text) : Text → Bool → Type 0 where
  alone : contains b'=' name ≡ false → IsWritten name (b'-' ∷ b'-' ∷ name) false
  with_value :
      (value : Text)
      → contains b'=' name ≡ false
      → IsWritten name (b'-' ∷ b'-' ∷ (name ++ (b'=' ∷ value))) true

-- The first of the arguments that has this name.
pub data IsFirst (name : Text) (a : Arg) : List Arg → Type 0 where
  first : (args : List Arg) → a.long ≡ some name → IsFirst name a (a ∷ args)
  later :
      (b : Arg) (args : List Arg)
      → ¬ (b.long ≡ some name)
      → IsFirst name a args
      → IsFirst name a (b ∷ args)

-- The option of this name: that of the subcommand, or else that of the program.
pub data IsNamed : Option Subcommand → Text → Arg → Type 0 where
  of_program : (name : Text) (a : Arg) → IsFirst name a cli_command.arguments → IsNamed none name a
  of_command :
      (c : Subcommand) (name : Text) (a : Arg)
      → IsFirst name a c.arguments
      → IsNamed (some c) name a
  behind_command :
      (c : Subcommand) (name : Text) (a : Arg)
      → All (λ b. ¬ (b.long ≡ some name)) c.arguments
      → IsFirst name a cli_command.arguments
      → IsNamed (some c) name a

-- The text is this option of the subcommand or of the program.
pub record IsOption (command : Option Subcommand) (arg : Text) (a : Arg) (inline : Bool)
    : Type 0 where
  pub name : Text
  pub some_name : ¬ (name ≡ [])
  pub written : IsWritten name arg inline
  pub named : IsNamed command name a

-- What the next argument may be for it to be the value of an option.
pub data CanFollow (a : Arg) : OsStr → Type 0 where
  raw_value : (raw : List ℕ) → CanFollow a (other raw)
  plain_value : (value : Text) → starts_with b'-' value ≡ false → CanFollow a (utf8 value)
  hyphen_value :
      (value : Text)
      → ¬ (value ≡ codes "--")
      → a.allow_hyphen_values ≡ true
      → CanFollow a (utf8 value)
  negative_value :
      (value : Text)
      → ¬ (value ≡ codes "--")
      → a.allow_negative_numbers ≡ true
      → is_negative_number_like value ≡ true
      → CanFollow a (utf8 value)

-- What stands at the front and asks for nothing: an option with its value, in the same argument or in the
-- next one, or a flag. `command` is the subcommand whose options count beside those of the program.
pub data IsPassed (command : Option Subcommand) : List OsStr → List OsStr → Type 0 where
  inline_value :
      (arg : Text) (rest : List OsStr) (a : Arg)
      → IsOption command arg a true
      → ¬ (a.action ≡ set_true)
      → IsPassed command (utf8 arg ∷ rest) rest
  next_value :
      (arg : Text) (value : OsStr) (rest : List OsStr) (a : Arg)
      → IsOption command arg a false
      → ¬ (a.action ≡ set_true)
      → CanFollow a value
      → IsPassed command (utf8 arg ∷ value ∷ rest) rest
  flag :
      (arg : Text) (rest : List OsStr) (a : Arg)
      → IsOption command arg a false
      → a.action ≡ set_true
      → IsPassed command (utf8 arg ∷ rest) rest

-- The subcommand is one of these.
pub data IsMember (c : Subcommand) : List Subcommand → Type 0 where
  head : (cs : List Subcommand) → IsMember c (c ∷ cs)
  tail : (d : Subcommand) (cs : List Subcommand) → IsMember c cs → IsMember c (d ∷ cs)

-- The arguments ask for help or the version, and are turned into others. What asks is a flag or the word
-- `help`, behind options, flags and at most one subcommand. No constructor passes over `--`, an
-- argument that is no text, an unknown word, or an option whose value is missing.
pub data Asks (program : OsStr) : Option Subcommand → List OsStr → List OsStr → Type 0 where
  help_flag :
      (arg : Text) (rest : List OsStr)
      → IsHelpFlag arg
      → Asks program none (utf8 arg ∷ rest) (program ∷ utf8 arg ∷ [])
  command_help_flag :
      (c : Subcommand) (arg : Text) (rest : List OsStr)
      → IsHelpFlag arg
      → Asks program (some c) (utf8 arg ∷ rest) (program ∷ utf8 c.name ∷ utf8 arg ∷ [])
  version_flag :
      (arg : Text) (rest : List OsStr)
      → IsVersionFlag arg
      → Asks program none (utf8 arg ∷ rest) (program ∷ utf8 arg ∷ [])
  help_word : Asks program none (utf8 (codes "help") ∷ []) (program ∷ utf8 (codes "help") ∷ [])
  help_topic :
      (topic : Text) (rest : List OsStr)
      → ¬ IsHelpFlag topic
      → Asks program none
          (utf8 (codes "help") ∷ utf8 topic ∷ rest)
          (program ∷ utf8 (codes "help") ∷ utf8 topic ∷ [])
  help_help :
      (topic : Text) (rest : List OsStr)
      → IsHelpFlag topic
      → Asks program none
          (utf8 (codes "help") ∷ utf8 topic ∷ rest)
          (program ∷ utf8 (codes "help") ∷ utf8 (codes "help") ∷ [])
  help_other :
      (raw : List ℕ) (rest : List OsStr)
      → Asks program none
          (utf8 (codes "help") ∷ other raw ∷ rest)
          (program ∷ utf8 (codes "help") ∷ other raw ∷ [])
  passed :
      (command : Option Subcommand) (args rest out : List OsStr)
      → IsPassed command args rest
      → Asks program command rest out
      → Asks program command args out
  subcommand :
      (c : Subcommand) (rest out : List OsStr)
      → IsMember c cli_command.subcommands
      → Asks program (some c) rest out
      → Asks program none (utf8 c.name ∷ rest) out
