-- ===== src/Cli.antt =====
-- cli.rs: the command line as `clap` is told of it. The table is what `Cli::command()` builds from the
-- attributes, as far as argv.rs looks at it.
pub mod Duration
use salus_rs.Prelude.{
  Bool, true, false, Option, none, some, List, [], ◌∷◌, ◌++◌, String, Text, codes,
}

pub data ArgAction : Type 0 where
  set : ArgAction
  append : ArgAction
  set_true : ArgAction

-- A positional argument has no long name.
pub record Arg : Type 0 where
  pub long : Option Text
  pub action : ArgAction
  pub allow_hyphen_values : Bool
  pub allow_negative_numbers : Bool
  pub trailing_var_arg : Bool

pub record Subcommand : Type 0 where
  pub name : Text
  pub arguments : List Arg

pub record Command : Type 0 where
  pub arguments : List Arg
  pub subcommands : List Subcommand

abbrev option : String → ArgAction → Arg
option long action = record {
  long = some (codes long);
  action = action;
  allow_hyphen_values = false;
  allow_negative_numbers = false;
  trailing_var_arg = false;
}

-- With `allow_negative_numbers = true`.
abbrev number_option : String → ArgAction → Arg
number_option long action = record (option long action) { allow_negative_numbers = true }

abbrev pub tls_args : List Arg
tls_args =
    option "ca" set
    ∷ option "cert" set
    ∷ option "key" set
    ∷ option "server-name" set
    ∷ option "insecure-skip-verify" set_true
    ∷ []

abbrev pub http_args : List Arg
http_args =
    (option "url" set
      ∷ option "sock" set
      ∷ option "path" set
      ∷ option "method" set
      ∷ option "header" append
      ∷ option "host" set
      ∷ number_option "status" append
      ∷ option "header-present" append
      ∷ option "header-equals" append
      ∷ option "header-contains" append
      ∷ option "header-not-contains" append
      ∷ option "body-equals" set
      ∷ option "contains" append
      ∷ option "not-contains" append
      ∷ [])
    ++ tls_args
    ++ number_option "max-body" set ∷ []

abbrev pub tcp_args : List Arg
tcp_args = option "addr" set ∷ []

abbrev pub grpc_args : List Arg
grpc_args =
    (option "addr" set ∷ option "service" set ∷ option "tls" set_true ∷ option "authority" set ∷ [])
    ++ tls_args

abbrev pub exec_args : List Arg
exec_args =
    number_option "exit-code" append
    ∷ option "stdout-contains" append
    ∷ option "stderr-contains" append
    ∷ number_option "max-output" set
    ∷ record {
      long = none;
      action = append;
      allow_hyphen_values = false;
      allow_negative_numbers = false;
      trailing_var_arg = true;
    }
    ∷ []

abbrev pub file_args : List Arg
file_args =
    option "path" set
    ∷ option "readable" set_true
    ∷ option "non-empty" set_true
    ∷ option "contains" append
    ∷ number_option "min-size" set
    ∷ number_option "max-size" set
    ∷ number_option "max-age" set
    ∷ number_option "max-read" set
    ∷ []

abbrev subcommand : String → List Arg → Subcommand
subcommand name arguments = record { name = codes name; arguments = arguments }

abbrev pub cli_subcommands : List Subcommand
cli_subcommands =
    subcommand "http" http_args
    ∷ subcommand "tcp" tcp_args
    ∷ subcommand "grpc" grpc_args
    ∷ subcommand "exec" exec_args
    ∷ subcommand "file" file_args
    ∷ []

-- `Cli::command()`
abbrev pub cli_command : Command
cli_command = record {
  arguments =
      number_option "timeout" set
      ∷ number_option "max-latency" set
      ∷ option "quiet" set_true
      ∷ option "verbose" set_true
      ∷ [];
  subcommands = cli_subcommands;
}
