-- ===== src/Tests/Arguments.antt =====
-- Tests of argv.rs.
use salus_rs.Cli.Duration.{parse_duration}
use salus_rs.Error.{invalid_config, lit}
use salus_rs.Diagnostic.{value}
use salus_rs.Prelude.{
  ◌≡◌, ◌↔◌, refl, true, false, none, some, List, [], ◌∷◌, map, String, OsStr, utf8, codes, equal,
  err,
}
use salus_rs.Argv.Options.{
  option_spec, skip_option_value, next_index_after_option_value, consume_flag, is_help, is_version,
  find_subcommand, command_accepts_trailing_args, is_negative_number_like,
}
use salus_rs.Argv.Help.{
  help_scan, trailing_help, control_args, help_subcommand_args, help_or_version_args,
}
use salus_rs.Argv.Help.Control.{Asks}
use salus_rs.Argv.Help.Exact.{help_or_version_args_iff}
use salus_rs.Argv.Quiet.{observe_flag, quiet_scan, trailing_quiet, requests_quiet}
use salus_rs.Argv.Quiet.Asked.{asks_quiet, asks_verbose, requests_quiet-asks_quiet}

abbrev words : List String → List OsStr
words = map (λ s. utf8 (codes s))

numbers :
    (is_negative_number_like (codes "-1.5e3") ≡ true)
    × (is_negative_number_like (codes "-1e") ≡ false)
    × (is_negative_number_like (codes "-1.2.3") ≡ false)
    × (is_negative_number_like (codes "-x") ≡ false)
unfolding is_negative_number_like
numbers = (refl, refl, refl, refl)

helps :
    (help_or_version_args
        (words ("salus" ∷ "--timeout" ∷ "3s" ∷ "http" ∷ "--url" ∷ "${URL}" ∷ "--help" ∷ []))
      ≡ some (words ("salus" ∷ "http" ∷ "--help" ∷ [])))
    × (help_or_version_args (words ("salus" ∷ "--timeout" ∷ "help" ∷ "http" ∷ "-h" ∷ []))
        ≡ some (words ("salus" ∷ "http" ∷ "-h" ∷ [])))
    × (help_or_version_args (words ("salus" ∷ "http" ∷ "--url" ∷ "--help" ∷ [])) ≡ none)
    × (help_or_version_args (words ("salus" ∷ "-V" ∷ [])) ≡ some (words ("salus" ∷ "-V" ∷ [])))
    × (help_or_version_args (words ("salus" ∷ "help" ∷ "exec" ∷ []))
        ≡ some (words ("salus" ∷ "help" ∷ "exec" ∷ [])))
    × (help_or_version_args (words ("salus" ∷ "exec" ∷ "cmd" ∷ "--help" ∷ [])) ≡ none)
    × (help_or_version_args (words ("salus" ∷ "exec" ∷ "--" ∷ "--help" ∷ [])) ≡ none)
unfolding help_or_version_args help_scan trailing_help control_args help_subcommand_args option_spec
    skip_option_value next_index_after_option_value consume_flag is_help is_version find_subcommand
    command_accepts_trailing_args equal
helps = (refl, refl, refl, refl, refl, refl, refl)

-- The value of an option is passed over.
help_or_version_args_iff_example :
    (help_or_version_args (words ("salus" ∷ "--timeout" ∷ "help" ∷ "http" ∷ "-h" ∷ []))
      ≡ some (words ("salus" ∷ "http" ∷ "-h" ∷ [])))
    ↔ Asks
        (utf8 (codes "salus"))
        none
        (words ("--timeout" ∷ "help" ∷ "http" ∷ "-h" ∷ []))
        (words ("salus" ∷ "http" ∷ "-h" ∷ []))
help_or_version_args_iff_example =
    help_or_version_args_iff (utf8 (codes "salus"))
      (words ("--timeout" ∷ "help" ∷ "http" ∷ "-h" ∷ [])) (words ("salus" ∷ "http" ∷ "-h" ∷ []))

quiet :
    (requests_quiet (words ("salus" ∷ "tcp" ∷ "--quiet" ∷ [])) ≡ true)
    × (requests_quiet (words ("salus" ∷ "--quiet" ∷ "--verbose" ∷ [])) ≡ false)
    × (requests_quiet (words ("salus" ∷ "exec" ∷ "cmd" ∷ "--quiet" ∷ [])) ≡ false)
    × (requests_quiet (words ("salus" ∷ "http" ∷ "--header" ∷ "--quiet" ∷ [])) ≡ false)
unfolding requests_quiet quiet_scan trailing_quiet observe_flag option_spec skip_option_value
    next_index_after_option_value consume_flag is_help find_subcommand command_accepts_trailing_args
    equal
quiet = (refl, refl, refl, refl)

requests_quiet-asks_quiet_example :
    (requests_quiet (words ("salus" ∷ "tcp" ∷ "--quiet" ∷ [])) ≡ true
      → asks_quiet (words ("tcp" ∷ "--quiet" ∷ [])) ≡ true)
    × (asks_verbose (words ("tcp" ∷ "--quiet" ∷ [])) ≡ false
        → requests_quiet (words ("salus" ∷ "--quiet" ∷ "tcp" ∷ "--quiet" ∷ [])) ≡ true)
requests_quiet-asks_quiet_example =
    requests_quiet-asks_quiet (utf8 (codes "salus")) (words ("tcp" ∷ "--quiet" ∷ []))

-- The blanks around a duration are not its own, but are shown with it.
names_the_duration :
    parse_duration (λ text. err text) (codes " 5x ")
    ≡ err (invalid_config (lit "invalid duration: " ∷ value (codes " 5x ") ∷ []))
unfolding parse_duration
names_the_duration = refl
