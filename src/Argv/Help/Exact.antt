-- ===== src/Argv/Help/Exact.antt =====
-- The scan for help or the version finds what is asked for, and nothing else.
use salus_rs.Prelude.{◌≡◌, ◌↔◌, none, some, List, ◌∷◌, OsStr}
use salus_rs.Argv.Help.{help_or_version_args}
use salus_rs.Argv.Help.Control.{Asks}
use salus_rs.Argv.Help.Complete.{complete}
use salus_rs.Argv.Help.Sound.{sound}

-- A command line is answered with a request for help or the version exactly if its arguments ask for it,
-- and then with the request that they ask for. What asks stands behind options with their values, flags and at
-- most one subcommand. An option's value, and all that stands behind `--` or an unknown word, asks for nothing.
pub help_or_version_args_iff :
    (program : OsStr) (args out : List OsStr)
    → (help_or_version_args (program ∷ args) ≡ some out) ↔ Asks program none args out
unfolding help_or_version_args
help_or_version_args_iff program args out =
    (sound program none args tt out, complete program none args out tt)
