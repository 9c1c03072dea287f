-- ===== src/Argv/Quiet/Asked.antt =====
-- Errors are hidden where the arguments ask for it, and only there.
use salus_rs.Prelude.{
  ◌≡◌, arith, refl, Bool, true, false, ◌||◌, none, List, ◌∷◌, any, Text, OsStr, utf8, other, codes,
  equal,
}
use salus_rs.Cli.{cli_command}
use salus_rs.Argv.Options.{skip_option_value, option_spec}
use salus_rs.Argv.Quiet.{OutputRequest, default_request, observe_flag, quiet_scan, requests_quiet}
use salus_rs.Argv.Quiet.Scans.{IsScanned, quiet_scan-IsScanned}

abbrev is_flag : Text → OsStr → Bool
is_flag name (utf8 arg) = equal arg name
is_flag name (other raw) = false

-- The arguments hold the flag itself.
abbrev pub asks_quiet : List OsStr → Bool
asks_quiet args = any (is_flag (codes "--quiet")) args

abbrev pub asks_verbose : List OsStr → Bool
asks_verbose args = any (is_flag (codes "--verbose")) args

-- If the scan says quiet, then it was asked for before, or it is among the arguments to come.
abbrev Asked : OutputRequest → List OsStr → Bool → Type 0
Asked output args result = result ≡ true → (output.quiet || asks_quiet args) ≡ true

-- If it was asked for before, and nothing speaks against it, then the scan says quiet.
abbrev Heeded : OutputRequest → List OsStr → Bool → Type 0
Heeded output args result =
    output.quiet ≡ true → (output.verbose || asks_verbose args) ≡ false → result ≡ true

Asked-IsScanned : IsScanned Asked
unfolding observe_flag
Asked-IsScanned = record {
  now = λ output args h. ground (arith, h);
  cons = λ output arg rest r before h. ground (arith, before h);
  observe = λ output arg rest r before h. ground (arith, before h);
}

Heeded-IsScanned : IsScanned Heeded
unfolding observe_flag
Heeded-IsScanned = record {
  now = λ output args quiet terse. ground (arith, quiet, terse);
  cons = λ output arg rest r before quiet terse. before quiet (ground (arith, terse));
  observe = λ output arg rest r before quiet terse.
      before (ground (arith, quiet)) (ground (arith, terse));
}

-- Errors are hidden only where `--quiet` itself is one of the arguments behind the program's name. They
-- are hidden where it is the first of them and `--verbose` is not among the others.
pub requests_quiet-asks_quiet :
    (program : OsStr) (args : List OsStr)
    → (requests_quiet (program ∷ args) ≡ true → asks_quiet args ≡ true)
      × (asks_verbose args ≡ false
          → requests_quiet (program ∷ utf8 (codes "--quiet") ∷ args) ≡ true)
unfolding requests_quiet quiet_scan observe_flag skip_option_value option_spec equal
requests_quiet-asks_quiet program args = (
  quiet_scan-IsScanned Asked Asked-IsScanned cli_command none false default_request args,
  quiet_scan-IsScanned Heeded Heeded-IsScanned cli_command none false
      (record { quiet = true; verbose = false }) args refl,
)
