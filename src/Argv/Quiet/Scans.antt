-- ===== src/Argv/Quiet/Scans.antt =====
-- What holds of every result of the scan for `--quiet`.
use salus_rs.Prelude.{
  Bool, true, false, Option, none, some, List, [], ◌∷◌, if◌then◌else◌, is_none, Text, OsStr, utf8,
  other, equal,
}
use salus_rs.Cli.{Subcommand, Command}
use salus_rs.Argv.Options.{
  by_one, by_two, Skip, no_value, skipped, missing, skip_option_value, consume_flag, is_help,
  find_subcommand, command_accepts_trailing_args, dashes,
}
use salus_rs.Argv.Quiet.{OutputRequest, observe_flag, quiet_of, trailing_quiet, quiet_scan}

-- A relation of what was seen, the arguments to come and the result, that every step of a scan keeps.
pub record IsScanned (R : OutputRequest → List OsStr → Bool → Type 0) : Type 0 where
  pub now : (output : OutputRequest) (args : List OsStr) → R output args (quiet_of output)
  pub cons :
      (output : OutputRequest) (arg : OsStr) (rest : List OsStr) (r : Bool)
      → R output rest r
      → R output (arg ∷ rest) r
  pub observe :
      (output : OutputRequest) (arg : Text) (rest : List OsStr) (r : Bool)
      → R (observe_flag output arg).0 rest r
      → R output (utf8 arg ∷ rest) r

module _ (P : Bool → Type 0) where
  either : (b : Bool) {x y : Bool} → P x → P y → P (if b then x else y)
  either true p q = p
  either false p q = q

  after_skip :
      (s : Skip) {stop next behind other_arg : Bool}
      → P stop
      → P next
      → P behind
      → P other_arg
      → P (elim s [
        | missing ↦ stop
        | skipped by_one ↦ next
        | skipped by_two ↦ behind
        | no_value ↦ other_arg
      ])
  after_skip missing s n b o = s
  after_skip (skipped by_one) s n b o = n
  after_skip (skipped by_two) s n b o = b
  after_skip no_value s n b o = o

  in_subcommand :
      (found : Option Subcommand) {stop : Bool} {k : Subcommand → Bool}
      → P stop
      → ((c : Subcommand) → P (k c))
      → P (elim found [ none ↦ stop | some c ↦ k c ])
  in_subcommand none s h = s
  in_subcommand (some c) s h = h c

module _ (R : OutputRequest → List OsStr → Bool → Type 0) (is_scanned : IsScanned R)
    (root : Command) where
  trailing_quiet-IsScanned :
      (c : Subcommand) (skip : Bool) (output : OutputRequest) (args : List OsStr)
      → R output args (trailing_quiet root c skip output args)
  unfolding trailing_quiet
  trailing_quiet-IsScanned c skip output [] = is_scanned.now output []
  trailing_quiet-IsScanned c true output (value ∷ rest) =
      is_scanned.cons output value rest _ (trailing_quiet-IsScanned c false output rest)
  trailing_quiet-IsScanned c false output (other raw ∷ rest) =
      is_scanned.now output (other raw ∷ rest)
  trailing_quiet-IsScanned c false output (utf8 arg ∷ rest) =
      let P = R output (utf8 arg ∷ rest) in
      let stop = is_scanned.now output (utf8 arg ∷ rest) in
      let go_on = λ (skip : Bool).
        is_scanned.cons output (utf8 arg) rest _ (trailing_quiet-IsScanned c skip output rest) in
      either P (equal arg dashes) stop (
        after_skip P (skip_option_value root (some c) arg rest) stop (go_on false) (go_on true) (
          either P (observe_flag output arg).1
            (is_scanned.observe output arg rest _
              (trailing_quiet-IsScanned c false (observe_flag output arg).0 rest))
            (either P (consume_flag root (some c) arg) (go_on false)
              (either P (is_help arg) (go_on false) stop))))

  pub quiet_scan-IsScanned :
      (command : Option Subcommand) (skip : Bool) (output : OutputRequest) (args : List OsStr)
      → R output args (quiet_scan root command skip output args)
  unfolding quiet_scan
  quiet_scan-IsScanned command skip output [] = is_scanned.now output []
  quiet_scan-IsScanned command true output (value ∷ rest) =
      is_scanned.cons output value rest _ (quiet_scan-IsScanned command false output rest)
  quiet_scan-IsScanned command false output (other raw ∷ rest) =
      is_scanned.now output (other raw ∷ rest)
  quiet_scan-IsScanned command false output (utf8 arg ∷ rest) =
      let P = R output (utf8 arg ∷ rest) in
      let stop = is_scanned.now output (utf8 arg ∷ rest) in
      let go_on = λ (c : Option Subcommand) (skip : Bool).
        is_scanned.cons output (utf8 arg) rest _ (quiet_scan-IsScanned c skip output rest) in
      either P (equal arg dashes) stop (
        after_skip P (skip_option_value root command arg rest) stop (go_on command false)
          (go_on command true)
          (either P (observe_flag output arg).1
            (is_scanned.observe output arg rest _
              (quiet_scan-IsScanned command false (observe_flag output arg).0 rest))
            (either P (consume_flag root command arg) (go_on command false) (
              either P (is_none command)
                (in_subcommand P (find_subcommand root.subcommands arg) stop (λ c.
                  either P (command_accepts_trailing_args c)
                    (is_scanned.cons output (utf8 arg) rest _
                      (trailing_quiet-IsScanned c false output rest))
                    (go_on (some c) false)))
                stop))))
