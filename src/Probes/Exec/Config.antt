-- ===== src/Probes/Exec/Config.antt =====
-- How the exec probe configures the command that it starts.
use salus_rs.Prelude.{
  ℕ, Bool, true, false, Option, none, some, List, [], ◌∷◌, ◌==◌, if◌then◌else◌, is_nil, Bytes,
  OsStr,
}
use salus_rs.Probes.Exec.Args.{ExecArgs}

pub data Stdio : Type 0 where
  null : Stdio
  piped : Stdio
  inherit : Stdio

-- A `Command` of tokio, as far as the program sets it. `process_group` is none where the child stays
-- in the group of its parent.
pub record CommandConfig : Type 0 where
  pub program : OsStr
  pub args : List OsStr
  pub kill_on_drop : Bool
  pub process_group : Option ℕ
  pub stdin : Stdio
  pub stdout : Stdio
  pub stderr : Stdio

-- `command.kill_on_drop(true)`
abbrev pub kills_on_drop : Bool
kills_on_drop = true

-- `Command::new`
new_command : OsStr → CommandConfig
new_command program = record {
  program = program;
  args = [];
  kill_on_drop = false;
  process_group = none;
  stdin = inherit;
  stdout = inherit;
  stderr = inherit;
}

unfoldable pub configure_process_group : CommandConfig → CommandConfig
configure_process_group command = record command { process_group = some 0 }

-- A stream that no text is required of is not read.
capture : List Bytes → Stdio
capture needles = if is_nil needles then null else piped

behind_first : List OsStr → List OsStr
behind_first [] = []
behind_first (program ∷ args) = args

unfoldable pub configured : ExecArgs → OsStr → CommandConfig
unfolding new_command configure_process_group capture behind_first
configured args program =
    let command = record (new_command program) {
      args = behind_first args.command;
      kill_on_drop = kills_on_drop;
    } in
    record (configure_process_group command) {
      stdin = null;
      stdout = capture args.stdout_contains;
      stderr = capture args.stderr_contains;
    }

-- The process group of a child with this number, as the system makes it: for the group 0 a new one that has
-- the number of the child. It is none where that is the group of the parent.
unfoldable pub group_of : CommandConfig → ℕ → Option ℕ
group_of command id = elim command.process_group [
  | none ↦ none
  | some n ↦ if n == 0 then some id else some n
]
