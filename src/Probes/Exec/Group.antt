-- ===== src/Probes/Exec/Group.antt =====
-- What the exec probe stops: the child, its process group, and the tasks that read its output.
use salus_rs.Prelude.{
  ℕ, not, ◌&&◌, Option, none, some, List, [], ◌∷◌, ◌++◌, ◌==◌, leb, if◌then◌else◌, is_nil,
}
use salus_rs.Probes.Exec.Args.{ExecArgs}
use salus_rs.Probes.Exec.Config.{kills_on_drop}

-- What the run does to what it has started.
pub data Effect : Type 0 where
  kill_group : ℕ → Effect
  kill_child : Effect
  abort_stdout : Effect
  abort_stderr : Effect
  reap : Effect

abbrev pub i32_max : ℕ
i32_max = 2147483647

-- `abort_output_tasks`
unfoldable pub abort_output_tasks : ExecArgs → List Effect
abort_output_tasks args =
    (if is_nil args.stdout_contains then [] else abort_stdout ∷ [])
    ++ (if is_nil args.stderr_contains then [] else abort_stderr ∷ [])

-- `i32::try_from`, and `Pid::from_raw`, which takes no 0.
unfoldable pub child_process_group : Option ℕ → Option ℕ
child_process_group none = none
child_process_group (some id) = if leb id i32_max && not (id == 0) then some id else none

-- `terminate_process_group`
unfoldable pub terminate_process_group : Option ℕ → List Effect
terminate_process_group none = []
terminate_process_group (some group) = kill_group group ∷ []

-- `terminate_child`
unfoldable pub terminate_child : Option ℕ → List Effect
terminate_child group = terminate_process_group group ++ (kill_child ∷ [])

pub record ProcessGroupCleanup : Type 0 where
  pub process_group : Option ℕ

-- `ProcessGroupCleanup::terminate` takes the group out, and so kills it once.
unfoldable pub terminate : ProcessGroupCleanup → ProcessGroupCleanup × List Effect
terminate cleanup = (record { process_group = none }, terminate_process_group cleanup.process_group)

-- `ProcessGroupCleanup::drop`
unfoldable pub drop_cleanup : ProcessGroupCleanup → List Effect
drop_cleanup cleanup = (terminate cleanup).1

-- A child that was not waited for is dropped, and killed if the command says so.
unfoldable pub drop_child : List Effect
drop_child = if kills_on_drop then kill_child ∷ [] else []
