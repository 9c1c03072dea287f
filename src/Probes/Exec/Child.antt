-- ===== src/Probes/Exec/Child.antt =====
-- The life of the child process: the checks before it, the wait for it, and what is stopped when.
pub mod Stopped
pub mod Succeeded
pub mod Accepted
pub mod Waits
use salus_rs.Prelude.{
  ℕ, ◌+◌, String, Bool, true, false, not, ◌&&◌, ◌||◌, Option, none, some, List, [], ◌∷◌, ◌++◌, ◌==◌,
  leb, any, if◌then◌else◌, is_nil, Text, Bytes, OsStr, os_is_empty, Result, ok, err, ◌>>=◌, ◌>>◌,
  refuse_if,
}
use salus_rs.Error.{
  AppError, AppResult, failure, invalid_config, internal, Piece, Message, lit, display, number,
  duration,
}
use salus_rs.Diagnostic.{os_str}
use salus_rs.Validation.{validate_capture_limit, validate_non_empty_values}
use salus_rs.Probe.{ProbeOptions, ProbeReport, deadline_after}
use salus_rs.Probes.Exec.Args.{ExecArgs, success_codes, is_code, validate_exec_args}
use salus_rs.Probes.Exec.Config.{CommandConfig, configured}
use salus_rs.Probes.Exec.Group.{
  Effect, kill_group, kill_child, abort_stdout, abort_stderr, reap, child_process_group,
  terminate_process_group, terminate_child, terminate, drop_cleanup, drop_child, abort_output_tasks,
  ProcessGroupCleanup,
}
use salus_rs.Probes.Exec.Output.{Read, Wake, BufferedOutput, await_output_task, check_output}

pub data SpawnError : Type 0 where
  not_found : SpawnError
  permission_denied : SpawnError
  other : Text → SpawnError

-- How the wait for the child ends: its code, or the signal that ended it where the platform tells;
-- an error; or the timeout.
pub data WaitOutcome : Type 0 where
  exited : ℕ → WaitOutcome
  no_code : Option ℕ → WaitOutcome
  wait_failed : Text → WaitOutcome
  timed_out : WaitOutcome

-- The rounds of an output task, before the wait for it and what wakes that wait.
pub record Stream : Type 0 where
  pub has_pipe : Bool
  pub before : List Read
  pub wakes : List Wake

-- What the system answers in one run: `id` is the child's number, `latest` the last instant that the
-- clock can hold, `now` the instant at which the deadline is set, `exited_at` that at which the wait
-- for the child ends.
pub record System : Type 0 where
  pub spawn : CommandConfig → Result SpawnError Unit
  pub id : Option ℕ
  pub stdout : Stream
  pub stderr : Stream
  pub latest : ℕ
  pub now : ℕ
  pub wait : WaitOutcome
  pub exited_at : ℕ

unfoldable pub spawn_error : Piece → SpawnError → AppError
spawn_error label not_found = invalid_config (lit "command " ∷ label ∷ lit " was not found" ∷ [])
spawn_error label permission_denied =
    invalid_config (lit "command " ∷ label ∷ lit " is not executable" ∷ [])
spawn_error label (other error) =
    invalid_config (lit "failed to spawn " ∷ label ∷ lit ": " ∷ display error ∷ [])

unfoldable pub command_timeout_error : Piece → ℕ → AppError
command_timeout_error label timeout =
    failure (lit "command " ∷ label ∷ lit " timed out after " ∷ duration timeout ∷ [])

unfoldable pub termination_suffix : Option ℕ → Message
termination_suffix (some signal) = lit " (signal " ∷ number signal ∷ lit ")" ∷ []
termination_suffix none = []

module _ (render : Message → Text) where
  unfoldable pub exec_report : ProbeOptions → Piece → ℕ → ℕ → ProbeReport
  exec_report options label code elapsed = record {
    mode = "exec";
    target = render (label ∷ []);
    detail = some (render (lit "exit_code=" ∷ number code ∷ []));
    elapsed = elapsed;
    options = options;
  }

  module _ (args : ExecArgs) (system : System) (deadline : ℕ) where
    -- The waits for the two tasks, the second from the end of the first.
    unfoldable pub await_stdout : AppResult BufferedOutput × ℕ
    await_stdout =
        await_output_task args.max_output args.stdout_contains system.latest deadline
          system.exited_at (not (is_nil args.stdout_contains)) system.stdout.before
          system.stdout.wakes

    unfoldable pub await_stderr : AppResult BufferedOutput × ℕ
    unfolding await_stdout
    await_stderr =
        await_output_task args.max_output args.stderr_contains system.latest deadline await_stdout.1
          (not (is_nil args.stderr_contains)) system.stderr.before system.stderr.wakes

    -- Behind the exit code: the output tasks and the required texts.
    unfoldable pub check_outputs : ProbeOptions → Piece → ℕ → ℕ → AppResult ProbeReport
    unfolding await_stdout await_stderr
    check_outputs options label code elapsed = do
      stdout ← await_stdout.0
      stderr ← await_stderr.0
      check_output "stdout" label args.max_output stdout args.stdout_contains
      check_output "stderr" label args.max_output stderr args.stderr_contains
      ok (exec_report options label code elapsed)

    -- The second task is aborted if the wait for the first one fails. A wait that gives its own task
    -- up aborts that too, which is part of the wait.
    unfoldable pub after_outputs : AppResult BufferedOutput → List Effect
    after_outputs (ok output) = []
    after_outputs (err error) = if is_nil args.stderr_contains then [] else abort_stderr ∷ []

    -- Behind the wait, with a code.
    unfoldable pub after_code : ProbeOptions → Piece → ℕ → ℕ → AppResult ProbeReport × List Effect
    after_code options label elapsed code =
        if any (is_code code) (success_codes args)
        then (check_outputs options label code elapsed, after_outputs await_stdout.0)
        else (
          err (failure (lit "command " ∷ label ∷ lit " exited with " ∷ number code ∷ [])),
          abort_output_tasks args,
        )

  -- What the wait brings; `cleanup` is dropped at the end, in each case.
  unfoldable pub after_wait :
      ProbeOptions
      → ExecArgs
      → System
      → ℕ
      → Option ℕ
      → Piece
      → ℕ
      → WaitOutcome
      → AppResult ProbeReport × List Effect
  after_wait options args system deadline group label elapsed (wait_failed error) = (
    err (failure (lit "failed waiting for child: " ∷ display error ∷ [])),
    terminate_child group
        ++ (abort_output_tasks args
            ++ (drop_cleanup (record { process_group = group }) ++ drop_child)),
  )
  after_wait options args system deadline group label elapsed timed_out = (
    err (command_timeout_error label options.timeout),
    terminate_child group
        ++ (abort_output_tasks args ++ (reap ∷ drop_cleanup (record { process_group = group }))),
  )
  after_wait options args system deadline group label elapsed (exited code) =
      let (cleanup, killed) = terminate (record { process_group = group }) in
      let (result, effects) = after_code args system deadline options label elapsed code in
      (result, killed ++ (effects ++ drop_cleanup cleanup))
  after_wait options args system deadline group label elapsed (no_code signal) =
      let (cleanup, killed) = terminate (record { process_group = group }) in
      (
        err (
            failure (
              lit "command "
              ∷ label
              ∷ lit " terminated without an exit code"
              ∷ termination_suffix signal)),
        killed ++ (abort_output_tasks args ++ drop_cleanup cleanup),
      )

  -- Behind the spawn: the pipes, the deadline, and the wait.
  unfoldable pub after_spawn :
      ProbeOptions → ExecArgs → System → Piece → ℕ → AppResult ProbeReport × List Effect
  after_spawn options args system label elapsed =
      let group = child_process_group system.id in
      let dropped = drop_cleanup (record { process_group = group }) in
      if not (is_nil args.stdout_contains) && not system.stdout.has_pipe
      then (err (internal (lit "failed to capture child stdout" ∷ [])), dropped ++ drop_child)
      else if not (is_nil args.stderr_contains) && not system.stderr.has_pipe
      then (err (internal (lit "failed to capture child stderr" ∷ [])), dropped ++ drop_child)
      else elim (deadline_after system.latest system.now options.timeout) [
        | err error ↦ (err error, dropped ++ drop_child)
        | ok deadline ↦ after_wait options args system deadline group label elapsed system.wait
      ]

  unfoldable pub run : ProbeOptions → ExecArgs → System → ℕ → AppResult ProbeReport × List Effect
  run options args system elapsed = elim (validate_exec_args args) [
    | err error ↦ (err error, [])
    | ok program ↦ elim (system.spawn (configured args program)) [
      | err error ↦ (err (spawn_error (os_str program) error), [])
      | ok _ ↦ after_spawn options args system (os_str program) elapsed
    ]
  ]
