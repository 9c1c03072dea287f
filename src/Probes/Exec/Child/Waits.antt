-- ===== src/Probes/Exec/Child/Waits.antt =====
-- When the two waits for the output end, one behind the other.
use salus_rs.Prelude.{ℕ, ◌+◌, ◌*◌, ◌<◌, ◌≤◌, arith, length, ◌++◌, not, is_nil, Text}
use salus_rs.Error.{Message}
use salus_rs.Probes.Exec.Args.{ExecArgs}
use salus_rs.Probes.Exec.Output.{output_max_grace_after_exit}
use salus_rs.Probes.Exec.Output.Tracked.{written, reads_of}
use salus_rs.Probes.Exec.Output.Timed.{await_output_task-le, await_output_task-le_grace}
use salus_rs.Probes.Exec.Child.{System, Stream, await_stdout, await_stderr}

-- What comes of the stream is shorter than the limit.
abbrev pub IsShort : ℕ → Stream → Type 0
IsShort limit stream = length (written (stream.before ++ reads_of stream.wakes)) < limit

module _ (render : Message → Text) (args : ExecArgs) (system : System) (deadline : ℕ)
    (in_time : system.exited_at ≤ deadline) where
  -- If the child exits by the deadline, both waits for its output end by it, one behind the other,
  -- whatever the tasks do and however often they wake the waits.
  pub await_stderr-le :
      ((await_stdout render args system deadline).1 ≤ deadline)
      × ((await_stderr render args system deadline).1 ≤ deadline)
  unfolding await_stdout await_stderr
  await_stderr-le =
      let first =
        await_output_task-le args.max_output args.stdout_contains system.latest deadline
          system.exited_at (not (is_nil args.stdout_contains)) system.stdout.before
          system.stdout.wakes in_time in
      (
        first,
        await_output_task-le args.max_output args.stderr_contains system.latest deadline
            (await_stdout render args system deadline).1 (not (is_nil args.stderr_contains))
            system.stderr.before system.stderr.wakes first,
      )

  -- If moreover both outputs are shorter than the limit, the waits end half a second after the exit at
  -- the latest, where the clock can hold that instant.
  pub await_stderr-le_grace :
      IsShort args.max_output system.stdout
      → IsShort args.max_output system.stderr
      → system.exited_at + 2 * output_max_grace_after_exit ≤ system.latest
      → (await_stderr render args system deadline).1
        ≤ system.exited_at + 2 * output_max_grace_after_exit
  unfolding await_stdout await_stderr
  await_stderr-le_grace out_short err_short in_range =
      let (by_deadline, _) = await_stderr-le in
      let first =
        await_output_task-le_grace args.max_output args.stdout_contains system.latest deadline
          system.exited_at (not (is_nil args.stdout_contains)) system.stdout.before
          system.stdout.wakes in_time out_short (omega (arith, in_range)) in
      let second =
        await_output_task-le_grace args.max_output args.stderr_contains system.latest deadline
          (await_stdout render args system deadline).1 (not (is_nil args.stderr_contains))
          system.stderr.before system.stderr.wakes by_deadline err_short
          (omega (arith, first, in_range)) in
      omega (arith, first, second)
