-- ===== src/Probes/Exec/Child/Accepted.antt =====
-- When the exec probe succeeds.
use salus_rs.Prelude.{
  Text, ℕ, String, ◌≡◌, refl, ◌+◌, ◌≤◌, true, false, not, ◌&&◌, List, [], ◌∷◌, arith, any, All,
  take, is_nil, Bytes, OsStr, ok,
}
use salus_rs.Error.{Piece, Message}
use salus_rs.Diagnostic.{os_str}
use salus_rs.Probe.{ProbeOptions, deadline_after}
use salus_rs.TextMatch.Occurs.{Occurs}
use salus_rs.Probes.Exec.Output.{BufferedOutput, default_output, await_output_task, check_output}
use salus_rs.Probes.Exec.Output.Tracked.{written, reads_of}
use salus_rs.Probes.Exec.Output.Kept.{NoFailure, check_output-passes}
use salus_rs.Probes.Exec.Args.{ExecArgs, success_codes, is_code, validate_exec_args}
use salus_rs.Probes.Exec.Config.{configured}
use salus_rs.Probes.Exec.Child.{
  await_stdout, await_stderr, exited, System, Stream, exec_report, check_outputs, after_code,
  after_wait, after_spawn, run,
}

-- The required texts stand in the first bytes that were read of the stream before the wait for its
-- end began, and no read of it fails. Nothing is asked of a stream without required texts.
abbrev pub Shows : ℕ → List Bytes → Stream → Type 0
Shows limit [] stream = Unit
Shows limit (n ∷ ns) stream =
    (stream.has_pipe ≡ true)
    × NoFailure stream.before
    × NoFailure (reads_of stream.wakes)
    × All (λ needle. Occurs needle (take limit (written stream.before))) (n ∷ ns)

stream_passes :
    (name : String) (label : Piece) (limit latest deadline now : ℕ) (needles : List Bytes)
    (stream : Stream)
    → Shows limit needles stream
    → (b : BufferedOutput) × ((await_output_task limit needles latest deadline now
          (not (is_nil needles))
          stream.before
          stream.wakes).0
        ≡ ok b)
      × (check_output name label limit b needles ≡ ok tt)
unfolding await_output_task check_output
stream_passes name label limit latest deadline now [] stream h = (default_output, refl, refl)
stream_passes name label limit latest deadline now (n ∷ ns) stream (pipe, first, later, texts) =
    check_output-passes name label limit latest deadline now (n ∷ ns) stream.before stream.wakes
      first later texts

pipe_there :
    (limit : ℕ) (needles : List Bytes) (stream : Stream)
    → Shows limit needles stream
    → (not (is_nil needles) && not stream.has_pipe) ≡ false
pipe_there limit [] stream h = refl
pipe_there limit (n ∷ ns) stream h = ground (arith, h.0)

module _ (render : Message → Text) (options : ProbeOptions) (args : ExecArgs) (system : System)
    (elapsed : ℕ) where
  check_outputs-passes :
      (deadline : ℕ) (label : Piece) (code : ℕ)
      → Shows args.max_output args.stdout_contains system.stdout
      → Shows args.max_output args.stderr_contains system.stderr
      → check_outputs render args system deadline options label code elapsed
        ≡ ok (exec_report render options label code elapsed)
  unfolding check_outputs await_stdout await_stderr
  check_outputs-passes deadline label code out_shows err_shows =
      let (out, out_waited, out_passed) =
        stream_passes "stdout" label args.max_output system.latest deadline system.exited_at
          args.stdout_contains system.stdout out_shows in
      let (errs, err_waited, err_passed) =
        stream_passes "stderr" label args.max_output system.latest deadline
          (await_stdout render args system deadline).1 args.stderr_contains system.stderr
          err_shows in
      rw (out_waited, err_waited, out_passed, err_passed, check_outputs) refl

  -- The probe succeeds, with a report of the exit code, if its arguments are valid, the command
  -- starts, the deadline can be represented, the child exits in time with an accepted code, and every
  -- required text is within the limit of what was read of its stream before the wait for the end of
  -- that stream, with no failed read of the stream. It does so however long the waits are, and even if
  -- a stream stays open or brings more than the limit.
  pub run-accepted :
      (program : OsStr) (code : ℕ)
      → validate_exec_args args ≡ ok program
      → system.spawn (configured args program) ≡ ok tt
      → system.now + options.timeout ≤ system.latest
      → system.wait ≡ exited code
      → any (is_code code) (success_codes args) ≡ true
      → Shows args.max_output args.stdout_contains system.stdout
      → Shows args.max_output args.stderr_contains system.stderr
      → (run render options args system elapsed).0
        ≡ ok (exec_report render options (os_str program) code elapsed)
  unfolding run after_spawn after_wait after_code deadline_after
  run-accepted program code valid spawned in_range waited accepted out_shows err_shows =
      let out_pipe = pipe_there args.max_output args.stdout_contains system.stdout out_shows in
      let err_pipe = pipe_there args.max_output args.stderr_contains system.stderr err_shows in
      let passes =
        check_outputs-passes (system.now + options.timeout) (os_str program) code out_shows
          err_shows in
      ground (arith, valid, spawned, in_range, waited, accepted, out_pipe, err_pipe, passes)
