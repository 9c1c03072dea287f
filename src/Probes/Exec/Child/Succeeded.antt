-- ===== src/Probes/Exec/Child/Succeeded.antt =====
-- What a success of the exec probe shows.
use salus_rs.Prelude.{
  sym, ap, ok-injective, ℕ, Option, String, ◌≡◌, refl, Bool, true, false, not, ◌&&◌, List, [], ◌∷◌,
  ◌++◌, arith, any, All, if◌then◌else◌, is_nil, Text, Bytes, OsStr, Result, ok, err, >>=-eq-ok,
  Bool-cases, inl, inr,
}
use salus_rs.Error.{AppResult, Piece, Message}
use salus_rs.Diagnostic.{os_str}
use salus_rs.Probe.{Carries, ProbeOptions, ProbeReport, deadline_after}
use salus_rs.TextMatch.Occurs.{Occurs}
use salus_rs.Probes.Exec.Output.{BufferedOutput, await_output_task, check_output}
use salus_rs.Probes.Exec.Output.Tracked.{written, reads_of}
use salus_rs.Probes.Exec.Output.Verdict.{check_output-Occurs}
use salus_rs.Probes.Exec.Args.{ExecArgs, success_codes, is_code, validate_exec_args}
use salus_rs.Probes.Exec.Group.{Effect, child_process_group}
use salus_rs.Probes.Exec.Config.{configured}
use salus_rs.Probes.Exec.Child.{
  exec_report, await_stdout, await_stderr, WaitOutcome, exited, no_code, wait_failed, timed_out,
  System, Stream, spawn_error, check_outputs, after_code, after_wait, after_spawn, run,
}

-- The shapes of the two functions below.
abbrev after_guard :
    {E F D R : Type 0}
    → (E → F)
    → (D → Result F R × List Effect)
    → Result E D
    → Result F R × List Effect
after_guard f g (err e) = (err (f e), [])
after_guard f g (ok x) = g x

abbrev four_ways :
    {E D R : Type 0}
    → Bool
    → Bool
    → Result E D
    → E
    → E
    → List Effect
    → List Effect
    → List Effect
    → (D → Result E R × List Effect)
    → Result E R × List Effect
four_ways a b d e1 e2 l1 l2 l3 g =
    if a
    then (err e1, l1)
    else if b
    then (err e2, l2)
    else elim d [ err e ↦ (err e, l3) | ok x ↦ g x ]

-- Only the last of the four ways gives a report.
last_way :
    {E D R : Type 0} (a b : Bool) (d : Result E D) (e1 e2 : E) (l1 l2 l3 : List Effect)
    (g : D → Result E R × List Effect) {r : R}
    → (four_ways a b d e1 e2 l1 l2 l3 g).0 ≡ ok r
    → (x : D) × ((g x).0 ≡ ok r)
last_way true b d e1 e2 l1 l2 l3 g h = absurd (ground arith)
last_way false true d e1 e2 l1 l2 l3 g h = absurd (ground arith)
last_way false false (err e) e1 e2 l1 l2 l3 g h = absurd (ground arith)
last_way false false (ok x) e1 e2 l1 l2 l3 g h = (x, h)

first_way :
    {E F D R : Type 0} (d : Result E D) (f : E → F) (g : D → Result F R × List Effect) {r : R}
    → (after_guard f g d).0 ≡ ok r
    → (x : D) × ((g x).0 ≡ ok r)
first_way (err e) f g h = absurd (ground arith)
first_way (ok x) f g h = (x, h)

module _ (render : Message → Text) (options : ProbeOptions) (args : ExecArgs) (system : System)
    (elapsed : ℕ) where
  -- What a success shows.
  pub record Succeeded : Type 0 where
    pub code : ℕ
    pub exits : system.wait ≡ exited code
    pub accepted : any (is_code code) (success_codes args) ≡ true
    pub stdout :
        All
          (λ needle. Occurs needle (written (system.stdout.before ++ reads_of system.stdout.wakes)))
          args.stdout_contains
    pub stderr :
        All
          (λ needle. Occurs needle (written (system.stderr.before ++ reads_of system.stderr.wakes)))
          args.stderr_contains

  -- The texts required of one stream.
  stream_texts :
      (name : String) (label : Piece) (deadline now : ℕ) (needles : List Bytes) (stream : Stream)
      (output : BufferedOutput)
      → (await_output_task args.max_output needles system.latest deadline now
          (not (is_nil needles))
          stream.before
          stream.wakes).0
        ≡ ok output
      → check_output name label args.max_output output needles ≡ ok tt
      → All (λ needle. Occurs needle (written (stream.before ++ reads_of stream.wakes))) needles
  stream_texts name label deadline now [] stream output waited passed = tt
  stream_texts name label deadline now (n ∷ ns) stream output waited passed =
      check_output-Occurs name label args.max_output system.latest deadline now stream.before
        stream.wakes (n ∷ ns) waited passed

  check_outputs-texts :
      (deadline : ℕ) (label : Piece) (code : ℕ) {r : ProbeReport}
      → check_outputs render args system deadline options label code elapsed ≡ ok r
      → All
          (λ needle. Occurs needle (written (system.stdout.before ++ reads_of system.stdout.wakes)))
          args.stdout_contains
        × All
            (λ needle.
              Occurs needle (written (system.stderr.before ++ reads_of system.stderr.wakes)))
            args.stderr_contains
        × Carries options elapsed r
  unfolding check_outputs await_stdout await_stderr exec_report
  check_outputs-texts deadline label code h =
      let (out, out_waited, h1) = >>=-eq-ok (await_stdout render args system deadline).0 _ h in
      let (errs, err_waited, h2) = >>=-eq-ok (await_stderr render args system deadline).0 _ h1 in
      let (_, out_passed, h3) =
        >>=-eq-ok (check_output "stdout" label args.max_output out args.stdout_contains) _ h2 in
      let (_, err_passed, h4) =
        >>=-eq-ok (check_output "stderr" label args.max_output errs args.stderr_contains) _ h3 in
      (
        stream_texts "stdout" label deadline system.exited_at args.stdout_contains system.stdout out
            out_waited out_passed,
        stream_texts "stderr" label deadline (await_stdout render args system deadline).1
            args.stderr_contains system.stderr errs err_waited err_passed,
        (sym (ap (λ r. r.options) (ok-injective h4)), sym (ap (λ r. r.elapsed) (ok-injective h4))),
      )

  after_wait-Succeeded :
      (deadline : ℕ) (group : Option ℕ) (label : Piece) (outcome : WaitOutcome) {r : ProbeReport}
      → system.wait ≡ outcome
      → (after_wait render options args system deadline group label elapsed outcome).0 ≡ ok r
      → Succeeded × Carries options elapsed r
  unfolding after_wait after_code
  after_wait-Succeeded deadline group label (exited code) {r = r} e h =
      elim (Bool-cases (any (is_code code) (success_codes args))) [
        | inl accepted ↦
            let texts =
              check_outputs-texts deadline label code {r = r} (ground (arith, h, accepted)) in
            (
              record {
                code = code;
                exits = e;
                accepted = accepted;
                stdout = texts.0;
                stderr = texts.1;
              },
              texts.2,
            )
        | inr refused ↦ absurd (ground (arith, h, refused))
      ]
  after_wait-Succeeded deadline group label (no_code signal) e h = absurd (ground (arith, h))
  after_wait-Succeeded deadline group label (wait_failed error) e h = absurd (ground (arith, h))
  after_wait-Succeeded deadline group label timed_out e h = absurd (ground (arith, h))

  -- What a report shows, with what it carries.
  pub run-reported :
      {r : ProbeReport}
      → (run render options args system elapsed).0 ≡ ok r
      → Succeeded × Carries options elapsed r
  unfolding run after_spawn
  run-reported {r} h =
      let with_program : OsStr → AppResult ProbeReport × List Effect = λ program.
        after_guard (spawn_error (os_str program))
          (λ _. after_spawn render options args system (os_str program) elapsed)
          (system.spawn (configured args program)) in
      let program = first_way (validate_exec_args args) (λ e. e) with_program h in
      let label = os_str program.0 in
      let started =
        first_way (system.spawn (configured args program.0)) (spawn_error label)
          (λ _. after_spawn render options args system label elapsed) program.1 in
      let waited =
        last_way (not (is_nil args.stdout_contains) && not system.stdout.has_pipe)
          (not (is_nil args.stderr_contains) && not system.stderr.has_pipe)
          (deadline_after system.latest system.now options.timeout) _ _ _ _ _
          (λ deadline.
            after_wait render options args system deadline (child_process_group system.id) label
              elapsed system.wait)
          started.1 in
      after_wait-Succeeded waited.0 _ label system.wait refl waited.1

  -- The probe succeeds only if the child exits in time with an accepted code, and every required text
  -- stands in what it wrote to the stream that the text is required of.
  pub run-Succeeded :
      {r : ProbeReport} → (run render options args system elapsed).0 ≡ ok r → Succeeded
  run-Succeeded h = (run-reported h).0
