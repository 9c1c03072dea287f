-- ===== src/Probes/Exec/Output/Kept.antt =====
-- What the child wrote before it exited is in the buffer, whatever the task does afterwards.
use salus_rs.Prelude.{
  ℕ, ◌+◌, String, ◌≡◌, refl, sym, ◌∙◌, subst, true, none, some, List, [], ◌∷◌, ◌++◌, append_assoc,
  append-nil, arith, all, All, take, take-append, length, ◌-◌, Bytes, ok, Option-cases, inl, inr,
}
use salus_rs.Error.{AppResult, Piece}
use salus_rs.Capture.Limit.{Holds, default-Holds, append_limited-Holds}
use salus_rs.TextMatch.{contains_slice}
use salus_rs.TextMatch.Occurs.{Occurs, all_contains-append, Occurs-all_contains}
use salus_rs.Probes.Exec.Output.{
  Read, chunk, failed, BufferedOutput, TaskState, start_task, take_chunk, task_step, task_steps,
  Wake, await_task, await_output_task, check_output,
}
use salus_rs.Probes.Exec.Output.Tracked.{written, reads_of, goes_on-cases}

-- No read of the pipe fails.
abbrev pub NoFailure : List Read → Type 0
NoFailure [] = Unit
NoFailure (chunk bytes ∷ reads) = NoFailure reads
NoFailure (failed error ∷ reads) = ⊥

NoFailure-split :
    (reads more : List Read) → NoFailure (reads ++ more) → NoFailure reads × NoFailure more
NoFailure-split [] more h = (tt, h)
NoFailure-split (chunk bytes ∷ reads) more h = NoFailure-split reads more h
NoFailure-split (failed error ∷ reads) more h = absurd h

-- A buffer that was handed `kept` first.
record Extends (limit : ℕ) (kept : Bytes) (output : BufferedOutput) : Type 0 where
  more : Bytes
  held : Holds limit (kept ++ more) output.content

-- A state whose buffer was handed `kept` first, and whose result, if it has ended, is that buffer.
record Keeps (limit : ℕ) (kept : Bytes) (s : TaskState) : Type 0 where
  extends : Extends limit kept s.output
  sound : (r : AppResult BufferedOutput) → s.finished ≡ some r → r ≡ ok s.output

module _ (limit : ℕ) (required_texts : List Bytes) where
  pub ended-task_steps :
      (s : TaskState) (reads : List Read) (r : AppResult BufferedOutput)
      → s.finished ≡ some r
      → task_steps limit required_texts s reads ≡ s
  unfolding task_steps
  ended-task_steps s [] r e = refl
  ended-task_steps s (read ∷ reads) r e = ground (arith, e)

  -- A task that is still running makes its rounds while the child runs.
  first-Keeps :
      (s : TaskState) (seen : Bytes) (reads : List Read)
      → s.finished ≡ none
      → Holds limit seen s.output.content
      → NoFailure reads
      → Keeps limit (seen ++ written reads) (task_steps limit required_texts s reads)
  unfolding task_steps task_step take_chunk
  first-Keeps s seen [] running held no_failure = record {
    extends = record {
      more = [];
      held =
          subst (λ t. Holds limit t s.output.content)
            (sym (append-nil (seen ++ []) ∙ append-nil seen)) held;
    };
    sound = λ r e. absurd (cc (e, running));
  }
  first-Keeps s seen (chunk [] ∷ reads) running held no_failure =
      let output = record s.output { complete = true } in
      let next : TaskState = record s { output = output; finished = some (ok output) } in
      rw (running, task_steps)
        (subst (Keeps limit (seen ++ [])) (sym (ended-task_steps next reads (ok output) refl))
          (record {
            extends = record {
              more = [];
              held =
                  subst (λ t. Holds limit t s.output.content)
                    (sym (append-nil (seen ++ []) ∙ append-nil seen)) held;
            };
            sound = λ r e. ground arith;
          }))
  first-Keeps s seen (chunk (c ∷ cs) ∷ reads) running held no_failure =
      rw (running, task_steps)
        (subst
          (λ t.
            Keeps limit t
              (task_steps limit required_texts (take_chunk limit required_texts s (c ∷ cs)) reads))
          (append_assoc seen (c ∷ cs) (written reads))
          (first-Keeps (take_chunk limit required_texts s (c ∷ cs)) (seen ++ (c ∷ cs)) reads refl
            (append_limited-Holds limit seen (c ∷ cs) s.output.content held) no_failure))
  first-Keeps s seen (failed error ∷ reads) running held no_failure = absurd no_failure

  step-Keeps :
      (kept : Bytes) (s : TaskState) (read : Read)
      → NoFailure (read ∷ [])
      → Keeps limit kept s
      → Keeps limit kept (task_step limit required_texts s read)
  unfolding task_step take_chunk
  step-Keeps kept s (chunk []) no_failure k = record {
    extends = record { more = k.extends.more; held = k.extends.held };
    sound = λ r e. ground arith;
  }
  step-Keeps kept s (chunk (c ∷ cs)) no_failure k = record {
    extends = record {
      more = k.extends.more ++ (c ∷ cs);
      held =
          subst (λ t. Holds limit t (take_chunk limit required_texts s (c ∷ cs)).output.content)
            (append_assoc kept k.extends.more (c ∷ cs))
            (append_limited-Holds limit (kept ++ k.extends.more) (c ∷ cs) s.output.content
              k.extends.held);
    };
    sound = λ r e. absurd (ground arith);
  }
  step-Keeps kept s (failed error) no_failure k = absurd no_failure

  steps-Keeps :
      (kept : Bytes) (s : TaskState) (reads : List Read)
      → NoFailure reads
      → Keeps limit kept s
      → Keeps limit kept (task_steps limit required_texts s reads)
  unfolding task_steps
  steps-Keeps kept s [] no_failure k = k
  steps-Keeps kept s (failed error ∷ reads) no_failure k = absurd no_failure
  steps-Keeps kept s (chunk bytes ∷ reads) no_failure k = elim (Option-cases s.finished) [
    | inl e ↦
        rw (e, task_steps)
          (steps-Keeps kept (task_step limit required_texts s (chunk bytes)) reads no_failure
            (step-Keeps kept s (chunk bytes) tt k))
    | inr (result, e) ↦ rw (e, task_steps) k
  ]

  -- Whatever ends the wait, it gives such a buffer.
  module _ (deadline idle_deadline : ℕ) where
    await_task-Extends :
        (kept : Bytes) (wakes : List Wake) (now : ℕ) (s : TaskState)
        → NoFailure (reads_of wakes)
        → Keeps limit kept s
        → (b : BufferedOutput) × ((await_task limit required_texts deadline idle_deadline now s
              wakes).0
            ≡ ok b)
          × Extends limit kept b
    unfolding await_task
    await_task-Extends kept [] now s no_failure k = elim (Option-cases s.finished) [
      | inl e ↦ (s.output, ground (arith, e), k.extends)
      | inr (result, e) ↦
          let same = k.sound result e in (s.output, ground (arith, e, same), k.extends)
    ]
    await_task-Extends kept (wake ∷ wakes) now s no_failure k =
        let parts = NoFailure-split wake.reads (reads_of wakes) no_failure in
        let (b, run, e) =
          await_task-Extends kept wakes (now + wake.delay)
            (task_steps limit required_texts s wake.reads) parts.1
            (steps-Keeps kept s wake.reads parts.0 k) in
        elim (Option-cases s.finished) [
          | inl running ↦ elim (goes_on-cases deadline idle_deadline now s wake) [
            | inl go ↦ (b, ground (arith, running, go.0, go.1, run), e)
            | inr stop ↦ (s.output, ground (arith, running, stop), k.extends)
          ]
          | inr (result, ended) ↦
              let same = k.sound result ended in (s.output, ground (arith, ended, same), k.extends)
        ]

all_contains-check_output :
    (stream_name : String) (label : Piece) (limit : ℕ) (b : BufferedOutput) (needles : List Bytes)
    → all (contains_slice b.content.bytes) needles ≡ true
    → check_output stream_name label limit b needles ≡ ok tt
unfolding check_output
all_contains-check_output stream_name label limit b [] h = refl
all_contains-check_output stream_name label limit b (n ∷ ns) h =
    ground (arith, all_contains-check_output stream_name label limit b ns)

-- If no read fails and the required texts stand in the first bytes that the child wrote before it
-- exited, up to the limit, then the wait gives a buffer that passes the check.
pub check_output-passes :
    (stream_name : String) (label : Piece) (limit latest deadline now : ℕ) (needles : List Bytes)
    (before : List Read) (wakes : List Wake)
    → NoFailure before
    → NoFailure (reads_of wakes)
    → All (λ needle. Occurs needle (take limit (written before))) needles
    → (b : BufferedOutput) × ((await_output_task limit needles latest deadline now true before
          wakes).0
        ≡ ok b)
      × (check_output stream_name label limit b needles ≡ ok tt)
unfolding await_output_task start_task
check_output-passes stream_name label limit latest deadline now needles before wakes no_failure
      no_later_failure h =
    let (b, run, e) =
      await_task-Extends limit needles deadline _ (written before) wakes now
        (task_steps limit needles (start_task needles) before) no_later_failure
        (first-Keeps limit needles (start_task needles) [] before refl (default-Holds limit)
          no_failure) in
    let prefix : b.content.bytes
        ≡ take limit (written before) ++ take (limit - length (written before)) e.more =
      e.held.prefix ∙ take-append limit (written before) e.more in
    (
      b,
      run,
      all_contains-check_output stream_name label limit b needles (
          subst (λ t. all (contains_slice t) needles ≡ true) (sym prefix)
            (all_contains-append _ _ needles (Occurs-all_contains _ needles h))),
    )
