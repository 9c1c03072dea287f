-- ===== src/Tests/Outputs.antt =====
-- Tests of the output tasks of probes/exec.rs.
use salus_rs.Prelude.{
  ap, ◌+◌, ◌≡◌, ◌≤◌, refl, arith, true, false, List, [], ◌∷◌, ◌++◌, Bytes, codes, equal, ok, err,
}
use salus_rs.Error.{display}
use salus_rs.Capture.{append_limited}
use salus_rs.TextMatch.{
  new, count_true, contains_slice, observe_appended, observe_needles, found, all_matched,
}
use salus_rs.TextMatch.Occurs.{Occurs}
use salus_rs.Probes.Exec.Output.{
  output_deadline, settle_period, grace_period, wakes_in, output_max_grace_after_exit, Read, chunk,
  Wake, BufferedOutput, progress_from, start_task, task_step, task_steps, take_chunk, await_task,
  await_output_task, check_output, output_absent_error, missing_required_output_error,
  reached_capture_boundary_before_eof,
}
use salus_rs.Probes.Exec.Output.Tracked.{written, reads_of, Outcome, await_output_task-Outcome}
use salus_rs.Probes.Exec.Output.Timed.{await_output_task-le, await_output_task-le_grace}
use salus_rs.Probes.Exec.Output.Verdict.{check_output-absent}

abbrev needles : List Bytes
needles = codes "ready" ∷ []

abbrev before : List Read
before = chunk (codes "not ") ∷ []

abbrev wakes : List Wake
wakes =
    record { delay = 10000000; reads = chunk (codes "yet") ∷ [] }
    ∷ record { delay = 20000000; reads = chunk [] ∷ [] }
    ∷ []

abbrev whole_output : BufferedOutput
whole_output = record {
  content = record { bytes = codes "not yet"; incomplete = false };
  matched = false;
  limit_reached = false;
  complete = true;
}

waits_to_the_end :
    await_output_task 100 needles 9000000000 3000000000 1000000000 true before wakes
    ≡ (ok whole_output, 1030000000)
unfolding await_output_task await_task output_deadline settle_period grace_period wakes_in
    progress_from start_task task_step task_steps take_chunk append_limited new count_true
    contains_slice observe_appended observe_needles found all_matched equal
waits_to_the_end = refl

waited :
    (await_output_task 100 needles 9000000000 3000000000 1000000000 true before wakes).0
    ≡ ok whole_output
waited = ap (λ p. p.0) waits_to_the_end

await_output_task-Outcome_example : Outcome (written (before ++ reads_of wakes)) whole_output
await_output_task-Outcome_example =
    await_output_task-Outcome 100 needles 9000000000 3000000000 1000000000 before wakes waited

text_is_absent :
    check_output "stdout" (display (codes "sh")) 100 whole_output needles
    ≡ err (output_absent_error "stdout" (display (codes "sh")) 100 (codes "ready"))
unfolding check_output contains_slice equal missing_required_output_error
    reached_capture_boundary_before_eof
text_is_absent = refl

check_output-absent_example : ¬ Occurs (codes "ready") (written (before ++ reads_of wakes))
check_output-absent_example =
    check_output-absent "stdout" (display (codes "sh")) 100 9000000000 3000000000 1000000000 before
      wakes needles (codes "ready") waited text_is_absent

-- The pipe is still open, but the text has come.
stops_at_the_match :
    await_output_task 100 needles 9000000000 3000000000 1000000000 true
      (chunk (codes "ready") ∷ [])
      []
    ≡ (
      ok (record {
        content = record { bytes = codes "ready"; incomplete = false };
        matched = true;
        limit_reached = false;
        complete = false;
      }),
      1000000000,
    )
unfolding await_output_task await_task output_deadline settle_period grace_period wakes_in
    progress_from start_task task_step task_steps take_chunk append_limited new count_true
    contains_slice observe_appended observe_needles found all_matched equal
stops_at_the_match = refl

-- The task comes to its last wake-up too late for the deadline.
ends_by_the_deadline :
    (await_output_task 100 needles 9000000000 1020000000 1000000000 true before wakes).1
    ≤ 1020000000
ends_by_the_deadline =
    await_output_task-le 100 needles 9000000000 1020000000 1000000000 true before wakes
      (omega arith)

ends_in_the_grace_period :
    (await_output_task 100 needles 9000000000 3000000000 1000000000 true before wakes).1
    ≤ 1000000000 + output_max_grace_after_exit
ends_in_the_grace_period =
    await_output_task-le_grace 100 needles 9000000000 3000000000 1000000000 true before wakes
      (omega arith) (omega arith) (omega arith)
