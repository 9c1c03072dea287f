-- ===== src/Probes/Exec/Output/Timed.antt =====
-- When the waits for the output end.
use salus_rs.Prelude.{
  length, length-take, length-append, subst, sym, ap, ◌++◌, ℕ, ◌+◌, ◌<◌, ◌≤◌, ◌≡◌, Bool, true,
  false, none, List, [], ◌∷◌, arith, Bytes, Bool-cases, Option-cases, inl, inr,
}
use salus_rs.Probes.Exec.Output.{
  Read, chunk, failed, task_step, take_chunk, output_max_grace_after_exit, Wake, TaskState,
  grace_period, wakes_in, settle_period, output_deadline, task_steps, await_task, await_output_task,
  start_task, output_eof_grace_after_limit, output_idle_grace_after_exit,
}
use salus_rs.Probes.Exec.Output.Tracked.{
  goes_on-cases, Reaches, steps-Reaches, before-Reaches, written, reads_of,
}
use salus_rs.Probes.Exec.Output.Kept.{ended-task_steps}

-- A period ends by the deadline that it is cut at.
grace_period-le :
    (deadline max_grace now end : ℕ)
    → now ≤ end
    → deadline ≤ end
    → now + grace_period deadline max_grace now ≤ end
unfolding grace_period
grace_period-le deadline max_grace now end h k = omega arith

settle_period-le :
    (deadline idle_deadline : ℕ) (s : TaskState) (now : ℕ)
    → now ≤ deadline
    → idle_deadline ≤ deadline
    → now + settle_period deadline idle_deadline s now ≤ deadline
unfolding settle_period
settle_period-le deadline idle_deadline s now h k = elim (Bool-cases s.output.limit_reached) [
  | inl full ↦
      rw full (grace_period-le deadline output_eof_grace_after_limit now deadline h (omega arith))
  | inr room ↦ rw room (grace_period-le idle_deadline output_idle_grace_after_exit now deadline h k)
]

wakes_in-le : (grace delay : ℕ) → wakes_in grace delay ≡ true → delay ≤ grace
unfolding wakes_in
wakes_in-le grace delay h = ground arith

output_deadline-le : (latest deadline now : ℕ) → output_deadline latest deadline now ≤ deadline
unfolding output_deadline
output_deadline-le latest deadline now = ground arith

output_deadline_bounds :
    (latest deadline now : ℕ)
    → now ≤ deadline
    → now + output_max_grace_after_exit ≤ latest
    → (now ≤ output_deadline latest deadline now)
      × (output_deadline latest deadline now ≤ now + output_max_grace_after_exit)
unfolding output_deadline
output_deadline_bounds latest deadline now h k = ground arith

-- Of a stream that stays below the limit.
settle_period-idle :
    (deadline idle_deadline : ℕ) (s : TaskState) (now : ℕ)
    → s.output.limit_reached ≡ false
    → now ≤ idle_deadline
    → now + settle_period deadline idle_deadline s now ≤ idle_deadline
unfolding settle_period
settle_period-idle deadline idle_deadline s now room h =
    rw room
      (grace_period-le idle_deadline output_idle_grace_after_exit now idle_deadline h (omega arith))

-- A bound that every wait of the loop keeps to bounds the loop.
module _ (limit : ℕ) (required_texts : List Bytes) (deadline idle_deadline bound : ℕ)
    (Inv : List Wake → TaskState → Type 0)
    (keep : (wake : Wake) (wakes : List Wake) (s : TaskState)
      → Inv (wake ∷ wakes) s
      → Inv wakes (task_steps limit required_texts s wake.reads))
    (fits : (wakes : List Wake) (s : TaskState) (now : ℕ)
      → Inv wakes s
      → s.finished ≡ none
      → now ≤ bound
      → now + settle_period deadline idle_deadline s now ≤ bound) where
  await_task-le :
      (wakes : List Wake) (now : ℕ) (s : TaskState)
      → Inv wakes s
      → now ≤ bound
      → (await_task limit required_texts deadline idle_deadline now s wakes).1 ≤ bound
  unfolding await_task
  await_task-le [] now s i h = elim (Option-cases s.finished) [
    | inl e ↦ ground (arith, e, fits [] s now i e h)
    | inr (result, e) ↦ ground (arith, e)
  ]
  await_task-le (wake ∷ wakes) now s i h = elim (Option-cases s.finished) [
    | inr (result, e) ↦ ground (arith, e)
    | inl e ↦
        let fit = fits (wake ∷ wakes) s now i e h in
        elim (goes_on-cases deadline idle_deadline now s wake) [
          | inr stop ↦ ground (arith, e, stop, fit)
          | inl go ↦
              let in_period = wakes_in-le _ _ go.1 in
              let rest =
                await_task-le wakes (now + wake.delay)
                  (task_steps limit required_texts s wake.reads) (keep wake wakes s i)
                  (omega arith) in
              ground (arith, e, go.0, go.1, rest)
        ]
  ]

-- The mark of a full buffer is true.
abbrev IsMarked : ℕ → TaskState → Type 0
IsMarked limit s = s.output.limit_reached ≡ true → length s.output.content.bytes ≡ limit

start-IsMarked :
    (limit : ℕ) (required_texts : List Bytes) → IsMarked limit (start_task required_texts)
unfolding start_task
start-IsMarked limit required_texts e = absurd (ground arith)

module _ (limit : ℕ) (required_texts : List Bytes) where
  step-IsMarked :
      (s : TaskState) (read : Read)
      → IsMarked limit s
      → IsMarked limit (task_step limit required_texts s read)
  unfolding task_step take_chunk
  step-IsMarked s (chunk []) m e = m e
  step-IsMarked s (chunk (c ∷ cs)) m e = ground (arith, e)
  step-IsMarked s (failed error) m e = m e

  steps-IsMarked :
      (s : TaskState) (reads : List Read)
      → IsMarked limit s
      → IsMarked limit (task_steps limit required_texts s reads)
  unfolding task_steps
  steps-IsMarked s [] m = m
  steps-IsMarked s (read ∷ reads) m = elim (Option-cases s.finished) [
    | inl e ↦
        rw (e, task_steps)
          (steps-IsMarked (task_step limit required_texts s read) reads (step-IsMarked s read m))
    | inr (result, e) ↦
        subst (IsMarked limit)
          (sym (ended-task_steps limit required_texts s (read ∷ reads) result e)) m
  ]

  -- A task that has more to read than it holds, all of it below the limit, is not at the limit.
  Reaches-room :
      (total : Bytes) (rest : List Read) (s : TaskState)
      → Reaches limit total rest s
      → IsMarked limit s
      → length total < limit
      → s.finished ≡ none
      → s.output.limit_reached ≡ false
  Reaches-room total rest s r m short e = elim (Bool-cases s.output.limit_reached) [
    | inr room ↦ room
    | inl full ↦ absurd (
        omega (
          arith,
          m full,
          ap length r.held.prefix,
          length-take limit r.seen,
          short,
          ap length (r.running e).0,
          length-append r.seen (written rest),
        ))
  ]

module _ (limit : ℕ) (required_texts : List Bytes) (latest deadline now : ℕ) (captured : Bool)
    (before : List Read) (wakes : List Wake) (in_time : now ≤ deadline) where
  -- A wait for the end of an output that begins by the deadline ends by it, whatever the task does and
  -- however often it wakes the wait.
  pub await_output_task-le :
      (await_output_task limit required_texts latest deadline now captured before wakes).1
      ≤ deadline
  unfolding await_output_task
  await_output_task-le = elim (Bool-cases captured) [
    | inr e ↦ rw e in_time
    | inl e ↦ rw e (
        await_task-le limit required_texts deadline (output_deadline latest deadline now) deadline
          (λ _ _. Unit {0}) (λ wake wakes s i. tt)
          (λ wakes s now i e k.
            settle_period-le deadline _ s now k (output_deadline-le latest deadline _))
          wakes now _ tt in_time)
  ]

  -- If all that can be read of the output is shorter than the limit, the wait ends 250 milliseconds
  -- after it began at the latest.
  pub await_output_task-le_grace :
      length (written (before ++ reads_of wakes)) < limit
      → now + output_max_grace_after_exit ≤ latest
      → (await_output_task limit required_texts latest deadline now captured before wakes).1
        ≤ now + output_max_grace_after_exit
  unfolding await_output_task
  await_output_task-le_grace short in_range = elim (Bool-cases captured) [
    | inr e ↦ rw e (omega arith)
    | inl e ↦
        let idle_deadline = output_deadline latest deadline now in
        let total = written (before ++ reads_of wakes) in
        let bounds = output_deadline_bounds latest deadline now in_time in_range in
        let first = task_steps limit required_texts (start_task required_texts) before in
        let ends =
          await_task-le limit required_texts deadline idle_deadline idle_deadline
            (λ wakes s. Reaches limit total (reads_of wakes) s × IsMarked limit s)
            (λ wake wakes s i. (
              steps-Reaches limit required_texts total s wake.reads (reads_of wakes) i.0,
              steps-IsMarked limit required_texts s wake.reads i.1,
            ))
            (λ wakes s now i e k.
              settle_period-idle deadline idle_deadline s now
                (Reaches-room limit required_texts total (reads_of wakes) s i.0 i.1 short e) k)
            wakes now first
            (
              before-Reaches limit required_texts before (reads_of wakes),
              steps-IsMarked limit required_texts (start_task required_texts) before
                  (start-IsMarked limit required_texts),
            )
            bounds.0 in
        rw e (omega (arith, ends, bounds.1))
  ]
