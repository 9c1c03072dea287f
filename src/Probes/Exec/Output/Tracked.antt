-- ===== src/Probes/Exec/Output/Tracked.antt =====
-- What the task holds of the child's output, whatever the rounds it has made.
use salus_rs.Prelude.{
  ℕ, ◌+◌, ◌⊎◌, if◌then◌else◌, ◌≡◌, refl, sym, ap, ◌∙◌, subst, true, false, ◌||◌, none, some, List,
  [], ◌∷◌, ◌++◌, append_assoc, append-nil, arith, Bytes, ok, Bool-cases, Option-cases, inl, inr,
}
use salus_rs.Error.{AppResult}
use salus_rs.Capture.Limit.{Holds, Holds-whole, Holds-prefix, default-Holds, append_limited-Holds}
use salus_rs.Probes.Exec.Output.{
  Read, chunk, failed, BufferedOutput, TaskState, start_task, take_chunk, task_step, task_steps,
  Wake, progress_from, wakes_in, settle_period, await_task, await_output_task,
}

-- The bytes that the child writes, up to the end of its output or to an error.
abbrev pub written : List Read → Bytes
written [] = []
written (chunk [] ∷ reads) = []
written (chunk (c ∷ cs) ∷ reads) = (c ∷ cs) ++ written reads
written (failed error ∷ reads) = []

-- All the reads that the task can make.
abbrev pub reads_of : List Wake → List Read
reads_of [] = []
reads_of (wake ∷ wakes) = wake.reads ++ reads_of wakes

-- A state that holds the first part of `total`, with `rest` still to read.
pub record Reaches (limit : ℕ) (total : Bytes) (rest : List Read) (s : TaskState) : Type 0 where
  pub seen : Bytes
  pub held : Holds limit seen s.output.content
  pub running : s.finished ≡ none → (total ≡ seen ++ written rest) × (s.output.complete ≡ false)
  pub ended : (o : BufferedOutput) → s.finished ≡ some (ok o) → (o ≡ s.output) × (total ≡ seen)

-- What the wait gives: the first bytes of the output, and all of it if it is complete and not cut.
pub record Outcome (total : Bytes) (output : BufferedOutput) : Type 0 where
  pub rest : Bytes
  pub prefix : total ≡ output.content.bytes ++ rest
  pub whole :
      output.complete ≡ true → output.content.incomplete ≡ false → total ≡ output.content.bytes

-- Whether the loop goes on behind a wait.
pub goes_on-cases :
    (deadline idle_deadline now : ℕ) (s : TaskState) (wake : Wake)
    → (((progress_from s.output).matched || (progress_from s.output).incomplete) ≡ false)
        × (wakes_in (settle_period deadline idle_deadline s now) wake.delay ≡ true)
      ⊎ ((if (progress_from s.output).matched || (progress_from s.output).incomplete
            then false
            else wakes_in (settle_period deadline idle_deadline s now) wake.delay)
          ≡ false)
goes_on-cases deadline idle_deadline now s wake =
    elim (Bool-cases ((progress_from s.output).matched || (progress_from s.output).incomplete)) [
      | inl done ↦ inr (ground (arith, done))
      | inr open_yet ↦
          elim (Bool-cases (wakes_in (settle_period deadline idle_deadline s now) wake.delay)) [
            | inl woken ↦ inl (open_yet, woken)
            | inr late ↦ inr (ground (arith, open_yet, late))
          ]
    ]

module _ (limit : ℕ) (required_texts : List Bytes) (total : Bytes) where
  step-Reaches :
      (s : TaskState) (read : Read) (rest : List Read)
      → s.finished ≡ none
      → Reaches limit total (read ∷ rest) s
      → Reaches limit total rest (task_step limit required_texts s read)
  unfolding task_step take_chunk
  step-Reaches s (chunk []) rest open_task r = record {
    seen = r.seen;
    held = r.held;
    running = λ e. absurd (ground arith);
    ended = λ o e. (ground arith, (r.running open_task).0 ∙ append-nil r.seen);
  }
  step-Reaches s (chunk (c ∷ cs)) rest open_task r = record {
    seen = r.seen ++ (c ∷ cs);
    held = append_limited-Holds limit r.seen (c ∷ cs) s.output.content r.held;
    running =
        λ e. ((r.running open_task).0 ∙ sym (append_assoc r.seen (c ∷ cs) (written rest)), refl);
    ended = λ o e. absurd (ground arith);
  }
  step-Reaches s (failed error) rest open_task r = record {
    seen = r.seen;
    held = r.held;
    running = λ e. absurd (ground arith);
    ended = λ o e. absurd (ground arith);
  }

  -- A task that has ended is left as it is.
  ended-Reaches :
      (s : TaskState) (rest rest' : List Read) (result : AppResult BufferedOutput)
      → s.finished ≡ some result
      → Reaches limit total rest s
      → Reaches limit total rest' s
  ended-Reaches s rest rest' result e r = record {
    seen = r.seen;
    held = r.held;
    running = λ n. absurd (cc (n, e));
    ended = r.ended;
  }

  pub steps-Reaches :
      (s : TaskState) (reads rest : List Read)
      → Reaches limit total (reads ++ rest) s
      → Reaches limit total rest (task_steps limit required_texts s reads)
  unfolding task_steps
  steps-Reaches s [] rest r = r
  steps-Reaches s (read ∷ reads) rest r = elim (Option-cases s.finished) [
    | inl e ↦
        rw (e, task_steps)
          (steps-Reaches (task_step limit required_texts s read) reads rest
            (step-Reaches s read (reads ++ rest) e r))
    | inr (result, e) ↦
        rw (e, task_steps) (ended-Reaches s (read ∷ (reads ++ rest)) rest result e r)
  ]

  snapshot-Outcome :
      (s : TaskState) (rest : List Read)
      → s.finished ≡ none
      → Reaches limit total rest s
      → Outcome total s.output
  snapshot-Outcome s rest open_task r =
      let (more, e) = Holds-prefix limit r.seen s.output.content r.held (written rest) in
      record {
        rest = more;
        prefix = (r.running open_task).0 ∙ e;
        whole = λ complete full. absurd (cc (complete, (r.running open_task).1));
      }

  result-Outcome :
      (s : TaskState) (rest : List Read) (o : BufferedOutput)
      → s.finished ≡ some (ok o)
      → Reaches limit total rest s
      → Outcome total o
  result-Outcome s rest o e r =
      let (same, all_seen) = r.ended o e in
      let (more, split) = Holds-prefix limit r.seen s.output.content r.held [] in
      subst (Outcome total) (sym same) (record {
        rest = more;
        prefix = all_seen ∙ sym (append-nil r.seen) ∙ split;
        whole = λ complete full. all_seen ∙ Holds-whole limit r.seen s.output.content r.held full;
      })

  module _ (deadline idle_deadline : ℕ) where
    await_task-Outcome :
        (wakes : List Wake) (now : ℕ) (s : TaskState) {b : BufferedOutput}
        → Reaches limit total (reads_of wakes) s
        → (await_task limit required_texts deadline idle_deadline now s wakes).0 ≡ ok b
        → Outcome total b
    unfolding await_task
    await_task-Outcome [] now s {b} r h = elim (Option-cases s.finished) [
      | inl e ↦
          let same : s.output ≡ b = ground (arith, h, e) in
          subst (Outcome total) same (snapshot-Outcome s [] e r)
      | inr (result, e) ↦
          let finished : result ≡ ok b = ground (arith, h, e) in
          result-Outcome s [] b (e ∙ ap some finished) r
    ]
    await_task-Outcome (wake ∷ wakes) now s {b} r h = elim (Option-cases s.finished) [
      | inr (result, e) ↦
          let finished : result ≡ ok b = ground (arith, h, e) in
          result-Outcome s (reads_of (wake ∷ wakes)) b (e ∙ ap some finished) r
      | inl e ↦ elim (goes_on-cases deadline idle_deadline now s wake) [
        | inl go ↦
            await_task-Outcome wakes (now + wake.delay)
              (task_steps limit required_texts s wake.reads)
              (steps-Reaches s wake.reads (reads_of wakes) r) (ground (arith, h, e, go.0, go.1))
        | inr stop ↦
            let same : s.output ≡ b = ground (arith, h, e, stop) in
            subst (Outcome total) same (snapshot-Outcome s (reads_of (wake ∷ wakes)) e r)
      ]
    ]

-- The state in which the wait finds the task.
pub before-Reaches :
    (limit : ℕ) (required_texts : List Bytes) (before rest : List Read)
    → Reaches limit
        (written (before ++ rest))
        rest
        (task_steps limit required_texts (start_task required_texts) before)
unfolding start_task
before-Reaches limit required_texts before rest =
    steps-Reaches limit required_texts (written (before ++ rest)) (start_task required_texts) before
      rest
      (record {
        seen = [];
        held = default-Holds limit;
        running = λ e. (refl, refl);
        ended = λ o e. absurd (ground arith);
      })

-- Whatever the order and the times of the task's rounds and of the ends of the waits: what the wait
-- gives holds the first bytes of the child's output, and all of it if it is complete and was not cut.
pub await_output_task-Outcome :
    (limit : ℕ) (required_texts : List Bytes) (latest deadline now : ℕ) (before : List Read)
    (wakes : List Wake) {b : BufferedOutput}
    → (await_output_task limit required_texts latest deadline now true before wakes).0 ≡ ok b
    → Outcome (written (before ++ reads_of wakes)) b
unfolding await_output_task start_task
await_output_task-Outcome limit required_texts latest deadline now before wakes {b} h =
    await_task-Outcome limit required_texts _ deadline _ wakes now _
      (before-Reaches limit required_texts before (reads_of wakes)) h
