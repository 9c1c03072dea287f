-- ===== src/Probes/Exec/Output.antt =====
-- The task that reads an output stream of the child, and the wait for it once the child has exited.
pub mod Tracked
pub mod Verdict
pub mod Kept
pub mod Timed
use salus_rs.Prelude.{
  ℕ, ◌+◌, ◌-◌, min, leb, String, Bool, true, false, not, ◌&&◌, ◌||◌, Option, none, some, List, [],
  ◌∷◌, ◌==◌, if◌then◌else◌, is_nil, length, Text, Bytes, Result, ok, err, ◌>>=◌, ◌>>◌,
}
use salus_rs.Error.{AppError, AppResult, failure, Piece, lit, display, debug, number}
use salus_rs.Capture.{CaptureBuffer, default, append_limited}
use salus_rs.TextMatch.{TextMatcher, new, observe_appended, all_matched, contains_bytes}

-- One `read` of the pipe: the bytes read, none at the end of the output, or an error.
pub data Read : Type 0 where
  chunk : Bytes → Read
  failed : Text → Read

pub record BufferedOutput : Type 0 where
  pub content : CaptureBuffer
  pub matched : Bool
  pub limit_reached : Bool
  pub complete : Bool

-- `BufferedOutput::default()`
abbrev pub default_output : BufferedOutput
default_output = record {
  content = default;
  matched = false;
  limit_reached = false;
  complete = false;
}

pub record OutputProgress : Type 0 where
  pub incomplete : Bool
  pub matched : Bool
  pub limit_reached : Bool

-- `OutputProgress::from`
unfoldable pub progress_from : BufferedOutput → OutputProgress
progress_from output = record {
  incomplete = output.content.incomplete;
  matched = output.matched;
  limit_reached = output.limit_reached;
}

-- The shared state of the task, its matcher, and its result once it has ended. What it has
-- published is the progress of this state: the state is changed and published in one step.
pub record TaskState : Type 0 where
  pub output : BufferedOutput
  pub matcher : TextMatcher
  pub finished : Option (AppResult BufferedOutput)

unfoldable pub start_task : List Bytes → TaskState
start_task required_texts = record {
  output = default_output;
  matcher = new required_texts;
  finished = none;
}

module _ (limit : ℕ) (required_texts : List Bytes) where
  -- The body of the loop, behind a `read` that brought bytes.
  unfoldable pub take_chunk : TaskState → Bytes → TaskState
  take_chunk s buffer =
      let (content, previous_len) = append_limited s.output.content buffer limit in
      let matcher = observe_appended s.matcher content.bytes previous_len in
      record {
        output = record {
          content = content;
          matched = not (is_nil required_texts) && all_matched matcher;
          limit_reached = not (is_nil required_texts) && length content.bytes == limit;
          complete = false;
        };
        matcher = matcher;
        finished = none;
      }

  -- One round of the loop of `read_limited_with_snapshots`, and what follows it at the end.
  unfoldable pub task_step : TaskState → Read → TaskState
  task_step s (chunk []) =
      let output = record s.output { complete = true } in
      record s { output = output; finished = some (ok output) }
  task_step s (chunk (c ∷ cs)) = take_chunk s (c ∷ cs)
  task_step s (failed error) = record s {
    finished = some (err (failure (lit "failed reading child output: " ∷ display error ∷ [])));
  }

  -- Several rounds; a task that has ended makes none.
  unfoldable pub task_steps : TaskState → List Read → TaskState
  task_steps s [] = s
  task_steps s (read ∷ reads) =
      let next = task_steps (task_step s read) reads in
      elim s.finished [ none ↦ next | some result ↦ s ]

-- What ends a wait before its grace period does: `delay` after the wait began, the task has made
-- some rounds, and has ended or has published its progress. Of two things that happen at once the
-- task's comes first; where the grace period came first, the delay counts as longer.
pub record Wake : Type 0 where
  pub delay : ℕ
  pub reads : List Read

-- In nanoseconds.
abbrev pub output_eof_grace_after_limit : ℕ
output_eof_grace_after_limit = 50000000

abbrev pub output_idle_grace_after_exit : ℕ
output_idle_grace_after_exit = 50000000

abbrev pub output_max_grace_after_exit : ℕ
output_max_grace_after_exit = 250000000

-- The grace period of a wait that begins at `now`.
unfoldable pub grace_period : ℕ → ℕ → ℕ → ℕ
grace_period deadline max_grace now = min (deadline - now) max_grace

-- Whether the task wakes the wait. There is no wait in a period of no length.
unfoldable pub wakes_in : ℕ → ℕ → Bool
wakes_in grace delay = not (grace == 0) && leb delay grace

-- `output_deadline`; `latest` is the last instant that the clock can hold.
unfoldable pub output_deadline : ℕ → ℕ → ℕ → ℕ
output_deadline latest deadline now =
    if leb (now + output_max_grace_after_exit) latest
    then min (now + output_max_grace_after_exit) deadline
    else deadline

-- `wait_for_output_eof_after_limit` or `wait_for_output_idle_after_exit`
unfoldable pub settle_period : ℕ → ℕ → TaskState → ℕ → ℕ
unfolding grace_period progress_from
settle_period deadline idle_deadline s now =
    if (progress_from s.output).limit_reached
    then grace_period deadline output_eof_grace_after_limit now
    else grace_period idle_deadline output_idle_grace_after_exit now

module _ (limit : ℕ) (required_texts : List Bytes) where
  -- The loop of `await_output_task`, with the instant at which it ends. The task wakes each wait at
  -- most once, and does not wake the wait behind the last of the list.
  module _ (deadline idle_deadline : ℕ) where
    unfoldable pub await_task : ℕ → TaskState → List Wake → AppResult BufferedOutput × ℕ
    unfolding progress_from
    await_task now s [] = elim s.finished [
      | some result ↦ (result, now)
      | none ↦
          if (progress_from s.output).matched || (progress_from s.output).incomplete
          then (ok s.output, now)
          else (ok s.output, now + settle_period deadline idle_deadline s now)
    ]
    await_task now s (wake ∷ wakes) =
        let next =
          await_task (now + wake.delay) (task_steps limit required_texts s wake.reads) wakes in
        elim s.finished [
          | some result ↦ (result, now)
          | none ↦
              if (progress_from s.output).matched || (progress_from s.output).incomplete
              then (ok s.output, now)
              else if wakes_in (settle_period deadline idle_deadline s now) wake.delay
              then next
              else (ok s.output, now + settle_period deadline idle_deadline s now)
        ]

  -- The task reads `before` until the wait for it begins, at `now`.
  unfoldable pub await_output_task :
      ℕ → ℕ → ℕ → Bool → List Read → List Wake → AppResult BufferedOutput × ℕ
  unfolding output_deadline
  await_output_task latest deadline now captured before wakes =
      if captured
      then await_task deadline (output_deadline latest deadline now) now
          (task_steps limit required_texts (start_task required_texts) before) wakes
      else (ok default_output, now)

unfoldable pub reached_capture_boundary_before_eof : BufferedOutput → Bool
reached_capture_boundary_before_eof output =
    output.content.incomplete || (output.limit_reached && not output.complete)

module _ (stream_name : String) (command_label : Piece) (max_output : ℕ) where
  unfoldable pub output_limit_error : Bytes → AppError
  output_limit_error needle = failure (
      lit stream_name
      ∷ lit " of "
      ∷ command_label
      ∷ lit " reached --max-output "
      ∷ number max_output
      ∷ lit " bytes, cannot prove required text "
      ∷ debug needle
      ∷ [])

  unfoldable pub output_open_error : Bytes → AppError
  output_open_error needle = failure (
      lit stream_name
      ∷ lit " of "
      ∷ command_label
      ∷ lit " remained open after the command exited, cannot prove required text "
      ∷ debug needle
      ∷ [])

  unfoldable pub output_absent_error : Bytes → AppError
  output_absent_error needle = failure (
      lit stream_name
      ∷ lit " of "
      ∷ command_label
      ∷ lit " does not contain required text "
      ∷ debug needle
      ∷ [])

  unfoldable pub missing_required_output_error : BufferedOutput → Bytes → AppError
  missing_required_output_error output needle =
      if reached_capture_boundary_before_eof output
      then output_limit_error needle
      else if not output.complete
      then output_open_error needle
      else output_absent_error needle

  -- The loop over the required texts of one stream.
  unfoldable pub check_output : BufferedOutput → List Bytes → AppResult Unit
  check_output output [] = ok tt
  check_output output (needle ∷ needles) =
      if not (contains_bytes output.content.bytes needle)
      then err (missing_required_output_error output needle)
      else check_output output needles
