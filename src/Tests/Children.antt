-- ===== src/Tests/Children.antt =====
-- Tests of the child process of probes/exec.rs.
use salus_rs.Prelude.{
  ◌+◌, ◌*◌, ◌≤◌, arith, ◌≡◌, refl, ap, true, false, none, some, [], ◌∷◌, Text, utf8, codes, equal,
  ok,
}
use salus_rs.Error.{Message}
use salus_rs.Validation.{validate_non_empty_values, validate_capture_limit}
use salus_rs.Probe.{ProbeOptions, ProbeReport, deadline_after}
use salus_rs.Capture.{append_limited}
use salus_rs.TextMatch.{
  new, count_true, contains_slice, observe_appended, observe_needles, found, all_matched,
}
use salus_rs.Probes.Exec.Output.{
  chunk, output_deadline, settle_period, grace_period, wakes_in, progress_from, start_task,
  task_step, task_steps, take_chunk, await_task, await_output_task, check_output,
  output_max_grace_after_exit,
}
use salus_rs.Probes.Exec.Args.{ExecArgs, pos, validate_exec_args, check_codes}
use salus_rs.Probes.Exec.Group.{
  kill_group, child_process_group, terminate_process_group, terminate, drop_cleanup,
}
use salus_rs.Probes.Exec.Child.{
  System, exited, after_outputs, exec_report, await_stdout, await_stderr, check_outputs, after_code,
  after_wait, after_spawn, run,
}
use salus_rs.Probes.Exec.Config.{configured, configure_process_group, group_of, null, piped}
use salus_rs.Probes.Exec.Child.Waits.{await_stderr-le, await_stderr-le_grace}
use salus_rs.Probes.Exec.Child.Stopped.{Kills, run-Kills}
use salus_rs.Probes.Exec.Child.Succeeded.{Succeeded, run-Succeeded}
use salus_rs.Probes.Exec.Child.Accepted.{Shows, run-accepted}
use salus_rs.Diagnostic.{os_str}

abbrev exec_args : ExecArgs
exec_args = record {
  exit_code = pos 0 ∷ pos 3 ∷ [];
  stdout_contains = codes "ok" ∷ [];
  stderr_contains = [];
  max_output = 10;
  command = utf8 (codes "sh") ∷ [];
}

abbrev pub system : System
system = record {
  spawn = λ command. ok tt;
  id = some 417;
  stdout = record {
    has_pipe = true;
    before = chunk (codes "o") ∷ [];
    wakes = record { delay = 3; reads = chunk (codes "k") ∷ [] } ∷ [];
  };
  stderr = record { has_pipe = false; before = []; wakes = [] };
  latest = 10000000000;
  now = 5;
  wait = exited 3;
  exited_at = 40;
}

abbrev exec_options : ProbeOptions
exec_options = record { timeout = 3000000000; quiet = false; verbose = true; max_latency = none }

abbrev render : Message → Text
render m = codes "text"

valid_args : validate_exec_args exec_args ≡ ok (utf8 (codes "sh"))
unfolding validate_exec_args validate_non_empty_values validate_capture_limit check_codes
valid_args = refl

await_stderr-le_example :
    ((await_stdout render exec_args system 3000000005).1 ≤ 3000000005)
    × ((await_stderr render exec_args system 3000000005).1 ≤ 3000000005)
await_stderr-le_example = await_stderr-le render exec_args system 3000000005 (omega arith)

await_stderr-le_grace_example :
    (await_stderr render exec_args system 3000000005).1 ≤ 40 + 2 * output_max_grace_after_exit
await_stderr-le_grace_example =
    await_stderr-le_grace render exec_args system 3000000005 (omega arith) (omega arith)
      (omega arith) (omega arith)

configures : configured exec_args (utf8 (codes "sh")) ≡ record {
  program = utf8 (codes "sh");
  args = [];
  kill_on_drop = true;
  process_group = some 0;
  stdin = null;
  stdout = piped;
  stderr = null;
}
unfolding configured configure_process_group
configures = refl

run-Kills_example :
    Kills
      (group_of (configured exec_args (utf8 (codes "sh"))) 417)
      (run render exec_options exec_args system 7).1
run-Kills_example =
    run-Kills render exec_options exec_args system 7 (utf8 (codes "sh")) 417 valid_args refl refl
      (omega arith) (omega arith)

abbrev report : ProbeReport
report = record {
  mode = "exec";
  target = codes "text";
  detail = some (codes "text");
  elapsed = 7;
  options = exec_options;
}

succeeds : run render exec_options exec_args system 7 ≡ (ok report, kill_group 417 ∷ [])
unfolding run validate_exec_args validate_non_empty_values validate_capture_limit check_codes
    after_spawn deadline_after after_wait after_code terminate_process_group after_outputs
    child_process_group terminate drop_cleanup await_stdout await_stderr output_deadline
    settle_period grace_period wakes_in check_outputs exec_report await_output_task await_task
    progress_from start_task task_step task_steps take_chunk append_limited new count_true
    contains_slice observe_appended observe_needles found all_matched equal check_output
succeeds = refl

succeeds_in_full : (run render exec_options exec_args system 7).0 ≡ ok report
succeeds_in_full = ap (λ p. p.0) succeeds

run-Succeeded_example : Succeeded render exec_options exec_args system 7
run-Succeeded_example = run-Succeeded render exec_options exec_args system 7 succeeds_in_full

-- The text is read before the child exits, and the pipe stays open.
abbrev open_system : System
open_system = record system {
  stdout = record {
    has_pipe = true;
    before = chunk (codes "[o") ∷ chunk (codes "k]") ∷ [];
    wakes = [];
  };
}

ok_read : Shows 10 (codes "ok" ∷ []) open_system.stdout
ok_read = (refl, tt, tt, (record { before = codes "["; after = codes "]"; splits = refl }, tt))

run-accepted_example :
    (run render exec_options exec_args open_system 7).0
    ≡ ok (exec_report render exec_options (os_str (utf8 (codes "sh"))) 3 7)
run-accepted_example =
    run-accepted render exec_options exec_args open_system 7 (utf8 (codes "sh")) 3 valid_args refl
      (omega arith) refl refl ok_read tt
