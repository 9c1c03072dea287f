-- ===== src/Probes/Exec/Child/Stopped.antt =====
-- What a run of the exec probe leaves behind.
use salus_rs.Prelude.{
  subst, ℕ, ◌<◌, ◌≤◌, arith, ◌≡◌, Option, none, some, [], ◌∷◌, ◌++◌, All, leb, ◌==◌, Bool-cases,
  inl, inr, refl, Bool, true, false, not, ◌&&◌, List, any, if◌then◌else◌, is_nil, Text, OsStr,
  Result, ok, err,
}
use salus_rs.Error.{Piece, Message}
use salus_rs.Diagnostic.{os_str}
use salus_rs.Probe.{ProbeOptions, deadline_after}
use salus_rs.Probes.Exec.Args.{ExecArgs, validate_exec_args, success_codes, is_code}
use salus_rs.Probes.Exec.Output.{BufferedOutput}
use salus_rs.Error.{AppResult}
use salus_rs.Probes.Exec.Group.{
  Effect, kill_group, kill_child, abort_stdout, abort_stderr, reap, i32_max, child_process_group,
  terminate_process_group, terminate_child, terminate, drop_cleanup, drop_child, abort_output_tasks,
}
use salus_rs.Probes.Exec.Config.{configured, group_of, configure_process_group}
use salus_rs.Probes.Exec.Child.{
  WaitOutcome, exited, no_code, wait_failed, timed_out, System, after_outputs, await_stdout,
  after_code, after_wait, after_spawn, run,
}

abbrev pub is_kill_group : Effect → Bool
is_kill_group (kill_group group) = true
is_kill_group kill_child = false
is_kill_group abort_stdout = false
is_kill_group abort_stderr = false
is_kill_group reap = false

-- A process group is killed.
abbrev pub KillsGroup : List Effect → Type 0
KillsGroup effects = any is_kill_group effects ≡ true

-- No process group is killed but the given one, whose number is not 0, the number by which a process
-- means its own group.
abbrev pub IsOwn : Option ℕ → Effect → Type 0
IsOwn own (kill_group group) = (own ≡ some group) × (0 < group) × (group ≤ i32_max)
IsOwn own kill_child = Unit
IsOwn own abort_stdout = Unit
IsOwn own abort_stderr = Unit
IsOwn own reap = Unit

-- What is killed, of a child in this group; none is the group of the program itself.
pub record Kills (group : Option ℕ) (effects : List Effect) : Type 0 where
  pub kills : KillsGroup effects
  pub own : All (IsOwn group) effects

abbrev AllOwn : Option ℕ → List Effect → Type 0
AllOwn id effects = All (IsOwn id) effects

All-append :
    (id : Option ℕ) (xs ys : List Effect) → AllOwn id xs → AllOwn id ys → AllOwn id (xs ++ ys)
All-append id [] ys h k = k
All-append id (x ∷ xs) ys (h, hs) k = (h, All-append id xs ys hs k)

-- The child's group.
group_own : (id : Option ℕ) → AllOwn id (terminate_process_group (child_process_group id))
unfolding terminate_process_group child_process_group
group_own none = tt
group_own (some id) = elim (Bool-cases (leb id i32_max && not (id == 0))) [
  | inl fits ↦ rw fits ((refl, ground (arith, fits), ground (arith, fits)), tt)
  | inr out ↦ rw out tt
]

child_process_group-some :
    (o : Option ℕ) (id : ℕ) → o ≡ some id → 0 < id → id ≤ i32_max → child_process_group o ≡ some id
unfolding child_process_group
child_process_group-some none id e positive small = absurd (ground arith)
child_process_group-some (some n) id e positive small = ground arith

abort_own : (id : Option ℕ) (args : ExecArgs) → AllOwn id (abort_output_tasks args)
unfolding abort_output_tasks
abort_own id args = elim (Bool-cases (is_nil args.stdout_contains)) [
  | inl e ↦ elim (Bool-cases (is_nil args.stderr_contains)) [
    | inl e' ↦ rw (e, e') tt
    | inr e' ↦ rw (e, e') (tt, tt)
  ]
  | inr e ↦ elim (Bool-cases (is_nil args.stderr_contains)) [
    | inl e' ↦ rw (e, e') (tt, tt)
    | inr e' ↦ rw (e, e') (tt, (tt, tt))
  ]
]

outputs_own :
    (id : Option ℕ) (render : Message → Text) (args : ExecArgs) (system : System) (deadline : ℕ)
    (r : AppResult BufferedOutput)
    → AllOwn id (after_outputs render args system deadline r)
unfolding after_outputs
outputs_own id render args system deadline (ok output) = tt
outputs_own id render args system deadline (err error) =
    elim (Bool-cases (is_nil args.stderr_contains)) [ inl e ↦ rw e tt | inr e ↦ rw e (tt, tt) ]

module _ {E D R : Type 0} where
  -- Whatever of the first two tests and the decision comes out, the effects are of the kind.
  four_ends :
      (P : List Effect → Type 0) (a b : Bool) (d : Result E D) (p q : R × List Effect)
      (f : E → R × List Effect) (g : D → R × List Effect)
      → P p.1
      → P q.1
      → ((e : E) → P (f e).1)
      → ((x : D) → P (g x).1)
      → P (if a then p else if b then q else elim d [ err e ↦ f e | ok x ↦ g x ]).1
  four_ends P true b d p q f g hp hq hf hg = hp
  four_ends P false true d p q f g hp hq hf hg = hq
  four_ends P false false (err e) p q f g hp hq hf hg = hf e
  four_ends P false false (ok x) p q f g hp hq hf hg = hg x

module _ (render : Message → Text) (options : ProbeOptions) (args : ExecArgs) (system : System)
    (elapsed : ℕ) where
  after_spawn-ends :
      (P : List Effect → Type 0) (label : Piece)
      → P (drop_cleanup (record { process_group = child_process_group system.id }) ++ drop_child)
      → ((deadline : ℕ)
          → P
              (after_wait render options args system deadline
                (child_process_group system.id)
                label
                elapsed
                system.wait).1)
      → P (after_spawn render options args system label elapsed).1
  unfolding after_spawn
  after_spawn-ends P label dropped waited =
      four_ends P (not (is_nil args.stdout_contains) && not system.stdout.has_pipe)
        (not (is_nil args.stderr_contains) && not system.stderr.has_pipe)
        (deadline_after system.latest system.now options.timeout) _ _ _ _ dropped dropped
        (λ _. dropped) waited

  after_code_own :
      (deadline : ℕ) (label : Piece) (code : ℕ)
      → AllOwn system.id (after_code render args system deadline options label elapsed code).1
  unfolding after_code
  after_code_own deadline label code = elim (Bool-cases (any (is_code code) (success_codes args))) [
    | inl e ↦
        rw (e, after_code)
          (outputs_own system.id render args system deadline
            (await_stdout render args system deadline).0)
    | inr e ↦ rw (e, after_code) (abort_own system.id args)
  ]

  after_wait-AllOwn :
      (deadline : ℕ) (label : Piece) (outcome : WaitOutcome)
      → AllOwn system.id
          (after_wait render options args system deadline
            (child_process_group system.id)
            label
            elapsed
            outcome).1
  unfolding after_wait terminate drop_cleanup terminate_child drop_child terminate_process_group
  after_wait-AllOwn deadline label (exited code) =
      All-append system.id _ _ (group_own system.id)
        (All-append system.id _ _ (after_code_own deadline label code) tt)
  after_wait-AllOwn deadline label (no_code signal) =
      All-append system.id _ _ (group_own system.id)
        (All-append system.id _ _ (abort_own system.id args) tt)
  after_wait-AllOwn deadline label (wait_failed error) =
      All-append system.id _ _ (All-append system.id _ _ (group_own system.id) (tt, tt)) (
        All-append system.id _ _ (abort_own system.id args)
          (All-append system.id _ _ (group_own system.id) (tt, tt)))
  after_wait-AllOwn deadline label timed_out =
      All-append system.id _ _ (All-append system.id _ _ (group_own system.id) (tt, tt))
        (All-append system.id _ _ (abort_own system.id args) (tt, group_own system.id))

  after_wait-KillsGroup :
      (deadline group : ℕ) (label : Piece) (outcome : WaitOutcome)
      → KillsGroup
          (after_wait render options args system deadline (some group) label elapsed outcome).1
  unfolding after_wait terminate terminate_child terminate_process_group
  after_wait-KillsGroup deadline group label (exited code) = refl
  after_wait-KillsGroup deadline group label (no_code signal) = refl
  after_wait-KillsGroup deadline group label (wait_failed error) = refl
  after_wait-KillsGroup deadline group label timed_out = refl

  -- Once the child is started, its process group is killed however the run ends: at an exit of any kind,
  -- at the timeout, and at every error. No other group is.
  pub run-Kills :
      (program : OsStr) (id : ℕ)
      → validate_exec_args args ≡ ok program
      → system.spawn (configured args program) ≡ ok tt
      → system.id ≡ some id
      → 0 < id
      → id ≤ i32_max
      → Kills (group_of (configured args program) id) (run render options args system elapsed).1
  unfolding run drop_cleanup terminate terminate_process_group drop_child configured group_of
      configure_process_group
  run-Kills program id valid spawned known positive small =
      let group : child_process_group system.id ≡ some id =
        child_process_group-some system.id id known positive small in
      let killed : KillsGroup (after_spawn render options args system (os_str program) elapsed).1 =
        after_spawn-ends KillsGroup (os_str program) (rw group refl)
          (λ deadline. rw group (after_wait-KillsGroup deadline id (os_str program) system.wait)) in
      let own : AllOwn system.id
          (after_spawn render options args system (os_str program) elapsed).1 =
        after_spawn-ends (AllOwn system.id) (os_str program)
          (All-append system.id _ _ (group_own system.id) (tt, tt))
          (λ deadline. after_wait-AllOwn deadline (os_str program) system.wait) in
      rw (valid, spawned, run)
        (record {
          kills = killed;
          own =
              subst
                (λ i. AllOwn i (after_spawn render options args system (os_str program) elapsed).1)
                known own;
        })
