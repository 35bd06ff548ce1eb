-- ===== src/Task/Scheduler/Stop.antt =====
-- Stopping the running task: to sleep, to wait, to exit, or because the timer preempts it.
use Prim.Native.Nat.{ℕ}
use saeos.Prelude.{
  Bool, true, false, Option, none, some, ◌≡◌, refl, ◌∙◌, ap, arith, Option-cases, inl, inr, ◌⊎◌,
}
use saeos.Task.Types.{TaskState, ResumeKind, BlockReason, ExitStatus, can_transition, is_running}
use saeos.Task.Record.{Tcb, SchedulerError}
use saeos.Task.WaitQueue.{WaitQueue}
use saeos.Task.Scheduler.State.{Scheduler, task, modify, same}
use saeos.Task.Scheduler.Monad.{ok, err}
use saeos.Task.Scheduler.Average.{charge, leave}
use saeos.Task.Scheduler.Ops.{schedule, halt, stop_current}
use saeos.Task.Scheduler.Calls.{exit_current, preempt, save_frame, or_idle, count_preemption}
use saeos.Task.Scheduler.Wait.{sleep_current_until, stop_for, enter_queue, block_current}
use saeos.Task.Scheduler.Keeps.{
  Keeps, Keeps-trans, Keeps-refl, modify-Keeps, aside, charge-Keeps, leave-Keeps,
}
use saeos.Task.Scheduler.Runs.{
  Runs, IsCurrent, Keeps-Runs, Keeps-IsCurrent, in_state, stops, running_task, stop_running,
  in_state-task,
}
use saeos.Task.Scheduler.Dispatch.{
  switch_to_next-IsCurrent, schedule-IsCurrent, set_clock-Keeps, set_current-Runs,
}

set_current-task :
    (s : Scheduler) (o : Option ℕ) (id : ℕ) → task (record s { current = o }) id ≡ task s id
unfolding task
set_current-task s o id = refl

abbrev voluntarily : Tcb → Tcb
voluntarily u = record u { resume_kind = ResumeKind.voluntary }

-- The running task stops: no task is current, none runs, and the task is still there.
abbrev pub Stopped : ℕ → Scheduler → Type 0
Stopped current n = (n.current ≡ none) × Runs n none × (t : Tcb) × (task n current ≡ some t)

-- `halt` does not fail, for the task that runs.
halt_lem :
    (state : TaskState) (current now : ℕ) (s : Scheduler)
    → can_transition TaskState.running state ≡ true
    → is_running state ≡ false
    → Runs s (some current)
    → (n : Scheduler) × (halt state current now s ≡ (ok current, n)) × Stopped current n
unfolding halt
halt_lem state current now s can quiet r =
    let left = leave current (charge current now s).1 in
    let ready = modify current voluntarily left in
    let r1 : Runs ready (some current) =
      Keeps-Runs (some current)
        (Keeps-trans (charge-Keeps current now s) (
          Keeps-trans (leave-Keeps current _)
            (modify-Keeps voluntarily left current (λ u. refl) (λ u. refl))))
        r in
    let (u, there, is_u) = running_task ready current r1 in
    let stopped = modify current (in_state state) ready in
    (
      record stopped { current = none },
      rw (stop_running ready current r1 state can) refl,
      (
        refl,
        set_current-Runs stopped none none (stops ready current state u there quiet r1),
        in_state state u,
        set_current-task stopped none current ∙ in_state-task ready current state u r1.0 there,
      ),
    )

-- Where the store is in order and the current task is the one that runs, `stop_current` into a state that
-- a running task may enter and that is not running: with no current task it fails with the clock set and
-- nothing else changed; with one it returns it, and then no task is current or runs, the store is in
-- order and the task is still there.
pub stop_current_cases :
    (state : TaskState) (now : ℕ) (s : Scheduler)
    → can_transition TaskState.running state ≡ true
    → is_running state ≡ false
    → IsCurrent s
    → ((s.current ≡ none)
        × (stop_current state now s ≡ (err SchedulerError.unknown_task, record s { clock = now })))
      ⊎ ((current : ℕ) × (s.current ≡ some current)
          × (n : Scheduler) × (stop_current state now s ≡ (ok current, n))
          × Stopped current n)
unfolding stop_current
stop_current_cases state now s can quiet r = elim (Option-cases s.current) [
  | inl e ↦ inl (e, ground arith)
  | inr (current, e) ↦
      let clocked : Scheduler = record s { clock = now } in
      let r0 : Runs clocked (some current) =
        Keeps-Runs (some current) (set_clock-Keeps s now)
          (r.0, λ id. r.1 id ∙ ap (λ o. same o (some id)) e) in
      let (t, found, is) = running_task clocked current r0 in
      let (n, done, stopped) = halt_lem state current now clocked can quiet r0 in
      inr (current, e, n, ground (arith, e, found, is, done), stopped)
]

-- A change of the stopped task that keeps its state.
still :
    (f : Tcb → Tcb) (n : Scheduler) (id : ℕ)
    → ((t : Tcb) → (f t).task_id ≡ t.task_id)
    → ((t : Tcb) → (f t).state ≡ t.state)
    → (n.current ≡ none) × Runs n none
    → ((modify id f n).current ≡ none) × Runs (modify id f n) none
still f n id same_id same_state (idle, r) =
    let kept = modify-Keeps f n id same_id same_state in
    (kept.current_kept ∙ idle, Keeps-Runs none kept r)

-- Sleeping keeps the store in order and the current task the one that runs, on every branch.
pub sleep-IsCurrent :
    (deadline now : ℕ) (s : Scheduler)
    → IsCurrent s
    → IsCurrent (sleep_current_until deadline now s).1
unfolding sleep_current_until
sleep-IsCurrent deadline now s r = elim (stop_current_cases TaskState.blocked now s refl refl r) [
  | inl (e, failed) ↦ rw (failed) (Keeps-IsCurrent (set_clock-Keeps s now) r)
  | inr (current, e, n, done, (idle, quiet, t, there)) ↦
      let (idle1, quiet1) =
        still (λ u. record u { block_reason = some (BlockReason.sleep_until deadline) }) n current
          (λ u. refl) (λ u. refl) (idle, quiet) in
      rw (done, there)
        (switch_to_next-IsCurrent (some current) now _ idle1
          (Keeps-Runs none (aside _ _ refl refl refl refl refl refl) quiet1))
]

-- Exiting, the same.
pub exit-IsCurrent :
    (status : ExitStatus) (now : ℕ) (s : Scheduler)
    → IsCurrent s
    → IsCurrent (exit_current status now s).1
unfolding exit_current
exit-IsCurrent status now s r = elim (stop_current_cases TaskState.exited now s refl refl r) [
  | inl (e, failed) ↦ rw (failed) (Keeps-IsCurrent (set_clock-Keeps s now) r)
  | inr (current, e, n, done, (idle, quiet, t, there)) ↦
      let (idle1, quiet1) =
        still (λ u. record u { exit_status = some status; block_reason = none }) n current
          (λ u. refl) (λ u. refl) (idle, quiet) in
      rw (done, there)
        (switch_to_next-IsCurrent (some current) now _ idle1
          (Keeps-Runs none (aside _ _ refl refl refl refl refl refl) quiet1))
]

stop_for_cases :
    (reason : BlockReason) (link now : ℕ) (s : Scheduler)
    → IsCurrent s
    → ((e : SchedulerError) × (n : Scheduler) × (stop_for reason link now s ≡ (err e, n))
        × IsCurrent n)
      ⊎ ((current : ℕ) × (n : Scheduler) × (stop_for reason link now s ≡ (ok current, n))
          × (n.current ≡ none)
          × Runs n none)
unfolding stop_for
stop_for_cases reason link now s r = elim (stop_current_cases TaskState.blocked now s refl refl r) [
  | inl (e, failed) ↦ inl (
    SchedulerError.unknown_task,
    record s { clock = now },
    rw (failed) refl,
    Keeps-IsCurrent (set_clock-Keeps s now) r,
  )
  | inr (current, e, n, done, (idle, quiet, t, there)) ↦
      let f : Tcb → Tcb = λ u. record u { block_reason = some reason; wait_link = some link } in
      let (idle1, quiet1) = still f n current (λ u. refl) (λ u. refl) (idle, quiet) in
      inr (current, modify current f n, rw (done, there) refl, idle1, quiet1)
]

-- Waiting in a queue, the same.
pub block-IsCurrent :
    (reason : BlockReason) (q : WaitQueue) (now : ℕ) (s : Scheduler)
    → IsCurrent s
    → let (result, left, n) = block_current reason q now s in IsCurrent n
unfolding block_current enter_queue
block-IsCurrent reason q now s r = elim (stop_for_cases reason q.id now s r) [
  | inl (e, n, failed, kept) ↦ rw (failed) kept
  | inr (current, n, done, idle, quiet) ↦
      rw (done) (switch_to_next-IsCurrent (some current) now n idle quiet)
]

save_frame-Keeps :
    (o : Option ℕ) (stack_pointer : ℕ) (s : Scheduler) → Keeps s (save_frame o stack_pointer s)
save_frame-Keeps none stack_pointer s = Keeps-refl s
save_frame-Keeps (some current) stack_pointer s =
    modify-Keeps
      (λ u. record u {
        interrupt_stack_pointer = stack_pointer;
        resume_kind = ResumeKind.interrupt;
      })
      s current (λ u. refl) (λ u. refl)

count_preemption-Keeps : (b : Bool) (s : Scheduler) → Keeps s (count_preemption b s)
count_preemption-Keeps false s = Keeps-refl s
count_preemption-Keeps true s = aside s _ refl refl refl refl refl refl

-- The timer's preemption, the same.
pub preempt-IsCurrent :
    (stack_pointer now : ℕ) (s : Scheduler)
    → IsCurrent s
    → IsCurrent (preempt stack_pointer now s).1
unfolding preempt
preempt-IsCurrent stack_pointer now s r =
    let n = (schedule now (save_frame s.current stack_pointer s)).1 in
    let kept : IsCurrent n =
      schedule-IsCurrent now _ (Keeps-IsCurrent (save_frame-Keeps s.current stack_pointer s) r) in
    elim (Option-cases (or_idle n.current n.idle)) [
      | inl e ↦ rw (e, preempt) kept
      | inr (id, e) ↦ rw (e, preempt) (Keeps-IsCurrent (count_preemption-Keeps _ n) kept)
    ]
