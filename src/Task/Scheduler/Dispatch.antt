-- ===== src/Task/Scheduler/Dispatch.antt =====
-- Dispatching: `switch_to_next` and `schedule` leave the current task as the one that runs.
use Prim.Native.Nat.{ℕ}
use saeos.Prelude.{
  Bool, true, false, Option, none, some, ◌≡◌, refl, sym, ◌∙◌, ap, arith, Bool-cases, inl, inr, ◌⊎◌,
}
use saeos.Task.Types.{TaskState}
use saeos.Task.Record.{Tcb, SchedulerError}
use saeos.Task.Scheduler.State.{Scheduler, task, modify, same}
use saeos.Task.Scheduler.Monad.{ok, err}
use saeos.Task.Scheduler.Pick.{pick_next}
use saeos.Task.Scheduler.Average.{charge}
use saeos.Task.Scheduler.Ops.{
  dispatch, count_switch, switch_to_next, requeue_busy, requeue_ready, requeue, requeue_current,
  schedule,
}
use saeos.Task.Scheduler.Keeps.{
  state_of, Keeps, Keeps-trans, Keeps-refl, modify-Keeps, aside, charge-Keeps, enqueue-Keeps,
}
use saeos.Task.Scheduler.Runs.{
  Runs, IsCurrent, Keeps-Runs, Keeps-IsCurrent, in_state, change_state_cases, starts, stops,
  running_task, stop_running, in_state-task, pick_next-Keeps,
}

abbrev stamped : ℕ → Tcb → Tcb
stamped now u = record u { dispatched_at = now; slice_start = now }

-- The two ways `dispatch` ends: nothing was done, or the picked task runs.
dispatch_cases :
    (next : Option ℕ) (now : ℕ) (s : Scheduler)
    → Runs s none
    → ((e : SchedulerError) × (dispatch next now s ≡ (err e, s)))
      ⊎ ((n : Scheduler) × (dispatch next now s ≡ (ok tt, n)) × Runs n next)
unfolding dispatch
dispatch_cases none now s r = inr (s, refl, r)
dispatch_cases (some id) now s r = elim (change_state_cases id TaskState.running s) [
  | inl (e, failed) ↦ inl (e, rw (failed) refl)
  | inr (t, found, can, done) ↦ inr (
    modify id (stamped now) (modify id (in_state TaskState.running) s),
    rw (done) refl,
    Keeps-Runs (some id) (modify-Keeps (stamped now) _ id (λ u. refl) (λ u. refl))
        (starts s id TaskState.running t found refl r),
  )
]

count_switch-Keeps : (b : Bool) (s : Scheduler) → Keeps s (count_switch b s)
count_switch-Keeps false s = Keeps-refl s
count_switch-Keeps true s = aside s _ refl refl refl refl refl refl

-- Making a task current does not change who runs.
pub set_current-Runs :
    (s : Scheduler) (o next : Option ℕ) → Runs s o → Runs (record s { current = next }) o
unfolding state_of task
set_current-Runs s o next r = r

-- With no current task, none runs.
current_none : (s : Scheduler) → s.current ≡ none → Runs s none → IsCurrent s
current_none s idle r = (r.0, λ id. r.1 id ∙ ap (λ o. same o (some id)) (sym idle))

pub switch_to_next-IsCurrent :
    (previous : Option ℕ) (now : ℕ) (s : Scheduler)
    → s.current ≡ none
    → Runs s none
    → IsCurrent (switch_to_next previous now s).1
unfolding switch_to_next
switch_to_next-IsCurrent previous now s idle r =
    let calm = record s { wakeup_preempt = false } in
    let kept : Keeps s (pick_next calm).1 =
      Keeps-trans (aside s calm refl refl refl refl refl refl) (pick_next-Keeps calm) in
    let quiet = Keeps-Runs none kept r in
    elim (dispatch_cases (pick_next calm).0 now (pick_next calm).1 quiet) [
      | inl (e, failed) ↦ rw (failed) (Keeps-IsCurrent kept (current_none s idle r))
      | inr (n, done, running) ↦ rw (done) (
          Keeps-IsCurrent (count_switch-Keeps _ _)
            (set_current-Runs n (pick_next calm).0 (pick_next calm).0 running))
    ]

requeue_busy-Keeps : (id : ℕ) (s : Scheduler) → Keeps s (requeue_busy id s)
unfolding requeue_busy
requeue_busy-Keeps id s =
    Keeps-trans
      (modify-Keeps (λ u. record u { entity = record (u.entity) { enqueue_time = s.clock } }) s id
        (λ u. refl) (λ u. refl))
      (enqueue-Keeps _ id)

requeue_ready-Keeps :
    (id : ℕ) (s : Scheduler) (t : Tcb)
    → task s id ≡ some t
    → (n : Scheduler) × (requeue_ready id s ≡ (ok tt, n)) × Keeps s n
unfolding requeue_ready
requeue_ready-Keeps id s t e = elim (Bool-cases t.is_idle) [
  | inl idle ↦ (s, rw (e, idle) refl, Keeps-refl s)
  | inr busy ↦ (requeue_busy id s, rw (e, busy) refl, requeue_busy-Keeps id s)
]

-- The running task goes back to the queue: this does not fail, and then none runs.
requeue-Runs :
    (current now : ℕ) (s : Scheduler)
    → Runs s (some current)
    → (n : Scheduler) × (requeue current now s ≡ (ok tt, n)) × Runs n none
unfolding requeue
requeue-Runs current now s r =
    let charged = (charge current now s).1 in
    let running = Keeps-Runs (some current) (charge-Keeps current now s) r in
    let (t, e, is) = running_task charged current running in
    let stopped = modify current (in_state TaskState.ready) charged in
    let (n, done, kept) =
      requeue_ready-Keeps current stopped (in_state TaskState.ready t)
        (in_state-task charged current TaskState.ready t running.0 e) in
    (
      n,
      rw (stop_running charged current running TaskState.ready refl) done,
      Keeps-Runs none kept (stops charged current TaskState.ready t e refl running),
    )

requeue_current-Runs :
    (o : Option ℕ) (now : ℕ) (s : Scheduler)
    → Runs s o
    → (n : Scheduler) × (requeue_current o now s ≡ (ok tt, n)) × Runs n none
unfolding requeue_current
requeue_current-Runs none now s r = (s, refl, r)
requeue_current-Runs (some current) now s r =
    let (t, e, is) = running_task s current r in
    let (n, done, stopped) = requeue-Runs current now s r in
    (n, ground (arith, e, is, done), stopped)

pub set_clock-Keeps : (s : Scheduler) (now : ℕ) → Keeps s (record s { clock = now })
set_clock-Keeps s now = aside s _ refl refl refl refl refl refl

-- Scheduling keeps the store of tasks in order and the current task the one that runs, also where it
-- returns an error.
pub schedule-IsCurrent : (now : ℕ) (s : Scheduler) → IsCurrent s → IsCurrent (schedule now s).1
unfolding schedule
schedule-IsCurrent now s r =
    let clocked : Scheduler = record s { clock = now } in
    let (n, done, stopped) =
      requeue_current-Runs s.current now clocked (Keeps-Runs s.current (set_clock-Keeps s now) r) in
    rw (done) (
      switch_to_next-IsCurrent s.current now (record n { current = none }) refl
        (set_current-Runs n none none stopped))
