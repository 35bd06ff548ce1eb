-- ===== src/Task/Scheduler/Ops.antt =====
-- kernel/src/task/scheduler.rs: dispatching, the timer tick, and stopping the running task.
use Prim.Native.Nat.{ℕ, ◌-◌}
use saeos.Prelude.{Bool, true, false, not, ◌&&◌, ◌||◌, Option, none, some, leb, if◌then◌else◌}
use saeos.Prelude.Words.{saturating_add}
use saeos.Task.Types.{TaskState, ResumeKind, is_running, can_transition}
use saeos.Task.Entity.{base_slice_ns}
use saeos.Task.Record.{SchedulerError}
use saeos.Task.Scheduler.State.{Scheduler, eevdf, fifo, round_robin, task, modify, same}
use saeos.Task.Scheduler.Monad.{ok, M, ret, fail_if, ok_or, get, update, ◌>>=◌, ◌>>◌}
use saeos.Task.Scheduler.Average.{charge, leave, enqueue}
use saeos.Task.Scheduler.Pick.{pick_next, is_empty}

-- `task.transition(next)?` on a stored task.
unfoldable pub change_state : ℕ → TaskState → M (Unit {0})
change_state id next = do
  s ← get
  t ← ok_or (task s id) SchedulerError.unknown_task
  fail_if (not (can_transition t.state next)) SchedulerError.invalid_transition
  update (modify id (λ u. record u { state = next }))

-- The task that was picked starts to run.
unfoldable pub dispatch : Option ℕ → ℕ → M (Unit {0})
dispatch none now = ret tt
dispatch (some id) now = do
  change_state id TaskState.running
  update (modify id (λ u. record u { dispatched_at = now; slice_start = now }))

abbrev pub count_switch : Bool → Scheduler → Scheduler
count_switch false s = s
count_switch true s = record s {
  stats = record (s.stats) { context_switches = saturating_add s.stats.context_switches 1 };
}

abbrev pub pick : M (Option ℕ)
pick s = let (next, t) = pick_next s in (ok next, t)

-- `Scheduler::switch_to_next`.
unfoldable pub switch_to_next : Option ℕ → ℕ → M (Option ℕ)
switch_to_next previous now = do
  update (λ s. record s { wakeup_preempt = false })
  next ← pick
  dispatch next now
  update (λ s. count_switch (not (same next previous)) (record s { current = next }))
  ret next

-- The entry in the run queue of the task that ran.
unfoldable pub requeue_busy : ℕ → Scheduler → Scheduler
requeue_busy current s =
    enqueue current
      (modify current (λ u. record u { entity = record (u.entity) { enqueue_time = s.clock } }) s)

unfoldable pub requeue_ready : ℕ → M (Unit {0})
requeue_ready current = do
  s ← get
  t ← ok_or (task s current) SchedulerError.unknown_task
  if t.is_idle then ret tt else update (requeue_busy current)

-- The running task goes back to the run queue: the inner part of `Scheduler::schedule`.
unfoldable pub requeue : ℕ → ℕ → M (Unit {0})
requeue current now = do
  update (λ s. (charge current now s).1)
  change_state current TaskState.ready
  requeue_ready current

unfoldable pub requeue_current : Option ℕ → ℕ → M (Unit {0})
requeue_current none now = ret tt
requeue_current (some current) now = do
  s ← get
  t ← ok_or (task s current) SchedulerError.unknown_task
  if is_running t.state then requeue current now else ret tt

-- `Scheduler::schedule`.
unfoldable pub schedule : ℕ → M (Option ℕ)
schedule now = do
  update (λ s. record s { clock = now })
  s ← get
  requeue_current s.current now
  update (λ t. record t { current = none })
  switch_to_next s.current now

-- `Scheduler::stop_current` after its checks.
unfoldable pub halt : TaskState → ℕ → ℕ → M ℕ
halt state current now = do
  update (λ s. leave current (charge current now s).1)
  update (modify current (λ u. record u { resume_kind = ResumeKind.voluntary }))
  change_state current state
  update (λ s. record s { current = none })
  ret current

-- `Scheduler::stop_current`.
unfoldable pub stop_current : TaskState → ℕ → M ℕ
stop_current state now = do
  update (λ s. record s { clock = now })
  s ← get
  current ← ok_or s.current SchedulerError.unknown_task
  t ← ok_or (task s current) SchedulerError.unknown_task
  fail_if (not (is_running t.state)) SchedulerError.invalid_transition
  halt state current now

-- Whether a tick with work queued preempts the running task.
unfoldable pub tick_preempts : ℕ → ℕ → Bool → Bool → Scheduler → Bool
tick_preempts current now completed wakeup s = elim s.policy [
  | fifo ↦ false
  | round_robin ↦ elim (task s current) [
    | none ↦ false
    | some t ↦ leb base_slice_ns (now - t.slice_start)
  ]
  | eevdf ↦ completed || wakeup
]

unfoldable pub tick_running : ℕ → ℕ → Scheduler → Bool × Scheduler
tick_running current now s =
    let (completed, charged) = charge current now s in
    let rested : Scheduler = record charged { wakeup_preempt = false } in
    (
      not (is_empty s.run_queue)
          && tick_preempts current now completed charged.wakeup_preempt rested,
      rested,
    )

unfoldable pub tick_idle : Scheduler → Bool × Scheduler
tick_idle s = (
  not (is_empty s.run_queue),
  record s { stats = record (s.stats) { idle_ticks = saturating_add s.stats.idle_ticks 1 } },
)

unfoldable pub tick_current : Option ℕ → ℕ → Scheduler → Bool × Scheduler
tick_current none now s = tick_idle s
tick_current (some current) now s =
    if same (some current) s.idle then tick_idle s else tick_running current now s

-- `Scheduler::tick`.
unfoldable pub tick : ℕ → Scheduler → Bool × Scheduler
tick now s = tick_current s.current now (record s { clock = now })
