-- ===== src/Task/Scheduler/Calls.antt =====
-- kernel/src/task/scheduler.rs: the calls that create, dispatch, describe and reap tasks.
use Prim.Native.Nat.{ℕ, ◌-◌}
use Prim.Native.String.{String}
use saeos.Prelude.{
  Bool, true, false, not, Option, none, some, List, [], ◌∷◌, ◌++◌, if◌then◌else◌, set, map,
}
use saeos.Prelude.Words.{saturating_add}
use saeos.Prelude.Int.{ℤ, pos, ◌+ℤ◌, ◌-ℤ◌, ◌*ℤ◌, clamp_ℤ}
use saeos.Task.Types.{
  TaskState, ResumeKind, zero_context, ResumeContext, DispatchDecision, KernelStack, ExitStatus,
  is_running, is_terminal, is_runnable,
}
use saeos.Task.Entity.{EevdfEntity, weighted_slice, nice_to_weight, min_nice, max_nice, is_eligible}
use saeos.Task.Record.{Tcb, SchedulerError, TaskSnapshot, new_task}
use saeos.Task.Scheduler.State.{
  Scheduler, task, modify, same, allocate_id, insert_task, index_get, index_remove, slot_task,
  flatten,
}
use saeos.Task.Scheduler.Monad.{Result, ok, err, M, ret, fail_if, ok_or, get, update, ◌>>=◌, ◌>>◌}
use saeos.Task.Scheduler.Average.{refresh_average, join, is_in_runnable_set}
use saeos.Task.Scheduler.Ops.{schedule, stop_current, switch_to_next}

-- `Scheduler::spawn`. The transition from new to ready does not fail.
unfoldable pub spawn : KernelStack → String → Scheduler → ℕ × Scheduler
spawn kernel_stack name s =
    let (id, allocated) = allocate_id s in
    let t = record (new_task id kernel_stack name) { state = TaskState.ready } in
    (id, join id (insert_task t allocated))

-- `Scheduler::spawn_kernel_task`. The bounds of the stack, the bootstrap address and the address of
-- the entry function come from outside.
unfoldable pub spawn_kernel_task : KernelStack → ℕ → ℕ → String → Bool → Scheduler → ℕ × Scheduler
spawn_kernel_task stack bootstrap_ip entry name is_idle s =
    let (id, allocated) = allocate_id s in
    let t = record (new_task id stack name) {
      state = TaskState.ready;
      cpu_context = record zero_context {
        stack_pointer = stack.top - 8;
        instruction_pointer = bootstrap_ip;
        r12 = entry;
      };
      resume_kind = ResumeKind.voluntary;
      is_idle = is_idle;
    } in
    let stored = insert_task t allocated in
    (id, if is_idle then record stored { idle = some id } else join id stored)

-- `Scheduler::dispatch_decision`.
unfoldable pub dispatch_decision : ℕ → M DispatchDecision
dispatch_decision id = do
  s ← get
  t ← ok_or (task s id) SchedulerError.unknown_task
  ret (record {
    task_id = id;
    resume_context = elim t.resume_kind [
      | ResumeKind.voluntary ↦ ResumeContext.voluntary_context t.cpu_context
      | ResumeKind.interrupt ↦ ResumeContext.interrupt_frame t.interrupt_stack_pointer
    ];
    address_space = t.address_space;
  })

-- `Scheduler::set_address_space`.
unfoldable pub set_address_space : ℕ → Option ℕ → M (Unit {0})
set_address_space id address_space = do
  s ← get
  t ← ok_or (task s id) SchedulerError.unknown_task
  fail_if (is_terminal t.state) SchedulerError.invalid_address_space
  update (modify id (λ u. record u { address_space = address_space }))

-- The entity of a task with a new nice value.
unfoldable pub reniced : ℤ → EevdfEntity → EevdfEntity
reniced nice e =
    let clamped = clamp_ℤ nice min_nice max_nice in
    let weighed : EevdfEntity = record e { nice = clamped; weight = nice_to_weight clamped } in
    record weighed { virtual_deadline = e.virtual_runtime +ℤ pos (weighted_slice weighed) }

abbrev pub reweigh : ℤ → ℤ → ℤ → Scheduler → Scheduler
reweigh old new runtime s = refresh_average (record s {
  sum_weight = s.sum_weight +ℤ (new -ℤ old);
  sum_weighted_runtime = s.sum_weighted_runtime +ℤ (new -ℤ old) *ℤ runtime;
})

-- `Scheduler::set_nice`.
unfoldable pub set_nice : ℕ → ℤ → M (Unit {0})
set_nice id nice = do
  s ← get
  t ← ok_or (task s id) SchedulerError.unknown_task
  fail_if (is_terminal t.state) SchedulerError.invalid_transition
  let e = reniced nice t.entity
  update (modify id (λ u. record u { entity = e }))
  if is_in_runnable_set s id
      then update (reweigh (pos t.entity.weight) (pos e.weight) e.virtual_runtime)
      else ret tt

abbrev pub snapshot : ℤ → Tcb → TaskSnapshot
snapshot average t = record {
  task_id = t.task_id;
  name = t.name;
  process_id = t.process_id;
  state = t.state;
  virtual_runtime = t.entity.virtual_runtime;
  virtual_deadline = t.entity.virtual_deadline;
  exec_runtime = t.entity.exec_runtime;
  nice = t.entity.nice;
  address_space = t.address_space;
  is_idle = t.is_idle;
  resume_kind = t.resume_kind;
  block_reason = t.block_reason;
  exit_status = t.exit_status;
  enqueue_time = t.entity.enqueue_time;
  eligible = is_eligible t.entity average;
  lag = if is_runnable t.state then average -ℤ t.entity.virtual_runtime else t.entity.lag;
}

-- `Scheduler::snapshots`.
unfoldable pub snapshots : Scheduler → List TaskSnapshot
snapshots s = map (snapshot s.average) (flatten s.tasks)

abbrev pub count_preemption : Bool → Scheduler → Scheduler
count_preemption false s = s
count_preemption true s = record s {
  stats = record (s.stats) { timer_preemptions = saturating_add s.stats.timer_preemptions 1 };
}

abbrev pub or_idle : Option ℕ → Option ℕ → Option ℕ
or_idle none idle = idle
or_idle (some a) idle = some a

abbrev pub save_frame : Option ℕ → ℕ → Scheduler → Scheduler
save_frame none stack_pointer s = s
save_frame (some current) stack_pointer s =
    modify current
      (λ u. record u {
        interrupt_stack_pointer = stack_pointer;
        resume_kind = ResumeKind.interrupt;
      })
      s

-- `Scheduler::preempt`; no next task is a panic.
unfoldable pub preempt : ℕ → ℕ → Scheduler → Option ℕ × Scheduler
preempt stack_pointer now s =
    let scheduled = (schedule now (save_frame s.current stack_pointer s)).1 in
    let next = or_idle scheduled.current scheduled.idle in
    elim next [
      | none ↦ (none, scheduled)
      | some id ↦ (some id, count_preemption (not (same (some id) s.current)) scheduled)
    ]

-- `Scheduler::yield_current`.
unfoldable pub yield_current : ℕ → M (Option ℕ)
yield_current now = schedule now

-- The end of `Scheduler::prepare_voluntary_yield`, after `schedule`.
unfoldable pub finish_yield : ℕ → Result (Option ℕ) × Scheduler → Result (ℕ × ℕ) × Scheduler
finish_yield current (err e, s) = (err e, s)
finish_yield current (ok none, s) = (err SchedulerError.unknown_task, s)
finish_yield current (ok (some next), s) = (
  ok (current, next),
  record s {
    stats = record (s.stats) { voluntary_yields = saturating_add s.stats.voluntary_yields 1 };
  },
)

unfoldable pub yield_from : ℕ → ℕ → M (ℕ × ℕ)
yield_from current now s =
    finish_yield current
      (schedule now (modify current (λ u. record u { resume_kind = ResumeKind.voluntary }) s))

-- `Scheduler::prepare_voluntary_yield`.
unfoldable pub prepare_voluntary_yield : ℕ → M (ℕ × ℕ)
prepare_voluntary_yield now = do
  s ← get
  current ← ok_or s.current SchedulerError.unknown_task
  t ← ok_or (task s current) SchedulerError.unknown_task
  fail_if (not (is_running t.state)) SchedulerError.invalid_transition
  yield_from current now

-- `Scheduler::exit_current`.
unfoldable pub exit_current : ExitStatus → ℕ → M (Option ℕ)
exit_current status now = do
  current ← stop_current TaskState.exited now
  s ← get
  t ← ok_or (task s current) SchedulerError.unknown_task
  update (modify current (λ u. record u { exit_status = some status; block_reason = none }))
  update (λ s. record s { exit_queue = s.exit_queue ++ current ∷ [] })
  switch_to_next (some current) now

-- Take the task out of its slot: the end of `Scheduler::reap_one`.
unfoldable pub reap : ℕ → M (Option Tcb)
reap id = do
  s ← get
  slot ← ok_or (index_get s.index id) SchedulerError.unknown_task
  update (λ s. record s { index = index_remove s.index id })
  t ← ok_or (slot_task s.tasks slot) SchedulerError.unknown_task
  update (λ s. record s {
    tasks = set s.tasks slot none;
    free_slots = s.free_slots ++ slot ∷ [];
    stats = record (s.stats) { tasks_reaped = saturating_add s.stats.tasks_reaped 1 };
  })
  ret (some t)

unfoldable pub reap_first : List ℕ → M (Option Tcb)
reap_first [] = ret none
reap_first (id ∷ rest) = do
  s ← get
  fail_if (same s.current (some id)) SchedulerError.cannot_reap_current
  update (λ s. record s { exit_queue = rest })
  reap id

-- `Scheduler::reap_one`.
unfoldable pub reap_one : M (Option Tcb)
reap_one s = reap_first s.exit_queue s
