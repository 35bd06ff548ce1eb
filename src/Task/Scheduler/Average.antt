-- ===== src/Task/Scheduler/Average.antt =====
-- kernel/src/task/scheduler.rs: the weighted average of the runnable set, and the tasks that join it,
-- leave it and are charged.
use Prim.Native.Nat.{ℕ, ◌-◌}
use saeos.Prelude.{Bool, true, false, not, ◌&&◌, none, some, [], ◌∷◌, ◌++◌, if◌then◌else◌}
use saeos.Prelude.Words.{saturating_add}
use saeos.Prelude.Int.{ℤ, pos, ◌+ℤ◌, ◌-ℤ◌, ◌*ℤ◌, div_ℤ, ltb_ℤ, leb_ℤ, clamp_ℤ, pos_part, sub_ℕ}
use saeos.Task.Types.{TaskState, is_runnable}
use saeos.Task.Entity.{EevdfEntity, weighted_slice, account, lag_limit}
use saeos.Task.Record.{Tcb, transition}
use saeos.Task.Scheduler.State.{Scheduler, task, modify, same}

-- `Scheduler::refresh_average`. The division is by a positive sum.
unfoldable pub refresh_average : Scheduler → Scheduler
refresh_average s =
    if ltb_ℤ (pos 0) s.sum_weight
    then record s { average = div_ℤ s.sum_weighted_runtime (pos_part s.sum_weight) }
    else s

-- The entity of a task that joins: `Scheduler::join` up to the sums.
unfoldable pub placed : ℤ → ℤ → ℕ → EevdfEntity → EevdfEntity
placed average others clock e =
    let placed_lag : ℤ =
      if ltb_ℤ (pos 0) others
      then div_ℤ (e.lag *ℤ (others +ℤ pos e.weight)) (pos_part others)
      else e.lag in
    let runtime : ℤ = average -ℤ placed_lag in
    record e {
      virtual_runtime = runtime;
      lag = pos 0;
      virtual_deadline = runtime +ℤ pos (weighted_slice e);
      enqueue_time = clock;
    }

-- Whether the running task's deadline is later than that of the task that joined.
unfoldable pub preempted_by : Scheduler → EevdfEntity → Bool
preempted_by s e = elim s.current [
  | none ↦ false
  | some current ↦
      not (same (some current) s.idle)
      && leb_ℤ e.virtual_runtime s.average
      && elim (task s current) [
        | none ↦ false
        | some t ↦ ltb_ℤ e.virtual_deadline t.entity.virtual_deadline
      ]
]

-- Add to the two sums over the runnable set.
unfoldable pub add_sums : ℤ → ℤ → Scheduler → Scheduler
add_sums weight weighted_runtime s = record s {
  sum_weight = s.sum_weight +ℤ weight;
  sum_weighted_runtime = s.sum_weighted_runtime +ℤ weighted_runtime;
}

unfoldable pub sub_sums : ℤ → ℤ → Scheduler → Scheduler
sub_sums weight weighted_runtime s = record s {
  sum_weight = s.sum_weight -ℤ weight;
  sum_weighted_runtime = s.sum_weighted_runtime -ℤ weighted_runtime;
}

unfoldable pub enqueue : ℕ → Scheduler → Scheduler
enqueue id s = record s { run_queue = s.run_queue ++ id ∷ [] }

unfoldable pub flag_preempt : EevdfEntity → Scheduler → Scheduler
flag_preempt e s = if preempted_by s e then record s { wakeup_preempt = true } else s

unfoldable pub set_entity : ℕ → EevdfEntity → Scheduler → Scheduler
set_entity id e s = modify id (λ u. record u { entity = e }) s

-- `Scheduler::join`, for the task that is there and its entity once placed.
unfoldable pub join_placed : ℕ → EevdfEntity → Scheduler → Scheduler
join_placed id e s = flag_preempt e (
    enqueue id (
      refresh_average
        (add_sums (pos e.weight) (pos e.weight *ℤ e.virtual_runtime) (set_entity id e s))))

unfoldable pub join : ℕ → Scheduler → Scheduler
join id s = elim (task s id) [
  | none ↦ s
  | some t ↦ join_placed id (placed s.average s.sum_weight s.clock t.entity) s
]

-- `Scheduler::leave`, for the entity of the task that is there.
unfoldable pub leave_entity : ℕ → EevdfEntity → Scheduler → Scheduler
leave_entity id e s =
    let lag = clamp_ℤ (s.average -ℤ e.virtual_runtime) (sub_ℕ 0 lag_limit) (pos lag_limit) in
    refresh_average (
      sub_sums (pos e.weight) (pos e.weight *ℤ e.virtual_runtime)
        (set_entity id (record e { lag = lag }) s))

unfoldable pub leave : ℕ → Scheduler → Scheduler
leave id s = elim (task s id) [ none ↦ s | some t ↦ leave_entity id t.entity s ]

unfoldable pub stamp : ℕ → ℕ → Scheduler → Scheduler
stamp id now s = modify id (λ u. record u { dispatched_at = now }) s

-- `Scheduler::charge`, for the task that is there.
unfoldable pub charge_task : ℕ → Tcb → ℕ → Scheduler → Bool × Scheduler
charge_task id t now s =
    let (e, completed) = account t.entity (now - t.dispatched_at) in
    if t.is_idle then (false, stamp id now s) else (
      completed,
      refresh_average (
          add_sums (pos 0) (pos e.weight *ℤ (e.virtual_runtime -ℤ t.entity.virtual_runtime))
            (set_entity id e (stamp id now s))),
    )

unfoldable pub charge : ℕ → ℕ → Scheduler → Bool × Scheduler
charge id now s = elim (task s id) [ none ↦ (false, s) | some t ↦ charge_task id t now s ]

-- `Scheduler::is_in_runnable_set`.
unfoldable pub is_in_runnable_set : Scheduler → ℕ → Bool
is_in_runnable_set s id = elim (task s id) [
  | none ↦ false
  | some t ↦ not t.is_idle && is_runnable t.state
]

abbrev pub count_woken : Scheduler → Scheduler
count_woken s = record s {
  stats = record (s.stats) { tasks_woken = saturating_add s.stats.tasks_woken 1 };
}

abbrev pub woken_task : Tcb → Tcb
woken_task t = record t {
  state = elim (transition t TaskState.ready) [ none ↦ t.state | some u ↦ u.state ];
  block_reason = none;
  wait_link = none;
}

-- `Scheduler::make_ready`: the refusal of the transition is ignored.
unfoldable pub make_ready : ℕ → Scheduler → Scheduler
make_ready id s = count_woken (join id (modify id woken_task s))
