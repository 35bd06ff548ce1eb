-- ===== src/Task/Scheduler/History.antt =====
-- What holds in every state that a scheduler reaches.
use saeos.Prelude.{some, ◌≡◌, refl, sym, ◌∙◌, subst, arith}
use saeos.Task.Scheduler.State.{Scheduler, PolicyKind, with_policy, task, index_get}
use saeos.Task.Scheduler.Keeps.{state_of}
use saeos.Task.Scheduler.Runs.{IsCurrent, Keeps-IsCurrent}
use saeos.Task.Scheduler.Dispatch.{schedule-IsCurrent}
use saeos.Task.Scheduler.Stop.{sleep-IsCurrent, exit-IsCurrent, block-IsCurrent, preempt-IsCurrent}
use saeos.Task.Scheduler.Wake.{
  wake_task-IsCurrent, wake_one-IsCurrent, wake_expired-IsCurrent, cancel_wait-IsCurrent,
}
use saeos.Task.Scheduler.Drain.{Outcome, final, wake_all-IsDrained}
use saeos.Task.Scheduler.Lives.{spawn-IsCurrent, spawn_kernel_task-IsCurrent, reap_one-IsCurrent}
use saeos.Task.Scheduler.Reach.{
  Reached, created, spawned, kernel_spawned, placed_in, niced, ticked, scheduled, preempted,
  yielded, slept, expired, blocked_in, woken, woken_one, woken_all, cancelled, exited, reaped_one,
  set_address_space-Keeps, set_nice-Keeps, tick-Keeps, prepare_voluntary_yield-IsCurrent,
}

same_outcome : (o p : Outcome) → some o ≡ some p → o ≡ p
same_outcome o p e = cc

created-IsCurrent : (policy : PolicyKind) → IsCurrent (with_policy policy)
unfolding with_policy state_of task index_get
created-IsCurrent policy = (
  record { held = λ id slot e. ground arith; fresh = λ id slot e. ground arith; free = tt },
  λ id. refl,
)

-- In every state that a scheduler reaches by its calls, whatever they returned, as long as ids were
-- left for the new tasks: each id of the index has its own occupied slot and is below the next id, the
-- free slots are empty and distinct, and the task that is running is the current one and no other.
pub Reached-IsCurrent : {policy : PolicyKind} {s : Scheduler} → Reached policy s → IsCurrent s
Reached-IsCurrent {policy} created = created-IsCurrent policy
Reached-IsCurrent (spawned stack name room h) =
    spawn-IsCurrent stack name _ (Reached-IsCurrent h) room
Reached-IsCurrent (kernel_spawned stack ip entry name is_idle room h) =
    spawn_kernel_task-IsCurrent stack ip entry name is_idle _ (Reached-IsCurrent h) room
Reached-IsCurrent (placed_in id space h) =
    Keeps-IsCurrent (set_address_space-Keeps id space _) (Reached-IsCurrent h)
Reached-IsCurrent (niced id nice h) =
    Keeps-IsCurrent (set_nice-Keeps id nice _) (Reached-IsCurrent h)
Reached-IsCurrent (ticked now h) = Keeps-IsCurrent (tick-Keeps now _) (Reached-IsCurrent h)
Reached-IsCurrent (scheduled now h) = schedule-IsCurrent now _ (Reached-IsCurrent h)
Reached-IsCurrent (preempted frame now h) = preempt-IsCurrent frame now _ (Reached-IsCurrent h)
Reached-IsCurrent (yielded now h) = prepare_voluntary_yield-IsCurrent now _ (Reached-IsCurrent h)
Reached-IsCurrent (slept deadline now h) = sleep-IsCurrent deadline now _ (Reached-IsCurrent h)
Reached-IsCurrent (expired now h) = wake_expired-IsCurrent now _ (Reached-IsCurrent h)
Reached-IsCurrent (blocked_in reason q now h) = block-IsCurrent reason q now _ (Reached-IsCurrent h)
Reached-IsCurrent (woken id h) = wake_task-IsCurrent id _ (Reached-IsCurrent h)
Reached-IsCurrent (woken_one q h) = wake_one-IsCurrent q _ (Reached-IsCurrent h)
Reached-IsCurrent (woken_all {s} q out e h) =
    let (other, e_other, kept, drained) = wake_all-IsDrained q s (Reached-IsCurrent h) in
    let agree : other ≡ out = same_outcome other out (sym e_other ∙ e) in
    subst (λ x. IsCurrent (final x)) agree kept
Reached-IsCurrent (cancelled id q h) = cancel_wait-IsCurrent id q _ (Reached-IsCurrent h)
Reached-IsCurrent (exited status now h) = exit-IsCurrent status now _ (Reached-IsCurrent h)
Reached-IsCurrent (reaped_one h) = reap_one-IsCurrent _ (Reached-IsCurrent h)
