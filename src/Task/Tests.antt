-- ===== src/Task/Tests.antt =====
-- Concrete runs of the scheduler.
use Prim.Native.Nat.{ℕ, zero, suc, ◌<◌, ◌-◌, ◌^◌}
use saeos.Prelude.{true, false, none, some, [], ◌∷◌, ◌≡◌, refl, arith, ◌⊎◌}
use saeos.Task.Types.{KernelStack, TaskState, BlockReason}
use saeos.Task.Record.{Tcb, new_task, SchedulerError}
use saeos.Task.WaitQueue.{WaitQueue}
use saeos.Task.Scheduler.State.{
  Scheduler, PolicyKind, with_policy, task, allocate_id, index_get, slot_task,
}
use saeos.Task.Scheduler.Monad.{ok, err}
use saeos.Task.Scheduler.Ops.{schedule, stop_current}
use saeos.Prelude.Int.{pos}
use saeos.Task.Entity.{default_entity}
use saeos.Task.Scheduler.Calls.{spawn}
use saeos.Task.Scheduler.Pick.{pick_next, may_run, less, policy_key}
use saeos.Task.Scheduler.Views.{view}
use saeos.Task.Scheduler.Expire.{due, Wakes, wake_expired-Wakes}
use saeos.Task.Scheduler.Wait.{wake_expired}
use saeos.Task.Scheduler.Earliest.{pick_next_least}
use saeos.Task.Scheduler.Wait.{wake_all, sleep_current_until}
use saeos.Task.Scheduler.Store.{IsStored}
use saeos.Task.Scheduler.Runs.{IsCurrent}
use saeos.Task.Scheduler.Stop.{stop_current_cases, Stopped}
use saeos.Task.Scheduler.Drain.{Outcome, final, IsDrained, wake_all-IsDrained}
use saeos.Task.Scheduler.Reach.{Reached, created, spawned, scheduled, slept}
use saeos.Task.Scheduler.History.{Reached-IsCurrent}

abbrev stack : KernelStack
stack = record { base = 4096; top = 8192 }

abbrev fresh : Scheduler
fresh = with_policy PolicyKind.eevdf

room : fresh.next_task_id < 2 ^ 64 - 1
unfolding with_policy
room = omega arith

abbrev one : Scheduler
one = (spawn stack "init" fresh).1

Reached-one : Reached PolicyKind.eevdf one
Reached-one = spawned stack "init" room created

abbrev busy : Scheduler
busy = (schedule 5 one).1

Reached-busy : Reached PolicyKind.eevdf busy
Reached-busy = scheduled 5 Reached-one

asleep : Reached PolicyKind.eevdf (sleep_current_until 50 9 busy).1
asleep = slept 50 9 Reached-busy

Reached-IsCurrent_example : IsCurrent (sleep_current_until 50 9 busy).1
Reached-IsCurrent_example = Reached-IsCurrent asleep

abbrev queue : WaitQueue
queue = record { id = 3; tasks = 1 ∷ 7 ∷ [] }

busy-IsCurrent : IsCurrent busy
busy-IsCurrent = Reached-IsCurrent Reached-busy

wake_all-IsDrained_example :
    (out : Outcome) × (wake_all queue busy ≡ some out) × IsCurrent (final out) × IsDrained out
wake_all-IsDrained_example = wake_all-IsDrained queue busy busy-IsCurrent

stop_current_cases_example :
    ((busy.current ≡ none)
      × (stop_current TaskState.blocked 9 busy
          ≡ (err SchedulerError.unknown_task, record busy { clock = 9 })))
    ⊎ ((current : ℕ) × (busy.current ≡ some current)
        × (n : Scheduler) × (stop_current TaskState.blocked 9 busy ≡ (ok current, n))
        × Stopped current n)
stop_current_cases_example = stop_current_cases TaskState.blocked 9 busy refl refl busy-IsCurrent

abbrev first_task : Tcb
first_task = new_task 1 stack "init"

fresh-IsStored : IsStored (allocate_id fresh).1
unfolding allocate_id with_policy index_get
fresh-IsStored = record {
  held = λ id slot e. ground arith;
  fresh = λ id slot e. ground arith;
  free = tt;
}

abbrev later_task : Tcb
later_task = record (new_task 2 stack "later") {
  entity = record default_entity { virtual_deadline = pos 9 };
}

-- Two tasks that wait to run.
abbrev choice : Scheduler
choice = record fresh {
  tasks = some first_task ∷ some later_task ∷ [];
  index = (1, 0) ∷ (2, 1) ∷ [];
  run_queue = 2 ∷ 1 ∷ [];
}

pick_next_least_example :
    (found : ℕ) × (u : Tcb) × ((pick_next choice).0 ≡ some found)
    × (task choice found ≡ some u)
    × (may_run choice u.entity ≡ true)
    × (less (policy_key choice.policy later_task.entity 2) (policy_key choice.policy u.entity found)
        ≡ false)
unfolding new_task with_policy task index_get
pick_next_least_example = pick_next_least choice 0 2 later_task refl refl refl

-- A task that sleeps.
abbrev sleeper : ℕ → ℕ → Tcb
sleeper id deadline = record (new_task id stack "sleeper") {
  state = TaskState.blocked;
  block_reason = some (BlockReason.sleep_until deadline);
}

-- Two tasks sleep, and one that was woken otherwise has left its entry.
abbrev sleepy : Scheduler
sleepy = record fresh {
  tasks = some (sleeper 1 40) ∷ some (sleeper 2 90) ∷ some (new_task 3 stack "woken") ∷ [];
  index = (1, 0) ∷ (2, 1) ∷ (3, 2) ∷ [];
  next_task_id = 4;
  sleepers = (90, 2) ∷ (40, 3) ∷ (40, 1) ∷ [];
}

sleepy-held :
    (id slot : ℕ)
    → index_get ((1, 0) ∷ (2, 1) ∷ (3, 2) ∷ []) id ≡ some slot
    → (t : Tcb) × (slot_task sleepy.tasks slot ≡ some t) × (t.task_id ≡ id)
unfolding index_get new_task
sleepy-held id zero e = (sleeper 1 40, refl, ground arith)
sleepy-held id (suc zero) e = (sleeper 2 90, refl, ground arith)
sleepy-held id (suc (suc zero)) e = (new_task 3 stack "woken", refl, ground arith)
sleepy-held id (suc (suc (suc slot))) e = absurd (ground arith)

sleepy-IsStored : IsStored sleepy
unfolding index_get with_policy
sleepy-IsStored = record { held = sleepy-held; fresh = λ id slot e. ground arith; free = tt }

wake_expired-Wakes_example : Wakes 60 sleepy (wake_expired 60 sleepy).1 0 (wake_expired 60 sleepy).0
wake_expired-Wakes_example =
    wake_expired-Wakes 60 sleepy (omega arith, (omega arith, tt)) sleepy-IsStored

one_due :
    (due 60 (view sleepy 1) 1 sleepy.sleepers ≡ true)
    × (due 60 (view sleepy 3) 3 sleepy.sleepers ≡ false)
unfolding view task index_get new_task with_policy
one_due = (refl, refl)
