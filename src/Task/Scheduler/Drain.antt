-- ===== src/Task/Scheduler/Drain.antt =====
-- Waking the whole queue: the loop ends.
use Prim.Native.Nat.{ℕ, ◌+◌, ◌<◌, zero, suc}
use saeos.Prelude.{Option, none, some, List, [], ◌∷◌, ◌≡◌, refl, arith, length}
use saeos.Task.WaitQueue.{WaitQueue}
use saeos.Task.Scheduler.State.{Scheduler}
use saeos.Task.Scheduler.Monad.{Result, ok, err, ret, follow}
use saeos.Task.Scheduler.Wait.{wake_task, wake_first, wake_one, wake_all, wake_all_loop}
use saeos.Task.Scheduler.Runs.{IsCurrent}
use saeos.Task.Scheduler.Wake.{wake_task-IsCurrent, follow_kept}

abbrev pub Outcome : Type 0
Outcome = Result ℕ × WaitQueue × Scheduler

abbrev pub final : Outcome → Scheduler
final (result, left, s) = s

-- The queue that an outcome leaves is empty, or there was an error.
abbrev pub IsDrained : Outcome → Type 0
IsDrained (ok count, left, s) = left.tasks ≡ []
IsDrained (err e, left, s) = Unit {0}

abbrev Done : Option Outcome → Type 0
Done o = (out : Outcome) × (o ≡ some out) × IsCurrent (final out) × IsDrained out

-- One round, when the rest of the loop is done.
abbrev after_round : Result (Option ℕ) × WaitQueue × Scheduler → ℕ → Option Outcome → Option Outcome
after_round (err e, left, woken) count rest = some (err e, left, woken)
after_round (ok none, left, woken) count rest = some (ok count, left, woken)
after_round (ok (some id), left, woken) count rest = rest

abbrev left_of : Result (Option ℕ) × WaitQueue × Scheduler → WaitQueue
left_of (result, left, woken) = left

abbrev woken_of : Result (Option ℕ) × WaitQueue × Scheduler → Scheduler
woken_of (result, left, woken) = woken

wake_all_loop_step :
    (fuel count : ℕ) (q : WaitQueue) (s : Scheduler)
    → wake_all_loop (suc fuel) count q s
      ≡ after_round
          (wake_one q s)
          count
          (wake_all_loop fuel (count + 1) (left_of (wake_one q s)) (woken_of (wake_one q s)))
unfolding wake_all_loop
wake_all_loop_step fuel count q s = ground arith

woke_first :
    (c : Result (Unit {0}) × Scheduler) (id count : ℕ) (q : WaitQueue) (rest : Option Outcome)
    → IsCurrent c.1
    → Done rest
    → Done (
        let (result, woken) = follow c (λ _. ret (some id)) in
        after_round (result, q, woken) count rest)
woke_first (ok a, s) id count q rest r d = d
woke_first (err e, s) id count q rest r d = ((err e, q, s), refl, r, tt)

wake_all_loop-Done :
    (fuel count : ℕ) (tasks : List ℕ) (q : WaitQueue) (s : Scheduler)
    → q.tasks ≡ tasks
    → length tasks < fuel
    → IsCurrent s
    → Done (wake_all_loop fuel count q s)
unfolding wake_one wake_first
wake_all_loop-Done zero count tasks q s e h r = ground arith
wake_all_loop-Done (suc fuel) count [] q s e h r =
    rw (wake_all_loop_step fuel count q s, e)
      ((ok count, record q { tasks = [] }, s), refl, r, refl)
wake_all_loop-Done (suc fuel) count (id ∷ rest) q s e h r =
    rw (wake_all_loop_step fuel count q s, e)
      (woke_first (wake_task id s) id count (record q { tasks = rest }) _
        (wake_task-IsCurrent id s r)
        (wake_all_loop-Done fuel (count + 1) rest (record q { tasks = rest }) _ refl (omega arith)
          (follow_kept (wake_task id s) (some id) (wake_task-IsCurrent id s r))))

-- Where the store is in order and the current task is the one that runs, waking all tasks of a queue
-- ends, the two stay so, and the queue is empty unless the result is an error.
pub wake_all-IsDrained :
    (q : WaitQueue) (s : Scheduler)
    → IsCurrent s
    → (out : Outcome) × (wake_all q s ≡ some out) × IsCurrent (final out) × IsDrained out
unfolding wake_all
wake_all-IsDrained q s r =
    wake_all_loop-Done (suc (length q.tasks)) 0 q.tasks q s refl (omega arith) r
