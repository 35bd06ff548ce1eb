-- ===== src/Task/Scheduler/Wait.antt =====
-- kernel/src/task/scheduler.rs: sleeping, blocking and waking.
use Prim.Native.Nat.{ℕ, ◌+◌, zero, suc}
use saeos.Prelude.{
  Bool, false, not, ◌&&◌, ◌||◌, Option, none, some, List, [], ◌∷◌, ◌++◌, ltb, ◌==◌, if◌then◌else◌,
  length, partition_point, insert_at,
}
use saeos.Task.Types.{BlockReason, TaskState, is_blocked}
use saeos.Task.Record.{SchedulerError}
use saeos.Task.WaitQueue.{WaitQueue, remove}
use saeos.Task.Scheduler.State.{Scheduler, task, modify, same, last_of, but_last}
use saeos.Task.Scheduler.Monad.{Result, ok, err, M, ret, fail_if, ok_or, get, update, ◌>>=◌, ◌>>◌}
use saeos.Task.Scheduler.Average.{make_ready}
use saeos.Task.Scheduler.Ops.{stop_current, switch_to_next}

-- `*entry > key` on pairs of a deadline and a task id.
abbrev pub later : ℕ × ℕ → ℕ × ℕ → Bool
later entry key = ltb key.0 entry.0 || key.0 == entry.0 && ltb key.1 entry.1

abbrev pub add_sleeper : ℕ × ℕ → List (ℕ × ℕ) → List (ℕ × ℕ)
add_sleeper key sleepers =
    insert_at (partition_point (λ entry. later entry key) sleepers) key sleepers

-- `Scheduler::sleep_current_until`.
unfoldable pub sleep_current_until : ℕ → ℕ → M (Option ℕ)
sleep_current_until deadline now = do
  current ← stop_current TaskState.blocked now
  s ← get
  t ← ok_or (task s current) SchedulerError.unknown_task
  update (modify current (λ u. record u { block_reason = some (BlockReason.sleep_until deadline) }))
  update (λ s. record s { sleepers = add_sleeper (deadline, current) s.sleepers })
  switch_to_next (some current) now

abbrev pub sleeps_until : Option BlockReason → ℕ → Bool
sleeps_until (some (BlockReason.sleep_until d)) deadline = d == deadline
sleeps_until _ deadline = false

unfoldable pub still_sleeping : Scheduler → ℕ → ℕ → Bool
still_sleeping s id deadline = elim (task s id) [
  | none ↦ false
  | some t ↦ is_blocked t.state && sleeps_until t.block_reason deadline
]

-- The loop of `Scheduler::wake_expired`: every round pops a sleeper.
unfoldable pub wake_loop : ℕ → ℕ → ℕ → Scheduler → ℕ × Scheduler
wake_loop zero now woken s = (woken, s)
wake_loop (suc fuel) now woken s = elim (last_of s.sleepers) [
  | none ↦ (woken, s)
  | some (deadline, id) ↦
      let popped : Scheduler = record s { sleepers = but_last s.sleepers } in
      let woke = wake_loop fuel now (woken + 1) (make_ready id popped) in
      let skipped = wake_loop fuel now woken popped in
      if ltb now deadline
      then (woken, s)
      else if still_sleeping popped id deadline
      then woke
      else skipped
]

-- `Scheduler::wake_expired`.
unfoldable pub wake_expired : ℕ → Scheduler → ℕ × Scheduler
wake_expired now s = wake_loop (length s.sleepers) now 0 s

-- `Scheduler::block_current` before the task enters the queue.
unfoldable pub stop_for : BlockReason → ℕ → ℕ → M ℕ
stop_for reason link now = do
  current ← stop_current TaskState.blocked now
  s ← get
  t ← ok_or (task s current) SchedulerError.unknown_task
  update (modify current (λ u. record u { block_reason = some reason; wait_link = some link }))
  ret current

-- The end of `Scheduler::block_current`: the stopped task enters the queue, and the next one runs.
unfoldable pub enter_queue :
    WaitQueue → ℕ → Result ℕ × Scheduler → Result (Option ℕ) × WaitQueue × Scheduler
enter_queue q now (err e, stopped) = (err e, q, stopped)
enter_queue q now (ok current, stopped) =
    let (next, switched) = switch_to_next (some current) now stopped in
    (next, record q { tasks = q.tasks ++ current ∷ [] }, switched)

-- `Scheduler::block_current`, with the queue passed on too.
unfoldable pub block_current :
    BlockReason → WaitQueue → ℕ → Scheduler → Result (Option ℕ) × WaitQueue × Scheduler
block_current reason q now s = enter_queue q now (stop_for reason q.id now s)

-- `Scheduler::wake_task`.
unfoldable pub wake_task : ℕ → M (Unit {0})
wake_task id = do
  s ← get
  t ← ok_or (task s id) SchedulerError.unknown_task
  fail_if (not (is_blocked t.state)) SchedulerError.not_blocked
  update (make_ready id)

-- `Scheduler::wake_one`, for the entries of the queue.
unfoldable pub wake_first :
    List ℕ → WaitQueue → Scheduler → Result (Option ℕ) × WaitQueue × Scheduler
wake_first [] q s = (ok none, q, s)
wake_first (id ∷ rest) q s =
    let (result, woken) = (wake_task id >> ret (some id)) s in
    (result, record q { tasks = rest }, woken)

-- `Scheduler::wake_one`, with the queue that is left: also beside an error the entry is gone.
unfoldable pub wake_one : WaitQueue → Scheduler → Result (Option ℕ) × WaitQueue × Scheduler
wake_one q s = wake_first q.tasks q s

-- The loop of `Scheduler::wake_all`; `none` is a lack of fuel.
unfoldable pub wake_all_loop :
    ℕ → ℕ → WaitQueue → Scheduler → Option (Result ℕ × WaitQueue × Scheduler)
wake_all_loop zero count q s = none
wake_all_loop (suc fuel) count q s =
    let (result, left, woken) = wake_one q s in
    let rest = wake_all_loop fuel (count + 1) left woken in
    elim result [
      | err e ↦ some (err e, left, woken)
      | ok next ↦ elim next [ none ↦ some (ok count, left, woken) | some id ↦ rest ]
    ]

-- `Scheduler::wake_all`.
unfoldable pub wake_all : WaitQueue → Scheduler → Option (Result ℕ × WaitQueue × Scheduler)
wake_all q s = wake_all_loop (suc (length q.tasks)) 0 q s

-- `Scheduler::cancel_wait`; on an error the queue is as it was.
unfoldable pub cancel_wait : ℕ → WaitQueue → M WaitQueue
cancel_wait id q = do
  s ← get
  t ← ok_or (task s id) SchedulerError.unknown_task
  fail_if (not (is_blocked t.state) || not (same t.wait_link (some q.id)))
      SchedulerError.not_blocked
  let (left, removed) = remove q id
  fail_if (not removed) SchedulerError.not_blocked
  update (make_ready id)
  ret left
