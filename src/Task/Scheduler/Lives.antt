-- ===== src/Task/Scheduler/Lives.antt =====
-- Creating and reaping tasks, and the calls on one task.
use Prim.Native.Nat.{ℕ, ◌-◌, ◌<◌, ◌^◌}
use Prim.Native.String.{String}
use saeos.Prelude.{
  Bool, true, false, Option, none, some, List, [], ◌∷◌, ◌≡◌, refl, arith, Option-cases, Bool-cases,
  inl, inr,
}
use saeos.Task.Types.{TaskState, KernelStack, is_running}
use saeos.Task.Record.{Tcb, new_task}
use saeos.Task.Scheduler.State.{Scheduler, task, same, allocate_id, insert_task, index_get}
use saeos.Task.Scheduler.Calls.{spawn, spawn_kernel_task, reap_one, reap_first, reap}
use saeos.Task.Scheduler.Store.{IsStored}
use saeos.Task.Scheduler.Slots.{insert_task_lem, reaped, reaped-IsStored, task-reaped}
use saeos.Task.Scheduler.Keeps.{state_of, aside, join-Keeps}
use saeos.Task.Scheduler.Runs.{IsCurrent, Keeps-IsCurrent}

insert_task-current : (t : Tcb) (s : Scheduler) → (insert_task t s).current ≡ s.current
unfolding insert_task
insert_task-current t s = ground arith

-- A task with a new id that does not run is stored.
module _ (t : Tcb) (s : Scheduler) (r : IsCurrent s) (quiet : is_running t.state ≡ false)
    (own : t.task_id ≡ s.next_task_id) (room : s.next_task_id < 2 ^ 64 - 1) where
  unused : index_get s.index s.next_task_id ≡ none
  unused = elim (Option-cases (index_get s.index s.next_task_id)) [
    | inl e ↦ e
    | inr (slot, e) ↦ ground (arith, r.0.fresh s.next_task_id slot e)
  ]

  abbrev allocated : Scheduler
  allocated = (allocate_id s).1

  allocated-IsStored : IsStored allocated × (s.next_task_id < allocated.next_task_id)
  unfolding allocate_id
  allocated-IsStored = (
    record {
      held = r.0.held;
      fresh = λ id slot e. ground (arith, r.0.fresh id slot e);
      free = r.0.free;
    },
    ground arith,
  )

  allocated-index : allocated.index ≡ s.index
  unfolding allocate_id
  allocated-index = refl

  allocated-task : (j : ℕ) → task allocated j ≡ task s j
  unfolding allocate_id task
  allocated-task j = refl

  unused_task : task s s.next_task_id ≡ none
  unfolding task
  unused_task = ground (arith, unused)

  pub inserted-IsCurrent : IsCurrent (insert_task t allocated)
  unfolding state_of allocate_id
  inserted-IsCurrent =
      let (v, found) =
        insert_task_lem t allocated allocated-IsStored.0
          (ground (arith, unused, allocated-index, own))
          (ground (arith, own, allocated-IsStored.1)) in
      (
        v,
        λ j.
            ground (
              arith,
              found j,
              allocated-task j,
              r.1 j,
              unused_task,
              insert_task-current t allocated,
            ),
      )

set_idle-IsCurrent :
    (s : Scheduler) (o : Option ℕ) → IsCurrent s → IsCurrent (record s { idle = o })
unfolding state_of task
set_idle-IsCurrent s o r = r

-- A new task leaves the current task the one that runs, while ids are not exhausted.
pub spawn-IsCurrent :
    (kernel_stack : KernelStack) (name : String) (s : Scheduler)
    → IsCurrent s
    → s.next_task_id < 2 ^ 64 - 1
    → IsCurrent (spawn kernel_stack name s).1
unfolding spawn allocate_id new_task
spawn-IsCurrent kernel_stack name s r room = Keeps-IsCurrent (join-Keeps s.next_task_id _) (
    inserted-IsCurrent
      (record (new_task s.next_task_id kernel_stack name) { state = TaskState.ready }) s r refl refl
      room)

pub spawn_kernel_task-IsCurrent :
    (stack : KernelStack) (bootstrap_ip entry : ℕ) (name : String) (is_idle : Bool) (s : Scheduler)
    → IsCurrent s
    → s.next_task_id < 2 ^ 64 - 1
    → IsCurrent (spawn_kernel_task stack bootstrap_ip entry name is_idle s).1
unfolding spawn_kernel_task allocate_id new_task
spawn_kernel_task-IsCurrent stack bootstrap_ip entry name true s r room =
    set_idle-IsCurrent _ _ (inserted-IsCurrent _ s r refl refl room)
spawn_kernel_task-IsCurrent stack bootstrap_ip entry name false s r room =
    Keeps-IsCurrent (join-Keeps s.next_task_id _) (inserted-IsCurrent _ s r refl refl room)

-- A task that does not run can be taken out.
module _ (s : Scheduler) (r : IsCurrent s) (id : ℕ) (apart : same s.current (some id) ≡ false) where
  reaped-IsCurrent : (slot : ℕ) → index_get s.index id ≡ some slot → IsCurrent (reaped s id slot)
  unfolding state_of
  reaped-IsCurrent slot e =
      (reaped-IsStored s id slot r.0 e, λ j. ground (arith, task-reaped s id slot r.0 e j, r.1 j))

  reap-IsCurrent : IsCurrent (reap id s).1
  unfolding reap
  reap-IsCurrent = elim (Option-cases (index_get s.index id)) [
    | inl e ↦ rw (e) r
    | inr (slot, e) ↦
        let (t, h, own) = r.0.held id slot e in
        rw (e, h)
          (Keeps-IsCurrent (aside (reaped s id slot) _ refl refl refl refl refl refl)
            (reaped-IsCurrent slot e))
  ]

reap_first-IsCurrent :
    (queue : List ℕ) (s : Scheduler) → IsCurrent s → IsCurrent (reap_first queue s).1
unfolding reap_first
reap_first-IsCurrent [] s r = r
reap_first-IsCurrent (id ∷ rest) s r = elim (Bool-cases (same s.current (some id))) [
  | inl own ↦ rw (own) r
  | inr apart ↦ rw (apart) (
      reap-IsCurrent (record s { exit_queue = rest })
        (Keeps-IsCurrent (aside s _ refl refl refl refl refl refl) r) id apart)
]

-- Reaping leaves the current task the one that runs.
pub reap_one-IsCurrent : (s : Scheduler) → IsCurrent s → IsCurrent (reap_one s).1
unfolding reap_one
reap_one-IsCurrent s r = reap_first-IsCurrent s.exit_queue s r
