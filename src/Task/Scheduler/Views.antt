-- ===== src/Task/Scheduler/Views.antt =====
-- What others see of a waiting task: its state, why it is blocked, and the queue that it waits in. Joining the runnable
-- set leaves that alone, and `make_ready` changes it for one task.
use Prim.Native.Nat.{ℕ}
use saeos.Prelude.{
  Bool, true, false, ◌&&◌, Option, none, some, ◌==◌, if◌then◌else◌, ◌≡◌, refl, sym, ◌∙◌, ap, arith,
  Option-cases, Bool-cases, inl, inr,
}
use saeos.Prelude.Int.{ℤ}
use saeos.Task.Types.{TaskState, BlockReason, is_blocked}
use saeos.Task.Record.{Tcb}
use saeos.Task.Entity.{EevdfEntity}
use saeos.Task.Scheduler.State.{Scheduler, task, modify}
use saeos.Task.Scheduler.Average.{
  refresh_average, join, join_placed, add_sums, enqueue, flag_preempt, set_entity, make_ready,
  woken_task, placed,
}
use saeos.Task.Scheduler.Wait.{still_sleeping, sleeps_until}
use saeos.Task.Scheduler.Store.{IsStored, map_task, modify-IsStored, task-modify}
use saeos.Task.Scheduler.Keeps.{join-Keeps}
use saeos.Task.Scheduler.Wake.{is_blocked_lem}

abbrev pub View : Type 0
View = TaskState × Option BlockReason × Option ℕ

abbrev pub view_in : Option Tcb → Option View
view_in none = none
view_in (some t) = some (t.state, t.block_reason, t.wait_link)

unfoldable pub view : Scheduler → ℕ → Option View
view s id = view_in (task s id)

-- Ready, and waiting for nothing.
abbrev pub awake : Option View
awake = some (TaskState.ready, none, none)

-- The store is the same.
record SameStore (s n : Scheduler) : Type 0 where
  tasks : n.tasks ≡ s.tasks
  index : n.index ≡ s.index

SameStore-view : (s n : Scheduler) (id : ℕ) → SameStore s n → view n id ≡ view s id
unfolding view task
SameStore-view s n id e = rw (e.tasks, e.index) refl

-- What a join does after it stored the entity.
after_entity-SameStore :
    (id : ℕ) (e : EevdfEntity) (w r : ℤ) (s : Scheduler)
    → SameStore s (flag_preempt e (enqueue id (refresh_average (add_sums w r s))))
unfolding flag_preempt enqueue refresh_average add_sums
after_entity-SameStore id e w r s = record { tasks = ground arith; index = ground arith }

modify-view :
    (f : Tcb → Tcb) (s : Scheduler) (id j : ℕ)
    → ((t : Tcb) → (f t).task_id ≡ t.task_id)
    → ((t : Tcb) → view_in (some (f t)) ≡ view_in (some t))
    → IsStored s
    → view (modify id f s) j ≡ view s j
unfolding view
modify-view f s id j own same v =
    ap view_in (task-modify f own s id j v) ∙ unchanged (id == j) (task s j)
  where
    unchanged : (b : Bool) (o : Option Tcb) → view_in (if b then map_task f o else o) ≡ view_in o
    unchanged true none = refl
    unchanged true (some t) = same t
    unchanged false o = refl

pub join-view : (id j : ℕ) (s : Scheduler) → IsStored s → view (join id s) j ≡ view s j
join-view id j s v = elim (Option-cases (task s id)) [
  | inl e ↦ unfold join in rw (e, join) refl
  | inr (t, e) ↦
      unfold join join_placed set_entity in
      let p = placed s.average s.sum_weight s.clock t.entity in
      rw (e, join)
        (SameStore-view _ _ j (after_entity-SameStore id p _ _ _)
          ∙ modify-view (λ u. record u { entity = p }) s id j (λ u. refl) (λ u. refl) v)
]

-- Only blocked tasks sleep.
abbrev pub sleeps_in : Option View → ℕ → Bool
sleeps_in none deadline = false
sleeps_in (some (state, reason, link)) deadline = is_blocked state && sleeps_until reason deadline

pub still_sleeping-view :
    (s : Scheduler) (id deadline : ℕ)
    → still_sleeping s id deadline ≡ sleeps_in (view s id) deadline
unfolding still_sleeping view
still_sleeping-view s id deadline = elim (Option-cases (task s id)) [
  | inl e ↦ rw (e, still_sleeping) refl
  | inr (t, e) ↦ rw (e, still_sleeping) refl
]

pub make_ready-IsStored : (id : ℕ) (s : Scheduler) → IsStored s → IsStored (make_ready id s)
unfolding make_ready
make_ready-IsStored id s v =
    (join-Keeps id _).stored (modify-IsStored woken_task (λ u. refl) s id v)

woken_view :
    (t : Tcb) (deadline : ℕ)
    → sleeps_in (view_in (some t)) deadline ≡ true
    → view_in (some (woken_task t)) ≡ awake
woken_view t deadline e = rw (is_blocked_lem t.state (ground arith)) refl

woken_some :
    (o : Option Tcb) (deadline : ℕ)
    → sleeps_in (view_in o) deadline ≡ true
    → view_in (map_task woken_task o) ≡ awake
woken_some none deadline e = absurd (ground arith)
woken_some (some t) deadline e = woken_view t deadline e

-- A sleeper that is made ready is awake, and all other tasks are as they were.
pub make_ready-view :
    (id j deadline : ℕ) (s : Scheduler)
    → IsStored s
    → still_sleeping s id deadline ≡ true
    → view (make_ready id s) j ≡ (if id == j then awake else view s j)
unfolding make_ready view task
make_ready-view id j deadline s v e =
    let m = modify-IsStored woken_task (λ u. refl) s id v in
    let kept = join-view id j (modify id woken_task s) m in
    kept ∙ ap view_in (task-modify woken_task (λ u. refl) s id j v) ∙ elim (Bool-cases (id == j)) [
      | inr other ↦ simp other refl
      | inl here ↦
          let same : id ≡ j = ground arith in
          simp here (
            woken_some (task s j) deadline (
              sym (still_sleeping-view s j deadline)
              ∙ ap (λ x. still_sleeping s x deadline) (sym same)
              ∙ e))
    ]
