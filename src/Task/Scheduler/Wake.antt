-- ===== src/Task/Scheduler/Wake.antt =====
-- Waking: only blocked tasks become ready, so the tasks that run stay the same.
use Prim.Native.Nat.{ℕ, ◌+◌, zero, suc}
use saeos.Prelude.{
  true, not, ◌||◌, Option, some, List, [], ◌∷◌, ltb, ◌≡◌, refl, sym, ◌∙◌, ap, arith, Option-cases,
  Bool-cases, inl, inr, length,
}
use saeos.Task.Types.{TaskState, is_blocked, is_running}
use saeos.Task.Record.{Tcb}
use saeos.Task.WaitQueue.{WaitQueue, remove}
use saeos.Task.Scheduler.State.{Scheduler, task, modify, same, last_of, but_last}
use saeos.Task.Scheduler.Monad.{Result, ok, err, ret, follow}
use saeos.Task.Scheduler.Average.{make_ready, woken_task}
use saeos.Task.Scheduler.Wait.{
  wake_task, wake_first, wake_one, wake_loop, wake_expired, still_sleeping, cancel_wait,
}
use saeos.Task.Scheduler.Store.{modify-IsStored, task-modify}
use saeos.Task.Scheduler.Keeps.{state_of, Keeps-trans, aside, join-Keeps}
use saeos.Task.Scheduler.Runs.{Runs, IsCurrent, Keeps-IsCurrent}

pub is_blocked_lem : (state : TaskState) → is_blocked state ≡ true → state ≡ TaskState.blocked
is_blocked_lem TaskState.new e = cc
is_blocked_lem TaskState.ready e = cc
is_blocked_lem TaskState.running e = cc
is_blocked_lem TaskState.blocked e = refl
is_blocked_lem TaskState.exited e = cc

woken_quiet :
    (t : Tcb) → is_blocked t.state ≡ true → is_running (woken_task t).state ≡ is_running t.state
woken_quiet t e = rw (is_blocked_lem t.state e) refl

woken-current : (id : ℕ) (s : Scheduler) → (modify id woken_task s).current ≡ s.current
unfolding modify
woken-current id s = ground arith

woken-Runs :
    (id : ℕ) (s : Scheduler) (t : Tcb) (o : Option ℕ)
    → task s id ≡ some t
    → is_blocked t.state ≡ true
    → Runs s o
    → Runs (modify id woken_task s) o
unfolding state_of
woken-Runs id s t o e blocked r = (
  modify-IsStored woken_task (λ u. refl) s id r.0,
  λ j. ground (arith, task-modify woken_task (λ u. refl) s id j r.0, r.1 j, woken_quiet t blocked),
)

-- A blocked task becomes ready.
pub make_ready-IsCurrent :
    (id : ℕ) (s : Scheduler) (t : Tcb)
    → task s id ≡ some t
    → is_blocked t.state ≡ true
    → IsCurrent s
    → IsCurrent (make_ready id s)
unfolding make_ready
make_ready-IsCurrent id s t e blocked r =
    let (v, runs) = woken-Runs id s t s.current e blocked r in
    Keeps-IsCurrent
      (Keeps-trans (join-Keeps id (modify id woken_task s))
        (aside _ _ refl refl refl refl refl refl))
      (v, λ j. runs j ∙ ap (λ o. same o (some j)) (sym (woken-current id s)))

pub wake_task-IsCurrent : (id : ℕ) (s : Scheduler) → IsCurrent s → IsCurrent (wake_task id s).1
unfolding wake_task
wake_task-IsCurrent id s r = elim (Option-cases (task s id)) [
  | inl e ↦ rw (e) r
  | inr (t, e) ↦ elim (Bool-cases (is_blocked t.state)) [
    | inl blocked ↦ rw (e, blocked) (make_ready-IsCurrent id s t e blocked r)
    | inr other ↦ rw (e, other) r
  ]
]

-- A step that follows and leaves the state alone.
pub follow_kept :
    {A B : Type 0} (c : Result A × Scheduler) (b : B)
    → IsCurrent c.1
    → IsCurrent (follow c (λ a. ret b)).1
follow_kept (ok a, s) b r = r
follow_kept (err e, s) b r = r

wake_first-IsCurrent :
    (tasks : List ℕ) (q : WaitQueue) (s : Scheduler)
    → IsCurrent s
    → let (result, left, n) = wake_first tasks q s in IsCurrent n
unfolding wake_first
wake_first-IsCurrent [] q s r = r
wake_first-IsCurrent (id ∷ rest) q s r =
    follow_kept (wake_task id s) (some id) (wake_task-IsCurrent id s r)

-- Waking the first task of a queue, the same.
pub wake_one-IsCurrent :
    (q : WaitQueue) (s : Scheduler)
    → IsCurrent s
    → let (result, left, n) = wake_one q s in IsCurrent n
unfolding wake_one
wake_one-IsCurrent q s r = wake_first-IsCurrent q.tasks q s r

pub still_sleeping_lem :
    (s : Scheduler) (id deadline : ℕ)
    → still_sleeping s id deadline ≡ true
    → (t : Tcb) × (task s id ≡ some t) × (is_blocked t.state ≡ true)
unfolding still_sleeping
still_sleeping_lem s id deadline e = elim (Option-cases (task s id)) [
  | inl h ↦ ground arith
  | inr (t, h) ↦ (t, h, ground arith)
]

pub wake_loop-IsCurrent :
    (fuel now woken : ℕ) (s : Scheduler) → IsCurrent s → IsCurrent (wake_loop fuel now woken s).1
unfolding wake_loop
wake_loop-IsCurrent zero now woken s r = r
wake_loop-IsCurrent (suc fuel) now woken s r = elim (Option-cases (last_of s.sleepers)) [
  | inl e ↦ rw (e, wake_loop) r
  | inr ((deadline, id), e) ↦
      let popped : Scheduler = record s { sleepers = but_last s.sleepers } in
      let kept : IsCurrent popped =
        Keeps-IsCurrent (aside s popped refl refl refl refl refl refl) r in
      elim (Bool-cases (ltb now deadline)) [
        | inl early ↦ rw (e, early, wake_loop) r
        | inr due ↦ elim (Bool-cases (still_sleeping popped id deadline)) [
          | inl asleep ↦
              let (t, found, blocked) = still_sleeping_lem popped id deadline asleep in
              rw (e, due, asleep, wake_loop)
                (wake_loop-IsCurrent fuel now (woken + 1) _
                  (make_ready-IsCurrent id popped t found blocked kept))
          | inr stale ↦
              rw (e, due, stale, wake_loop) (wake_loop-IsCurrent fuel now woken popped kept)
        ]
      ]
]

-- Waking the sleepers that are due, the same.
pub wake_expired-IsCurrent :
    (now : ℕ) (s : Scheduler) → IsCurrent s → IsCurrent (wake_expired now s).1
unfolding wake_expired
wake_expired-IsCurrent now s r = wake_loop-IsCurrent (length s.sleepers) now 0 s r

-- `cancel_wait`, the same.
pub cancel_wait-IsCurrent :
    (id : ℕ) (q : WaitQueue) (s : Scheduler) → IsCurrent s → IsCurrent (cancel_wait id q s).1
unfolding cancel_wait
cancel_wait-IsCurrent id q s r = elim (Option-cases (task s id)) [
  | inl e ↦ rw (e) r
  | inr (t, e) ↦
      elim (Bool-cases (not (is_blocked t.state) || not (same t.wait_link (some q.id)))) [
        | inl refused ↦ rw (e, refused) r
        | inr fine ↦ elim (Bool-cases (remove q id).1) [
          | inl there ↦ rw (e, fine, there) (make_ready-IsCurrent id s t e (ground arith) r)
          | inr missing ↦ rw (e, fine, missing) r
        ]
      ]
]
