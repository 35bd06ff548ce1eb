-- ===== src/Task/Scheduler/Runs.antt =====
-- Which task runs: the steps of dispatching, and that the current task is the one that is running.
use Prim.Native.Nat.{ℕ}
use saeos.Prelude.{
  Bool, true, false, Option, none, some, ◌==◌, ◌≡◌, refl, sym, ◌∙◌, ap, if◌then◌else◌, arith,
  Option-cases, Bool-cases, inl, inr, ◌⊎◌,
}
use saeos.Task.Types.{TaskState, can_transition, is_running}
use saeos.Task.Record.{Tcb, SchedulerError}
use saeos.Task.Scheduler.State.{Scheduler, task, modify, same}
use saeos.Task.Scheduler.Monad.{ok, err}
use saeos.Task.Scheduler.Pick.{pick_next, take_candidate, is_empty}
use saeos.Task.Scheduler.Ops.{change_state}
use saeos.Task.Scheduler.Store.{IsStored, modify-IsStored, task-modify}
use saeos.Task.Scheduler.Keeps.{state_of, Keeps, Keeps-refl, aside}

abbrev pub runs_in : Option TaskState → Bool
runs_in none = false
runs_in (some state) = is_running state

-- The store is in order, and the tasks that run are the one named, if any.
abbrev pub Runs : Scheduler → Option ℕ → Type 0
Runs s o = IsStored s × ((id : ℕ) → runs_in (state_of s id) ≡ same o (some id))

-- The current task is the one that runs.
abbrev pub IsCurrent : Scheduler → Type 0
IsCurrent s = Runs s s.current

pub Keeps-Runs : {s n : Scheduler} (o : Option ℕ) → Keeps s n → Runs s o → Runs n o
Keeps-Runs o k r = (k.stored r.0, λ id. ap runs_in (k.states r.0 id) ∙ r.1 id)

pub Keeps-IsCurrent : {s n : Scheduler} → Keeps s n → IsCurrent s → IsCurrent n
Keeps-IsCurrent {s} {n} k r = (
  k.stored r.0,
  λ id. ap runs_in (k.states r.0 id) ∙ r.1 id ∙ ap (λ o. same o (some id)) (sym k.current_kept),
)

abbrev pub in_state : TaskState → Tcb → Tcb
in_state next t = record t { state = next }

-- The two ways `change_state` ends.
abbrev pub Changed : ℕ → TaskState → Scheduler → Type 0
Changed id next s =
    (t : Tcb) × (task s id ≡ some t)
    × (can_transition t.state next ≡ true)
    × (change_state id next s ≡ (ok tt, modify id (in_state next) s))

pub change_state_cases :
    (id : ℕ) (next : TaskState) (s : Scheduler)
    → ((e : SchedulerError) × (change_state id next s ≡ (err e, s))) ⊎ Changed id next s
unfolding change_state
change_state_cases id next s = elim (Option-cases (task s id)) [
  | inl e ↦ inl (SchedulerError.unknown_task, ground arith)
  | inr (t, e) ↦ elim (Bool-cases (can_transition t.state next)) [
    | inl can ↦ inr (t, e, can, ground arith)
    | inr cannot ↦ inl (SchedulerError.invalid_transition, ground arith)
  ]
]

module _ (s : Scheduler) (id : ℕ) (next : TaskState) where
  pub in_state-current : (modify id (in_state next) s).current ≡ s.current
  unfolding modify
  in_state-current = ground arith

  pub in_state-state :
      (t : Tcb)
      → IsStored s
      → task s id ≡ some t
      → (j : ℕ)
      → state_of (modify id (in_state next) s) j ≡ (if id == j then some next else state_of s j)
  unfolding state_of
  in_state-state t v e j = ground (arith, task-modify (in_state next) (λ u. refl) s id j v)

  pub in_state-task :
      (t : Tcb)
      → IsStored s
      → task s id ≡ some t
      → task (modify id (in_state next) s) id ≡ some (in_state next t)
  in_state-task t v e = ground (arith, task-modify (in_state next) (λ u. refl) s id id v)

  -- A task that starts to run is the one that runs.
  pub starts :
      (t : Tcb)
      → task s id ≡ some t
      → next ≡ TaskState.running
      → Runs s none
      → Runs (modify id (in_state next) s) (some id)
  starts t e is r = (
    modify-IsStored (in_state next) (λ u. refl) s id r.0,
    λ j. ground (arith, in_state-state t r.0 e j, r.1 j),
  )

  -- A task that stops leaves none that runs.
  pub stops :
      (t : Tcb)
      → task s id ≡ some t
      → is_running next ≡ false
      → Runs s (some id)
      → Runs (modify id (in_state next) s) none
  stops t e is r = (
    modify-IsStored (in_state next) (λ u. refl) s id r.0,
    λ j. ground (arith, in_state-state t r.0 e j, r.1 j),
  )

is_running_lem : (state : TaskState) → is_running state ≡ true → state ≡ TaskState.running
is_running_lem TaskState.new e = cc
is_running_lem TaskState.ready e = cc
is_running_lem TaskState.running e = refl
is_running_lem TaskState.blocked e = cc
is_running_lem TaskState.exited e = cc

same_refl : (id : ℕ) → same (some id) (some id) ≡ true
same_refl id = ground arith

-- The task that runs is there and may stop.
module _ (s : Scheduler) (id : ℕ) (r : Runs s (some id)) where
  pub running_task : (t : Tcb) × (task s id ≡ some t) × (t.state ≡ TaskState.running)
  unfolding state_of
  running_task = elim (Option-cases (task s id)) [
    | inl e ↦ ground (arith, r.1 id, same_refl id)
    | inr (t, e) ↦ (t, e, is_running_lem t.state (ground (arith, r.1 id, same_refl id)))
  ]

  pub stop_running :
      (next : TaskState)
      → can_transition TaskState.running next ≡ true
      → change_state id next s ≡ (ok tt, modify id (in_state next) s)
  unfolding change_state
  stop_running next can =
      let (t, e, is) = running_task in
      let may : can_transition t.state next ≡ true = ap (λ x. can_transition x next) is ∙ can in
      ground arith

take_candidate-Keeps : (s : Scheduler) → (o : _) → Keeps s (take_candidate o s).1
unfolding take_candidate
take_candidate-Keeps s none = Keeps-refl s
take_candidate-Keeps s (some c) = aside s _ refl refl refl refl refl refl

pub pick_next-Keeps : (s : Scheduler) → Keeps s (pick_next s).1
unfolding pick_next
pick_next-Keeps s = elim (Bool-cases (is_empty s.run_queue)) [
  | inl e ↦ rw (e) (Keeps-refl s)
  | inr e ↦ rw (e) (take_candidate-Keeps s _)
]
