-- ===== src/Task/Scheduler/Keeps.antt =====
-- Steps that change neither the state of a task nor which task runs: charging, joining, leaving.
use Prim.Native.Nat.{ℕ}
use saeos.Prelude.{
  Option, none, some, ◌≡◌, refl, ◌∙◌, ap, arith, Option-cases, Bool-cases, inl, inr,
}
use saeos.Prelude.Int.{ℤ}
use saeos.Task.Types.{TaskState}
use saeos.Task.Record.{Tcb}
use saeos.Task.Entity.{EevdfEntity}
use saeos.Task.Scheduler.State.{Scheduler, task, modify}
use saeos.Task.Scheduler.Average.{
  refresh_average, join, join_placed, leave, leave_entity, charge, charge_task, add_sums, sub_sums,
  enqueue, flag_preempt, set_entity, stamp,
}
use saeos.Task.Scheduler.Store.{IsStored, map_task, modify-IsStored, task-modify}

abbrev pub state_in : Option Tcb → Option TaskState
state_in none = none
state_in (some t) = some t.state

-- The state of a task, if there is one.
unfoldable pub state_of : Scheduler → ℕ → Option TaskState
state_of s id = state_in (task s id)

-- The store stays in order, every task keeps its state, and the same task is current.
pub record Keeps (s n : Scheduler) : Type 0 where
  pub stored : IsStored s → IsStored n
  pub states : IsStored s → (id : ℕ) → state_of n id ≡ state_of s id
  pub current_kept : n.current ≡ s.current
  pub idle_kept : n.idle ≡ s.idle
  pub next_kept : n.next_task_id ≡ s.next_task_id

pub Keeps-trans : {s m n : Scheduler} → Keeps s m → Keeps m n → Keeps s n
Keeps-trans a b = record {
  stored = λ v. b.stored (a.stored v);
  states = λ v id. b.states (a.stored v) id ∙ a.states v id;
  current_kept = b.current_kept ∙ a.current_kept;
  idle_kept = b.idle_kept ∙ a.idle_kept;
  next_kept = b.next_kept ∙ a.next_kept;
}

pub Keeps-refl : (s : Scheduler) → Keeps s s
Keeps-refl s = record {
  stored = λ v. v;
  states = λ v id. refl;
  current_kept = refl;
  idle_kept = refl;
  next_kept = refl;
}

modify_fields :
    (f : Tcb → Tcb) (s : Scheduler) (id : ℕ)
    → ((modify id f s).current ≡ s.current)
      × ((modify id f s).idle ≡ s.idle)
      × ((modify id f s).next_task_id ≡ s.next_task_id)
unfolding modify
modify_fields f s id = ground arith

-- A change of one task that keeps its id and its state.
pub modify-Keeps :
    (f : Tcb → Tcb) (s : Scheduler) (id : ℕ)
    → ((t : Tcb) → (f t).task_id ≡ t.task_id)
    → ((t : Tcb) → (f t).state ≡ t.state)
    → Keeps s (modify id f s)
unfolding state_of
modify-Keeps f s id same_id same_state = record {
  stored = λ v. modify-IsStored f same_id s id v;
  states = λ v j. after j v;
  current_kept = (modify_fields f s id).0;
  idle_kept = (modify_fields f s id).1;
  next_kept = (modify_fields f s id).2;
}
  where
    map_state : (o : Option Tcb) → state_in (map_task f o) ≡ state_in o
    map_state none = refl
    map_state (some t) = ap some (same_state t)

    after : (j : ℕ) → IsStored s → state_in (task (modify id f s) j) ≡ state_in (task s j)
    after j v = ground (arith, task-modify f same_id s id j v, map_state (task s j))

-- A step that leaves the store and the current task alone.
pub aside :
    (s n : Scheduler)
    → n.tasks ≡ s.tasks
    → n.index ≡ s.index
    → n.free_slots ≡ s.free_slots
    → n.next_task_id ≡ s.next_task_id
    → n.current ≡ s.current
    → n.idle ≡ s.idle
    → Keeps s n
unfolding state_of task
aside s n e f g h k l = record {
  stored = λ v. rw (e, f, g, h) v;
  states = λ v id. ground arith;
  current_kept = k;
  idle_kept = l;
  next_kept = h;
}

pub refresh_average-Keeps : (s : Scheduler) → Keeps s (refresh_average s)
unfolding refresh_average
refresh_average-Keeps s =
    aside s _ (ground arith) (ground arith) (ground arith) (ground arith) (ground arith)
      (ground arith)

-- The rules for the steps that `join`, `leave` and `charge` are made of.
module _ (s : Scheduler) where
  add_sums-Keeps : (w r : ℤ) → Keeps s (add_sums w r s)
  unfolding add_sums
  add_sums-Keeps w r = aside s _ refl refl refl refl refl refl

  sub_sums-Keeps : (w r : ℤ) → Keeps s (sub_sums w r s)
  unfolding sub_sums
  sub_sums-Keeps w r = aside s _ refl refl refl refl refl refl

  pub enqueue-Keeps : (id : ℕ) → Keeps s (enqueue id s)
  unfolding enqueue
  enqueue-Keeps id = aside s _ refl refl refl refl refl refl

  flag_preempt-Keeps : (e : EevdfEntity) → Keeps s (flag_preempt e s)
  unfolding flag_preempt
  flag_preempt-Keeps e =
      aside s _ (ground arith) (ground arith) (ground arith) (ground arith) (ground arith)
        (ground arith)

  set_entity-Keeps : (id : ℕ) (e : EevdfEntity) → Keeps s (set_entity id e s)
  unfolding set_entity
  set_entity-Keeps id e = modify-Keeps (λ u. record u { entity = e }) s id (λ u. refl) (λ u. refl)

  stamp-Keeps : (id now : ℕ) → Keeps s (stamp id now s)
  unfolding stamp
  stamp-Keeps id now =
      modify-Keeps (λ u. record u { dispatched_at = now }) s id (λ u. refl) (λ u. refl)

join_placed-Keeps : (id : ℕ) (e : EevdfEntity) (s : Scheduler) → Keeps s (join_placed id e s)
unfolding join_placed
join_placed-Keeps id e s = Keeps-trans (set_entity-Keeps s id e) (
    Keeps-trans (add_sums-Keeps _ _ _) (
      Keeps-trans (refresh_average-Keeps _)
        (Keeps-trans (enqueue-Keeps _ id) (flag_preempt-Keeps _ e))))

pub join-Keeps : (id : ℕ) (s : Scheduler) → Keeps s (join id s)
join-Keeps id s = elim (Option-cases (task s id)) [
  | inl e ↦ unfold join in rw (e, join) (Keeps-refl s)
  | inr (t, e) ↦ unfold join in rw (e, join) (join_placed-Keeps id _ s)
]

leave_entity-Keeps : (id : ℕ) (e : EevdfEntity) (s : Scheduler) → Keeps s (leave_entity id e s)
unfolding leave_entity
leave_entity-Keeps id e s =
    Keeps-trans (set_entity-Keeps s id _)
      (Keeps-trans (sub_sums-Keeps _ _ _) (refresh_average-Keeps _))

pub leave-Keeps : (id : ℕ) (s : Scheduler) → Keeps s (leave id s)
unfolding leave
leave-Keeps id s = elim (Option-cases (task s id)) [
  | inl e ↦ rw (e, leave) (Keeps-refl s)
  | inr (t, e) ↦ rw (e, leave) (leave_entity-Keeps id t.entity s)
]

charge_task-Keeps :
    (id : ℕ) (t : Tcb) (now : ℕ) (s : Scheduler) → Keeps s (charge_task id t now s).1
unfolding charge_task
charge_task-Keeps id t now s = elim (Bool-cases t.is_idle) [
  | inl idle ↦ simp idle (stamp-Keeps s id now)
  | inr busy ↦ simp busy (
      Keeps-trans (stamp-Keeps s id now) (
        Keeps-trans (set_entity-Keeps _ id _)
          (Keeps-trans (add_sums-Keeps _ _ _) (refresh_average-Keeps _))))
]

pub charge-Keeps : (id now : ℕ) (s : Scheduler) → Keeps s (charge id now s).1
unfolding charge
charge-Keeps id now s = elim (Option-cases (task s id)) [
  | inl e ↦ rw (e, charge) (Keeps-refl s)
  | inr (t, e) ↦ rw (e, charge) (charge_task-Keeps id t now s)
]
