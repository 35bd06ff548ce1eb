-- ===== src/Task/Scheduler/State.antt =====
-- kernel/src/task/scheduler.rs: the state, and its store of tasks: slots, free slots and the index by
-- task id, a `BTreeMap` modelled by its association list.
use Prim.Native.Nat.{ℕ, ◌+◌}
use Prim.Native.String.{String}
use saeos.Prelude.{
  Bool, true, false, not, ◌&&◌, Option, none, some, List, [], ◌∷◌, ◌++◌, ltb, ◌==◌, if◌then◌else◌,
  length, get_elem?, set, find, is_some,
}
pub use saeos.Prelude.{last_of, but_last}
use saeos.Prelude.Words.{saturating_add}
use saeos.Prelude.Int.{ℤ, pos}
use saeos.Task.Record.{Tcb, SchedulerStats}

pub data PolicyKind : Type 0 where
  eevdf fifo round_robin : PolicyKind

pub record Scheduler : Type 0 where
  pub tasks : List (Option Tcb)
  pub free_slots : List ℕ
  pub index : List (ℕ × ℕ)
  pub run_queue : List ℕ
  pub exit_queue : List ℕ
  pub next_task_id : ℕ
  pub current : Option ℕ
  pub idle : Option ℕ
  pub sleepers : List (ℕ × ℕ)
  pub sum_weight : ℤ
  pub sum_weighted_runtime : ℤ
  pub average : ℤ
  pub wakeup_preempt : Bool
  pub clock : ℕ
  pub policy : PolicyKind
  pub stats : SchedulerStats

-- `Scheduler::with_policy`; `Scheduler::new` is this at `eevdf`.
unfoldable pub with_policy : PolicyKind → Scheduler
with_policy policy = record {
  tasks = [];
  free_slots = [];
  index = [];
  run_queue = [];
  exit_queue = [];
  next_task_id = 1;
  current = none;
  idle = none;
  sleepers = [];
  sum_weight = pos 0;
  sum_weighted_runtime = pos 0;
  average = pos 0;
  wakeup_preempt = false;
  clock = 0;
  policy = policy;
  stats = record {
    context_switches = 0;
    timer_preemptions = 0;
    voluntary_yields = 0;
    tasks_woken = 0;
    tasks_reaped = 0;
    idle_ticks = 0;
  };
}

abbrev pub same : Option ℕ → Option ℕ → Bool
same none none = true
same none (some b) = false
same (some a) none = false
same (some a) (some b) = a == b

-- `BTreeMap::get`, `insert` and `remove`.
unfoldable pub index_get : List (ℕ × ℕ) → ℕ → Option ℕ
index_get [] id = none
index_get ((j, slot) ∷ rest) id = if j == id then some slot else index_get rest id

unfoldable pub index_remove : List (ℕ × ℕ) → ℕ → List (ℕ × ℕ)
index_remove [] id = []
index_remove ((j, slot) ∷ rest) id =
    let others = index_remove rest id in if j == id then others else (j, slot) ∷ others

abbrev pub index_insert : List (ℕ × ℕ) → ℕ → ℕ → List (ℕ × ℕ)
index_insert m id slot = (id, slot) ∷ index_remove m id

abbrev pub slot_task : List (Option Tcb) → ℕ → Option Tcb
slot_task tasks slot = elim (get_elem? tasks slot) [ none ↦ none | some held ↦ held ]

-- `Scheduler::task`. An index out of range would panic; `IsStored` rules it out.
unfoldable pub task : Scheduler → ℕ → Option Tcb
task s id = elim (index_get s.index id) [ none ↦ none | some slot ↦ slot_task s.tasks slot ]

-- A write through `Scheduler::task_mut`; nothing happens where that is `None`.
unfoldable pub modify : ℕ → (Tcb → Tcb) → Scheduler → Scheduler
modify id f s = elim (index_get s.index id) [
  | none ↦ s
  | some slot ↦ elim (slot_task s.tasks slot) [
    | none ↦ s
    | some t ↦ record s { tasks = set s.tasks slot (some (f t)) }
  ]
]

-- `Scheduler::allocate_id`.
unfoldable pub allocate_id : Scheduler → ℕ × Scheduler
allocate_id s = (s.next_task_id, record s { next_task_id = saturating_add s.next_task_id 1 })

-- `Scheduler::insert_task`; capacities are not modelled.
unfoldable pub insert_task : Tcb → Scheduler → Scheduler
insert_task t s = elim (last_of s.free_slots) [
  | some slot ↦ record s {
    free_slots = but_last s.free_slots;
    tasks = set s.tasks slot (some t);
    index = index_insert s.index t.task_id slot;
  }
  | none ↦ record s {
    tasks = s.tasks ++ some t ∷ [];
    index = index_insert s.index t.task_id (length s.tasks);
  }
]

-- `iter().flatten()` over the slots.
abbrev pub flatten {ℓ} : {A : Type ℓ} → List (Option A) → List A
flatten [] = []
flatten (none ∷ os) = flatten os
flatten (some a ∷ os) = a ∷ flatten os

-- `Scheduler::task_on_stack`.
unfoldable pub task_on_stack : Scheduler → ℕ → Option (ℕ × String)
task_on_stack s base = elim (find (λ t. t.kernel_stack.base == base) (flatten s.tasks)) [
  | none ↦ none
  | some t ↦ some (t.task_id, t.name)
]

-- `Scheduler::runnable_count`.
unfoldable pub runnable_count : Scheduler → ℕ
runnable_count s =
    length s.run_queue + (if is_some s.current && not (same s.current s.idle) then 1 else 0)

-- `Scheduler::has_exited_tasks`.
abbrev pub has_exited_tasks : Scheduler → Bool
has_exited_tasks s = ltb 0 (length s.exit_queue)
