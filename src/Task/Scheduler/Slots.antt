-- ===== src/Task/Scheduler/Slots.antt =====
-- Slots are taken and given back: inserting and reaping tasks keeps the store in order.
use Prim.Native.Nat.{ℕ, ◌<◌}
use saeos.Prelude.{
  Option, none, some, List, [], ◌∷◌, ◌++◌, ◌==◌, ◌≡◌, refl, sym, ◌≢◌, if◌then◌else◌, length, set,
  arith, Option-cases, Bool-cases, inl, inr, length-set, length-append,
}
use saeos.Task.Record.{Tcb}
use saeos.Task.Scheduler.State.{
  Scheduler, task, index_get, index_remove, index_insert, slot_task, last_of, but_last, insert_task,
}
use saeos.Task.Scheduler.Store.{
  slot_task-set, slot_task_bound, slot_task-append, index_get-remove, Misses, Free, IsStored,
}

Misses-but_last : (k : ℕ) (ks : List ℕ) → Misses k ks → Misses k (but_last ks)
Misses-but_last k [] m = tt
Misses-but_last k (j ∷ []) m = tt
Misses-but_last k (j ∷ i ∷ is) m = (m.0, Misses-but_last k (i ∷ is) m.1)

last_missed : (k l : ℕ) (ks : List ℕ) → Misses k ks → last_of ks ≡ some l → k ≢ l
last_missed k l [] m e = cc
last_missed k l (j ∷ []) m e = ground arith
last_missed k l (j ∷ i ∷ is) m e = last_missed k l (i ∷ is) m.1 e

-- The last free slot is empty and in range, and the others are free without it.
last-Free :
    (tasks : List (Option Tcb)) (ks : List ℕ) (k : ℕ)
    → last_of ks ≡ some k
    → Free tasks ks
    → (slot_task tasks k ≡ none)
      × (k < length tasks)
      × Misses k (but_last ks)
      × Free tasks (but_last ks)
last-Free tasks [] k e f = cc
last-Free tasks (j ∷ []) k e f = ground arith
last-Free tasks (j ∷ i ∷ is) k e f =
    let (empty, bound, missed, rest) = last-Free tasks (i ∷ is) k e f.3 in
    let apart = last_missed j k (i ∷ is) f.2 e in
    (
      empty,
      bound,
      (λ same. apart (sym same), missed),
      (f.0, f.1, Misses-but_last j (i ∷ is) f.2, rest),
    )

Free-set_missed :
    (tasks : List (Option Tcb)) (ks : List ℕ) (k : ℕ) (o : Option Tcb)
    → Misses k ks
    → Free tasks ks
    → Free (set tasks k o) ks
Free-set_missed tasks [] k o m f = tt
Free-set_missed tasks (j ∷ ks) k o m f = (
  ground (arith, slot_task-set tasks k j o),
  ground (arith, length-set tasks k o),
  f.2,
  Free-set_missed tasks ks k o m.1 f.3,
)

Free-append :
    (tasks : List (Option Tcb)) (ks : List ℕ) (t : Tcb)
    → Free tasks ks
    → Free (tasks ++ some t ∷ []) ks
Free-append tasks [] t f = tt
Free-append tasks (j ∷ ks) t f = (
  ground (arith, slot_task-append tasks t j),
  omega (arith, length-append {0} tasks (some t ∷ [])),
  f.2,
  Free-append tasks ks t f.3,
)

slot_task-length : (tasks : List (Option Tcb)) → slot_task tasks (length tasks) ≡ none
slot_task-length [] = refl
slot_task-length (o ∷ os) = slot_task-length os

module _ (t : Tcb) (s : Scheduler) (v : IsStored s) (new : index_get s.index t.task_id ≡ none)
    (bound : t.task_id < s.next_task_id) where
  -- Both ways to find a slot: `tasks` is the new vector, with the task at `slot`.
  inserted_at :
      (slot : ℕ) (tasks : List (Option Tcb)) (ks : List ℕ)
      → ((k : ℕ) → slot_task tasks k ≡ (if slot == k then some t else slot_task s.tasks k))
      → slot_task s.tasks slot ≡ none
      → Free tasks ks
      → let n = record s {
        tasks = tasks;
        free_slots = ks;
        index = index_insert s.index t.task_id slot;
      } in
        IsStored n × ((j : ℕ) → task n j ≡ (if t.task_id == j then some t else task s j))
  unfolding index_get task
  inserted_at slot tasks ks at empty f = (
    record { held = λ j k g. held_after j k g; fresh = λ j k g. fresh_after j k g; free = f },
    λ j. found j,
  )
    where
      held_after :
          (j k : ℕ)
          → index_get (index_insert s.index t.task_id slot) j ≡ some k
          → (u : Tcb) × (slot_task tasks k ≡ some u) × (u.task_id ≡ j)
      held_after j k g = elim (Bool-cases (t.task_id == j)) [
        | inl own ↦ (t, ground (arith, at k), ground arith)
        | inr other ↦
            let (u, hu, owned) =
              v.held j k (ground (arith, index_get-remove s.index t.task_id j)) in
            (u, ground (arith, at k), owned)
      ]

      fresh_after :
          (j k : ℕ)
          → index_get (index_insert s.index t.task_id slot) j ≡ some k
          → j < s.next_task_id
      fresh_after j k g = ground (arith, index_get-remove s.index t.task_id j, v.fresh j k)

      found :
          (j : ℕ)
          → task
              (record s {
                tasks = tasks;
                free_slots = ks;
                index = index_insert s.index t.task_id slot;
              })
              j
            ≡ (if t.task_id == j then some t else task s j)
      found j = elim (Option-cases (index_get s.index j)) [
        | inl g ↦ ground (arith, index_get-remove s.index t.task_id j, at slot)
        | inr (k, g) ↦
            let (u, hu, owned) = v.held j k g in
            ground (arith, index_get-remove s.index t.task_id j, at slot, at k)
      ]

  free_slot :
      (slot : ℕ)
      → last_of s.free_slots ≡ some slot
      → IsStored (insert_task t s)
        × ((j : ℕ) → task (insert_task t s) j ≡ (if t.task_id == j then some t else task s j))
  unfolding insert_task
  free_slot slot e =
      let (empty, inside, missed, rest) = last-Free s.tasks s.free_slots slot e v.free in
      rw (e, insert_task)
        (inserted_at slot (set s.tasks slot (some t)) (but_last s.free_slots)
          (λ k. ground (arith, slot_task-set s.tasks slot k (some t))) empty
          (Free-set_missed s.tasks (but_last s.free_slots) slot (some t) missed rest))

  no_slot :
      last_of s.free_slots ≡ none
      → IsStored (insert_task t s)
        × ((j : ℕ) → task (insert_task t s) j ≡ (if t.task_id == j then some t else task s j))
  unfolding insert_task
  no_slot e =
      rw (e, insert_task)
        (inserted_at (length s.tasks) (s.tasks ++ some t ∷ []) s.free_slots
          (λ k. slot_task-append s.tasks t k) (slot_task-length s.tasks)
          (Free-append s.tasks s.free_slots t v.free))

  -- In a store in order, a task whose id is not in the index and is below the next id is stored under
  -- its id: the store stays in order, and no other task moves.
  pub insert_task_lem :
      IsStored (insert_task t s)
      × ((j : ℕ) → task (insert_task t s) j ≡ (if t.task_id == j then some t else task s j))
  insert_task_lem = elim (Option-cases (last_of s.free_slots)) [
    | inl e ↦ no_slot e
    | inr (slot, e) ↦ free_slot slot e
  ]

Misses-append : (k l : ℕ) (ks : List ℕ) → Misses k ks → k ≢ l → Misses k (ks ++ l ∷ [])
Misses-append k l [] m h = (h, tt)
Misses-append k l (j ∷ ks) m h = (m.0, Misses-append k l ks m.1 h)

Free-Free :
    (tasks : List (Option Tcb)) (ks : List ℕ) (k : ℕ) (t : Tcb)
    → slot_task tasks k ≡ some t
    → Free tasks ks
    → Free (set tasks k none) (ks ++ k ∷ [])
Free-Free tasks [] k t e f = (
  ground (arith, slot_task-set tasks k k none, slot_task_bound tasks k t e),
  omega (arith, length-set {0} tasks k none, slot_task_bound tasks k t e),
  tt,
  tt,
)
Free-Free tasks (j ∷ ks) k t e f =
    let apart : j ≢ k = λ same. ground arith in
    (
      ground (arith, slot_task-set tasks k j none),
      omega (arith, length-set {0} tasks k none),
      Misses-append j k ks f.2 apart,
      Free-Free tasks ks k t e f.3,
    )

-- What `reap_one` does to the store, for a task at `slot`.
abbrev pub reaped : Scheduler → ℕ → ℕ → Scheduler
reaped s id slot = record s {
  index = index_remove s.index id;
  tasks = set s.tasks slot none;
  free_slots = s.free_slots ++ slot ∷ [];
}

-- Reaping removes one task and gives its slot back.
module _ (s : Scheduler) (id slot : ℕ) (v : IsStored s) (e : index_get s.index id ≡ some slot) where
  pub reaped-IsStored : IsStored (reaped s id slot)
  reaped-IsStored =
      let (t, h, own) = v.held id slot e in
      record {
        held = λ j k g.
            let (u, hu, owned) = v.held j k (ground (arith, index_get-remove s.index id j)) in
            (
              u,
              ground (arith, slot_task-set s.tasks slot k none, index_get-remove s.index id j),
              owned,
            );
        fresh = λ j k g. ground (arith, index_get-remove s.index id j, v.fresh j k);
        free = Free-Free s.tasks s.free_slots slot t h v.free;
      }

  pub task-reaped : (j : ℕ) → task (reaped s id slot) j ≡ (if id == j then none else task s j)
  unfolding task
  task-reaped j = elim (Option-cases (index_get s.index j)) [
    | inl g ↦ ground (arith, index_get-remove s.index id j)
    | inr (k, g) ↦
        let (t, h, own) = v.held id slot e in
        let (u, hu, owned) = v.held j k g in
        ground (arith, index_get-remove s.index id j, slot_task-set s.tasks slot k none)
  ]
