-- ===== src/Task/Scheduler/Store.antt =====
-- The store of tasks: every id in the index has its own occupied slot, and the free slots are empty.
use Prim.Native.Nat.{ℕ, ◌<◌, zero, suc}
use saeos.Prelude.{
  ◌&&◌, Option, none, some, List, [], ◌∷◌, ◌++◌, ltb, ◌==◌, ◌≡◌, refl, ◌≢◌, if◌then◌else◌, length,
  set, arith, Option-cases, Bool-cases, inl, inr, length-set,
}
use saeos.Task.Record.{Tcb}
use saeos.Task.Scheduler.State.{Scheduler, task, modify, index_get, index_remove, slot_task}

pub slot_task-set :
    (tasks : List (Option Tcb)) (k j : ℕ) (v : Option Tcb)
    → slot_task (set tasks k v) j
      ≡ (if k == j && ltb k (length tasks) then v else slot_task tasks j)
slot_task-set [] k j v = ground arith
slot_task-set (o ∷ os) zero zero v = ground arith
slot_task-set (o ∷ os) zero (suc j) v = ground arith
slot_task-set (o ∷ os) (suc k) zero v = ground arith
slot_task-set (o ∷ os) (suc k) (suc j) v = ground (arith, slot_task-set os k j v)

pub slot_task_bound :
    (tasks : List (Option Tcb)) (k : ℕ) (t : Tcb) → slot_task tasks k ≡ some t → k < length tasks
slot_task_bound [] k t e = cc
slot_task_bound (o ∷ os) zero t e = omega arith
slot_task_bound (o ∷ os) (suc k) t e = omega (arith, slot_task_bound os k t e)

pub slot_task-append :
    (tasks : List (Option Tcb)) (t : Tcb) (j : ℕ)
    → slot_task (tasks ++ some t ∷ []) j ≡ (if length tasks == j then some t else slot_task tasks j)
slot_task-append [] t zero = refl
slot_task-append [] t (suc j) = ground arith
slot_task-append (o ∷ os) t zero = ground arith
slot_task-append (o ∷ os) t (suc j) = ground (arith, slot_task-append os t j)

pub index_get-remove :
    (m : List (ℕ × ℕ)) (id j : ℕ)
    → index_get (index_remove m id) j ≡ (if id == j then none else index_get m j)
unfolding index_get index_remove
index_get-remove [] id j = ground arith
index_get-remove ((k, slot) ∷ rest) id j = ground (arith, index_get-remove rest id j)

-- No entry of the list is `k`.
abbrev pub Misses : ℕ → List ℕ → Type 0
Misses k [] = Unit {0}
Misses k (j ∷ js) = (k ≢ j) × Misses k js

-- The slots are empty, in range and distinct.
abbrev pub Free : List (Option Tcb) → List ℕ → Type 0
Free tasks [] = Unit {0}
Free tasks (k ∷ ks) = (slot_task tasks k ≡ none) × (k < length tasks) × Misses k ks × Free tasks ks

pub record IsStore (index : List (ℕ × ℕ)) (tasks : List (Option Tcb)) (free_slots : List ℕ)
    (next : ℕ) : Type 0 where
  pub held :
      (id slot : ℕ)
      → index_get index id ≡ some slot
      → (t : Tcb) × (slot_task tasks slot ≡ some t) × (t.task_id ≡ id)
  pub fresh : (id slot : ℕ) → index_get index id ≡ some slot → id < next
  pub free : Free tasks free_slots

abbrev pub IsStored : Scheduler → Type 0
IsStored s = IsStore s.index s.tasks s.free_slots s.next_task_id

-- Writing an occupied slot keeps the free ones.
pub Free-set :
    (tasks : List (Option Tcb)) (ks : List ℕ) (k : ℕ) (t u : Tcb)
    → slot_task tasks k ≡ some t
    → Free tasks ks
    → Free (set tasks k (some u)) ks
Free-set tasks [] k t u e f = tt
Free-set tasks (j ∷ ks) k t u e f = (
  ground (arith, slot_task-set tasks k j (some u)),
  ground (arith, length-set tasks k (some u)),
  f.2,
  Free-set tasks ks k t u e f.3,
)

abbrev pub map_task : (Tcb → Tcb) → Option Tcb → Option Tcb
map_task f none = none
map_task f (some t) = some (f t)

module _ (f : Tcb → Tcb) (keep : (t : Tcb) → (f t).task_id ≡ t.task_id) (s : Scheduler)
    (id : ℕ) where
  modify_missing : index_get s.index id ≡ none → modify id f s ≡ s
  unfolding modify
  modify_missing e = ground arith

  modify_found :
      (slot : ℕ) (t : Tcb)
      → index_get s.index id ≡ some slot
      → slot_task s.tasks slot ≡ some t
      → modify id f s ≡ record s { tasks = set s.tasks slot (some (f t)) }
  unfolding modify
  modify_found slot t e h = ground arith

  pub modify-IsStored : IsStored s → IsStored (modify id f s)
  modify-IsStored v = elim (Option-cases (index_get s.index id)) [
    | inl e ↦ rw (modify_missing e) v
    | inr (slot, e) ↦
        let (t, h, own) = v.held id slot e in
        rw (modify_found slot t e h) (record {
          held = λ j k g.
              let (u, hu, owned) = v.held j k g in
              elim (Bool-cases (slot == k)) [
                | inl hit ↦ (
                  f t,
                  ground (
                    arith,
                    slot_task-set s.tasks slot k (some (f t)),
                    slot_task_bound s.tasks slot t h,
                  ),
                  ground (arith, keep t),
                )
                | inr miss ↦ (u, ground (arith, slot_task-set s.tasks slot k (some (f t))), owned)
              ];
          fresh = v.fresh;
          free = Free-set s.tasks s.free_slots slot t (f t) h v.free;
        })
  ]

  -- The store behaves as a map from ids to tasks.
  pub task-modify :
      (j : ℕ)
      → IsStored s
      → task (modify id f s) j ≡ (if id == j then map_task f (task s j) else task s j)
  unfolding task
  task-modify j v = elim (Option-cases (index_get s.index id)) [
    | inl e ↦ rw (modify_missing e) (ground arith)
    | inr (slot, e) ↦
        let (t, h, own) = v.held id slot e in
        rw (modify_found slot t e h) (elim (Option-cases (index_get s.index j)) [
          | inl g ↦ ground arith
          | inr (k, g) ↦
              let (u, hu, owned) = v.held j k g in
              ground
                (arith, slot_task-set s.tasks slot k (some (f t)), slot_task_bound s.tasks slot t h)
        ])
  ]
