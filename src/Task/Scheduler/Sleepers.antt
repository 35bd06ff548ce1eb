-- ===== src/Task/Scheduler/Sleepers.antt =====
-- The list of sleepers, and what `make_ready` does to it and to the queue of those that wait to run.
use Prim.Native.Nat.{ℕ, ◌+◌, ◌≤◌, ◌<◌}
use saeos.Prelude.{
  Bool, true, false, ◌||◌, any, retain, ap, Bool-cases, inl, inr, true, ◌++◌, ◌==◌, ap, none, some,
  List, [], ◌∷◌, ◌≡◌, refl, ◌∙◌, arith, Option-cases, inl, inr, length,
}
use saeos.Task.Entity.{EevdfEntity}
use saeos.Task.Scheduler.State.{Scheduler, task, modify, last_of, but_last}
use saeos.Task.Scheduler.Average.{
  woken_task, make_ready, join, join_placed, flag_preempt, enqueue, refresh_average, add_sums,
  set_entity,
}
use saeos.Task.Scheduler.Store.{IsStored, map_task, task-modify}
use saeos.Task.Scheduler.Wake.{still_sleeping_lem}
use saeos.Task.Record.{Tcb}
use saeos.Task.Scheduler.Wait.{still_sleeping}

-- Deadlines fall along the list, so the earliest is last.
abbrev pub Descending : List (ℕ × ℕ) → Type 0
Descending [] = Unit {0}
Descending (x ∷ []) = Unit {0}
Descending (x ∷ y ∷ ys) = (y.0 ≤ x.0) × Descending (y ∷ ys)

-- All deadlines lie after `now`.
abbrev pub IsAfter : ℕ → List (ℕ × ℕ) → Type 0
IsAfter now [] = Unit {0}
IsAfter now (x ∷ xs) = (now < x.0) × IsAfter now xs

pub last_of-IsAfter :
    (now deadline id : ℕ) (xs : List (ℕ × ℕ))
    → last_of xs ≡ some (deadline, id)
    → now < deadline
    → Descending xs
    → IsAfter now xs
last_of-IsAfter now deadline id [] e h d = tt
last_of-IsAfter now deadline id (x ∷ []) e h d = (ground arith, tt)
last_of-IsAfter now deadline id (x ∷ y ∷ ys) e h d =
    let (first, rest) = last_of-IsAfter now deadline id (y ∷ ys) e h d.1 in
    (omega (arith, d.0), (first, rest))

pub but_last-Descending : (xs : List (ℕ × ℕ)) → Descending xs → Descending (but_last xs)
but_last-Descending [] d = tt
but_last-Descending (x ∷ []) d = tt
but_last-Descending (x ∷ y ∷ []) d = tt
but_last-Descending (x ∷ y ∷ z ∷ zs) d = (d.0, but_last-Descending (y ∷ z ∷ zs) d.1)

pub length-but_last :
    (xs : List (ℕ × ℕ)) (x : ℕ × ℕ) → last_of xs ≡ some x → length (but_last xs) + 1 ≡ length xs
length-but_last [] x e = cc
length-but_last (y ∷ []) x e = omega arith
length-but_last (y ∷ z ∷ zs) x e = omega (arith, length-but_last (z ∷ zs) x e)

last_of-some : (z : ℕ × ℕ) (zs : List (ℕ × ℕ)) → (w : ℕ × ℕ) × (last_of (z ∷ zs) ≡ some w)
last_of-some z [] = (z, refl)
last_of-some z (w ∷ ws) = last_of-some w ws

pub no_sleepers : (xs : List (ℕ × ℕ)) (now : ℕ) → length xs ≤ 0 → IsAfter now xs
no_sleepers [] now h = tt
no_sleepers (x ∷ xs) now h = ground arith

pub last_of-none : (xs : List (ℕ × ℕ)) (now : ℕ) → last_of xs ≡ none → IsAfter now xs
last_of-none [] now e = tt
last_of-none (y ∷ []) now e = cc
last_of-none (y ∷ z ∷ zs) now e = let (w, h) = last_of-some z zs in ground arith

pub any-last :
    (p : ℕ × ℕ → Bool) (xs : List (ℕ × ℕ)) (x : ℕ × ℕ)
    → last_of xs ≡ some x
    → any p xs ≡ (any p (but_last xs) || p x)
any-last p [] x e = absurd cc
any-last p (y ∷ []) x e = let same : y ≡ x = cc in let h = ap p same in ground arith
any-last p (y ∷ z ∷ zs) x e = let rest = any-last p (z ∷ zs) x e in ground arith

pub retain-last :
    (p : ℕ × ℕ → Bool) (xs : List (ℕ × ℕ)) (x : ℕ × ℕ)
    → last_of xs ≡ some x
    → p x ≡ false
    → retain p xs ≡ retain p (but_last xs)
retain-last p [] x e out = refl
retain-last p (y ∷ []) x e out =
    let same : y ≡ x = cc in let h : p y ≡ false = ap p same ∙ out in simp (h, retain) refl
retain-last p (y ∷ z ∷ zs) x e out =
    let rest = retain-last p (z ∷ zs) x e out in
    elim (Bool-cases (p y)) [
      | inl kept ↦ simp (kept, retain) (ap (λ l. y ∷ l) rest)
      | inr gone ↦ simp (gone, retain) rest
    ]

modify-sleepers : (id : ℕ) (f : _) (s : Scheduler) → (modify id f s).sleepers ≡ s.sleepers
unfolding modify
modify-sleepers id f s = ground arith

flag_preempt-sleepers : (e : EevdfEntity) (s : Scheduler) → (flag_preempt e s).sleepers ≡ s.sleepers
unfolding flag_preempt
flag_preempt-sleepers e s = ground arith

refresh_average-sleepers : (s : Scheduler) → (refresh_average s).sleepers ≡ s.sleepers
unfolding refresh_average
refresh_average-sleepers s = ground arith

join_placed-sleepers :
    (id : ℕ) (e : EevdfEntity) (s : Scheduler) → (join_placed id e s).sleepers ≡ s.sleepers
unfolding join_placed enqueue add_sums set_entity
join_placed-sleepers id e s =
    flag_preempt-sleepers e _ ∙ refresh_average-sleepers _ ∙ modify-sleepers id _ s

join-sleepers : (id : ℕ) (s : Scheduler) → (join id s).sleepers ≡ s.sleepers
unfolding join
join-sleepers id s = elim (Option-cases (task s id)) [
  | inl e ↦ rw (e, join) refl
  | inr (t, e) ↦ rw (e, join) (join_placed-sleepers id _ s)
]

pub make_ready-sleepers : (id : ℕ) (s : Scheduler) → (make_ready id s).sleepers ≡ s.sleepers
unfolding make_ready
make_ready-sleepers id s = join-sleepers id _ ∙ modify-sleepers id _ s

modify-queue : (id : ℕ) (f : _) (s : Scheduler) → (modify id f s).run_queue ≡ s.run_queue
unfolding modify
modify-queue id f s = ground arith

flag_preempt-queue : (e : EevdfEntity) (s : Scheduler) → (flag_preempt e s).run_queue ≡ s.run_queue
unfolding flag_preempt
flag_preempt-queue e s = ground arith

refresh_average-queue : (s : Scheduler) → (refresh_average s).run_queue ≡ s.run_queue
unfolding refresh_average
refresh_average-queue s = ground arith

-- A task that joins enters the queue at its end.
join_placed-queue :
    (id : ℕ) (e : EevdfEntity) (s : Scheduler)
    → (join_placed id e s).run_queue ≡ s.run_queue ++ id ∷ []
unfolding join_placed enqueue add_sums set_entity
join_placed-queue id e s =
    flag_preempt-queue e _
    ∙ ap (λ q. q ++ id ∷ [])
        (refresh_average-queue _ ∙ modify-queue id (λ u. record u { entity = e }) s)

join-queue :
    (id : ℕ) (t : Tcb) (s : Scheduler)
    → task s id ≡ some t
    → (join id s).run_queue ≡ s.run_queue ++ id ∷ []
unfolding join
join-queue id t s e = rw (e, join) (join_placed-queue id _ s)

pub make_ready-queue :
    (id deadline : ℕ) (s : Scheduler)
    → IsStored s
    → still_sleeping s id deadline ≡ true
    → (make_ready id s).run_queue ≡ s.run_queue ++ id ∷ []
unfolding make_ready
make_ready-queue id deadline s v e =
    let (t, found, blocked) = still_sleeping_lem s id deadline e in
    let here : (id == id) ≡ true = ground arith in
    let there : task (modify id woken_task s) id ≡ some (woken_task t) =
      task-modify woken_task (λ u. refl) s id id v ∙ simp here (ap (map_task woken_task) found) in
    join-queue id (woken_task t) (modify id woken_task s) there
    ∙ ap (λ q. q ++ id ∷ []) (modify-queue id woken_task s)
