-- ===== src/Task/Scheduler/Expire.antt =====
-- `wake_expired`: the sleepers that are due wake, and no other.
use Prim.Native.Nat.{ℕ, ◌+◌, ◌≤◌, zero, suc}
use saeos.Prelude.{
  Bool, true, false, ◌&&◌, ◌||◌, Option, ◌++◌, any, retain, append_nil, append_assoc, leb, ◌==◌,
  if◌then◌else◌, ap, some, List, [], ◌∷◌, ◌≡◌, refl, sym, ◌∙◌, subst, arith, Option-cases,
  Bool-cases, inl, inr, length, ltb,
}
use saeos.Task.Scheduler.State.{Scheduler, task, last_of, but_last}
use saeos.Task.Scheduler.Average.{make_ready}
use saeos.Task.Scheduler.Store.{IsStored}
use saeos.Task.Scheduler.Views.{
  View, view, awake, sleeps_in, still_sleeping-view, make_ready-IsStored, make_ready-view,
}
use saeos.Task.Scheduler.Wait.{wake_loop, wake_expired, still_sleeping}
use saeos.Task.Scheduler.Sleepers.{
  Descending, IsAfter, last_of-IsAfter, but_last-Descending, length-but_last, no_sleepers,
  last_of-none, make_ready-sleepers, make_ready-queue, any-last, retain-last,
}

-- Of sleepers that all wait for later none is due, and all stay.
module _ (now : ℕ) where
  IsAfter-retain : (xs : List (ℕ × ℕ)) → IsAfter now xs → retain (λ x. ltb now x.0) xs ≡ xs
  IsAfter-retain [] a = refl
  IsAfter-retain (x ∷ xs) a =
      let later : ltb now x.0 ≡ true = ground (arith, a.0) in
      simp (later, retain) (ap (λ l. x ∷ l) (IsAfter-retain xs a.1))

  -- The task is a sleeper whose deadline has come.
  abbrev pub due : Option View → ℕ → List (ℕ × ℕ) → Bool
  due v id sleepers = any (λ x. x.1 == id && (leb x.0 now && sleeps_in v x.0)) sleepers

  due-IsAfter :
      (v : Option View) (id : ℕ) (xs : List (ℕ × ℕ)) → IsAfter now xs → due v id xs ≡ false
  due-IsAfter v id [] a = refl
  due-IsAfter v id (x ∷ xs) a =
      let rest = due-IsAfter v id xs a.1 in
      let later : leb x.0 now ≡ false = ground (arith, a.0) in ground arith

  due-awake : (id : ℕ) (xs : List (ℕ × ℕ)) → due awake id xs ≡ false
  due-awake id [] = refl
  due-awake id (x ∷ xs) = let rest = due-awake id xs in ground arith

abbrev pub among : ℕ → List ℕ → Bool
among id ids = any (λ x. x == id) ids

-- No id stands twice in the list.
abbrev pub Distinct : List ℕ → Type 0
Distinct [] = Unit {0}
Distinct (id ∷ ids) = (among id ids ≡ false) × Distinct ids

-- The sleepers that are due, and no other task, are ready and at the end of the queue of those that wait to run, each
-- once; the sleepers that wait for later stay.
pub record Wakes (now : ℕ) (s n : Scheduler) (before woken : ℕ) : Type 0 where
  pub ids : List ℕ
  pub distinct : Distinct ids
  pub which : (id : ℕ) → among id ids ≡ due now (view s id) id s.sleepers
  pub count : woken ≡ before + length ids
  pub queue : n.run_queue ≡ s.run_queue ++ ids
  pub sleepers : n.sleepers ≡ retain (λ x. ltb now x.0) s.sleepers
  pub views :
      (id : ℕ) → view n id ≡ (if due now (view s id) id s.sleepers then awake else view s id)

no_due-Wakes :
    (now before : ℕ) (s : Scheduler) → IsAfter now s.sleepers → Wakes now s s before before
no_due-Wakes now before s a = record {
  ids = [];
  distinct = tt;
  which = λ id. sym (due-IsAfter now (view s id) id s.sleepers a);
  count = omega arith;
  queue = sym (append_nil s.run_queue);
  sleepers = sym (IsAfter-retain now s.sleepers a);
  views = λ id. let none_due = due-IsAfter now (view s id) id s.sleepers a in simp none_due refl;
}

-- The last sleeper is due by its deadline, but its task is not asleep for that any more.
stale-Wakes :
    (now before woken deadline id : ℕ) (s n : Scheduler)
    → last_of s.sleepers ≡ some (deadline, id)
    → ltb now deadline ≡ false
    → still_sleeping (record s { sleepers = but_last s.sleepers }) id deadline ≡ false
    → Wakes now (record s { sleepers = but_last s.sleepers }) n before woken
    → Wakes now s n before woken
unfolding view task
stale-Wakes now before woken deadline id s n e past stale w =
    let popped : Scheduler = record s { sleepers = but_last s.sleepers } in
    let quiet : sleeps_in (view popped id) deadline ≡ false =
      sym (still_sleeping-view popped id deadline) ∙ stale in
    let same : (j : ℕ)
        → due now (view s j) j s.sleepers ≡ due now (view popped j) j (but_last s.sleepers) =
      λ j.
        any-last (λ x. x.1 == j && (leb x.0 now && sleeps_in (view s j) x.0)) s.sleepers
          (deadline, id) e
        ∙ elim (Bool-cases (id == j)) [
          | inr other ↦ ground arith
          | inl here ↦
              let own : id ≡ j = ground arith in
              let quiet_j : sleeps_in (view s j) deadline ≡ false =
                ap (λ x. sleeps_in (view popped x) deadline) (sym own) ∙ quiet in
              ground arith
        ] in
    record {
      ids = w.ids;
      distinct = w.distinct;
      which = λ j. w.which j ∙ sym (same j);
      count = w.count;
      queue = w.queue;
      sleepers = w.sleepers ∙ sym (retain-last (λ x. ltb now x.0) s.sleepers (deadline, id) e past);
      views = λ j. w.views j ∙ ap (λ t. if t then awake else view s j) (sym (same j));
    }

-- The last sleeper is due, and its task wakes.
woken-Wakes :
    (now before woken deadline id : ℕ) (s n : Scheduler)
    → IsStored s
    → last_of s.sleepers ≡ some (deadline, id)
    → ltb now deadline ≡ false
    → still_sleeping (record s { sleepers = but_last s.sleepers }) id deadline ≡ true
    → Wakes now (make_ready id (record s { sleepers = but_last s.sleepers })) n (before + 1) woken
    → Wakes now s n before woken
unfolding view task
woken-Wakes now before woken deadline id s n v e past asleep w =
    let popped : Scheduler = record s { sleepers = but_last s.sleepers } in
    let s1 = make_ready id popped in
    let sleeps : sleeps_in (view popped id) deadline ≡ true =
      sym (still_sleeping-view popped id deadline) ∙ asleep in
    let left : s1.sleepers ≡ but_last s.sleepers = make_ready-sleepers id popped in
    let last : (j : ℕ)
        → due now (view s j) j s.sleepers ≡ (
            due now (view s j) j (but_last s.sleepers)
            || (id == j && (leb deadline now && sleeps_in (view s j) deadline))) =
      λ j.
        any-last (λ x. x.1 == j && (leb x.0 now && sleeps_in (view s j) x.0)) s.sleepers
          (deadline, id) e in
    let seen : (j : ℕ) → view s1 j ≡ (if id == j then awake else view s j) =
      λ j. make_ready-view id j deadline popped v asleep in
    let due_own : (j : ℕ) → id ≡ j → due now (view s j) j s.sleepers ≡ true = λ j own.
      let sleeps_j : sleeps_in (view s j) deadline ≡ true =
        ap (λ x. sleeps_in (view popped x) deadline) (sym own) ∙ sleeps in
      let l = last j in ground arith in
    let done_own : (j : ℕ) → id ≡ j → due now (view s1 j) j s1.sleepers ≡ false = λ j own.
      let here : (id == j) ≡ true = ground arith in
      let up : view s1 j ≡ awake = seen j ∙ simp here refl in
      ap (λ x. due now x j s1.sleepers) up ∙ due-awake now j s1.sleepers in
    let same : (j : ℕ)
        → (id == j) ≡ false
        → due now (view s1 j) j s1.sleepers ≡ due now (view s j) j s.sleepers =
      λ j other.
        let up : view s1 j ≡ view s j = seen j ∙ simp other refl in
        let l = last j in
        ap (λ x. due now x j s1.sleepers) up
        ∙ ap (λ xs. due now (view s j) j xs) left
        ∙ ground arith in
    record {
      ids = id ∷ w.ids;
      distinct = (w.which id ∙ done_own id refl, w.distinct);
      which = λ j. elim (Bool-cases (id == j)) [
        | inl here ↦ let d = due_own j (ground arith) in ground arith
        | inr other ↦ let d = w.which j ∙ same j other in ground arith
      ];
      count = omega (arith, w.count);
      queue =
          w.queue
          ∙ ap (λ q. q ++ w.ids) (make_ready-queue id deadline popped v asleep)
          ∙ append_assoc s.run_queue (id ∷ []) w.ids;
      sleepers =
          w.sleepers
          ∙ ap (retain (λ x. ltb now x.0)) left
          ∙ sym (retain-last (λ x. ltb now x.0) s.sleepers (deadline, id) e past);
      views = λ j. w.views j ∙ elim (Bool-cases (id == j)) [
        | inl here ↦
            let own : id ≡ j = ground arith in
            let up : view s1 j ≡ awake = seen j ∙ simp here refl in
            ap (λ t. if t then awake else view s1 j) (done_own j own)
            ∙ up
            ∙ sym (ap (λ t. if t then awake else view s j) (due_own j own))
        | inr other ↦
            let up : view s1 j ≡ view s j = seen j ∙ simp other refl in
            ap (λ t. if t then awake else view s1 j) (same j other)
            ∙ ap (λ x. if due now (view s j) j s.sleepers then awake else x) up
      ];
    }

wake_loop-Wakes :
    (fuel now before : ℕ) (s : Scheduler)
    → length s.sleepers ≤ fuel
    → Descending s.sleepers
    → IsStored s
    → Wakes now s (wake_loop fuel now before s).1 before (wake_loop fuel now before s).0
unfolding wake_loop
wake_loop-Wakes zero now before s h d v = no_due-Wakes now before s (no_sleepers s.sleepers now h)
wake_loop-Wakes (suc fuel) now before s h d v = elim (Option-cases (last_of s.sleepers)) [
  | inl e ↦ rw (e, wake_loop) (no_due-Wakes now before s (last_of-none s.sleepers now e))
  | inr ((deadline, id), e) ↦
      let popped : Scheduler = record s { sleepers = but_last s.sleepers } in
      let less = length-but_last s.sleepers (deadline, id) e in
      let sorted = but_last-Descending s.sleepers d in
      elim (Bool-cases (ltb now deadline)) [
        | inl early ↦
            rw (e, early, wake_loop)
              (no_due-Wakes now before s
                (last_of-IsAfter now deadline id s.sleepers e (ground arith) d))
        | inr past ↦ elim (Bool-cases (still_sleeping popped id deadline)) [
          | inl asleep ↦
              let kept = make_ready-sleepers id popped in
              rw (e, past, asleep, wake_loop)
                (woken-Wakes now before _ deadline id s _ v e past asleep (
                  wake_loop-Wakes fuel now (before + 1) (make_ready id popped)
                    (subst (λ xs. length xs ≤ fuel) (sym kept) (omega arith))
                    (subst Descending (sym kept) sorted) (make_ready-IsStored id popped v)))
          | inr stale ↦
              rw (e, past, stale, wake_loop)
                (stale-Wakes now before _ deadline id s _ e past stale
                  (wake_loop-Wakes fuel now before popped (omega arith) sorted v))
        ]
      ]
]

-- Where the sleepers stand by falling deadline in a store in order, `wake_expired` makes exactly those tasks ready that
-- are blocked until a deadline of theirs that has come: they enter the queue of those that wait to run, each once and
-- no other task, and the answer is their number. No other task changes its state or what it waits for, and exactly
-- the sleepers whose deadline lies after `now` stay, in their order.
pub wake_expired-Wakes :
    (now : ℕ) (s : Scheduler)
    → Descending s.sleepers
    → IsStored s
    → Wakes now s (wake_expired now s).1 0 (wake_expired now s).0
unfolding wake_expired
wake_expired-Wakes now s d v = wake_loop-Wakes (length s.sleepers) now 0 s (omega arith) d v
