-- ===== src/Task/Scheduler/Reach.antt =====
-- The steps of the scheduler's life, and what holds in every state that they reach.
use Prim.Native.Nat.{ℕ, ◌-◌, ◌<◌, ◌^◌}
use Prim.Native.String.{String}
use saeos.Prelude.{
  Bool, Option, none, some, ◌≡◌, refl, sym, ◌∙◌, ap, subst, arith, Option-cases, Bool-cases, inl,
  inr,
}
use saeos.Prelude.Int.{ℤ}
use saeos.Task.Types.{BlockReason, TaskState, ResumeKind, ExitStatus, KernelStack, is_terminal}
use saeos.Task.Record.{Tcb, SchedulerError}
use saeos.Task.WaitQueue.{WaitQueue}
use saeos.Task.Scheduler.State.{Scheduler, PolicyKind, with_policy, task, same}
use saeos.Task.Scheduler.Monad.{Result, ok, err}
use saeos.Task.Scheduler.Average.{is_in_runnable_set}
use saeos.Task.Scheduler.Ops.{schedule, tick, tick_idle, tick_running, tick_current}
use saeos.Task.Scheduler.Calls.{
  spawn, spawn_kernel_task, set_address_space, set_nice, preempt, prepare_voluntary_yield,
  exit_current, reap_one, reweigh, reniced, finish_yield, yield_from,
}
use saeos.Task.Scheduler.Wait.{
  sleep_current_until, block_current, wake_expired, wake_task, wake_one, wake_all, cancel_wait,
}
use saeos.Task.Scheduler.Keeps.{
  Keeps, Keeps-trans, Keeps-refl, modify-Keeps, aside, charge-Keeps, refresh_average-Keeps,
}
use saeos.Task.Scheduler.Runs.{IsCurrent, Keeps-IsCurrent, running_task}
use saeos.Task.Scheduler.Dispatch.{schedule-IsCurrent, set_clock-Keeps}
use saeos.Task.Scheduler.Drain.{Outcome, final}

pub set_address_space-Keeps :
    (id : ℕ) (address_space : Option ℕ) (s : Scheduler)
    → Keeps s (set_address_space id address_space s).1
unfolding set_address_space
set_address_space-Keeps id address_space s = elim (Option-cases (task s id)) [
  | inl e ↦ rw (e) (Keeps-refl s)
  | inr (t, e) ↦ elim (Bool-cases (is_terminal t.state)) [
    | inl over ↦ rw (e, over) (Keeps-refl s)
    | inr live ↦
        rw (e, live)
          (modify-Keeps (λ u. record u { address_space = address_space }) s id (λ u. refl)
            (λ u. refl))
  ]
]

tick_idle-Keeps : (s : Scheduler) → Keeps s (tick_idle s).1
unfolding tick_idle
tick_idle-Keeps s = aside s _ refl refl refl refl refl refl

tick_running-Keeps : (current now : ℕ) (s : Scheduler) → Keeps s (tick_running current now s).1
unfolding tick_running
tick_running-Keeps current now s =
    Keeps-trans (charge-Keeps current now s) (aside _ _ refl refl refl refl refl refl)

tick_current-Keeps : (o : Option ℕ) (now : ℕ) (s : Scheduler) → Keeps s (tick_current o now s).1
unfolding tick_current
tick_current-Keeps none now s = tick_idle-Keeps s
tick_current-Keeps (some current) now s = elim (Bool-cases (same (some current) s.idle)) [
  | inl idle ↦ rw (idle, tick_current) (tick_idle-Keeps s)
  | inr busy ↦ rw (busy, tick_current) (tick_running-Keeps current now s)
]

pub tick-Keeps : (now : ℕ) (s : Scheduler) → Keeps s (tick now s).1
unfolding tick
tick-Keeps now s = Keeps-trans (set_clock-Keeps s now) (tick_current-Keeps s.current now _)

reweigh-Keeps : (old new runtime : ℤ) (s : Scheduler) → Keeps s (reweigh old new runtime s)
reweigh-Keeps old new runtime s =
    Keeps-trans (aside s _ refl refl refl refl refl refl) (refresh_average-Keeps _)

pub set_nice-Keeps : (id : ℕ) (nice : ℤ) (s : Scheduler) → Keeps s (set_nice id nice s).1
unfolding set_nice
set_nice-Keeps id nice s = elim (Option-cases (task s id)) [
  | inl e ↦ rw (e) (Keeps-refl s)
  | inr (t, e) ↦ elim (Bool-cases (is_terminal t.state)) [
    | inl over ↦ rw (e, over) (Keeps-refl s)
    | inr live ↦
        let f : Tcb → Tcb = λ u. record u { entity = reniced nice t.entity } in
        let kept = modify-Keeps f s id (λ u. refl) (λ u. refl) in
        elim (Bool-cases (is_in_runnable_set s id)) [
          | inl member ↦ rw (e, live, member) (Keeps-trans kept (reweigh-Keeps _ _ _ _))
          | inr other ↦ rw (e, live, other) kept
        ]
  ]
]

finish_yield-IsCurrent :
    (current : ℕ) (c : Result (Option ℕ) × Scheduler)
    → IsCurrent c.1
    → IsCurrent (finish_yield current c).1
unfolding finish_yield
finish_yield-IsCurrent current (err e, s) r = r
finish_yield-IsCurrent current (ok none, s) r = r
finish_yield-IsCurrent current (ok (some next), s) r =
    Keeps-IsCurrent (aside s _ refl refl refl refl refl refl) r

yield_from-IsCurrent :
    (current now : ℕ) (s : Scheduler) → IsCurrent s → IsCurrent (yield_from current now s).1
unfolding yield_from
yield_from-IsCurrent current now s r = finish_yield-IsCurrent current _ (
    schedule-IsCurrent now _ (
      Keeps-IsCurrent
        (modify-Keeps (λ u. record u { resume_kind = ResumeKind.voluntary }) s current (λ u. refl)
          (λ u. refl))
        r))

pub prepare_voluntary_yield-IsCurrent :
    (now : ℕ) (s : Scheduler) → IsCurrent s → IsCurrent (prepare_voluntary_yield now s).1
unfolding prepare_voluntary_yield
prepare_voluntary_yield-IsCurrent now s r = elim (Option-cases s.current) [
  | inl e ↦ subst (λ c. IsCurrent c.1) (sym (refused e)) r
  | inr (current, e) ↦
      let (t, found, is) =
        running_task s current (r.0, λ id. r.1 id ∙ ap (λ o. same o (some id)) e) in
      let kept = yield_from-IsCurrent current now s r in
      subst (λ c. IsCurrent c.1) (sym (yields current t e found is)) kept
]
  where
    refused :
        s.current ≡ none → prepare_voluntary_yield now s ≡ (err SchedulerError.unknown_task, s)
    refused e = ground arith

    yields :
        (current : ℕ) (t : Tcb)
        → s.current ≡ some current
        → task s current ≡ some t
        → t.state ≡ TaskState.running
        → prepare_voluntary_yield now s ≡ yield_from current now s
    yields current t e found is = ground (arith, e, found, is)

-- The states that a scheduler of the policy reaches by calls, whatever they return.
pub data Reached (policy : PolicyKind) : Scheduler → Type 0 where
  created : Reached policy (with_policy policy)
  spawned :
      {s : Scheduler} (stack : KernelStack) (name : String)
      → s.next_task_id < 2 ^ 64 - 1
      → Reached policy s
      → Reached policy (spawn stack name s).1
  kernel_spawned :
      {s : Scheduler} (stack : KernelStack) (ip entry : ℕ) (name : String) (is_idle : Bool)
      → s.next_task_id < 2 ^ 64 - 1
      → Reached policy s
      → Reached policy (spawn_kernel_task stack ip entry name is_idle s).1
  placed_in :
      {s : Scheduler} (id : ℕ) (space : Option ℕ)
      → Reached policy s
      → Reached policy (set_address_space id space s).1
  niced :
      {s : Scheduler} (id : ℕ) (nice : ℤ) → Reached policy s → Reached policy (set_nice id nice s).1
  ticked : {s : Scheduler} (now : ℕ) → Reached policy s → Reached policy (tick now s).1
  scheduled : {s : Scheduler} (now : ℕ) → Reached policy s → Reached policy (schedule now s).1
  preempted :
      {s : Scheduler} (frame now : ℕ) → Reached policy s → Reached policy (preempt frame now s).1
  yielded :
      {s : Scheduler} (now : ℕ)
      → Reached policy s
      → Reached policy (prepare_voluntary_yield now s).1
  slept :
      {s : Scheduler} (deadline now : ℕ)
      → Reached policy s
      → Reached policy (sleep_current_until deadline now s).1
  expired : {s : Scheduler} (now : ℕ) → Reached policy s → Reached policy (wake_expired now s).1
  blocked_in :
      {s : Scheduler} (reason : BlockReason) (q : WaitQueue) (now : ℕ)
      → Reached policy s
      → Reached policy (block_current reason q now s).2
  woken : {s : Scheduler} (id : ℕ) → Reached policy s → Reached policy (wake_task id s).1
  woken_one : {s : Scheduler} (q : WaitQueue) → Reached policy s → Reached policy (wake_one q s).2
  woken_all :
      {s : Scheduler} (q : WaitQueue) (out : Outcome)
      → wake_all q s ≡ some out
      → Reached policy s
      → Reached policy (final out)
  cancelled :
      {s : Scheduler} (id : ℕ) (q : WaitQueue)
      → Reached policy s
      → Reached policy (cancel_wait id q s).1
  exited :
      {s : Scheduler} (status : ExitStatus) (now : ℕ)
      → Reached policy s
      → Reached policy (exit_current status now s).1
  reaped_one : {s : Scheduler} → Reached policy s → Reached policy (reap_one s).1
