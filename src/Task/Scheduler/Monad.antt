-- ===== src/Task/Scheduler/Monad.antt =====
-- Methods of the scheduler that return a `Result`: the scheduler is passed on, also beside an error.
use saeos.Prelude.{Bool, true, false, Option, none, some}
use saeos.Task.Record.{SchedulerError}
use saeos.Task.Scheduler.State.{Scheduler}

pub data Result {ℓ} (A : Type ℓ) : Type ℓ where
  ok : A → Result A
  err : SchedulerError → Result A

abbrev pub M : Type 0 → Type 0
M A = Scheduler → Result A × Scheduler

abbrev pub ret : {A : Type 0} → A → M A
ret a s = (ok a, s)

abbrev pub fail : {A : Type 0} → SchedulerError → M A
fail e s = (err e, s)

abbrev pub follow : {A B : Type 0} → Result A × Scheduler → (A → M B) → Result B × Scheduler
follow (ok a, s) f = f a s
follow (err e, s) f = (err e, s)

infixl 5 ◌>>=◌ ◌>>◌
abbrev pub ◌>>=◌ : {A B : Type 0} → M A → (A → M B) → M B
◌>>=◌ c f s = follow (c s) f

abbrev pub ◌>>◌ : {B : Type 0} → M (Unit {0}) → M B → M B
c >> k = c >>= λ _. k

abbrev pub fail_if : Bool → SchedulerError → M (Unit {0})
fail_if true e = fail e
fail_if false e = ret tt

abbrev pub ok_or : {A : Type 0} → Option A → SchedulerError → M A
ok_or none e = fail e
ok_or (some a) e = ret a

abbrev pub get : M Scheduler
get s = (ok s, s)

abbrev pub update : (Scheduler → Scheduler) → M (Unit {0})
update f s = (ok tt, f s)
