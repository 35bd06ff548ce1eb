-- ===== src/Task/Scheduler/Pick.antt =====
-- kernel/src/task/scheduler.rs: which task runs next.
use Prim.Native.Nat.{ℕ, ◌+◌}
use saeos.Prelude.{
  Bool, true, false, not, ◌&&◌, ◌||◌, Option, none, some, List, [], ◌∷◌, ltb, if◌then◌else◌,
  get_elem?, set,
}
use saeos.Prelude.Int.{ℤ, pos, ltb_ℤ, leb_ℤ}
use saeos.Task.Entity.{EevdfEntity, is_eligible}
use saeos.Task.Scheduler.State.{Scheduler, PolicyKind, task, last_of, but_last}

-- The key of an entry of the run queue: a time, then the task id; tuples compare by the first
-- component that differs.
pub record Key : Type 0 where
  pub time : ℤ
  pub id : ℕ

unfoldable pub less : Key → Key → Bool
less a b = ltb_ℤ a.time b.time || leb_ℤ a.time b.time && ltb a.id b.id

pub record Candidate : Type 0 where
  pub index : ℕ
  pub key : Key

unfoldable pub policy_key : PolicyKind → EevdfEntity → ℕ → Key
policy_key PolicyKind.eevdf e id = record { time = e.virtual_deadline; id = id }
policy_key PolicyKind.fifo e id = record { time = pos e.enqueue_time; id = id }
policy_key PolicyKind.round_robin e id = record { time = pos e.enqueue_time; id = id }

abbrev pub is_eevdf : PolicyKind → Bool
is_eevdf PolicyKind.eevdf = true
is_eevdf PolicyKind.fifo = false
is_eevdf PolicyKind.round_robin = false

abbrev pub may_run : Scheduler → EevdfEntity → Bool
may_run s e = not (is_eevdf s.policy) || is_eligible e s.average

-- `if test && best.is_none_or(|(_, best_key)| key < best_key) { best = Some((index, key)) }`
unfoldable pub improve : Bool → Option Candidate → ℕ → Key → Option Candidate
improve false best index key = best
improve true none index key = some (record { index = index; key = key })
improve true (some c) index key =
    if less key c.key then some (record { index = index; key = key }) else some c

-- The loop of `Scheduler::pick_next`, from `index` on, with `best` and `fallback` so far.
unfoldable pub pick_loop :
    Scheduler
    → ℕ
    → Option Candidate
    → Option Candidate
    → List ℕ
    → Option Candidate × Option Candidate
pick_loop s index best fallback [] = (best, fallback)
pick_loop s index best fallback (id ∷ rest) = elim (task s id) [
  | none ↦ pick_loop s (index + 1) best fallback rest
  | some t ↦
      pick_loop s (index + 1)
        (improve (may_run s t.entity) best index (policy_key s.policy t.entity id))
        (improve true fallback index (record { time = t.entity.virtual_runtime; id = id })) rest
]

abbrev pub or_else {ℓ} : {A : Type ℓ} → Option A → Option A → Option A
or_else none b = b
or_else (some a) b = some a

-- `Vec::swap_remove`, at an index within the length.
abbrev pub swap_remove : ℕ → List ℕ → List ℕ
swap_remove index xs = elim (last_of xs) [ none ↦ [] | some last ↦ but_last (set xs index last) ]

-- Remove the entry that the loop found.
unfoldable pub take_candidate : Option Candidate → Scheduler → Option ℕ × Scheduler
take_candidate none s = (none, s)
take_candidate (some c) s =
    (get_elem? s.run_queue c.index, record s { run_queue = swap_remove c.index s.run_queue })

abbrev pub is_empty {ℓ} : {A : Type ℓ} → List A → Bool
is_empty [] = true
is_empty (x ∷ xs) = false

-- `Scheduler::pick_next`.
unfoldable pub pick_next : Scheduler → Option ℕ × Scheduler
pick_next s =
    if is_empty s.run_queue
    then (s.idle, s)
    else (let (best, fallback) = pick_loop s 0 none none s.run_queue in
        take_candidate (or_else best fallback) s)
