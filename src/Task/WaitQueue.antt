-- ===== src/Task/WaitQueue.antt =====
-- kernel/src/task/wait_queue.rs: tasks that wait, the longest first.
use Prim.Native.Nat.{ℕ}
use saeos.Prelude.{Bool, true, false, none, some, List, position, remove_at, ◌==◌}

pub record WaitQueue : Type 0 where
  pub id : ℕ
  pub tasks : List ℕ

-- `WaitQueue::remove`.
unfoldable pub remove : WaitQueue → ℕ → WaitQueue × Bool
remove q task = elim (position (λ queued. queued == task) q.tasks) [
  | none ↦ (q, false)
  | some index ↦ (record q { tasks = remove_at index q.tasks }, true)
]
