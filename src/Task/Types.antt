-- ===== src/Task/Types.antt =====
-- kernel/src/task/types.rs: task states, contexts and how a task ended.
use Prim.Native.Nat.{ℕ}
use saeos.Prelude.{Bool, true, false, Option, none, some, if◌then◌else◌}
use saeos.Prelude.Int.{ℤ, pos, ◌-ℤ◌, ltb_ℤ}

-- `TaskId`, `ProcessId`, `AddressSpaceId`, `Tick` and `Nanos` are numbers, `VirtualTime` an integer.
-- `ExitStatus`: an exit code, or when negative the signal that killed the task.
abbrev pub ExitStatus : Type 0
ExitStatus = ℤ

pub killed : ℤ → ExitStatus
killed signal = pos 0 -ℤ signal

pub signal : ExitStatus → Option ℤ
signal status = if ltb_ℤ status (pos 0) then some (pos 0 -ℤ status) else none

pub data BlockReason : Type 0 where
  sleep_until wait_queue waiting_for_io waiting_for_child : ℕ → BlockReason

pub data TaskState : Type 0 where
  new ready running blocked exited : TaskState

pub data ResumeKind : Type 0 where
  voluntary interrupt : ResumeKind

pub record VoluntaryContext : Type 0 where
  pub stack_pointer : ℕ
  pub instruction_pointer : ℕ
  pub rbx : ℕ
  pub rbp : ℕ
  pub r12 : ℕ
  pub r13 : ℕ
  pub r14 : ℕ
  pub r15 : ℕ
  pub rflags : ℕ

-- `VoluntaryContext::ZERO`.
abbrev pub zero_context : VoluntaryContext
zero_context = record {
  stack_pointer = 0;
  instruction_pointer = 0;
  rbx = 0;
  rbp = 0;
  r12 = 0;
  r13 = 0;
  r14 = 0;
  r15 = 0;
  rflags = 2;
}

pub data ResumeContext : Type 0 where
  voluntary_context : VoluntaryContext → ResumeContext
  interrupt_frame : ℕ → ResumeContext

pub record DispatchDecision : Type 0 where
  pub task_id : ℕ
  pub resume_context : ResumeContext
  pub address_space : Option ℕ

pub record KernelStack : Type 0 where
  pub base : ℕ
  pub top : ℕ

abbrev pub is_runnable : TaskState → Bool
is_runnable TaskState.ready = true
is_runnable TaskState.running = true
is_runnable _ = false

abbrev pub is_terminal : TaskState → Bool
is_terminal TaskState.exited = true
is_terminal _ = false

abbrev pub is_running : TaskState → Bool
is_running TaskState.running = true
is_running _ = false

abbrev pub is_blocked : TaskState → Bool
is_blocked TaskState.blocked = true
is_blocked _ = false

abbrev pub can_transition : TaskState → TaskState → Bool
can_transition TaskState.new TaskState.ready = true
can_transition TaskState.ready TaskState.running = true
can_transition TaskState.running TaskState.ready = true
can_transition TaskState.running TaskState.blocked = true
can_transition TaskState.running TaskState.exited = true
can_transition TaskState.blocked TaskState.ready = true
can_transition _ _ = false
