-- ===== src/Task/Record.antt =====
-- kernel/src/task/record.rs: the task control block, without the fields that the scheduler only hands
-- on (the stack's storage, the entry function, the FPU registers and the FS base).
use Prim.Native.Nat.{ℕ}
use Prim.Native.String.{String}
use saeos.Prelude.{Bool, false, Option, none, some, if◌then◌else◌}
use saeos.Prelude.Int.{ℤ}
use saeos.Task.Types.{
  BlockReason, TaskState, ResumeKind, VoluntaryContext, zero_context, KernelStack, ExitStatus,
  can_transition,
}
use saeos.Task.Entity.{EevdfEntity, default_entity}

pub data SchedulerError : Type 0 where
  unknown_task invalid_transition already_queued not_blocked : SchedulerError
  cannot_reap_current invalid_address_space : SchedulerError

pub record TaskSnapshot : Type 0 where
  pub task_id : ℕ
  pub name : String
  pub process_id : Option ℕ
  pub state : TaskState
  pub virtual_runtime : ℤ
  pub virtual_deadline : ℤ
  pub exec_runtime : ℕ
  pub nice : ℤ
  pub address_space : Option ℕ
  pub is_idle : Bool
  pub resume_kind : ResumeKind
  pub block_reason : Option BlockReason
  pub exit_status : Option ExitStatus
  pub enqueue_time : ℕ
  pub eligible : Bool
  pub lag : ℤ

pub record SchedulerStats : Type 0 where
  pub context_switches : ℕ
  pub timer_preemptions : ℕ
  pub voluntary_yields : ℕ
  pub tasks_woken : ℕ
  pub tasks_reaped : ℕ
  pub idle_ticks : ℕ

pub record Tcb : Type 0 where
  pub task_id : ℕ
  pub process_id : Option ℕ
  pub state : TaskState
  pub block_reason : Option BlockReason
  pub exit_status : Option ExitStatus
  pub wait_link : Option ℕ
  pub cpu_context : VoluntaryContext
  pub interrupt_stack_pointer : ℕ
  pub resume_kind : ResumeKind
  pub kernel_stack : KernelStack
  pub address_space : Option ℕ
  pub entity : EevdfEntity
  pub dispatched_at : ℕ
  pub slice_start : ℕ
  pub is_idle : Bool
  pub name : String

-- `TaskControlBlock::new`.
unfoldable pub new_task : ℕ → KernelStack → String → Tcb
new_task task_id kernel_stack name = record {
  task_id = task_id;
  process_id = none;
  state = TaskState.new;
  block_reason = none;
  exit_status = none;
  wait_link = none;
  cpu_context = zero_context;
  interrupt_stack_pointer = 0;
  resume_kind = ResumeKind.voluntary;
  kernel_stack = kernel_stack;
  address_space = none;
  entity = default_entity;
  dispatched_at = 0;
  slice_start = 0;
  is_idle = false;
  name = name;
}

-- `TaskControlBlock::transition`: `none` is `InvalidTransition`, with the task unchanged.
abbrev pub transition : Tcb → TaskState → Option Tcb
transition t next = if can_transition t.state next then some (record t { state = next }) else none
