-- ===== src/Kernel/Types.antt =====
-- The structs and enums of h/xeroskernel.h and h/pcb.h, the block header of c/mem.c, the task list of
-- c/kbd.c, and one record for all static variables of the kernel.
use xeros_kernel.Base.{ℕ, Bool, true, false, List, Option}
use xeros_kernel.Base.Int.{ℤ}
use xeros_kernel.Kernel.Config.{Ptr}

pub data ProcState : Type 0 where
  ready stopped running blocked : ProcState

pub data BlockedStatus : Type 0 where
  unblocked send receive waiting sleep device : BlockedStatus

-- `struct pcb`. `fd_table` names a device by its number in the device table, `none` is NULL.
pub record Pcb : Type 0 where
  pub pid : ℕ
  pub state : ProcState
  pub blocked_id : ℕ
  pub blocked_status : BlockedStatus
  pub next : Ptr
  pub stack_start : Ptr
  pub esp : Ptr
  pub ret : ℤ
  pub cpu_time : ℕ
  pub args : Ptr
  pub signal_table : Ptr
  pub signals_enabled : ℕ
  pub signals_pending : ℕ
  pub fd_table : List (Option ℕ)

-- `struct pcb_queue`
pub record PcbQueue : Type 0 where
  pub head : Ptr
  pub tail : Ptr
  pub size : ℤ

-- The four queues: three statics of c/pcb.c and `sleep_queue` of c/sleep.c.
pub data QueueId : Type 0 where
  stopped_queue ready_queue blocked_queue sleep_queue : QueueId

abbrev pub same_queue : QueueId → QueueId → Bool
same_queue QueueId.stopped_queue QueueId.stopped_queue = true
same_queue QueueId.ready_queue QueueId.ready_queue = true
same_queue QueueId.blocked_queue QueueId.blocked_queue = true
same_queue QueueId.sleep_queue QueueId.sleep_queue = true
same_queue _ _ = false

-- `mem_header_t`, with its first byte of data at the header's address + 16
pub record Header : Type 0 where
  pub size : ℕ
  pub prev : Ptr
  pub next : Ptr
  pub sanity_check : Ptr

-- `kbd_task_t`
pub record KbdTask : Type 0 where
  pub pcb : Ptr
  pub buff : Ptr
  pub bufflen : ℤ
  pub buff_count : ℤ
  pub waiting_on_read : Bool

-- The static variables of c/kbd.c. A `char` is its byte.
pub record Keyboard : Type 0 where
  pub task_list : ℕ → KbdTask
  pub task_refcount : ℤ
  pub refcount : ℤ
  pub current_type : ℕ
  pub done_flag : Bool
  pub keystate_flag : ℕ
  pub buffer : List ℕ
  pub buffer_head : ℕ
  pub buffer_tail : ℕ
  pub eof : ℕ
  pub echo_flag : Bool

-- The messages of `LOG`.
pub data Log : Type 0 where
  null_function : Log
  no_pcb : Log
  no_memory : (size : ℕ) → Log

-- What the kernel prints: a character, the string (a format) at an address, or a `LOG`.
pub data Output : Type 0 where
  char_out : ℕ → Output
  string_out : Ptr → Output
  log_out : Log → Output

-- `struct idt`: a gate of the interrupt descriptor table.
pub record Idt : Type 0 where
  pub igd_loffset : ℕ
  pub igd_segsel : ℕ
  pub igd_rsvd : ℕ
  pub igd_mbz : ℕ
  pub igd_type : ℕ
  pub igd_dpl : ℕ
  pub igd_present : ℕ
  pub igd_hoffset : ℕ

-- `ports` has the bytes that were written to ports other than the masks of the interrupt
-- controllers, the latest first.
pub record Kernel : Type 0 where
  pub pcb : Ptr → Pcb
  pub queue : QueueId → PcbQueue
  pub mem : ℕ → ℕ
  pub header : Ptr → Header
  pub free_list : Ptr
  pub freemem : ℕ
  pub kbd : Keyboard
  pub irq_mask : ℕ → ℕ
  pub ports : List (ℕ × ℕ)
  pub idt : ℕ → Idt
  pub console : List Output
