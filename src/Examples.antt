-- ===== src/Examples.antt =====
-- A small kernel state with processes in every kind of queue, on which the statements are run.
pub mod Scheduling
pub mod Messages
pub mod Memories
pub mod Devices
pub mod Signals
pub mod Clock
pub mod Consoles
pub mod Starting
pub mod Users
use xeros_kernel.Base.{
  ℕ, suc, ◌+◌, ◌*◌, ◌≡◌, refl, ◌≢◌, Bool, true, false, ◌&&◌, ◌||◌, List, [], ◌∷◌, Option, none,
  some, arith, leb, ltb, ◌==◌, if◌then◌else◌, has,
}
use xeros_kernel.Base.Int.{ℤ, pos}
use xeros_kernel.Kernel.Config.{Ptr, null, header_size}
use xeros_kernel.Hardware.{no_gate}
use xeros_kernel.Kernel.Types.{
  Pcb, PcbQueue, QueueId, stopped_queue, ready_queue, blocked_queue, sleep_queue, same_queue,
  Header, Idt, KbdTask, Keyboard, Kernel, ProcState, BlockedStatus,
}
use xeros_kernel.Kernel.Bytes.{load_word, va_arg}
use xeros_kernel.Queue.Rep.{Queues, put_list, IsFree, Rep, IsQueue, Rep-update}
use xeros_kernel.Signal.{Machine}

-- Ready: 1 and 2. Blocked: 3 receives from process 7, 4 sends to 99, 5 receives from 6. Stopped: 6.
-- Asleep: 9 for 5 ticks and 10 for 20 more. Process 7 runs; 8 waits for a device.
abbrev pub lists : Queues
lists QueueId.ready_queue = 1 ∷ 2 ∷ []
lists QueueId.blocked_queue = 3 ∷ 4 ∷ 5 ∷ []
lists QueueId.stopped_queue = 6 ∷ []
lists QueueId.sleep_queue = 9 ∷ 10 ∷ []

abbrev pub nexts : Ptr → Ptr
nexts a =
    if a == 1 then 2 else if a == 3 then 4 else if a == 4 then 5 else if a == 9 then 10 else null

abbrev pub states : Ptr → ProcState
states a =
    if a == 6
    then ProcState.stopped
    else if a == 7
    then ProcState.running
    else if leb 3 a
    then ProcState.blocked
    else ProcState.ready

abbrev pub statuses : Ptr → BlockedStatus
statuses a =
    if a == 4
    then BlockedStatus.send
    else if a == 8
    then BlockedStatus.device
    else if (a == 3) || (a == 5)
    then BlockedStatus.receive
    else if leb 9 a
    then BlockedStatus.sleep
    else BlockedStatus.unblocked

abbrev pub blocked_ids : Ptr → ℕ
blocked_ids a = if a == 3 then 7 else if a == 4 then 99 else if a == 5 then 6 else 0

abbrev pub ticks_left : Ptr → ℕ
ticks_left a = if a == 9 then 5 else if a == 10 then 20 else 17

abbrev pub process_block : Ptr → Pcb
process_block a = record {
  pid = a;
  state = states a;
  blocked_id = blocked_ids a;
  blocked_status = statuses a;
  next = nexts a;
  stack_start = null;
  esp = 1060;
  ret = pos (ticks_left a);
  cpu_time = 0;
  args = 2000;
  signal_table = 4096;
  signals_enabled = 8;
  signals_pending = 0;
  fd_table = none ∷ none ∷ none ∷ none ∷ [];
}

abbrev pub queues : QueueId → PcbQueue
queues QueueId.ready_queue = record { head = 1; tail = 2; size = pos 2 }
queues QueueId.blocked_queue = record { head = 3; tail = 5; size = pos 3 }
queues QueueId.stopped_queue = record { head = 6; tail = 6; size = pos 1 }
queues QueueId.sleep_queue = record { head = 9; tail = 10; size = pos 2 }

-- The first argument of a system call, at 2000, is 3, the second is 512, the third 4. Signal 3 has
-- the handler 1.
abbrev pub bytes : ℕ → ℕ
bytes a =
    if a == 2000
    then 3
    else if a == 2005
    then 2
    else if a == 2008
    then 4
    else if a == 4108
    then 1
    else 0

abbrev pub idle_task : KbdTask
idle_task = record {
  pcb = null;
  buff = null;
  bufflen = pos 0;
  buff_count = pos 0;
  waiting_on_read = false;
}

abbrev pub keyboard : Keyboard
keyboard = record {
  task_list = λ i. idle_task;
  task_refcount = pos 0;
  refcount = pos 1;
  current_type = 1;
  done_flag = false;
  keystate_flag = 0;
  buffer = 0 ∷ 0 ∷ 0 ∷ 120 ∷ 0 ∷ [];
  buffer_head = 4;
  buffer_tail = 3;
  eof = 4;
  echo_flag = true;
}

-- Free blocks of 64, 32 and 256 bytes.
abbrev pub block_headers : Ptr → Header
block_headers a =
    if a == 16384
    then record { size = 64; prev = null; next = 20480; sanity_check = null }
    else if a == 20480
    then record { size = 48; prev = 16384; next = 24576; sanity_check = null }
    else record { size = 256; prev = 20480; next = null; sanity_check = null }

abbrev pub sample : Kernel
sample = record {
  pcb = process_block;
  queue = queues;
  mem = bytes;
  header = block_headers;
  free_list = 16384;
  freemem = 65536;
  kbd = keyboard;
  irq_mask = λ p. 0;
  ports = [];
  idt = λ i. no_gate;
  console = [];
}

pub sample-Rep : Rep sample lists
sample-Rep = record { each = each; apart = apart }
  where
    each : (q : QueueId) → IsQueue process_block (queues q) (lists q)
    each QueueId.ready_queue = record {
      chain = (refl, omega arith, (refl, omega arith, refl));
      tail = refl;
      size = refl;
      distinct = (refl, (refl, tt));
    }
    each QueueId.blocked_queue = record {
      chain = (refl, omega arith, (refl, omega arith, (refl, omega arith, refl)));
      tail = refl;
      size = refl;
      distinct = (refl, (refl, (refl, tt)));
    }
    each QueueId.stopped_queue = record {
      chain = (refl, omega arith, refl);
      tail = refl;
      size = refl;
      distinct = (refl, tt);
    }
    each QueueId.sleep_queue = record {
      chain = (refl, omega arith, (refl, omega arith, refl));
      tail = refl;
      size = refl;
      distinct = (refl, (refl, tt));
    }

    apart :
        (q r : QueueId) (x : Ptr)
        → same_queue q r ≡ false
        → has x (lists q) ≡ true
        → has x (lists r) ≡ false
    apart QueueId.ready_queue r x ne h = ground arith
    apart QueueId.blocked_queue r x ne h = ground arith
    apart QueueId.stopped_queue r x ne h = ground arith
    apart QueueId.sleep_queue r x ne h = ground arith

pub running-IsFree : IsFree lists 7
running-IsFree QueueId.ready_queue = refl
running-IsFree QueueId.blocked_queue = refl
running-IsFree QueueId.stopped_queue = refl
running-IsFree QueueId.sleep_queue = refl

-- No process is ready.
abbrev pub drained : Kernel
drained = record sample {
  queue = λ r.
      if same_queue r ready_queue
      then record { head = null; tail = null; size = pos 0 }
      else queues r;
}

pub drained-Rep : Rep drained (put_list ready_queue [] lists)
drained-Rep =
    Rep-update drained ready_queue (record { head = null; tail = null; size = pos 0 }) [] sample-Rep
      (λ r. refl) (record { chain = refl; tail = refl; size = refl; distinct = tt })
      (λ r a ne h. refl) (λ a h. absurd (differ h))
  where
    differ : false ≡ true → ⊥
    differ e = cc

-- The sample with its queues as they are before the start.
abbrev pub blank : Kernel
blank = record sample { queue = λ q. record { head = null; tail = null; size = pos 0 } }

abbrev pub machine : Machine
machine = record { code_selector = 8; sigtramp = 700; sysstop = 800 }

pub first_arg : va_arg sample.mem (sample.pcb 7).args 0 ≡ 3
unfolding va_arg load_word
first_arg = refl
