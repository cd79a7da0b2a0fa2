-- ===== src/Table.antt =====
-- c/pcb.c: the table of process control blocks, the stopped, ready and blocked queues.
pub mod Pids
pub mod Unblock
pub mod Peek
pub mod Moves
pub mod Start
use xeros_kernel.Base.{
  ℕ, zero, suc, ◌+◌, ◌-◌, ◌*◌, ◌%◌, Bool, true, false, not, ◌&&◌, List, [], ◌∷◌, ltb, leb, ◌==◌,
  if◌then◌else◌,
}
use xeros_kernel.Base.Int.{ℤ, pos, pos_part, ◌+ℤ◌}
use xeros_kernel.Kernel.Config.{
  Ptr, null, slot, idle_process, pcb_table_size, pid_max, ms_per_clock_tick,
}
use xeros_kernel.Kernel.Types.{
  Kernel, Pcb, ProcState, ready, stopped, running, blocked, BlockedStatus, unblocked, send, receive,
  waiting, sleep, device, stopped_queue, ready_queue, blocked_queue, sleep_queue,
}
use xeros_kernel.Kernel.Cmd.{Cmd, spent, pure, ◌>>=◌, ◌>>◌, gets, assert, load_pcb, update_pcb}
use xeros_kernel.Queue.{init_pcb_queue, pcb_size, pcb_poll, pcb_offer, pcb_remove}

abbrev pub is_stopped : ProcState → Bool
is_stopped stopped = true
is_stopped _ = false

abbrev pub is_blocked : ProcState → Bool
is_blocked blocked = true
is_blocked _ = false

abbrev pub is_send : BlockedStatus → Bool
is_send send = true
is_send _ = false

-- The loop of `initpcb`, from entry `i` on, with `n` entries left.
unfoldable pub init_loop : (n i : ℕ) → Cmd (Unit {0})
init_loop zero i = pure tt
init_loop (suc n) i = do
  update_pcb (slot i) (λ p. record p {
    pid = i + 1;
    blocked_id = 0;
    cpu_time = 0;
    blocked_status = unblocked;
    state = stopped;
  })
  pcb_offer stopped_queue (slot i)
  init_loop n (i + 1)

-- `sleepinit` is the last line.
unfoldable pub initpcb : Cmd (Unit {0})
initpcb = do
  init_pcb_queue stopped_queue
  init_pcb_queue ready_queue
  init_pcb_queue blocked_queue
  init_loop pcb_table_size 0
  init_pcb_queue sleep_queue

-- The pid that a slot gets when its process stops.
unfoldable pub next_pid : ℕ → ℕ
next_pid pid = (pid + pcb_table_size - 1) % pid_max + 1

unfoldable pub add_pcb_to_stopped_queue : Ptr → Cmd (Unit {0})
add_pcb_to_stopped_queue pcb = do
  update_pcb pcb (λ p. record p { pid = next_pid p.pid; cpu_time = 0; state = stopped })
  pcb_offer stopped_queue pcb

unfoldable pub add_pcb_to_ready_queue : Ptr → Cmd (Unit {0})
add_pcb_to_ready_queue pcb = do
  assert (not (pcb == null))
  update_pcb pcb (λ p. record p { state = ready; blocked_status = unblocked })
  pcb_offer ready_queue pcb

unfoldable pub remove_pcb_from_ready_queue : Ptr → Cmd Bool
remove_pcb_from_ready_queue pcb = do assert (not (pcb == null)); pcb_remove ready_queue pcb

unfoldable pub add_pcb_to_blocked_queue : Ptr → Cmd (Unit {0})
add_pcb_to_blocked_queue pcb = do
  assert (not (pcb == null))
  update_pcb pcb (λ p. record p { state = blocked })
  pcb_offer blocked_queue pcb

unfoldable pub remove_pcb_from_blocked_queue : Ptr → Cmd Bool
remove_pcb_from_blocked_queue pcb = do assert (not (pcb == null)); pcb_remove blocked_queue pcb

-- The loop of both `peek` functions, which turns the blocked queue round once: `n` rounds are left
-- and `result` is what was found so far.
unfoldable pub peek_loop : (Pcb → Bool) → ℕ → Ptr → Cmd Ptr
peek_loop test zero result = pure result
peek_loop test (suc n) result = do
  entry ← pcb_poll blocked_queue
  e ← load_pcb entry
  pcb_offer blocked_queue entry
  peek_loop test n (if result == null && test e then entry else result)

unfoldable pub peek_next_sender : Cmd Ptr
peek_next_sender = do
  size ← pcb_size blocked_queue
  peek_loop (λ e. is_send e.blocked_status) (pos_part size) null

unfoldable pub peek_any_receiver : Cmd Ptr
peek_any_receiver = do
  size ← pcb_size blocked_queue
  peek_loop (λ e. e.blocked_id == 0) (pos_part size) null

-- What the loop of `unblock_pcb_waiting_for_pid` does with the entry that it polled.
unfoldable pub unblock_entry : (pid : ℕ) → Ptr → Cmd (Unit {0})
unblock_entry pid entry = do
  e ← load_pcb entry
  if e.blocked_id == pid
      then (do update_pcb entry (λ p. record p { blocked_id = 0 }); add_pcb_to_ready_queue entry)
      else add_pcb_to_blocked_queue entry

unfoldable pub unblock_loop : (pid n : ℕ) → Cmd (Unit {0})
unblock_loop pid zero = pure tt
unblock_loop pid (suc n) = do
  entry ← pcb_poll blocked_queue
  unblock_entry pid entry
  unblock_loop pid n

unfoldable pub unblock_pcb_waiting_for_pid : (pid : ℕ) → Cmd (Unit {0})
unblock_pcb_waiting_for_pid pid = do size ← pcb_size blocked_queue; unblock_loop pid (pos_part size)

-- There is no test for an empty queue before the writes.
unfoldable pub get_next_pcb : Cmd Ptr
get_next_pcb = do
  next_pcb ← pcb_poll ready_queue
  update_pcb next_pcb (λ p. record p { state = running; cpu_time = p.cpu_time + 1 })
  pure next_pcb

unfoldable pub get_free_pcb : Cmd Ptr
get_free_pcb = pcb_poll stopped_queue

unfoldable pub pid_to_pcb : (pid : ℕ) → Cmd Ptr
pid_to_pcb pid =
    if leb 1 pid
    then (do
      let pcb = slot ((pid - 1) % pcb_table_size)
      p ← load_pcb pcb
      pure (if is_stopped p.state then null else pcb))
    else pure null

abbrev pub state_code : ProcState → ℕ
state_code ready = 0
state_code stopped = 1
state_code running = 2
state_code blocked = 3

abbrev pub blocked_code : BlockedStatus → ℕ
blocked_code unblocked = 0
blocked_code send = 1
blocked_code receive = 2
blocked_code waiting = 3
blocked_code sleep = 4
blocked_code device = 5

-- One row of `processStatuses`.
pub record StatusRow : Type 0 where
  pub pid : ℕ
  pub status : ℕ
  pub cpu_time : ℕ

abbrev pub row_of : (current : ℕ) → Pcb → StatusRow
row_of current p = record {
  pid = p.pid;
  status =
      if current == p.pid
      then state_code running
      else state_code p.state + blocked_code p.blocked_status;
  cpu_time = p.cpu_time * ms_per_clock_tick;
}

-- The rows of the entries from `i` on, with `n` entries left.
unfoldable pub status_loop : (current : ℕ) → (n i : ℕ) → (Ptr → Pcb) → List StatusRow
status_loop current zero i h = []
status_loop current (suc n) i h =
    let rows = status_loop current n (i + 1) h in
    if is_stopped (h (slot i)).state then rows else row_of current (h (slot i)) ∷ rows

-- The table that `fill_processStatus` writes, the idle process first; it returns the last index.
unfoldable pub fill_process_status : Ptr → Cmd (List StatusRow)
unfolding status_loop
fill_process_status pcb = do
  p ← load_pcb pcb
  h ← gets (λ k. k.pcb)
  pure (
      record {
        pid = (h idle_process).pid;
        status = state_code (h idle_process).state;
        cpu_time = (h idle_process).cpu_time * ms_per_clock_tick;
      }
      ∷ status_loop p.pid pcb_table_size 0 h)
