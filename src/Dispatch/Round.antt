-- ===== src/Dispatch/Round.antt =====
-- `dispatch` of c/disp.c: one round of its endless loop, and a run over a list of events.
use xeros_kernel.Base.{◌+◌, List, [], ◌∷◌, ◌==◌, if◌then◌else◌}
use xeros_kernel.Base.Int.{ℤ}
use xeros_kernel.Kernel.Config.{Ptr, null, idle_process}
use xeros_kernel.Kernel.Bytes.{Blkcopy, signed32}
use xeros_kernel.Kernel.Cmd.{Cmd, pure, ◌>>=◌, ◌>>◌, load_pcb, update_pcb}
use xeros_kernel.Table.{add_pcb_to_ready_queue, get_next_pcb}
use xeros_kernel.Sleep.{tick}
use xeros_kernel.Process.{cleanup_pcb}
use xeros_kernel.Signal.{Machine}
use xeros_kernel.Keyboard.{keyboard_isr}
use xeros_kernel.Hardware.{end_of_intr}
use xeros_kernel.Context.{
  Request, syscall_create, syscall_yield, syscall_stop, syscall_getpid, syscall_puts, syscall_kill,
  syscall_recv, syscall_send, syscall_sleep, syscall_cputimes, syscall_sighandler,
  syscall_sigreturn, syscall_wait, syscall_open, syscall_close, syscall_write, syscall_read,
  syscall_ioctl, timer_int, keyboard_int, Event, contextswitch,
}
use xeros_kernel.Dispatch.{
  Handled, set_ret, handle_syscall_create, handle_syscall_puts, handle_syscall_kill,
  handle_syscall_wait, handle_syscall_send, handle_syscall_recv, handle_syscall_sleep,
  handle_syscall_cputimes, handle_syscall_sighandler, handle_syscall_sigreturn, handle_syscall_open,
  handle_syscall_close, handle_syscall_read, handle_syscall_write, handle_syscall_ioctl,
}

-- In `process->ret = handler()` C leaves open whether `process` is read before the call, which
-- may change it, or after.
pub data Order : Type 0 where
  left_first call_first : Order

-- `process->ret = handler()`
unfoldable pub assign_ret : Order → Ptr → Cmd Handled → Cmd Ptr
assign_ret Order.left_first process handler = do (r, next) ← handler; set_ret process r; pure next
assign_ret Order.call_first process handler = do (r, next) ← handler; set_ret next r; pure next

-- The same for a handler that does not change `process`.
unfoldable pub assign_own : Ptr → Cmd ℤ → Cmd Ptr
assign_own process handler = do r ← handler; set_ret process r; pure process

unfoldable pub timer_case : Ptr → Cmd Ptr
timer_case process = do
  tick
  update_pcb process (λ p. record p { cpu_time = p.cpu_time + 1 })
  p ← load_pcb process
  (if p.pid == 0 then pure tt else add_pcb_to_ready_queue process)
  get_next_pcb

module _ (lib : Blkcopy) (m : Machine) (order : Order) where
  -- The switch over the request.
  unfoldable pub dispatch_request : Request → Ptr → Cmd Ptr
  unfolding timer_case assign_ret assign_own
  dispatch_request syscall_create process = assign_own process (handle_syscall_create m process)
  dispatch_request syscall_yield process = do add_pcb_to_ready_queue process; get_next_pcb
  dispatch_request syscall_stop process = do cleanup_pcb process; get_next_pcb
  dispatch_request syscall_getpid process = do
    p ← load_pcb process
    set_ret process (signed32 p.pid)
    pure process
  dispatch_request syscall_puts process = do handle_syscall_puts process; pure process
  dispatch_request syscall_kill process = assign_own process (handle_syscall_kill process)
  dispatch_request syscall_recv process = assign_ret order process (handle_syscall_recv lib process)
  dispatch_request syscall_send process = assign_ret order process (handle_syscall_send lib process)
  dispatch_request syscall_sleep process = do handle_syscall_sleep process; get_next_pcb
  dispatch_request syscall_cputimes process =
      assign_own process (do (r, rows) ← handle_syscall_cputimes process; pure r)
  dispatch_request syscall_sighandler process =
      assign_own process (handle_syscall_sighandler process)
  dispatch_request syscall_sigreturn process = handle_syscall_sigreturn process
  dispatch_request syscall_wait process = handle_syscall_wait process
  dispatch_request syscall_open process = do handle_syscall_open process; pure process
  dispatch_request syscall_close process = do handle_syscall_close process; pure process
  dispatch_request syscall_write process = do handle_syscall_write process; pure process
  dispatch_request syscall_read process = handle_syscall_read process
  dispatch_request syscall_ioctl process = do handle_syscall_ioctl process; pure process
  dispatch_request timer_int process = do next ← timer_case process; end_of_intr; pure next
  dispatch_request (keyboard_int present scancode) process = do
    keyboard_isr present scancode
    end_of_intr
    pure process

  -- One round: the process that runs, and the one for the next round.
  unfoldable pub dispatch_round : Event → Ptr → Cmd Ptr
  dispatch_round e process = do
    let current = if process == null then idle_process else process
    request ← contextswitch m e current
    dispatch_request request current

  unfoldable pub dispatch_run : List Event → Ptr → Cmd Ptr
  dispatch_run [] process = pure process
  dispatch_run (e ∷ es) process = do next ← dispatch_round e process; dispatch_run es next

  -- `dispatch`, for the events of a run.
  unfoldable pub dispatch : List Event → Cmd Ptr
  dispatch events = do process ← get_next_pcb; dispatch_run events process
