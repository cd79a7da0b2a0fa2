-- ===== src/Process.antt =====
-- c/create.c, and `cleanup_pcb` of c/pcb.c: the birth and the death of a process.
pub mod Retire
pub mod Birth
pub mod Create
use xeros_kernel.Base.{◌+◌, ◌-◌, ◌*◌, not, ◌==◌, if◌then◌else◌}
use xeros_kernel.Base.Int.{ℤ, pos, pos_part, ltb_ℤ}
use xeros_kernel.Kernel.Config.{
  Ptr, null, signal_table_size, default_stack_size, idle_proc_stack_size, idle_process,
  context_frame_size, kill_signal_num, create_failure,
}
use xeros_kernel.Kernel.Types.{ready, unblocked, log_out, null_function, no_pcb}
use xeros_kernel.Kernel.Cmd.{Cmd, pure, ◌>>=◌, ◌>>◌, assert, load_pcb, update_pcb, print}
use xeros_kernel.Memory.{kmalloc, kfree}
use xeros_kernel.Table.{
  add_pcb_to_ready_queue, add_pcb_to_stopped_queue, remove_pcb_from_ready_queue,
  remove_pcb_from_blocked_queue, unblock_pcb_waiting_for_pid, get_free_pcb,
}
use xeros_kernel.Sleep.{remove_pcb_from_sleep_queue}
use xeros_kernel.Signal.{Machine, poke, init_context_frame}

-- The part of `cleanup_pcb` before the memory is given back.
unfoldable pub retire : Ptr → Cmd (Unit {0})
retire pcb = do
  assert (not (pcb == null))
  remove_pcb_from_ready_queue pcb
  remove_pcb_from_blocked_queue pcb
  remove_pcb_from_sleep_queue pcb
  p ← load_pcb pcb
  unblock_pcb_waiting_for_pid p.pid
  add_pcb_to_stopped_queue pcb

unfoldable pub cleanup_pcb : Ptr → Cmd (Unit {0})
unfolding retire
cleanup_pcb pcb = do
  retire pcb
  p ← load_pcb pcb
  kfree p.stack_start
  kfree p.signal_table
  pure tt

module _ (m : Machine) where
  -- The block of `create` that fills in the control block it got.
  unfoldable pub set_up : (new_proc stack_start signal_table stack fp : Ptr) → Cmd ℤ
  set_up new_proc stack_start signal_table stack fp = do
    let return_addr = stack_start + stack - 4
    let context = return_addr - context_frame_size
    update_pcb new_proc (λ p. record p {
      stack_start = stack_start;
      signal_table = signal_table;
      signals_enabled = 0;
    })
    poke (signal_table + 4 * kill_signal_num) m.sysstop
    poke return_addr m.sysstop
    update_pcb new_proc (λ p. record p { esp = context })
    init_context_frame m context fp
    add_pcb_to_ready_queue new_proc
    p ← load_pcb new_proc
    pure (pos p.pid)

  -- `memset` gets the size of an expression's type, four bytes, for its length.
  unfoldable pub create : (fp : Ptr) → (stack : ℤ) → Cmd ℤ
  create fp stack =
      if fp == null then (do print (log_out null_function); pure create_failure) else do
        let size =
            if ltb_ℤ stack (pos default_stack_size) then default_stack_size else pos_part stack
        stack_start ← kmalloc size
        if stack_start == null then pure create_failure else do
          signal_table ← kmalloc (signal_table_size * 4)
          if signal_table == null then pure create_failure else do
            poke signal_table 0
            new_proc ← get_free_pcb
            if new_proc == null
                then (do
                  print (log_out no_pcb)
                  kfree stack_start
                  kfree signal_table
                  pure create_failure)
                else set_up new_proc stack_start signal_table size fp

  -- `idleproc` is the address of the idle loop.
  unfoldable pub idleinit : (idleproc : Ptr) → Cmd ℤ
  idleinit idleproc = do
    stack_start ← kmalloc idle_proc_stack_size
    if stack_start == null then pure create_failure else do
      let return_addr = stack_start + idle_proc_stack_size - 4
      let context = return_addr - context_frame_size
      update_pcb idle_process (λ p. record p { stack_start = stack_start })
      poke return_addr m.sysstop
      update_pcb idle_process (λ p. record p { esp = context })
      init_context_frame m context idleproc
      update_pcb idle_process (λ p. record p {
        pid = 0;
        blocked_id = 0;
        cpu_time = 0;
        blocked_status = unblocked;
        state = ready;
      })
      pure (pos 0)
