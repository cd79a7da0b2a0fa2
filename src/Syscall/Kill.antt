-- ===== src/Syscall/Kill.antt =====
-- From `syskill` of c/syscall.c through the handler of c/disp.c to `set_pcb_signal` of c/signal.c.
use xeros_kernel.Base.{ℕ, ◌<◌, ◌≡◌, ◌≢◌, true, arith, has, remove, ◌⊎◌, ==_of_ne, ap, refl}
use xeros_kernel.Base.Int.{ℤ, pos, pos_part}
use xeros_kernel.Kernel.Config.{Ptr, null, slot, pcb_table_size, syskill_target_dne}
use xeros_kernel.Kernel.Types.{Kernel, blocked, send, receive, blocked_queue, ready_queue}
use xeros_kernel.Kernel.Cmd.{done, Returns}
use xeros_kernel.Queue.Rep.{Queues, put_list, Rep}
use xeros_kernel.Queue.Becomes.{Becomes, edit}
use xeros_kernel.Table.{is_stopped}
use xeros_kernel.Table.Moves.{offered, readied}
use xeros_kernel.Table.Pids.{pid_of, pid_to_pcb_lem}
use xeros_kernel.Signal.{handler_of, in_table}
use xeros_kernel.Signal.Pending.{marked, signaled, set_pcb_signal_transfer}
use xeros_kernel.Dispatch.{handle_syscall_kill}
use xeros_kernel.Syscall.{syskill}
use xeros_kernel.Syscall.Words.{Trapped, handle_syscall_kill-syskill}

-- While the kernel, with well-formed queues, is in a call that a non-NULL process made with
-- `syskill` of any pid of slot `i` (one of 32) and a signal in the table's range: if the slot is
-- stopped, the handler returns -512 and changes nothing; if its process has a handler for the
-- signal and is in the blocked queue, blocked in a send or a receive, then the handler returns 0,
-- that send or receive gets the result -99, the signal is pending, and the process leaves the
-- blocked queue for the end of the ready queue, while every other process and queue stays as it is.
pub syskill_lem :
    (i n : ℕ) (signal : ℤ) (process : Ptr) (k : Kernel) (l : Queues)
    → i < pcb_table_size
    → in_table signal ≡ true
    → Trapped (syskill (pid_of i n) signal) process k
    → Rep k l
    → (is_stopped (k.pcb (slot i)).state ≡ true
        → handle_syscall_kill process k ≡ done syskill_target_dne k)
      × ((k.pcb (slot i)).state ≡ blocked
          → ((k.pcb (slot i)).blocked_status ≡ send) ⊎ ((k.pcb (slot i)).blocked_status ≡ receive)
          → has (slot i) (l blocked_queue) ≡ true
          → handler_of k (k.pcb (slot i)) (pos_part signal) ≢ null
          → Returns
              (λ r k'.
                (r ≡ pos 0)
                × Becomes k
                    (edit
                      (slot i)
                      readied
                      (edit (slot i) signaled (edit (slot i) (marked (pos_part signal)) k.pcb)))
                    (offered ready_queue
                      (slot i)
                      (put_list blocked_queue (remove (slot i) (l blocked_queue)) l))
                    k')
              (handle_syscall_kill process k))
syskill_lem i n signal process k l h valid t is =
    let call =
      handle_syscall_kill-syskill (pid_of i n) signal process k t (ground arith) (ground arith) in
    (
      λ stopped. rw (call, pid_to_pcb_lem k i n h, stopped) refl,
      λ sleeps which m handled.
          rw
            (
              call,
              pid_to_pcb_lem k i n h,
              ap is_stopped sleeps,
              ==_of_ne (slot i) null (omega arith),
            )
            (set_pcb_signal_transfer k (slot i) signal (omega arith) valid handled sleeps is m
              which),
    )
