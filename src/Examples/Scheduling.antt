-- ===== src/Examples/Scheduling.antt =====
-- The statements on queues, pids and scheduling, on the sample state.
use xeros_kernel.Base.{has, ◌+◌, ◌≡◌, refl, true, [], ◌∷◌, arith, ◌==◌, if◌then◌else◌}
use xeros_kernel.Base.Int.{pos}
use xeros_kernel.Kernel.Config.{Ptr}
use xeros_kernel.Kernel.Types.{sleep_queue, stopped_queue, ready_queue, blocked_queue}
use xeros_kernel.Kernel.Bytes.{Mem, load_word, va_arg, block_copy}
use xeros_kernel.Kernel.Cmd.{halted, Returns}
use xeros_kernel.Queue.{pcb_poll, pcb_offer, pcb_remove}
use xeros_kernel.Queue.Rep.{put_list}
use xeros_kernel.Queue.Becomes.{Becomes, Queued, edit}
use xeros_kernel.Queue.Ends.{pcb_poll_lem, pcb_offer_lem}
use xeros_kernel.Queue.Remove.{pcb_remove_lem}
use xeros_kernel.Table.{pid_to_pcb, unblock_pcb_waiting_for_pid}
use xeros_kernel.Table.Moves.{readied, blocks, retired, scheduled, offered}
use xeros_kernel.Table.Unblock.{
  settle_all, waiting_for, not_waiting_for, unblock_pcb_waiting_for_pid_lem,
}
use xeros_kernel.Table.Pids.{pid_of, pid_to_pcb_lem, pid_to_pcb_stale}
use xeros_kernel.Process.{retire}
use xeros_kernel.Process.Retire.{released, retire_lem}
use xeros_kernel.Sleep.{take_ret, add_pcb_to_sleep_queue}
use xeros_kernel.Sleep.Place.{before, behind, left_over, total}
use xeros_kernel.Sleep.Delta.{slept, add_pcb_to_sleep_queue_lem}
use xeros_kernel.Context.{syscall_yield, syscall_read, syscall_write}
use xeros_kernel.Dispatch.{handle_syscall_wait}
use xeros_kernel.Dispatch.Round.{Order, dispatch_request}
use xeros_kernel.Dispatch.Calls.{waits_on, zero_ret, yield_lem, handle_syscall_wait_lem, read-halts}
use xeros_kernel.Examples.{
  ticks_left, lists, sample, sample-Rep, running-IsFree, machine, first_arg,
}

pcb_remove_lem_example :
    Returns
      (λ b k'. (b ≡ true) × Queued sample (put_list blocked_queue (3 ∷ 5 ∷ []) lists) k')
      (pcb_remove blocked_queue 4 sample)
pcb_remove_lem_example = pcb_remove_lem blocked_queue 4 sample-Rep

pcb_poll_lem_example :
    Returns
      (λ p k'. (p ≡ 3) × Queued sample (put_list blocked_queue (4 ∷ 5 ∷ []) lists) k')
      (pcb_poll blocked_queue sample)
pcb_poll_lem_example = pcb_poll_lem blocked_queue (3 ∷ 4 ∷ 5 ∷ []) sample-Rep refl

pcb_offer_lem_example :
    Returns
      (λ _ k'. Queued sample (put_list ready_queue (1 ∷ 2 ∷ 7 ∷ []) lists) k')
      (pcb_offer ready_queue 7 sample)
pcb_offer_lem_example = pcb_offer_lem ready_queue 7 sample-Rep (omega arith) running-IsFree

unblock_pcb_waiting_for_pid_lem_example :
    Returns
      (λ _ k'.
        Becomes sample
          (settle_all 7 (3 ∷ 4 ∷ 5 ∷ []) sample.pcb)
          (put_list ready_queue (1 ∷ 2 ∷ 3 ∷ []) (put_list blocked_queue (4 ∷ 5 ∷ []) lists))
          k')
      (unblock_pcb_waiting_for_pid 7 sample)
unfolding waiting_for not_waiting_for
unblock_pcb_waiting_for_pid_lem_example = unblock_pcb_waiting_for_pid_lem 7 sample-Rep

pid_to_pcb_stale_example : pid_to_pcb (pid_of 4 0) sample ≡ pid_to_pcb (pid_of 4 1) sample
pid_to_pcb_stale_example = pid_to_pcb_stale sample 4 0 1 (omega arith)

yield_lem_example :
    Returns
      (λ p k'.
        (p ≡ 1)
        × Becomes sample
            (edit 1 scheduled (edit 7 readied sample.pcb))
            (put_list ready_queue (2 ∷ 7 ∷ []) lists)
            k')
      (dispatch_request block_copy machine Order.left_first syscall_yield 7 sample)
yield_lem_example =
    yield_lem 7 1 (2 ∷ 7 ∷ []) sample-Rep (omega arith) running-IsFree block_copy machine
      Order.left_first refl

handle_syscall_wait_lem_example :
    Returns
      (λ p k'.
        (p ≡ 1)
        × Becomes sample
            (edit 1 scheduled (edit 7 zero_ret (edit 7 blocks (edit 7 (waits_on 3) sample.pcb))))
            (put_list ready_queue (2 ∷ []) (offered blocked_queue 7 lists))
            k')
      (handle_syscall_wait 7 sample)
unfolding pid_of
handle_syscall_wait_lem_example =
    handle_syscall_wait_lem 7 1 (2 ∷ []) sample-Rep (omega arith) running-IsFree 3 3 first_arg
      (pid_to_pcb_lem sample 2 0 (omega arith)) (omega arith) (omega arith) refl

abbrev to_stopped : Mem
to_stopped a = if a == 2000 then 6 else 0

stopped_arg : va_arg to_stopped 2000 0 ≡ 6
unfolding va_arg load_word
stopped_arg = refl

read-halts_example :
    (dispatch_request block_copy machine Order.left_first syscall_read 7
        (record sample { mem = to_stopped })
      ≡ halted)
    × (dispatch_request block_copy machine Order.left_first syscall_write 7
          (record sample { mem = to_stopped })
        ≡ halted)
unfolding va_arg load_word
read-halts_example =
    read-halts block_copy machine Order.left_first 7 (record sample { mem = to_stopped })
      (omega arith) refl

retire_lem_example :
    Returns
      (λ _ k'.
        Becomes sample
          (edit 7 retired (settle_all 7 (3 ∷ 4 ∷ 5 ∷ []) sample.pcb))
          (offered stopped_queue 7 (released 7 sample lists))
          k')
      (retire 7 sample)
retire_lem_example = retire_lem 7 sample-Rep (omega arith) running-IsFree

-- Process 7 sleeps for 17 ticks, 12 of them after process 9 woke.
add_pcb_to_sleep_queue_lem_example :
    (total ticks_left (9 ∷ []) + 12 ≡ 17)
    × Returns
        (λ _ k'.
          Becomes sample
            (edit 10 (take_ret (pos 12)) (edit 7 (slept 12) sample.pcb))
            (put_list sleep_queue (9 ∷ 7 ∷ 10 ∷ []) lists)
            k')
        (add_pcb_to_sleep_queue 7 sample)
unfolding before behind left_over
add_pcb_to_sleep_queue_lem_example =
    add_pcb_to_sleep_queue_lem ticks_left 7 17 sample-Rep (omega arith) running-IsFree refl refl
      waits
  where
    waits : (a : Ptr) → has a (lists sleep_queue) ≡ true → (sample.pcb a).ret ≡ pos (ticks_left a)
    waits a h = refl
