-- ===== src/Dispatch/Calls.antt =====
-- The calls `yield`, `wait`, `kill`, `read` and `write` of c/disp.c, and the scheduling behind them.
use xeros_kernel.Base.{ℕ, ◌≡◌, refl, ◌≢◌, true, false, List, [], ◌∷◌, ◌++◌, arith, ==_of_ne}
use xeros_kernel.Base.Int.{ℤ, pos, ltb_ℤ, leb_ℤ}
use xeros_kernel.Kernel.Config.{Ptr, null, syskill_target_dne}
use xeros_kernel.Kernel.Types.{Kernel, Pcb, waiting, ready_queue, blocked_queue}
use xeros_kernel.Kernel.Bytes.{Blkcopy, va_arg, signed32}
use xeros_kernel.Kernel.Cmd.{done, halted, put_pcb, Returns}
use xeros_kernel.Kernel.Access.{load-done, update-done, bind, mono}
use xeros_kernel.Queue.Rep.{Queues, put_list, IsFree, Rep}
use xeros_kernel.Queue.Becomes.{
  Becomes, edit, relist, compose_edit, put_list_twice, Rep-put_pcb, edit_after, from_put,
}
use xeros_kernel.Table.{pid_to_pcb}
use xeros_kernel.Table.Moves.{
  readied, blocks, scheduled, offered, get_next_pcb_lem, add_pcb_to_ready_queue_lem,
  add_pcb_to_blocked_queue_lem,
}
use xeros_kernel.Memory.{verify_sysptr}
use xeros_kernel.Signal.{Machine}
use xeros_kernel.Context.{syscall_yield, syscall_kill, syscall_read, syscall_write}
use xeros_kernel.Dispatch.{
  arg, int_arg, handle_syscall_wait, handle_syscall_kill, handle_syscall_read, handle_syscall_write,
}
use xeros_kernel.Dispatch.Round.{Order, dispatch_request}

-- What `wait` writes into the caller's control block.
abbrev pub waits_on : ℕ → Pcb → Pcb
waits_on pid p = record p { blocked_status = waiting; blocked_id = pid }

abbrev pub zero_ret : Pcb → Pcb
zero_ret p = record p { ret = pos 0 }

module _ {k : Kernel} {l : Queues} (process : Ptr) (x : Ptr) (xs : List Ptr) (is : Rep k l)
    (ne : process ≢ null) (free : IsFree l process) where
  -- If the queues are well formed and the running process (not NULL) stands in none, the
  -- dispatcher's case for `yield` returns the first process of the ready queue with the caller at
  -- its end: the caller is ready behind all that were ready, the one returned is marked running and
  -- counts one more turn, and nothing else changes.
  pub yield_lem :
      (lib : Blkcopy) (m : Machine) (order : Order)
      → l ready_queue ++ (process ∷ []) ≡ x ∷ xs
      → Returns
          (λ p k'.
            (p ≡ x)
            × Becomes k
                (edit x scheduled (edit process readied k.pcb))
                (put_list ready_queue xs l)
                k')
          (dispatch_request lib m order syscall_yield process k)
  unfolding dispatch_request
  yield_lem lib m order e = bind (add_pcb_to_ready_queue_lem process is ne free) λ u k1 b1.
      mono (get_next_pcb_lem x xs b1.rep e) λ p k2 (ep, b2). (
        ep,
        relist (compose_edit x scheduled (λ p. refl) b1 b2)
            (put_list_twice ready_queue xs (l ready_queue ++ (process ∷ [])) l),
      )

  -- If the queues are well formed, the calling process (not NULL) stands in none, its argument is a
  -- pid other than 0 of a process that is there, and `x` is the first ready process, then the
  -- `wait` call returns `x`, running and with one more turn; the caller stands at the end of the
  -- blocked queue, waiting for that pid, with the result 0. Nothing else changes.
  pub handle_syscall_wait_lem :
      (pid : ℕ) (target : Ptr)
      → va_arg k.mem (k.pcb process).args 0 ≡ pid
      → pid_to_pcb pid k ≡ done target k
      → target ≢ null
      → pid ≢ 0
      → l ready_queue ≡ x ∷ xs
      → Returns
          (λ p k'.
            (p ≡ x)
            × Becomes k
                (edit x scheduled
                  (edit process zero_ret (edit process blocks (edit process (waits_on pid) k.pcb))))
                (put_list ready_queue xs (offered blocked_queue process l))
                k')
          (handle_syscall_wait process k)
  unfolding handle_syscall_wait arg
  handle_syscall_wait_lem pid target a found some_target some_pid e =
      rw
        (
          load-done process k ne,
          a,
          found,
          ==_of_ne target null some_target,
          ==_of_ne pid 0 some_pid,
          update-done process k ne (waits_on pid),
        )
        (bind
          (add_pcb_to_blocked_queue_lem process (Rep-put_pcb process (waits_on pid) (λ p. refl) is)
            ne free)
          λ u k1 b1. rw (update-done process k1 ne zero_ret) (
            mono
              (get_next_pcb_lem x xs (edit_after process zero_ret (λ p. refl) (λ p. refl) b1).rep e)
              λ p k3 (ep, b3). (
                ep,
                compose_edit x scheduled (λ p. refl)
                    (edit_after process zero_ret (λ p. refl) (λ p. refl)
                      (from_put process (waits_on pid) (edit process blocks) b1))
                    b3,
              )))

-- If the first argument is a pid that `pid_to_pcb` answers NULL for, the dispatcher's case for
-- `kill` goes on with the calling process (not NULL) and changes only its result, to -512.
pub kill-absent :
    (lib : Blkcopy) (m : Machine) (order : Order) (process : Ptr) (k : Kernel) (pid : ℕ)
    → process ≢ null
    → va_arg k.mem (k.pcb process).args 0 ≡ pid
    → pid_to_pcb pid k ≡ done null k
    → dispatch_request lib m order syscall_kill process k
      ≡ done process (put_pcb process (λ p. record p { ret = syskill_target_dne }) k)
unfolding dispatch_request handle_syscall_kill arg int_arg
kill-absent lib m order process k pid ne a absent =
    rw (load-done process k ne, a, load-done process k ne, absent, update-done process k ne _) refl

-- A `read` or `write` call of a non-NULL process with a length of 0 or less halts the kernel.
pub read-halts :
    (lib : Blkcopy) (m : Machine) (order : Order) (process : Ptr) (k : Kernel)
    → process ≢ null
    → leb_ℤ (signed32 (va_arg k.mem (k.pcb process).args 2)) (pos 0) ≡ true
    → (dispatch_request lib m order syscall_read process k ≡ halted)
      × (dispatch_request lib m order syscall_write process k ≡ halted)
unfolding dispatch_request handle_syscall_read handle_syscall_write arg int_arg verify_sysptr
read-halts lib m order process k ne short =
    let t : ltb_ℤ (pos 0) (signed32 (va_arg k.mem (k.pcb process).args 2)) ≡ false =
      not_positive _ short in
    (
      rw (load-done process k ne, load-done process k ne, load-done process k ne, t) refl,
      rw (load-done process k ne, load-done process k ne, load-done process k ne, t) refl,
    )
  where
    not_positive : (z : ℤ) → leb_ℤ z (pos 0) ≡ true → ltb_ℤ (pos 0) z ≡ false
    not_positive z h = ground arith
