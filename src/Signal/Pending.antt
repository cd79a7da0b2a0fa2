-- ===== src/Signal/Pending.antt =====
-- The search for the highest pending signal, and what a signal does to a blocked process.
use xeros_kernel.Base.{
  ℕ, zero, suc, ◌≤◌, ◌<◌, ◌≡◌, refl, ◌≢◌, ◌∙◌, ap, true, false, arith, ◌==◌, Bool-cases, ◌⊎◌, inl,
  inr, has, remove, has-remove_self, ==_of_ne,
}
use xeros_kernel.Base.Int.{ℤ, pos, pos_part}
use xeros_kernel.Base.Bits.{check_bit, set_bit}
use xeros_kernel.Kernel.Config.{Ptr, null, blocked_proc_signaled}
use xeros_kernel.Kernel.Types.{
  Pcb, Kernel, QueueId, same_queue, blocked, BlockedStatus, send, receive, device, blocked_queue,
  ready_queue,
}
use xeros_kernel.Kernel.Cmd.{done, halted, Returns, returns}
use xeros_kernel.Kernel.Access.{load-done, update-done, bind, mono}
use xeros_kernel.Queue.Rep.{Queues, put_list, IsFree, Rep, IsQueue, same_queue_sym}
use xeros_kernel.Queue.Becomes.{Becomes, edit, Rep-put_pcb, compose_edit, from_put}
use xeros_kernel.Queue.Remove.{pcb_remove_lem}
use xeros_kernel.Table.{is_blocked, remove_pcb_from_blocked_queue}
use xeros_kernel.Table.Moves.{offered, readied, add_pcb_to_ready_queue_lem}
use xeros_kernel.Signal.{highest_bit, handler_of, in_table, interrupt, set_pcb_signal}

-- If a bit up to `n` is set, the search from bit `n` down ends at the highest such bit.
pub highest_bit_lem :
    (flag n m : ℕ) (k : Kernel)
    → m ≤ n
    → check_bit flag m ≡ true
    → (b : ℕ) × (highest_bit flag n k ≡ done b k)
      × (check_bit flag b ≡ true)
      × (b ≤ n)
      × ((j : ℕ) → b < j → j ≤ n → check_bit flag j ≡ false)
unfolding highest_bit
highest_bit_lem flag zero m k le set =
    let e : m ≡ 0 = omega arith in
    let s : check_bit flag 0 ≡ true = rw e at set in
    (0, rw s, s, omega arith, λ j lo hi. absurd (omega arith))
highest_bit_lem flag (suc n) m k le set = elim (Bool-cases (check_bit flag (suc n))) [
  | inl s ↦ (suc n, rw s, s, omega arith, λ j lo hi. absurd (omega arith))
  | inr s ↦
      let ne : m ≢ suc n = λ e. cc (s, set, e) in
      let (b, run, on, bound, above) = highest_bit_lem flag n m k (omega arith) set in
      (
        b,
        rw s run,
        on,
        omega arith,
        λ j lo hi. elim (Bool-cases (j == suc n)) [
          | inl e ↦ let t : j ≡ suc n = ground arith in rw t s
          | inr e ↦ above j lo (ground arith)
        ],
      )
]

-- A node taken out of a queue stands in no queue.
pub removed-IsFree :
    {k : Kernel} {l : Queues} (q : QueueId) (x : Ptr)
    → Rep k l
    → has x (l q) ≡ true
    → IsFree (put_list q (remove x (l q)) l) x
removed-IsFree {k} {l} q x is m r = elim (Bool-cases (same_queue r q)) [
  | inl s ↦
      let i : IsQueue k.pcb (k.queue q) (l q) = is.each q in
      rw s (has-remove_self x (l q) i.distinct)
  | inr s ↦ rw s (is.apart q r x (same_queue_sym q r ∙ s) m)
]

-- What the signal writes into the control block: the pending bit, and the result of the call.
abbrev pub marked : (signal : ℕ) → Pcb → Pcb
marked signal p = record p { signals_pending = set_bit p.signals_pending signal }

abbrev pub signaled : Pcb → Pcb
signaled p = record p { ret = blocked_proc_signaled }

-- The state that `interrupt` leaves for a process blocked in a transfer.
abbrev Interrupted : Kernel → Queues → Ptr → Kernel → Type 0
Interrupted k l x k' =
    Becomes k (edit x readied (edit x signaled k.pcb))
      (offered ready_queue x (put_list blocked_queue (remove x (l blocked_queue)) l)) k'

-- The three steps of `interrupt` for a send and for a receive.
interrupt_transfer :
    {k : Kernel} {l : Queues} (s : BlockedStatus) (x : Ptr)
    → (s ≡ send) ⊎ (s ≡ receive)
    → Rep k l
    → x ≢ null
    → has x (l blocked_queue) ≡ true
    → Returns (λ _ k'. Interrupted k l x k') (interrupt s x k)
unfolding interrupt remove_pcb_from_blocked_queue
interrupt_transfer {k} {l} s x which is ne m = elim which [
  | inl e ↦ rw e steps
  | inr e ↦ rw e steps
]
  where
    steps : Returns (λ _ k'. Interrupted k l x k') (interrupt send x k)
    steps =
        rw (update-done x k ne signaled, ==_of_ne x null ne)
          (bind (pcb_remove_lem blocked_queue x (Rep-put_pcb x signaled (λ p. refl) is))
            λ b k1 (found, b1).
              mono
                (add_pcb_to_ready_queue_lem x b1.rep ne (
                  removed-IsFree blocked_queue x (Rep-put_pcb {k = k} x signaled (λ p. refl) is) m))
                λ u k2 b2.
                  from_put x signaled (edit x readied) (compose_edit x readied (λ p. refl) b1 b2))

module _ (k : Kernel) (x : Ptr) (signal : ℤ) (ne : x ≢ null) (valid : in_table signal ≡ true) where
  -- A signal in the table's range that its non-NULL target has no handler for returns 0 and changes
  -- nothing.
  pub set_pcb_signal_ignored :
      handler_of k (k.pcb x) (pos_part signal) ≡ null → set_pcb_signal x signal k ≡ done (pos 0) k
  unfolding set_pcb_signal
  set_pcb_signal_ignored none = rw (==_of_ne x null ne, valid, load-done x k ne, none)

  module _ (handled : handler_of k (k.pcb x) (pos_part signal) ≢ null)
      (sleeps : (k.pcb x).state ≡ blocked) where
    -- A signal in the table's range that its non-NULL target handles halts the kernel if the target
    -- is blocked in a read from a device.
    pub set_pcb_signal_device :
        (k.pcb x).blocked_status ≡ device → set_pcb_signal x signal k ≡ halted
    unfolding set_pcb_signal interrupt
    set_pcb_signal_device d =
        rw (==_of_ne x null ne, valid, load-done x k ne, ==_of_ne _ null handled)
          (rw (update-done x k ne (marked (pos_part signal)), sleeps, d))

    -- A signal in the table's range that its target handles, to a non-NULL process blocked in a
    -- send or a receive that stands in the blocked queue of well-formed queues: `set_pcb_signal`
    -- returns 0, the call that blocks gets the result -99, the bit is pending, and the process
    -- leaves the blocked queue for the end of the ready queue. Every other process and queue stays
    -- as it is.
    pub set_pcb_signal_transfer :
        {l : Queues}
        → Rep k l
        → has x (l blocked_queue) ≡ true
        → ((k.pcb x).blocked_status ≡ send) ⊎ ((k.pcb x).blocked_status ≡ receive)
        → Returns
            (λ r k'.
              (r ≡ pos 0)
              × Becomes k
                  (edit x readied (edit x signaled (edit x (marked (pos_part signal)) k.pcb)))
                  (offered ready_queue x (put_list blocked_queue (remove x (l blocked_queue)) l))
                  k')
            (set_pcb_signal x signal k)
    unfolding set_pcb_signal
    set_pcb_signal_transfer {l} is m which =
        let mark = marked (pos_part signal) in
        rw (==_of_ne x null ne, valid, load-done x k ne, ==_of_ne _ null handled)
          (rw (update-done x k ne mark, ap is_blocked sleeps)
            (bind
              (interrupt_transfer (k.pcb x).blocked_status x which
                (Rep-put_pcb {k = k} x mark (λ p. refl) is) ne m)
              λ u k' b.
                returns (refl, from_put x mark (λ h. edit x readied (edit x signaled h)) b)))
