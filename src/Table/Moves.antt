-- ===== src/Table/Moves.antt =====
-- The functions of c/pcb.c that put one process into a queue, and those that take one out.
use xeros_kernel.Base.{◌+◌, ◌≡◌, refl, ◌≢◌, List, [], ◌∷◌, ◌++◌, ==_of_ne}
use xeros_kernel.Kernel.Config.{Ptr, null}
use xeros_kernel.Kernel.Types.{
  Pcb, Kernel, QueueId, ready, stopped, running, blocked, unblocked, stopped_queue, ready_queue,
  blocked_queue,
}
use xeros_kernel.Kernel.Cmd.{fault, put_pcb, update_pcb, Returns, returns}
use xeros_kernel.Kernel.Access.{update-done, bind, mono, fails_after}
use xeros_kernel.Queue.{pcb_offer}
use xeros_kernel.Queue.Rep.{Queues, put_list, IsFree, Rep, IsQueue}
use xeros_kernel.Queue.Becomes.{Becomes, Queued, edit, Rep-put_pcb, edit_after}
use xeros_kernel.Queue.Ends.{pcb_poll_lem, pcb_offer_lem}
use xeros_kernel.Table.{
  next_pid, add_pcb_to_stopped_queue, add_pcb_to_ready_queue, add_pcb_to_blocked_queue,
  get_next_pcb,
}

-- What the functions write into the control block that they move.
abbrev pub readied : Pcb → Pcb
readied p = record p { state = ready; blocked_status = unblocked }

abbrev pub blocks : Pcb → Pcb
blocks p = record p { state = blocked }

abbrev pub retired : Pcb → Pcb
retired p = record p { pid = next_pid p.pid; cpu_time = 0; state = stopped }

abbrev pub scheduled : Pcb → Pcb
scheduled p = record p { state = running; cpu_time = p.cpu_time + 1 }

-- The contents with `x` at the end of queue `q`.
abbrev pub offered : QueueId → Ptr → Queues → Queues
offered q x l = put_list q (l q ++ (x ∷ [])) l

-- A write that keeps the `next` pointer, and then `pcb_offer`.
pub write_offer :
    {k : Kernel} {l : Queues} (q : QueueId) (x : Ptr) (f : Pcb → Pcb)
    → ((p : Pcb) → (f p).next ≡ p.next)
    → Rep k l
    → x ≢ null
    → IsFree l x
    → Returns
        (λ _ k'. Becomes k (edit x f k.pcb) (offered q x l) k')
        (pcb_offer q x (put_pcb x f k))
unfolding put_pcb
write_offer {k} {l} q x f keep is ne free =
    mono (pcb_offer_lem q x (Rep-put_pcb x f keep is) ne free) widen
  where
    widen :
        (a : Unit {0}) (k' : Kernel)
        → Queued (put_pcb x f k) (offered q x l) k'
        → Becomes k (edit x f k.pcb) (offered q x l) k'
    widen a k' b = record { rep = b.rep; same = b.same; others = b.others }

module _ {k : Kernel} {l : Queues} (x : Ptr) (is : Rep k l) (ne : x ≢ null)
    (free : IsFree l x) where
  pub add_pcb_to_ready_queue_lem :
      Returns
        (λ _ k'. Becomes k (edit x readied k.pcb) (offered ready_queue x l) k')
        (add_pcb_to_ready_queue x k)
  unfolding add_pcb_to_ready_queue
  add_pcb_to_ready_queue_lem =
      rw (==_of_ne x null ne, update-done x k ne readied)
        (write_offer ready_queue x readied (λ p. refl) is ne free)

  pub add_pcb_to_blocked_queue_lem :
      Returns
        (λ _ k'. Becomes k (edit x blocks k.pcb) (offered blocked_queue x l) k')
        (add_pcb_to_blocked_queue x k)
  unfolding add_pcb_to_blocked_queue
  add_pcb_to_blocked_queue_lem =
      rw (==_of_ne x null ne, update-done x k ne blocks)
        (write_offer blocked_queue x blocks (λ p. refl) is ne free)

  -- If the queues are well formed and the non-NULL process `x` stands in none,
  -- `add_pcb_to_stopped_queue` returns and puts it at the end of the stopped queue, stopped, with
  -- the next pid of its slot and no CPU time; nothing else changes.
  pub add_pcb_to_stopped_queue_lem :
      Returns
        (λ _ k'. Becomes k (edit x retired k.pcb) (offered stopped_queue x l) k')
        (add_pcb_to_stopped_queue x k)
  unfolding add_pcb_to_stopped_queue
  add_pcb_to_stopped_queue_lem =
      rw (update-done x k ne retired) (write_offer stopped_queue x retired (λ p. refl) is ne free)

-- If the queues are well formed and `x` is the first ready process, `get_next_pcb` returns it,
-- takes it off the ready queue, marks it running and counts the turn in its `cpu_time`; nothing
-- else changes.
pub get_next_pcb_lem :
    {k : Kernel} {l : Queues} (x : Ptr) (xs : List Ptr)
    → Rep k l
    → l ready_queue ≡ x ∷ xs
    → Returns
        (λ p k'. (p ≡ x) × Becomes k (edit x scheduled k.pcb) (put_list ready_queue xs l) k')
        (get_next_pcb k)
unfolding get_next_pcb
get_next_pcb_lem {k} {l} x xs is e =
    let i : IsQueue k.pcb (k.queue ready_queue) (x ∷ xs) = rw e at (is.each ready_queue) in
    bind (pcb_poll_lem ready_queue (x ∷ xs) is e) λ p k' (eq, b).
      rw (eq, update-done x k' i.chain.1 scheduled)
        (returns (refl, edit_after x scheduled (λ p. refl) (λ p. refl) b))

-- If the queues are well formed and no process is ready, `get_next_pcb` writes through NULL.
pub get_next_pcb-fault :
    {k : Kernel} {l : Queues} → Rep k l → l ready_queue ≡ [] → get_next_pcb k ≡ fault
unfolding get_next_pcb update_pcb
get_next_pcb-fault is e = fails_after (pcb_poll_lem ready_queue [] is e) λ p k' (eq, b). rw eq
