-- ===== src/Process/Retire.antt =====
-- The end of a process: what `cleanup_pcb` of c/pcb.c does before it gives the memory back.
use xeros_kernel.Base.{
  ℕ, ◌≡◌, refl, ◌≢◌, ◌∙◌, sym, ap, false, List, [], ◌∷◌, ◌++◌, arith, Bool-cases, inl, inr, has,
  has-append, remove_absent, ==_of_ne,
}
use xeros_kernel.Kernel.Config.{Ptr, null}
use xeros_kernel.Kernel.Types.{
  Pcb, Kernel, QueueId, same_queue, stopped_queue, ready_queue, blocked_queue, sleep_queue,
}
use xeros_kernel.Kernel.Cmd.{Returns}
use xeros_kernel.Kernel.Access.{load-done, bind, mono}
use xeros_kernel.Queue.{pcb_remove}
use xeros_kernel.Queue.Chain.{Store}
use xeros_kernel.Queue.Rep.{Queues, put_list, IsFree, Rep, eq_of_same_queue}
use xeros_kernel.Queue.Becomes.{Becomes, Queued, edit, relist, compose, compose_with, compose_edit}
use xeros_kernel.Queue.Remove.{pcb_remove_lem}
use xeros_kernel.Table.{remove_pcb_from_ready_queue, remove_pcb_from_blocked_queue}
use xeros_kernel.Table.Moves.{offered, retired, add_pcb_to_stopped_queue_lem}
use xeros_kernel.Table.Unblock.{
  waiting_for, not_waiting_for, settle_all, waiting_same, settle_all_blind,
  unblock_pcb_waiting_for_pid_lem,
}
use xeros_kernel.Sleep.{remove_pcb_from_sleep_queue}
use xeros_kernel.Process.{retire}

-- Taking a free process out of a queue changes nothing.
pcb_remove-absent :
    {k : Kernel} {l : Queues} (q : QueueId) (x : Ptr)
    → Rep k l
    → IsFree l x
    → Returns (λ b k'. (b ≡ false) × Queued k l k') (pcb_remove q x k)
pcb_remove-absent {k} {l} q x is free = mono (pcb_remove_lem q x is) λ b k1 (e, b1). (
  e ∙ free q,
  relist b1 (λ r. elim (Bool-cases (same_queue r q)) [
    | inl s ↦ rw s (remove_absent x (l q) (free q) ∙ ap l (sym (eq_of_same_queue r q s)))
    | inr s ↦ rw s refl
  ]),
)

has-waiting_for :
    (a pid : ℕ) (h : Store) (xs : List Ptr)
    → has a xs ≡ false
    → has a (waiting_for pid h xs) ≡ false
unfolding waiting_for
has-waiting_for a pid h [] out = refl
has-waiting_for a pid h (x ∷ xs) out = ground (arith, has-waiting_for a pid h xs)

has-not_waiting_for :
    (a pid : ℕ) (h : Store) (xs : List Ptr)
    → has a xs ≡ false
    → has a (not_waiting_for pid h xs) ≡ false
unfolding not_waiting_for
has-not_waiting_for a pid h [] out = refl
has-not_waiting_for a pid h (x ∷ xs) out = ground (arith, has-not_waiting_for a pid h xs)

-- The contents after the waiters for `pid` were released.
abbrev pub released : ℕ → Kernel → Queues → Queues
released pid k l =
    put_list ready_queue (l ready_queue ++ waiting_for pid k.pcb (l blocked_queue))
      (put_list blocked_queue (not_waiting_for pid k.pcb (l blocked_queue)) l)

released-IsFree : (x pid : ℕ) (k : Kernel) (l : Queues) → IsFree l x → IsFree (released pid k l) x
released-IsFree x pid k l free r = elim (Bool-cases (same_queue r ready_queue)) [
  | inl e ↦
      let a = has-append x (l ready_queue) (waiting_for pid k.pcb (l blocked_queue)) in
      let w = has-waiting_for x pid k.pcb (l blocked_queue) (free blocked_queue) in
      rw (e, a, free ready_queue, w) refl
  | inr e ↦ rw e (elim (Bool-cases (same_queue r blocked_queue)) [
    | inl s ↦ rw s (has-not_waiting_for x pid k.pcb (l blocked_queue) (free blocked_queue))
    | inr s ↦ rw s (free r)
  ])
]

-- If the queues are well formed and the non-NULL process `x` stands in none, the part of
-- `cleanup_pcb` before the memory is given back returns: the blocked processes whose `blocked_id`
-- is the pid of `x` are at the end of the ready queue, in their order, and the other blocked ones
-- stay; `x` stands at the end of the stopped queue, stopped, with the next pid of its slot. Nothing
-- else changes.
pub retire_lem :
    {k : Kernel} {l : Queues} (x : Ptr)
    → Rep k l
    → x ≢ null
    → IsFree l x
    → Returns
        (λ _ k'.
          Becomes k
            (edit x retired (settle_all (k.pcb x).pid (l blocked_queue) k.pcb))
            (offered stopped_queue x (released (k.pcb x).pid k l))
            k')
        (retire x k)
unfolding retire remove_pcb_from_ready_queue remove_pcb_from_blocked_queue
    remove_pcb_from_sleep_queue
retire_lem {k} {l} x is ne free = rw (==_of_ne x null ne) (
    bind (pcb_remove-absent ready_queue x is free) λ _ k1 (_, b1).
      bind (pcb_remove-absent blocked_queue x b1.rep free) λ _ k2 (_, b2).
        bind (pcb_remove-absent sleep_queue x b2.rep free) λ _ k3 (_, b3).
          let b : Queued k l k3 = compose (compose b1 b2) b3 in
          rw (load-done x k3 ne, ap (λ (p : Pcb). p.pid) (b.same x))
            (bind (unblock_pcb_waiting_for_pid_lem (k.pcb x).pid b.rep) λ _ k4 b4.
              let c = settled b b4 in
              mono
                (add_pcb_to_stopped_queue_lem x c.rep ne (released-IsFree x (k.pcb x).pid k l free))
                λ _ k5 b5. compose_edit x retired (λ p. refl) c b5))
  where
    settled :
        {k3 k4 : Kernel}
        → Queued k l k3
        → Becomes k3
            (settle_all (k.pcb x).pid (l blocked_queue) k3.pcb)
            (released (k.pcb x).pid k3 l)
            k4
        → Becomes k
            (settle_all (k.pcb x).pid (l blocked_queue) k.pcb)
            (released (k.pcb x).pid k l)
            k4
    settled {k3} {k4} b b4 =
        let ws =
          waiting_same (k.pcb x).pid k.pcb k3.pcb (l blocked_queue)
            (λ a m. ap (λ (p : Pcb). p.blocked_id) (b.same a)) in
        compose_with (settle_all (k.pcb x).pid (l blocked_queue))
          (λ a e. settle_all_blind (k.pcb x).pid (l blocked_queue) k3.pcb k.pcb a e) b
          (rw (ws.0, ws.1) at b4)
