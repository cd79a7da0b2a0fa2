-- ===== src/Message/Release.antt =====
-- The ends of a transfer of c/msg.c: the other process goes on, or the current one blocks. Also what
-- a write that does not look at `next` pointers leaves equal.
use xeros_kernel.Base.{
  ℕ, ◌≡◌, refl, ◌≢◌, ◌∙◌, sym, ap, [], ◌∷◌, ◌==◌, Bool-cases, inl, inr, has-append, ==_of_ne,
  ==_refl,
}
use xeros_kernel.Base.Int.{ℤ}
use xeros_kernel.Kernel.Config.{Ptr, null, blockerr}
use xeros_kernel.Kernel.Types.{
  Pcb, Kernel, QueueId, same_queue, BlockedStatus, blocked_queue, ready_queue,
}
use xeros_kernel.Kernel.Cmd.{Returns, returns}
use xeros_kernel.Kernel.Access.{update-done, bind}
use xeros_kernel.Queue.Chain.{Store}
use xeros_kernel.Queue.Rep.{Queues, IsFree, Rep, unlinked}
use xeros_kernel.Queue.Becomes.{Becomes, edit, edit_after, Rep-put_pcb, from_put}
use xeros_kernel.Table.Moves.{
  offered, readied, blocks, add_pcb_to_ready_queue_lem, add_pcb_to_blocked_queue_lem,
}
use xeros_kernel.Message.{block_on, release}

abbrev pub delivered : ℤ → Pcb → Pcb
delivered n p = record p { blocked_id = 0; ret = n }

abbrev pub waits_for : BlockedStatus → ℕ → Pcb → Pcb
waits_for status id p = record p { blocked_status = status; blocked_id = id }

-- `release` makes the other process ready, with the length for its result.
pub release_lem :
    {k : Kernel} {l : Queues} (x : Ptr) (n : ℤ)
    → Rep k l
    → x ≢ null
    → IsFree l x
    → Returns
        (λ r k'.
          (r ≡ n)
          × Becomes k (edit x (delivered n) (edit x readied k.pcb)) (offered ready_queue x l) k')
        (release x n k)
unfolding release
release_lem x n is ne free = bind (add_pcb_to_ready_queue_lem x is ne free) λ u k1 b1.
    rw (update-done x k1 ne (delivered n))
      (returns (refl, edit_after x (delivered n) (λ p. refl) (λ p. refl) b1))

-- `block_on` puts the current process at the end of the blocked queue.
pub block_on_lem :
    {k : Kernel} {l : Queues} (status : BlockedStatus) (c : Ptr) (id : ℕ)
    → Rep k l
    → c ≢ null
    → IsFree l c
    → Returns
        (λ r k'.
          (r ≡ blockerr)
          × Becomes k
              (edit c blocks (edit c (waits_for status id) k.pcb))
              (offered blocked_queue c l)
              k')
        (block_on status c id k)
unfolding block_on
block_on_lem {k} status c id is ne free =
    let wait = waits_for status id in
    rw (update-done c k ne wait) (
      bind (add_pcb_to_blocked_queue_lem c (Rep-put_pcb c wait (λ p. refl) is) ne free)
        λ u k1 b1. returns (refl, from_put c wait (edit c blocks) b1))

-- A process in no queue is in none after another one is put into a queue.
pub IsFree-offered :
    (q : QueueId) (c x : Ptr) (l : Queues) → IsFree l c → c ≢ x → IsFree (offered q x l) c
IsFree-offered q c x l out ne r = elim (Bool-cases (same_queue r q)) [
  | inl e ↦ rw (e, has-append c (l q) (x ∷ []), out q, ==_of_ne c x ne) refl
  | inr e ↦ rw e (out r)
]

-- One write that does not look at `next`.
pub edit_blind :
    (h g : Store) (x : Ptr) (f : Pcb → Pcb)
    → ((p : Pcb) → unlinked (f p) ≡ unlinked (f (unlinked p)))
    → ((a : Ptr) → unlinked (h a) ≡ unlinked (g a))
    → (a : Ptr) → unlinked (edit x f h a) ≡ unlinked (edit x f g a)
edit_blind h g x f blind same a = elim (Bool-cases (a == x)) [
  | inl e ↦ rw e (blind (h x) ∙ ap (λ p. unlinked (f p)) (same x) ∙ sym (blind (g x)))
  | inr e ↦ rw e (same a)
]

-- Two writes to the same control block, neither of which looks at `next`.
pub twice_blind :
    (h g : Store) (x : Ptr) (f1 f2 : Pcb → Pcb)
    → ((p : Pcb) → unlinked (f2 (f1 p)) ≡ unlinked (f2 (f1 (unlinked p))))
    → (a : Ptr) → ((a : Ptr) → unlinked (h a) ≡ unlinked (g a))
    → unlinked (edit x f2 (edit x f1 h) a) ≡ unlinked (edit x f2 (edit x f1 g) a)
twice_blind h g x f1 f2 blind a same = elim (Bool-cases (a == x)) [
  | inl e ↦
      rw (e, ==_refl x) (blind (h x) ∙ ap (λ p. unlinked (f2 (f1 p))) (same x) ∙ sym (blind (g x)))
  | inr e ↦ rw e (same a)
]
