-- ===== src/Message/Receive.antt =====
-- `recv` of c/msg.c from a process that is blocked in a send: when the message is taken.
use xeros_kernel.Base.{
  ℕ, ◌≡◌, refl, ◌≢◌, ◌∙◌, sym, ap, Bool, true, false, not, ◌&&◌, ◌==◌, arith, has, remove, ==_of_ne,
}
use xeros_kernel.Base.Int.{ℤ, pos}
use xeros_kernel.Kernel.Config.{Ptr, null}
use xeros_kernel.Kernel.Types.{Pcb, Kernel, blocked_queue, ready_queue}
use xeros_kernel.Kernel.Bytes.{Mem, Blkcopy, Copied, copy-Copied}
use xeros_kernel.Kernel.Cmd.{Returns}
use xeros_kernel.Kernel.Access.{load-done, bind, mono}
use xeros_kernel.Queue.Rep.{Queues, put_list, IsFree, Rep, unlinked}
use xeros_kernel.Queue.Becomes.{Becomes, Queued, edit, compose}
use xeros_kernel.Queue.Remove.{pcb_remove_lem}
use xeros_kernel.Table.{is_send, remove_pcb_from_blocked_queue}
use xeros_kernel.Table.Moves.{offered, readied}
use xeros_kernel.Table.Peek.{first_with, peek_next_sender_lem}
use xeros_kernel.Signal.Pending.{removed-IsFree}
use xeros_kernel.Message.{buffer_of, buffer_len_of, min_ℤ, recv_from, recv}
use xeros_kernel.Message.Release.{delivered, release_lem, twice_blind}

module _ (lib : Blkcopy) (from curr buffer : Ptr) (len : ℤ) where
  -- The length that is copied, and the memory then.
  abbrev pub taken_length : Kernel → ℤ
  taken_length k = min_ℤ len (buffer_len_of k from)

  abbrev pub received : Kernel → Kernel
  received k = record k { mem = lib.copy k.mem buffer (buffer_of k from) (taken_length k) }

  -- What a receive that takes the message leaves.
  abbrev pub Took : Kernel → Queues → ℤ → Kernel → Type 0
  Took k l r k' =
      (r ≡ taken_length k)
      × Becomes (received k) (edit from (delivered (taken_length k)) (edit from readied k.pcb))
          (offered ready_queue from l) k'

  recv_from_match :
      {k : Kernel} {l : Queues} (exists : Bool)
      → Rep k l
      → from ≢ null
      → curr ≢ null
      → IsFree l from
      → (exists && not ((k.pcb from).blocked_id == (k.pcb curr).pid)) ≡ false
      → Returns (λ r k'. Took k l r k') (recv_from lib exists from curr buffer len k)
  unfolding recv_from
  recv_from_match {k} exists is nf nc free e =
      rw (load-done from k nf, load-done curr k nc)
        (rw e (
          release_lem {k = received k} from (taken_length k)
            (record { each = is.each; apart = is.apart }) nf free))

  -- A queue operation in front of a transfer makes no difference to it.
  taken_after :
      {k k2 : Kernel} {l l' : Queues} (r : ℤ) (k3 : Kernel)
      → Queued k l k2
      → Took k2 l' r k3
      → Took k l' r k3
  unfolding buffer_of buffer_len_of
  taken_after {k} {k2} r k3 b (er, c) = (
    er ∙ n,
    record {
      rep = c.rep;
      same = λ a.
          c.same a
          ∙ ap (λ m. unlinked (edit from (delivered m) (edit from readied k2.pcb) a)) n
          ∙ twice_blind k2.pcb k.pcb from readied (delivered (taken_length k)) (λ p. refl) a b.same;
      others =
          c.others
          ∙ ap (λ (m : Mem). record k2 { pcb = k3.pcb; queue = k3.queue; mem = m }) copied
          ∙ ap (λ (j : Kernel). record j { pcb = k3.pcb; queue = k3.queue; mem = (received k).mem })
              b.others;
    },
  )
    where
      args : (k2.pcb from).args ≡ (k.pcb from).args
      args = ap (λ (p : Pcb). p.args) (b.same from)

      memory : k2.mem ≡ k.mem
      memory = ap (λ (j : Kernel). j.mem) b.others

      n : taken_length k2 ≡ taken_length k
      n = rw (args, memory)

      copied : (received k2).mem ≡ (received k).mem
      copied = rw (args, memory)

  module _ {k : Kernel} {l : Queues} (is : Rep k l) (nf : from ≢ null) (nc : curr ≢ null)
      (there : has from (l blocked_queue) ≡ true) where
    -- What `recv` of a blocked process that waits for the receiver does, whatever the length.
    recv_passes :
        (k.pcb from).blocked_id ≡ (k.pcb curr).pid
        → Returns
            (λ r k'. Took k (put_list blocked_queue (remove from (l blocked_queue)) l) r k')
            (recv lib from curr buffer len k)
    unfolding recv remove_pcb_from_blocked_queue
    recv_passes e =
        rw (==_of_ne from null nf, ==_of_ne from null nf)
          (bind (pcb_remove_lem blocked_queue from is) λ t k2 (et, b).
            let ids : (k2.pcb from).blocked_id ≡ (k2.pcb curr).pid =
              ap (λ (p : Pcb). p.blocked_id) (b.same from)
              ∙ e
              ∙ sym (ap (λ (p : Pcb). p.pid) (b.same curr)) in
            rw (et, there)
              (mono
                (recv_from_match true b.rep nf nc (removed-IsFree blocked_queue from is there)
                  (ground (arith, ids)))
                λ r k3 d.
                  taken_after {l' = put_list blocked_queue (remove from (l blocked_queue)) l} r k3 b
                    d))

    -- If the queues are well formed, the process named by a receive stands in the blocked queue and
    -- its `blocked_id` is the receiver's pid (both pointers not NULL), and `n`, not negative, is
    -- the smaller of the two buffer lengths, then `recv` returns `n`, copies `n` bytes into the
    -- receiver's buffer, and moves the other process from the blocked queue to the end of the ready
    -- queue, ready, with `blocked_id` 0 and `n` as its result. No other control block, queue or
    -- part of the state changes, and no byte of memory outside the receiver's `n` bytes.
    pub recv_takes :
        (n : ℕ)
        → (k.pcb from).blocked_id ≡ (k.pcb curr).pid
        → taken_length k ≡ pos n
        → Returns
            (λ r k'.
              (r ≡ pos n)
              × Copied buffer (buffer_of k from) n k.mem k'.mem
              × Becomes
                  (record k { mem = k'.mem })
                  (edit from (delivered (pos n)) (edit from readied k.pcb))
                  (offered ready_queue from
                    (put_list blocked_queue (remove from (l blocked_queue)) l))
                  k')
            (recv lib from curr buffer len k)
    recv_takes n e long = mono (recv_passes e) λ r k' (er, b).
        let memory = ap (λ (j : Kernel). j.mem) b.others in
        (
          er ∙ long,
          copy-Copied lib k.mem k'.mem buffer (buffer_of k from) n (taken_length k) long memory,
          record {
            rep = b.rep;
            same = λ a.
                b.same a
                ∙ ap (λ z. unlinked (edit from (delivered z) (edit from readied k.pcb) a)) long;
            others =
                b.others
                ∙ ap (λ m. record k { pcb = k'.pcb; queue = k'.queue; mem = m }) (sym memory);
          },
        )

    -- If the queues are well formed and a process (not NULL) is the first in the blocked queue that
    -- waits in a send, to whichever pid, then `recv` from any process by a non-NULL receiver takes
    -- its message: it returns the smaller of the two buffer lengths, `blkcopy` copies that many
    -- bytes into the receiver's buffer, and `recv` moves the sender from the blocked queue to the
    -- end of the ready queue, ready, with `blocked_id` 0 and the length as its result. Nothing else
    -- changes.
    pub recv_takes_any :
        first_with (λ e. is_send e.blocked_status) k.pcb (l blocked_queue) ≡ from
        → Returns
            (λ r k'. Took k (put_list blocked_queue (remove from (l blocked_queue)) l) r k')
            (recv lib null curr buffer len k)
    unfolding recv remove_pcb_from_blocked_queue
    recv_takes_any e = bind (peek_next_sender_lem is) λ p k1 (ep, b1).
        rw (ep, e, ==_of_ne from null nf)
          (bind (pcb_remove_lem blocked_queue from b1.rep) λ t k2 (et, b2).
            rw (et, there)
              (mono
                (recv_from_match false (compose b1 b2).rep nf nc
                  (removed-IsFree blocked_queue from is there) refl)
                λ r k3 d.
                  taken_after {l' = put_list blocked_queue (remove from (l blocked_queue)) l} r k3
                    (compose b1 b2) d))
