-- ===== src/Message/Send.antt =====
-- `send` of c/msg.c to a process that is blocked: when the message is delivered, and when not.
use xeros_kernel.Base.{
  ℕ, ◌≡◌, refl, ◌≢◌, ◌∙◌, sym, ap, true, false, not, ◌&&◌, arith, ◌==◌, Bool-cases, inl, inr, has,
  remove, has-remove, ==_of_ne,
}
use xeros_kernel.Base.Int.{ℤ, pos}
use xeros_kernel.Kernel.Config.{Ptr, null, blockerr}
use xeros_kernel.Kernel.Types.{Pcb, Kernel, same_queue, BlockedStatus, blocked_queue, ready_queue}
use xeros_kernel.Kernel.Bytes.{Mem, Blkcopy, Copied, copy-Copied}
use xeros_kernel.Kernel.Cmd.{Returns}
use xeros_kernel.Kernel.Access.{load-done, bind, mono}
use xeros_kernel.Queue.Rep.{Queues, put_list, IsFree, Rep, unlinked}
use xeros_kernel.Queue.Becomes.{Becomes, Queued, edit, compose, compose_with}
use xeros_kernel.Queue.Remove.{pcb_remove_lem}
use xeros_kernel.Table.{remove_pcb_from_blocked_queue}
use xeros_kernel.Table.Moves.{offered, readied, blocks, add_pcb_to_blocked_queue_lem}
use xeros_kernel.Table.Peek.{peek_any_receiver_lem}
use xeros_kernel.Signal.Pending.{removed-IsFree}
use xeros_kernel.Message.{buffer_of, buffer_len_of, min_ℤ, send_to, send}
use xeros_kernel.Message.Release.{
  delivered, waits_for, release_lem, block_on_lem, IsFree-offered, edit_blind, twice_blind,
}

module _ (lib : Blkcopy) (curr dest buffer : Ptr) (len : ℤ) where
  -- The length that is copied.
  abbrev pub transfer_length : Kernel → ℤ
  transfer_length k = min_ℤ len (buffer_len_of k dest)

  abbrev pub transferred : Kernel → Kernel
  transferred k = record k { mem = lib.copy k.mem (buffer_of k dest) buffer (transfer_length k) }

  module _ {k : Kernel} {l : Queues} (is : Rep k l) (nd : dest ≢ null) (nc : curr ≢ null)
      (free : IsFree l dest) where
    send_to_match :
        (k.pcb dest).blocked_id ≡ (k.pcb curr).pid
        → Returns
            (λ r k'.
              (r ≡ transfer_length k)
              × Becomes
                  (transferred k)
                  (edit dest (delivered (transfer_length k)) (edit dest readied k.pcb))
                  (offered ready_queue dest l)
                  k')
            (send_to lib curr dest buffer len k)
    unfolding send_to
    send_to_match e =
        let t : (not ((k.pcb dest).pid == 0) && not ((k.pcb dest).blocked_id == (k.pcb curr).pid))
            ≡ false =
          ground arith in
        rw (load-done dest k nd, load-done curr k nc)
          (rw t (
            release_lem {k = transferred k} dest (transfer_length k)
              (record { each = is.each; apart = is.apart }) nd free))

    -- The receiver waits for another process, or for any: both processes end up blocked.
    send_to_mismatch :
        (k.pcb dest).pid ≢ 0
        → (k.pcb dest).blocked_id ≢ (k.pcb curr).pid
        → curr ≢ dest
        → IsFree l curr
        → Returns
            (λ r k'.
              (r ≡ blockerr)
              × Becomes k
                  (edit curr blocks (
                    edit curr
                      (waits_for BlockedStatus.send (k.pcb dest).pid)
                      (edit dest blocks k.pcb)))
                  (offered blocked_queue curr (offered blocked_queue dest l))
                  k')
            (send_to lib curr dest buffer len k)
    unfolding send_to
    send_to_mismatch some_pid other apart fc =
        let t : (not ((k.pcb dest).pid == 0) && not ((k.pcb dest).blocked_id == (k.pcb curr).pid))
            ≡ true =
          ground arith in
        let wait = waits_for BlockedStatus.send (k.pcb dest).pid in
        rw (load-done dest k nd, load-done curr k nc)
          (rw t (
            bind (add_pcb_to_blocked_queue_lem dest is nd free) λ u k1 b1.
              mono
                (block_on_lem BlockedStatus.send curr (k.pcb dest).pid b1.rep nc
                  (IsFree-offered blocked_queue curr dest l fc apart))
                λ r k2 (e, b2). (
                  e,
                  compose_with (λ h. edit curr blocks (edit curr wait h))
                      (λ a e.
                        twice_blind k1.pcb (edit dest blocks k.pcb) curr wait blocks (λ p. refl) a
                          b1.same)
                      b1 b2,
                )))

  -- A queue operation in front of a transfer makes no difference to it.
  transfer_after :
      {k k2 k3 : Kernel} {l l' : Queues}
      → Queued k l k2
      → Becomes
          (transferred k2)
          (edit dest (delivered (transfer_length k2)) (edit dest readied k2.pcb))
          l'
          k3
      → (transfer_length k2 ≡ transfer_length k)
        × Becomes
            (transferred k)
            (edit dest (delivered (transfer_length k)) (edit dest readied k.pcb))
            l'
            k3
  unfolding buffer_of buffer_len_of
  transfer_after {k} {k2} {k3} b c = (
    n,
    record {
      rep = c.rep;
      same = λ a.
          c.same a
          ∙ ap (λ m. unlinked (edit dest (delivered m) (edit dest readied k2.pcb) a)) n
          ∙ twice_blind k2.pcb k.pcb dest readied (delivered (transfer_length k)) (λ p. refl) a
              b.same;
      others =
          c.others
          ∙ ap (λ (m : Mem). record k2 { pcb = k3.pcb; queue = k3.queue; mem = m }) copied
          ∙ ap
              (λ (j : Kernel). record j {
                pcb = k3.pcb;
                queue = k3.queue;
                mem = (transferred k).mem;
              })
              b.others;
    },
  )
    where
      args : (k2.pcb dest).args ≡ (k.pcb dest).args
      args = ap (λ (p : Pcb). p.args) (b.same dest)

      memory : k2.mem ≡ k.mem
      memory = ap (λ (j : Kernel). j.mem) b.others

      n : transfer_length k2 ≡ transfer_length k
      n = rw (args, memory)

      copied : (transferred k2).mem ≡ (transferred k).mem
      copied = rw (args, memory)

  module _ {k : Kernel} {l : Queues} (is : Rep k l) (nd : dest ≢ null) (nc : curr ≢ null)
      (there : has dest (l blocked_queue) ≡ true) where
    -- What `send` to a blocked process that waits for the sender does, whatever the length.
    pub send_passes :
        (k.pcb dest).blocked_id ≡ (k.pcb curr).pid
        → Returns
            (λ r k'.
              (r ≡ transfer_length k)
              × Becomes
                  (transferred k)
                  (edit dest (delivered (transfer_length k)) (edit dest readied k.pcb))
                  (offered ready_queue dest
                    (put_list blocked_queue (remove dest (l blocked_queue)) l))
                  k')
            (send lib curr dest buffer len k)
    unfolding send remove_pcb_from_blocked_queue
    send_passes e = bind (peek_any_receiver_lem is) λ p k1 (_, b1). rw (==_of_ne dest null nd) (
        bind (pcb_remove_lem blocked_queue dest b1.rep) λ t k2 (et, b2).
          let b : Queued k (put_list blocked_queue (remove dest (l blocked_queue)) l) k2 =
            compose b1 b2 in
          let ids : (k2.pcb dest).blocked_id ≡ (k2.pcb curr).pid =
            ap (λ (p : Pcb). p.blocked_id) (b.same dest)
            ∙ e
            ∙ sym (ap (λ (p : Pcb). p.pid) (b.same curr)) in
          rw (et, there)
            (mono (send_to_match b.rep nd nc (removed-IsFree blocked_queue dest is there) ids)
              λ r k3 (er, b3). let t = transfer_after b b3 in (er ∙ t.0, t.1)))

    -- If the queues are well formed, the destination stands in the blocked queue and its
    -- `blocked_id` is the sender's pid (both pointers not NULL), and `n`, not negative, is the
    -- smaller of the two buffer lengths, then `send` returns `n`, copies `n` bytes from the
    -- sender's buffer to the destination's, and moves the destination from the blocked queue to the
    -- end of the ready queue, ready, with `blocked_id` 0 and `n` as its result. No other control
    -- block, queue or part of the state changes, and no byte of memory outside the destination's
    -- `n` bytes.
    pub send_delivers :
        (n : ℕ)
        → (k.pcb dest).blocked_id ≡ (k.pcb curr).pid
        → transfer_length k ≡ pos n
        → Returns
            (λ r k'.
              (r ≡ pos n)
              × Copied (buffer_of k dest) buffer n k.mem k'.mem
              × Becomes
                  (record k { mem = k'.mem })
                  (edit dest (delivered (pos n)) (edit dest readied k.pcb))
                  (offered ready_queue dest
                    (put_list blocked_queue (remove dest (l blocked_queue)) l))
                  k')
            (send lib curr dest buffer len k)
    send_delivers n e long = mono (send_passes e) λ r k' (er, b).
        let memory = ap (λ (j : Kernel). j.mem) b.others in
        (
          er ∙ long,
          copy-Copied lib k.mem k'.mem (buffer_of k dest) buffer n (transfer_length k) long memory,
          record {
            rep = b.rep;
            same = λ a.
                b.same a
                ∙ ap (λ z. unlinked (edit dest (delivered z) (edit dest readied k.pcb) a)) long;
            others =
                b.others
                ∙ ap (λ m. record k { pcb = k'.pcb; queue = k'.queue; mem = m }) (sym memory);
          },
        )

    -- If the queues are well formed and the destination, with a pid other than 0, stands in the
    -- blocked queue with a `blocked_id` other than the sender's pid - be it 0, as in a receive from
    -- any process - then `send` by another process that stands in no queue delivers nothing: it
    -- returns BLOCKERR, and the destination and behind it the sender, blocked in a send to the
    -- destination's pid, stand at the end of the blocked queue. Nothing else changes.
    pub send_blocks :
        (k.pcb dest).pid ≢ 0
        → (k.pcb dest).blocked_id ≢ (k.pcb curr).pid
        → curr ≢ dest
        → IsFree l curr
        → Returns
            (λ r k'.
              (r ≡ blockerr)
              × Becomes k
                  (edit curr blocks (
                    edit curr
                      (waits_for BlockedStatus.send (k.pcb dest).pid)
                      (edit dest blocks k.pcb)))
                  (offered blocked_queue curr (
                    offered blocked_queue dest
                      (put_list blocked_queue (remove dest (l blocked_queue)) l)))
                  k')
            (send lib curr dest buffer len k)
    unfolding send remove_pcb_from_blocked_queue
    send_blocks some_pid other apart fc = bind (peek_any_receiver_lem is) λ p k1 (_, b1).
        rw (==_of_ne dest null nd) (
          bind (pcb_remove_lem blocked_queue dest b1.rep) λ t k2 (et, b2).
            let b : Queued k (put_list blocked_queue (remove dest (l blocked_queue)) l) k2 =
              compose b1 b2 in
            let at_dest : (k2.pcb dest).pid ≡ (k.pcb dest).pid =
              ap (λ (p : Pcb). p.pid) (b.same dest) in
            let at_id : (k2.pcb dest).blocked_id ≡ (k.pcb dest).blocked_id =
              ap (λ (p : Pcb). p.blocked_id) (b.same dest) in
            let at_curr : (k2.pcb curr).pid ≡ (k.pcb curr).pid =
              ap (λ (p : Pcb). p.pid) (b.same curr) in
            let wait = waits_for BlockedStatus.send (k.pcb dest).pid in
            rw (et, there)
              (mono
                (send_to_mismatch b.rep nd nc (removed-IsFree blocked_queue dest is there)
                  (λ z. some_pid (sym at_dest ∙ z)) (λ z. other (sym at_id ∙ z ∙ at_curr)) apart
                  (kept_free b fc))
                λ r k3 (er, b3). (
                  er,
                  compose_with (λ h. edit curr blocks (edit curr wait (edit dest blocks h)))
                      (λ a e.
                        twice_blind (edit dest blocks k2.pcb) (edit dest blocks k.pcb) curr wait
                          blocks (λ p. refl) a
                          (edit_blind k2.pcb k.pcb dest blocks (λ p. refl) b.same))
                      b (rw at_dest at b3),
                )))
      where
        kept_free :
            {k2 : Kernel}
            → Queued k (put_list blocked_queue (remove dest (l blocked_queue)) l) k2
            → IsFree l curr
            → IsFree (put_list blocked_queue (remove dest (l blocked_queue)) l) curr
        kept_free b out q = elim (Bool-cases (same_queue q blocked_queue)) [
          | inl e ↦ rw e (has-remove curr dest (l blocked_queue) (out blocked_queue))
          | inr e ↦ rw e (out q)
        ]
