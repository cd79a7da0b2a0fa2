-- ===== src/Message/Meet.antt =====
-- `recv` of c/msg.c where nobody sends yet, and the send that follows it.
use xeros_kernel.Base.{
  ℕ, ◌≡◌, refl, ◌≢◌, ◌∙◌, sym, ap, List, [], ◌∷◌, ◌++◌, true, false, arith, ◌==◌, Bool-cases, inl,
  inr, has, has-append, remove, remove_absent, ==_of_ne, ==_refl,
}
use xeros_kernel.Base.Int.{ℤ}
use xeros_kernel.Kernel.Config.{Ptr, null, blockerr}
use xeros_kernel.Kernel.Types.{
  Pcb, Kernel, QueueId, BlockedStatus, blocked_queue, ready_queue, ready, unblocked,
}
use xeros_kernel.Kernel.Bytes.{Mem, Blkcopy}
use xeros_kernel.Kernel.Cmd.{Returns, ◌>>◌}
use xeros_kernel.Kernel.Access.{load-done, bind, mono}
use xeros_kernel.Queue.Chain.{Store}
use xeros_kernel.Queue.Rep.{Queues, put_list, IsFree, Rep, unlinked}
use xeros_kernel.Queue.Becomes.{Becomes, edit, relist, compose_with}
use xeros_kernel.Queue.Remove.{pcb_remove_lem}
use xeros_kernel.Table.{is_send, remove_pcb_from_blocked_queue}
use xeros_kernel.Table.Moves.{offered, readied, blocks}
use xeros_kernel.Table.Peek.{first_with, peek_next_sender_lem}
use xeros_kernel.Message.{buffer_of, buffer_len_of, recv, send}
use xeros_kernel.Message.Release.{delivered, waits_for, block_on_lem, twice_blind}
use xeros_kernel.Message.Send.{transfer_length, transferred, send_passes}

-- The receiver waits for the pid.
abbrev pub receiving : Ptr → ℕ → Store → Store
receiving c id h = edit c blocks (edit c (waits_for BlockedStatus.receive id) h)

receiving_blind :
    (h g : Store) (c : Ptr) (id : ℕ)
    → ((a : Ptr) → unlinked (h a) ≡ unlinked (g a))
    → (a : Ptr) → unlinked (receiving c id h a) ≡ unlinked (receiving c id g a)
receiving_blind h g c id same a =
    twice_blind h g c (waits_for BlockedStatus.receive id) blocks (λ p. refl) a same

remove_last : (x : Ptr) (xs : List Ptr) → has x xs ≡ false → remove x (xs ++ (x ∷ [])) ≡ xs
remove_last x [] out = ground (arith, ==_refl x)
remove_last x (y ∷ ys) out = ground (arith, remove_last x ys)

-- The blocked queue is written back as it was.
same_blocked :
    (l : Queues) (xs : List Ptr)
    → xs ≡ l blocked_queue
    → (r : QueueId) → put_list blocked_queue xs l r ≡ l r
same_blocked l xs e QueueId.stopped_queue = refl
same_blocked l xs e QueueId.ready_queue = refl
same_blocked l xs e QueueId.blocked_queue = e
same_blocked l xs e QueueId.sleep_queue = refl

module _ (lib : Blkcopy) (from curr buffer : Ptr) (len : ℤ) {k : Kernel} {l : Queues} (is : Rep k l)
    (nc : curr ≢ null) (free : IsFree l curr) where
  -- A receive of a process (not NULL) that is not blocked returns BLOCKERR and puts the receiver, in no
  -- queue before, at the end of the blocked queue, in a receive from that process' pid; nothing else
  -- changes.
  pub recv_blocks :
      from ≢ null
      → has from (l blocked_queue) ≡ false
      → Returns
          (λ r k'.
            (r ≡ blockerr)
            × Becomes k (receiving curr (k.pcb from).pid k.pcb) (offered blocked_queue curr l) k')
          (recv lib from curr buffer len k)
  unfolding recv remove_pcb_from_blocked_queue
  recv_blocks nf out =
      rw (==_of_ne from null nf, ==_of_ne from null nf)
        (bind (pcb_remove_lem blocked_queue from is) λ t k2 (et, b).
          let b1 = relist b (
            same_blocked l (remove from (l blocked_queue))
              (remove_absent from (l blocked_queue) out)) in
          let id : (k2.pcb from).pid ≡ (k.pcb from).pid = ap (λ (p : Pcb). p.pid) (b.same from) in
          rw (et, out, load-done from k2 nf, id)
            (mono (block_on_lem BlockedStatus.receive curr (k.pcb from).pid b1.rep nc free)
              λ r k3 (er, b3). (
                er,
                compose_with (receiving curr (k.pcb from).pid)
                    (λ a q. receiving_blind k2.pcb k.pcb curr (k.pcb from).pid b1.same a) b1 b3,
              )))

  -- A receive from any process, where none waits in a send, returns BLOCKERR and puts the receiver at
  -- the end of the blocked queue, with `blocked_id` 0; nothing else changes.
  pub recv_blocks_any :
      first_with (λ e. is_send e.blocked_status) k.pcb (l blocked_queue) ≡ null
      → Returns
          (λ r k'.
            (r ≡ blockerr) × Becomes k (receiving curr 0 k.pcb) (offered blocked_queue curr l) k')
          (recv lib null curr buffer len k)
  unfolding recv
  recv_blocks_any e = bind (peek_next_sender_lem is) λ p k1 (ep, b1).
      rw (ep, e)
        (mono (block_on_lem BlockedStatus.receive curr 0 b1.rep nc free) λ r k2 (er, b2). (
          er,
          compose_with (receiving curr 0) (λ a q. receiving_blind k1.pcb k.pcb curr 0 b1.same a) b1
              b2,
        ))

-- The process that waited has the message.
abbrev pub met : ℤ → Pcb → Pcb
met n p = record p { state = ready; blocked_status = unblocked; blocked_id = 0; ret = n }

all_writes :
    (c a : Ptr) (id : ℕ) (n : ℤ) (h : Store)
    → edit c (delivered n) (edit c readied (receiving c id h)) a ≡ edit c (met n) h a
all_writes c a id n h = elim (Bool-cases (a == c)) [
  | inl e ↦ rw (e, ==_refl c) refl
  | inr e ↦ rw e refl
]

-- A receive of a process that does not send yet, and then the send.
module _ (lib : Blkcopy) (from curr buffer send_buffer : Ptr) (len send_len : ℤ) {k : Kernel}
    {l : Queues} (is : Rep k l) (nf : from ≢ null) (nc : curr ≢ null) (free : IsFree l curr) where
  abbrev message_length : ℤ
  message_length = transfer_length lib from curr send_buffer send_len k

  meet_after :
      {k1 k2 : Kernel} {l1 l2 : Queues}
      → Becomes k (receiving curr (k.pcb from).pid k.pcb) l1 k1
      → Becomes
          (transferred lib from curr send_buffer send_len k1)
          (edit curr
            (delivered (transfer_length lib from curr send_buffer send_len k1))
            (edit curr readied k1.pcb))
          l2
          k2
      → (transfer_length lib from curr send_buffer send_len k1 ≡ message_length)
        × Becomes
            (transferred lib from curr send_buffer send_len k)
            (edit curr (met message_length) k.pcb)
            l2
            k2
  unfolding buffer_of buffer_len_of
  meet_after {k1} {k2} b c = (
    n,
    record {
      rep = c.rep;
      same = λ a.
          c.same a
          ∙ ap (λ m. unlinked (edit curr (delivered m) (edit curr readied k1.pcb) a)) n
          ∙ twice_blind k1.pcb (receiving curr (k.pcb from).pid k.pcb) curr readied
              (delivered message_length) (λ p. refl) a b.same
          ∙ ap unlinked (all_writes curr a (k.pcb from).pid message_length k.pcb);
      others =
          c.others
          ∙ ap (λ (m : Mem). record k1 { pcb = k2.pcb; queue = k2.queue; mem = m }) copied
          ∙ ap
              (λ (j : Kernel). record j {
                pcb = k2.pcb;
                queue = k2.queue;
                mem = (transferred lib from curr send_buffer send_len k).mem;
              })
              b.others;
    },
  )
    where
      args : (k1.pcb curr).args ≡ (k.pcb curr).args
      args = ap (λ (p : Pcb). p.args) (b.same curr) ∙ rw (==_refl curr) refl

      memory : k1.mem ≡ k.mem
      memory = ap (λ (j : Kernel). j.mem) b.others

      n : transfer_length lib from curr send_buffer send_len k1 ≡ message_length
      n = rw (args, memory)

      copied :
          (transferred lib from curr send_buffer send_len k1).mem
          ≡ (transferred lib from curr send_buffer send_len k).mem
      copied = rw (args, memory)

  -- If the queues are well formed, and a process in no queue receives from another one that is not
  -- blocked (both not NULL), and then that one sends to it, then `send` returns the smaller of the
  -- two buffer lengths and the message is there: `blkcopy` copies that many bytes from the sender's
  -- buffer to the buffer in the receiver's call, and the receiver stands at the end of the ready
  -- queue, ready, not blocked, with the length as its result. No other control block, queue or part
  -- of the state changes.
  pub recv-send :
      from ≢ curr
      → has from (l blocked_queue) ≡ false
      → Returns
          (λ r k'.
            (r ≡ message_length)
            × Becomes
                (transferred lib from curr send_buffer send_len k)
                (edit curr (met message_length) k.pcb)
                (offered ready_queue curr l)
                k')
          ((recv lib from curr buffer len >> send lib from curr send_buffer send_len) k)
  recv-send apart out =
      bind (recv_blocks lib from curr buffer len is nc free nf out) λ r k1 (er, b1).
        let there : has curr (l blocked_queue ++ (curr ∷ [])) ≡ true =
          has-append curr (l blocked_queue) (curr ∷ [])
          ∙ rw (free blocked_queue, ==_refl curr) refl in
        let waits : (k1.pcb curr).blocked_id ≡ (k.pcb from).pid =
          ap (λ (p : Pcb). p.blocked_id) (b1.same curr) ∙ rw (==_refl curr) refl in
        let sender : (k1.pcb from).pid ≡ (k.pcb from).pid =
          ap (λ (p : Pcb). p.pid) (b1.same from) ∙ rw (==_of_ne from curr apart) refl in
        let ids = waits ∙ sym sender in
        mono (send_passes lib from curr send_buffer send_len b1.rep nc nf there ids)
          λ n k2 (en, b2). let (m, b) = meet_after b1 b2 in (en ∙ m, relist b same_lists)
    where
      same_lists :
          (r : QueueId)
          → offered ready_queue curr
              (put_list blocked_queue
                (remove curr (l blocked_queue ++ (curr ∷ [])))
                (offered blocked_queue curr l))
              r
            ≡ offered ready_queue curr l r
      same_lists QueueId.stopped_queue = refl
      same_lists QueueId.ready_queue = refl
      same_lists QueueId.blocked_queue = remove_last curr (l blocked_queue) (free blocked_queue)
      same_lists QueueId.sleep_queue = refl
