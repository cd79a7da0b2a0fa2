-- ===== src/Table/Unblock.antt =====
-- `unblock_pcb_waiting_for_pid` of c/pcb.c against two filters of the blocked queue.
use mathlib.Core.List.{append-nil, append_assoc}
use xeros_kernel.Base.{
  ℕ, ◌≡◌, refl, ◌≢◌, ◌∙◌, sym, ap, true, false, List, [], ◌∷◌, ◌++◌, arith, ◌==◌, if◌then◌else◌,
  has, length, inl, inr, Bool-cases, ==_refl, has-append,
}
use xeros_kernel.Kernel.Config.{Ptr, null}
use xeros_kernel.Kernel.Types.{Pcb, Kernel, QueueId, ready, unblocked, blocked_queue, ready_queue}
use xeros_kernel.Kernel.Cmd.{put_pcb, Returns, returns}
use xeros_kernel.Kernel.Access.{load-done, update-done, bind, mono}
use xeros_kernel.Queue.{pcb_size}
use xeros_kernel.Queue.Chain.{Store}
use xeros_kernel.Queue.Rep.{Queues, put_list, IsFree, Rep, IsQueue, unlinked}
use xeros_kernel.Queue.Becomes.{
  Becomes, compose_with, compose_edit, relist, restore, edit, Rep-put_pcb,
}
use xeros_kernel.Queue.Ends.{pcb_poll_lem}
use xeros_kernel.Table.{unblock_entry, unblock_loop, unblock_pcb_waiting_for_pid}
use xeros_kernel.Table.Moves.{
  offered, readied, blocks, add_pcb_to_ready_queue_lem, add_pcb_to_blocked_queue_lem,
}
use xeros_kernel.Table.Peek.{polled-IsFree}

-- The entries with the given `blocked_id`, and the others.
unfoldable pub waiting_for : ℕ → Store → List Ptr → List Ptr
waiting_for pid h [] = []
waiting_for pid h (x ∷ xs) =
    if (h x).blocked_id == pid then x ∷ waiting_for pid h xs else waiting_for pid h xs

unfoldable pub not_waiting_for : ℕ → Store → List Ptr → List Ptr
not_waiting_for pid h [] = []
not_waiting_for pid h (x ∷ xs) =
    if (h x).blocked_id == pid then not_waiting_for pid h xs else x ∷ not_waiting_for pid h xs

abbrev pub freed : Pcb → Pcb
freed p = record p { blocked_id = 0; state = ready; blocked_status = unblocked }

-- What the loop does to the control block of an entry.
abbrev pub settle : ℕ → Pcb → Pcb
settle pid p = if p.blocked_id == pid then freed p else blocks p

abbrev pub settle_all : ℕ → List Ptr → Store → Store
settle_all pid xs h a = if has a xs then settle pid (h a) else h a

target : ℕ → Pcb → QueueId
target pid p = if p.blocked_id == pid then ready_queue else blocked_queue

abbrev unset : Pcb → Pcb
unset p = record p { blocked_id = 0 }

settled_hit :
    (h : Store) (pid : ℕ) (x a : Ptr)
    → ((h x).blocked_id == pid) ≡ true
    → unlinked (edit x readied (edit x unset h) a) ≡ unlinked (edit x (settle pid) h a)
settled_hit h pid x a hit = elim (Bool-cases (a == x)) [
  | inl e ↦ rw (e, ==_refl x, hit)
  | inr e ↦ rw e
]

settled_miss :
    (h : Store) (pid : ℕ) (x a : Ptr)
    → ((h x).blocked_id == pid) ≡ false
    → unlinked (edit x blocks h a) ≡ unlinked (edit x (settle pid) h a)
settled_miss h pid x a miss = rw miss

unblock_entry_lem :
    {k : Kernel} {l : Queues} (pid : ℕ) (x : Ptr)
    → Rep k l
    → x ≢ null
    → IsFree l x
    → Returns
        (λ _ k'. Becomes k (edit x (settle pid) k.pcb) (offered (target pid (k.pcb x)) x l) k')
        (unblock_entry pid x k)
unfolding unblock_entry target put_pcb
unblock_entry_lem {k} {l} pid x is ne free = elim (Bool-cases ((k.pcb x).blocked_id == pid)) [
  | inl hit ↦ rw (load-done x k ne) (
      rw (hit, update-done x k ne unset)
        (mono (add_pcb_to_ready_queue_lem x (Rep-put_pcb x unset (λ p. refl) is) ne free) λ u k' b.
          record {
            rep = b.rep;
            same = λ a. b.same a ∙ settled_hit k.pcb pid x a hit;
            others = b.others;
          }))
  | inr miss ↦ rw (load-done x k ne) (
      rw miss (
        mono (add_pcb_to_blocked_queue_lem x is ne free) λ u k' b. record {
          rep = b.rep;
          same = λ a. b.same a ∙ settled_miss k.pcb pid x a miss;
          others = b.others;
        }))
]

-- The contents when the entries `xs` have been moved, and `ys` were moved before.
abbrev settled_lists : ℕ → Store → (xs ys : List Ptr) → Queues → Queues
settled_lists pid h xs ys l =
    put_list ready_queue (l ready_queue ++ waiting_for pid h xs)
      (put_list blocked_queue (ys ++ not_waiting_for pid h xs) l)

pub waiting_same :
    (pid : ℕ) (h g : Store) (xs : List Ptr)
    → ((a : Ptr) → has a xs ≡ true → (g a).blocked_id ≡ (h a).blocked_id)
    → (waiting_for pid g xs ≡ waiting_for pid h xs)
      × (not_waiting_for pid g xs ≡ not_waiting_for pid h xs)
unfolding waiting_for not_waiting_for
waiting_same pid h g [] e = (refl, refl)
waiting_same pid h g (x ∷ xs) e =
    let (p, q) = waiting_same pid h g xs (λ a m. e a (ground arith)) in
    let i : (g x).blocked_id ≡ (h x).blocked_id = e x (ground arith) in (rw (i, p), rw (i, q))

settle_blind : (pid : ℕ) (p : Pcb) → unlinked (settle pid p) ≡ unlinked (settle pid (unlinked p))
settle_blind pid p = elim (Bool-cases (p.blocked_id == pid)) [ inl e ↦ rw e | inr e ↦ rw e ]

pub settle_all_blind :
    (pid : ℕ) (xs : List Ptr) (g h : Store) (a : Ptr)
    → unlinked (g a) ≡ unlinked (h a)
    → unlinked (settle_all pid xs g a) ≡ unlinked (settle_all pid xs h a)
settle_all_blind pid xs g h a e = elim (Bool-cases (has a xs)) [
  | inl m ↦
      rw m (
        settle_blind pid (g a) ∙ ap (λ p. unlinked (settle pid p)) e ∙ sym (settle_blind pid (h a)))
  | inr m ↦ rw m e
]

settle_all-edit :
    (pid : ℕ) (x : Ptr) (xs : List Ptr) (h : Store) (a : Ptr)
    → has x xs ≡ false
    → unlinked (settle_all pid xs (edit x (settle pid) h) a)
      ≡ unlinked (settle_all pid (x ∷ xs) h a)
settle_all-edit pid x xs h a out = elim (Bool-cases (a == x)) [
  | inl e ↦ let t : a ≡ x = ground arith in rw (t, ==_refl x, out)
  | inr e ↦ rw e
]

nil_lists :
    (pid : ℕ) (h : Store) (ys : List Ptr) (l : Queues)
    → l blocked_queue ≡ ys
    → (r : QueueId) → l r ≡ settled_lists pid h [] ys l r
unfolding waiting_for not_waiting_for
nil_lists pid h ys l e QueueId.stopped_queue = refl
nil_lists pid h ys l e QueueId.ready_queue = sym (append-nil (l ready_queue))
nil_lists pid h ys l e QueueId.blocked_queue = e ∙ sym (append-nil ys)
nil_lists pid h ys l e QueueId.sleep_queue = refl

-- The contents after one entry went to the ready queue, or back to the end of the blocked queue.
abbrev moved_to : QueueId → Ptr → (xs ys : List Ptr) → Queues → Queues
moved_to q x xs ys l = offered q x (put_list blocked_queue (xs ++ ys) l)

module _ (x : Ptr) (xs ys ws ns : List Ptr) (l : Queues) where
  hit_lists :
      (r : QueueId)
      → put_list ready_queue
          (moved_to ready_queue x xs ys l ready_queue ++ ws)
          (put_list blocked_queue (ys ++ ns) (moved_to ready_queue x xs ys l))
          r
        ≡ put_list ready_queue (l ready_queue ++ (x ∷ ws)) (put_list blocked_queue (ys ++ ns) l) r
  hit_lists QueueId.stopped_queue = refl
  hit_lists QueueId.ready_queue = append_assoc (l ready_queue) (x ∷ []) ws
  hit_lists QueueId.blocked_queue = refl
  hit_lists QueueId.sleep_queue = refl

  miss_lists :
      (r : QueueId)
      → put_list ready_queue
          (moved_to blocked_queue x xs ys l ready_queue ++ ws)
          (put_list blocked_queue ((ys ++ (x ∷ [])) ++ ns) (moved_to blocked_queue x xs ys l))
          r
        ≡ put_list ready_queue (l ready_queue ++ ws) (put_list blocked_queue (ys ++ (x ∷ ns)) l) r
  miss_lists QueueId.stopped_queue = refl
  miss_lists QueueId.ready_queue = refl
  miss_lists QueueId.blocked_queue = append_assoc ys (x ∷ []) ns
  miss_lists QueueId.sleep_queue = refl

edit_elsewhere :
    (pid : ℕ) (x : Ptr) (xs : List Ptr) (h : Store) (a : Ptr)
    → has a xs ≡ true
    → has x xs ≡ false
    → (edit x (settle pid) h a).blocked_id ≡ (h a).blocked_id
edit_elsewhere pid x xs h a m out = elim (Bool-cases (a == x)) [
  | inl e ↦ let t : a ≡ x = ground arith in cc (out, t)
  | inr e ↦ rw e
]

settled :
    {k k2 k3 : Kernel} (pid : ℕ) (x : Ptr) (xs : List Ptr) {l l' : Queues}
    → Becomes k (edit x (settle pid) k.pcb) l k2
    → Becomes k2 (settle_all pid xs k2.pcb) l' k3
    → has x xs ≡ false
    → Becomes k (settle_all pid (x ∷ xs) k.pcb) l' k3
settled {k} {k2} pid x xs b c out =
    let h = edit x (settle pid) k.pcb in
    restore (settle_all pid (x ∷ xs) k.pcb)
      (compose_with (settle_all pid xs) (λ a. settle_all_blind pid xs k2.pcb h a) b c)
      (λ a. settle_all-edit pid x xs k.pcb a out)

unblock_loop_lem :
    (xs : List Ptr) {k : Kernel} {l : Queues} (pid : ℕ) (ys : List Ptr)
    → Rep k l
    → l blocked_queue ≡ xs ++ ys
    → Returns
        (λ _ k'. Becomes k (settle_all pid xs k.pcb) (settled_lists pid k.pcb xs ys l) k')
        (unblock_loop pid (length xs) k)
unfolding unblock_loop waiting_for not_waiting_for target
unblock_loop_lem [] {k} {l} pid ys is e =
    returns
      (relist (record { rep = is; same = λ a. refl; others = refl }) (nil_lists pid k.pcb ys l e))
unblock_loop_lem (x ∷ xs) {k} {l} pid ys is e =
    let i : IsQueue k.pcb (k.queue blocked_queue) (x ∷ (xs ++ ys)) =
      rw e at (is.each blocked_queue) in
    let out : has x xs ≡ false = ground (arith, has-append x xs ys, i.distinct.0) in
    bind (pcb_poll_lem blocked_queue (x ∷ (xs ++ ys)) is e) λ p k1 (eq, b1). rw eq (
      bind
        (unblock_entry_lem pid x b1.rep i.chain.1 (polled-IsFree blocked_queue x (xs ++ ys) is e))
        λ u k2 b2.
          let c = compose_edit x (settle pid) (settle_blind pid) b1 b2 in
          let id1 : (k1.pcb x).blocked_id ≡ (k.pcb x).blocked_id =
            ap (λ q. q.blocked_id) (b1.same x) in
          let ws =
            waiting_same pid k.pcb k2.pcb xs
              (λ a m. ap (λ q. q.blocked_id) (c.same a) ∙ edit_elsewhere pid x xs k.pcb a m out) in
          elim (Bool-cases ((k.pcb x).blocked_id == pid)) [
            | inl hit ↦
                let c' = rw (id1, hit) at c in
                mono (unblock_loop_lem xs pid ys c'.rep refl) λ v k3 b3. rw hit (
                  relist (settled pid x xs c' b3 out)
                    (λ r. rw (ws.0, ws.1) (hit_lists x xs ys _ _ l r)))
            | inr miss ↦
                let c' = rw (id1, miss) at c in
                mono (unblock_loop_lem xs pid (ys ++ (x ∷ [])) c'.rep (append_assoc xs ys (x ∷ [])))
                  λ v k3 b3. rw miss (
                    relist (settled pid x xs c' b3 out)
                      (λ r. rw (ws.0, ws.1) (miss_lists x xs ys _ _ l r)))
          ])

-- If the queues are well formed, `unblock_pcb_waiting_for_pid` returns and moves exactly the
-- blocked processes whose `blocked_id` is the pid to the end of the ready queue, in their order,
-- ready and with `blocked_id` 0; the others stay blocked in their order. No other process and no
-- other queue changes.
pub unblock_pcb_waiting_for_pid_lem :
    {k : Kernel} {l : Queues} (pid : ℕ)
    → Rep k l
    → let xs = l blocked_queue in
      Returns
        (λ _ k'.
          Becomes k
            (settle_all pid xs k.pcb)
            (put_list ready_queue
              (l ready_queue ++ waiting_for pid k.pcb xs)
              (put_list blocked_queue (not_waiting_for pid k.pcb xs) l))
            k')
        (unblock_pcb_waiting_for_pid pid k)
unfolding unblock_pcb_waiting_for_pid pcb_size
unblock_pcb_waiting_for_pid_lem {k} {l} pid is =
    let i : IsQueue k.pcb (k.queue blocked_queue) (l blocked_queue) = is.each blocked_queue in
    rw i.size (unblock_loop_lem (l blocked_queue) pid [] is (sym (append-nil (l blocked_queue))))
