-- ===== src/Dispatch/Timer.antt =====
-- `TIMER_INT` of c/disp.c: the tick and the change of process.
use mathlib.Core.List.{append-nil}
use xeros_kernel.Base.{
  ℕ, ◌+◌, ◌≡◌, refl, ◌≢◌, ◌∙◌, sym, ap, false, List, [], ◌∷◌, ◌++◌, arith, ◌==◌, if◌then◌else◌,
  Bool-cases, inl, inr, has, has-append, ◌||◌,
}
use xeros_kernel.Kernel.Config.{Ptr, null}
use xeros_kernel.Kernel.Types.{Pcb, Kernel, QueueId, ready_queue, sleep_queue}
use xeros_kernel.Kernel.Cmd.{pure, ◌>>◌, put_pcb, Returns}
use xeros_kernel.Kernel.Access.{load-done, update-done, bind, mono}
use xeros_kernel.Queue.Chain.{Store}
use xeros_kernel.Queue.Rep.{IsQueue, Queues, put_list, IsFree, Rep}
use xeros_kernel.Queue.Becomes.{Becomes, edit, relist, compose_edit, edit_after, put_list_twice}
use xeros_kernel.Table.Moves.{
  readied, offered, scheduled, add_pcb_to_ready_queue_lem, get_next_pcb_lem,
}
use xeros_kernel.Table.{add_pcb_to_ready_queue, get_next_pcb}
use xeros_kernel.Table.Peek.{polled-IsFree}
use xeros_kernel.Sleep.Wake.{due, asleep_still, due-asleep, ready_all, edit_keeps}
use xeros_kernel.Sleep.Tick.{aged, tick_lem, tick_keeps}
use xeros_kernel.Dispatch.Round.{timer_case}

-- The tick that the process used.
abbrev pub counted : Pcb → Pcb
counted p = record p { cpu_time = p.cpu_time + 1 }

-- Where the process goes: the idle process is not put into the ready queue.
abbrev pub back : ℕ → Ptr → List Ptr
back pid x = if pid == 0 then [] else x ∷ []

abbrev pub set_back : ℕ → Ptr → Store → Store
set_back pid x h = if pid == 0 then h else edit x readied h

has_part :
    (a : Ptr) (xs ys zs : List Ptr)
    → ys ++ zs ≡ xs
    → has a xs ≡ false
    → (has a ys ≡ false) × (has a zs ≡ false)
has_part a xs ys zs e out =
    let h : (has a ys || has a zs) ≡ false = sym (has-append a ys zs) ∙ ap (has a) e ∙ out in
    ground arith

-- A process in no queue is in none after the tick.
ticked-IsFree :
    (a : Ptr) (l : Queues) (ds zs : List Ptr)
    → ds ++ zs ≡ l sleep_queue
    → IsFree l a
    → IsFree (put_list ready_queue (l ready_queue ++ ds) (put_list sleep_queue zs l)) a
ticked-IsFree a l ds zs e free = each
  where
    parts : (has a ds ≡ false) × (has a zs ≡ false)
    parts = has_part a (l sleep_queue) ds zs e (free sleep_queue)

    each : IsFree (put_list ready_queue (l ready_queue ++ ds) (put_list sleep_queue zs l)) a
    each QueueId.stopped_queue = free QueueId.stopped_queue
    each QueueId.ready_queue = has-append a (l ready_queue) ds ∙ rw (free ready_queue, parts.0) refl
    each QueueId.blocked_queue = free QueueId.blocked_queue
    each QueueId.sleep_queue = parts.1

-- The process `y` is current, and stands in no queue.
abbrev pub Current : Ptr → Queues → Ptr → Type 0
Current y l p = (p ≡ y) × (y ≢ null) × IsFree l y

chosen :
    {k k1 : Kernel} {h : Store} {l : Queues} (y : Ptr) (ys : List Ptr)
    → Becomes k h l k1
    → l ready_queue ≡ y ∷ ys
    → (y ≢ null) × IsFree (put_list ready_queue ys l) y
chosen {k1 = k1} {l = l} y ys b e =
    let i : IsQueue k1.pcb (k1.queue ready_queue) (y ∷ ys) = rw e at (b.rep.each ready_queue) in
    (i.chain.1, polled-IsFree ready_queue y ys b.rep e)

-- The process goes back, and the first ready process is next.
resume_next :
    {k k1 : Kernel} {h : Store} {l : Queues} (pid x y : Ptr) (ys : List Ptr)
    → Becomes k h l k1
    → x ≢ null
    → IsFree l x
    → l ready_queue ++ back pid x ≡ y ∷ ys
    → Returns
        (λ p k'.
          Current y (put_list ready_queue ys l) p
          × Becomes k (edit y scheduled (set_back pid x h)) (put_list ready_queue ys l) k')
        (((if pid == 0 then pure tt else add_pcb_to_ready_queue x) >> get_next_pcb) k1)
resume_next {k} {k1} {h} {l} pid x y ys b ne free e = elim (Bool-cases (pid == 0)) [
  | inl idle ↦
      let e1 = sym (append-nil (l ready_queue)) ∙ (rw idle at e) in
      rw idle (
        mono (get_next_pcb_lem y ys b.rep e1) λ p k' (eq, b1). (
          (eq, (chosen y ys b e1).0, (chosen y ys b e1).1),
          compose_edit y scheduled (λ p. refl) b b1,
        ))
  | inr user ↦ rw user (
      bind (add_pcb_to_ready_queue_lem x b.rep ne free) λ _ k2 b2.
        let c = compose_edit x readied (λ p. refl) b b2 in
        let e1 : offered ready_queue x l ready_queue ≡ y ∷ ys = rw user at e in
        let same = put_list_twice ready_queue ys (l ready_queue ++ (x ∷ [])) l in
        let (some_y, out) = chosen y ys c e1 in
        mono (get_next_pcb_lem y ys c.rep e1) λ p k' (eq, b3). (
          (eq, some_y, λ r. ap (has y) (sym (same r)) ∙ out r),
          relist (compose_edit y scheduled (λ p. refl) c b3) same,
        ))
]

-- If the queues are well formed, and the current process `x` is not NULL and stands in none, then
-- the timer's interrupt wakes the sleeping processes that are due and puts them at the end of the
-- ready queue, and behind them `x`, unless its pid is 0, with one more tick of CPU time; if a
-- process is ready then, the handler returns the first one, taken off the queue and running; it is
-- not NULL and stands in no queue, and nothing else changes.
pub timer_case_lem :
    {k : Kernel} {l : Queues} (x y : Ptr) (ys : List Ptr)
    → Rep k l
    → x ≢ null
    → IsFree l x
    → let h = aged (l sleep_queue) k.pcb in
      let ds = due h (l sleep_queue) in
      let l' = put_list ready_queue ys (put_list sleep_queue (asleep_still h (l sleep_queue)) l) in
      (l ready_queue ++ ds) ++ back (k.pcb x).pid x ≡ y ∷ ys
      → Returns
          (λ p k'.
            Current y l' p
            × Becomes k
                (edit y scheduled (set_back (k.pcb x).pid x (edit x counted (ready_all ds h))))
                l'
                k')
          (timer_case x k)
unfolding timer_case
timer_case_lem {k} {l} x y ys is ne free e = bind (tick_lem is) λ _ k1 b1.
    let b2 = edit_after x counted (λ p. refl) (λ p. refl) b1 in
    let same =
      put_list_twice ready_queue ys (l ready_queue ++ due h (l sleep_queue))
        (put_list sleep_queue (asleep_still h (l sleep_queue)) l) in
    rw (update-done x k1 ne counted, load-done x (put_pcb x counted k1) ne, pid_of b2)
      (mono
        (resume_next (k.pcb x).pid x y ys b2 ne
          (ticked-IsFree x l (due h (l sleep_queue)) (asleep_still h (l sleep_queue))
            (due-asleep h (l sleep_queue)) free)
          e)
        λ p k' ((eq, some_y, out), b3).
          ((eq, some_y, λ r. ap (has y) (sym (same r)) ∙ out r), relist b3 same))
  where
    h : Store
    h = aged (l sleep_queue) k.pcb

    pid_of :
        {j : Kernel} {m : Queues}
        → Becomes k (edit x counted (ready_all (due h (l sleep_queue)) h)) m j
        → (j.pcb x).pid ≡ (k.pcb x).pid
    pid_of b =
        ap (λ (p : Pcb). p.pid) (b.same x)
        ∙ edit_keeps (λ p. p.pid) counted (λ p. refl) x x (ready_all (due h (l sleep_queue)) h)
        ∙ tick_keeps (λ p. p.pid) (λ p. refl) (λ p. refl) (due h (l sleep_queue)) (l sleep_queue) x
            k.pcb
