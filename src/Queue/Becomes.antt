-- ===== src/Queue/Becomes.antt =====
-- What a queue operation, or a sequence of such operations and of writes to other fields, leaves.
use mathlib.Core.Path.{fun_ext}
use xeros_kernel.Base.{
  ◌≡◌, refl, ◌∙◌, sym, ap, subst, List, arith, ◌==◌, if◌then◌else◌, inl, inr, Bool-cases, ==_refl,
}
use xeros_kernel.Kernel.Config.{Ptr}
use xeros_kernel.Kernel.Types.{Pcb, QueueId, same_queue, Kernel}
use xeros_kernel.Kernel.Cmd.{put_pcb}
use xeros_kernel.Queue.Chain.{Store, frame}
use xeros_kernel.Queue.Rep.{IsQueue, Queues, put_list, Rep, unlinked, Rep-update, eq_of_same_queue}

-- The queues hold `l`, the control blocks hold the data of `h` (their `next` pointers aside), and the
-- rest of the kernel's state is as it was in `k`.
pub record Becomes (k : Kernel) (h : Store) (l : Queues) (k' : Kernel) : Type 0 where
  pub rep : Rep k' l
  pub same : (a : Ptr) → unlinked (k'.pcb a) ≡ unlinked (h a)
  pub others : k' ≡ record k { pcb = k'.pcb; queue = k'.queue }

-- Only the queues change.
abbrev pub Queued : Kernel → Queues → Kernel → Type 0
Queued k l k' = Becomes k k.pcb l k'

-- One control block is changed.
abbrev pub edit : Ptr → (Pcb → Pcb) → Store → Store
edit x f h a = if a == x then f (h x) else h a

-- Writing a queue's own struct back changes nothing.
pub unchanged-Rep :
    {k : Kernel} {l : Queues} (q : QueueId) (xs : List Ptr)
    → Rep k l
    → l q ≡ xs
    → Rep k (put_list q xs l)
unchanged-Rep {k} {l} q xs is e =
    Rep-update k q (k.queue q) xs is same_struct (rw e at (is.each q)) (λ r a n h. refl)
      (λ a h. inl (rw e h))
  where
    same_struct : (r : QueueId) → k.queue r ≡ (if same_queue r q then k.queue q else k.queue r)
    same_struct r = elim (Bool-cases (same_queue r q)) [
      | inl s ↦ rw s (ap k.queue (eq_of_same_queue r q s))
      | inr s ↦ rw s
    ]

-- The contents may be described by another list for each queue.
pub relist :
    {k k' : Kernel} {h : Store} {l l' : Queues}
    → Becomes k h l k'
    → ((r : QueueId) → l r ≡ l' r)
    → Becomes k h l' k'
relist {k} {k'} {h} b e = subst (λ l. Becomes k h l k') (fun_ext e) b

-- The data may be described by another store.
pub restore :
    {k k' : Kernel} {h : Store} {l : Queues} (g : Store)
    → Becomes k h l k'
    → ((a : Ptr) → unlinked (h a) ≡ unlinked (g a))
    → Becomes k g l k'
restore g b e = record { rep = b.rep; same = λ a. b.same a ∙ e a; others = b.others }

-- A queue operation behind other changes.
pub compose :
    {k k' k'' : Kernel} {h : Store} {l l' : Queues}
    → Becomes k h l k'
    → Queued k' l' k''
    → Becomes k h l' k''
compose {k} {k'} {k''} b c = record {
  rep = c.rep;
  same = λ a. c.same a ∙ b.same a;
  others = c.others ∙ ap (λ (j : Kernel). record j { pcb = k''.pcb; queue = k''.queue }) b.others;
}

-- A step that changes the data by `g`, behind other changes; `g` does not look at `next` pointers.
pub compose_with :
    {k k' k'' : Kernel} {h : Store} {l l' : Queues} (g : Store → Store)
    → ((a : Ptr) → unlinked (k'.pcb a) ≡ unlinked (h a) → unlinked (g k'.pcb a) ≡ unlinked (g h a))
    → Becomes k h l k'
    → Becomes k' (g k'.pcb) l' k''
    → Becomes k (g h) l' k''
compose_with {k} {k'} {k''} g blind b c = record {
  rep = c.rep;
  same = λ a. c.same a ∙ blind a (b.same a);
  others = c.others ∙ ap (λ (j : Kernel). record j { pcb = k''.pcb; queue = k''.queue }) b.others;
}

-- A move with a write to one control block, behind other changes.
pub compose_edit :
    {k k' k'' : Kernel} {h : Store} {l l' : Queues} (x : Ptr) (f : Pcb → Pcb)
    → ((p : Pcb) → unlinked (f p) ≡ unlinked (f (unlinked p)))
    → Becomes k h l k'
    → Becomes k' (edit x f k'.pcb) l' k''
    → Becomes k (edit x f h) l' k''
compose_edit {k} {k'} {k''} {h} x f blind b c = record {
  rep = c.rep;
  same = λ a. c.same a ∙ edited a;
  others = c.others ∙ ap (λ (j : Kernel). record j { pcb = k''.pcb; queue = k''.queue }) b.others;
}
  where
    edited : (a : Ptr) → unlinked (edit x f k'.pcb a) ≡ unlinked (edit x f h a)
    edited a = elim (Bool-cases (a == x)) [
      | inl e ↦ rw e (blind (k'.pcb x) ∙ ap (λ p. unlinked (f p)) (b.same x) ∙ sym (blind (h x)))
      | inr e ↦ rw e (b.same a)
    ]

-- The later of two contents counts.
pub put_list_twice :
    (q : QueueId) (xs ys : List Ptr) (l : Queues) (r : QueueId)
    → put_list q xs (put_list q ys l) r ≡ put_list q xs l r
put_list_twice q xs ys l r = elim (Bool-cases (same_queue r q)) [ inl e ↦ rw e | inr e ↦ rw e ]

-- A write that keeps the `next` pointer keeps the queues.
pub Rep-put_pcb :
    {k : Kernel} {l : Queues} (x : Ptr) (f : Pcb → Pcb)
    → ((p : Pcb) → (f p).next ≡ p.next)
    → Rep k l
    → Rep (put_pcb x f k) l
unfolding put_pcb
Rep-put_pcb {k} {l} x f keep is = record {
  each = λ q.
      let i : IsQueue k.pcb (k.queue q) (l q) = is.each q in
      record {
        chain = frame k.pcb (put_pcb x f k).pcb (k.queue q).head (l q) (λ a m. same a) i.chain;
        tail = i.tail;
        size = i.size;
        distinct = i.distinct;
      };
  apart = is.apart;
}
  where
    same : (a : Ptr) → ((put_pcb x f k).pcb a).next ≡ (k.pcb a).next
    same a = elim (Bool-cases (a == x)) [
      | inl e ↦ let t : a ≡ x = ground arith in rw (t, ==_refl x) (keep (k.pcb x))
      | inr e ↦ rw e
    ]

-- A write after queue operations, to fields other than `next`.
pub edit_after :
    {k k' : Kernel} {h : Store} {l : Queues} (x : Ptr) (f : Pcb → Pcb)
    → ((p : Pcb) → (f p).next ≡ p.next)
    → ((p : Pcb) → unlinked (f p) ≡ unlinked (f (unlinked p)))
    → Becomes k h l k'
    → Becomes k (edit x f h) l (put_pcb x f k')
unfolding put_pcb
edit_after {k} {k'} {h} {l} x f keep blind b = record {
  rep = Rep-put_pcb x f keep b.rep;
  same = λ a. elim (Bool-cases (a == x)) [
    | inl e ↦ rw e (blind (k'.pcb x) ∙ ap (λ p. unlinked (f p)) (b.same x) ∙ sym (blind (h x)))
    | inr e ↦ rw e (b.same a)
  ];
  others = ap (λ (j : Kernel). record j { pcb = (put_pcb x f k').pcb }) b.others;
}

-- Where the change began with a write to one control block.
pub from_put :
    {k k' : Kernel} {l : Queues} (x : Ptr) (f : Pcb → Pcb) (g : Store → Store)
    → Becomes (put_pcb x f k) (g (put_pcb x f k).pcb) l k'
    → Becomes k (g (edit x f k.pcb)) l k'
unfolding put_pcb
from_put x f g b = record { rep = b.rep; same = b.same; others = b.others }
