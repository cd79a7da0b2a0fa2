-- ===== src/Queue/Rep.antt =====
-- What a queue stands for: the list of its nodes; and the four queues together.
use xeros_kernel.Base.{
  ◌≡◌, refl, ◌∙◌, sym, true, false, List, arith, if◌then◌else◌, length, has, Distinct, last_or, ◌⊎◌,
  inl, inr, Bool-cases,
}
use xeros_kernel.Base.Int.{pos}
use xeros_kernel.Kernel.Config.{Ptr, null}
use xeros_kernel.Kernel.Types.{Pcb, PcbQueue, QueueId, same_queue, Kernel}
use xeros_kernel.Queue.Chain.{Store, Chain, frame}

-- The queue holds exactly the nodes `xs`, in order, each once.
pub record IsQueue (h : Store) (s : PcbQueue) (xs : List Ptr) : Type 0 where
  pub chain : Chain h s.head xs
  pub tail : s.tail ≡ last_or null xs
  pub size : s.size ≡ pos (length xs)
  pub distinct : Distinct xs

-- The abstract view: the contents of each queue.
abbrev pub Queues : Type 0
Queues = QueueId → List Ptr

abbrev pub put_list : QueueId → List Ptr → Queues → Queues
put_list q xs l r = if same_queue r q then xs else l r

-- `x` stands in no queue.
abbrev pub IsFree : Queues → Ptr → Type 0
IsFree l x = (q : QueueId) → has x (l q) ≡ false

pub record Rep (k : Kernel) (l : Queues) : Type 0 where
  pub each : (q : QueueId) → IsQueue k.pcb (k.queue q) (l q)
  pub apart :
      (q r : QueueId) (x : Ptr) → same_queue q r ≡ false → has x (l q) ≡ true → has x (l r) ≡ false

-- Only the `next` pointers may differ.
abbrev pub unlinked : Pcb → Pcb
unlinked p = record p { next = null }

pub same_queue_refl : (q : QueueId) → same_queue q q ≡ true
same_queue_refl QueueId.stopped_queue = refl
same_queue_refl QueueId.ready_queue = refl
same_queue_refl QueueId.blocked_queue = refl
same_queue_refl QueueId.sleep_queue = refl

pub eq_of_same_queue : (q r : QueueId) → same_queue q r ≡ true → q ≡ r
eq_of_same_queue q r h = ground arith

pub same_queue_sym : (q r : QueueId) → same_queue q r ≡ same_queue r q
same_queue_sym q r = ground arith

-- One queue gets the contents `ys`, drawn from its own nodes and from free ones, and the nodes of
-- the other queues keep their `next` pointers.
pub Rep-update :
    {k : Kernel} {l : Queues} (k' : Kernel) (q : QueueId) (v : PcbQueue) (ys : List Ptr)
    → Rep k l
    → ((r : QueueId) → k'.queue r ≡ (if same_queue r q then v else k.queue r))
    → IsQueue k'.pcb v ys
    → ((r : QueueId) (a : Ptr)
        → same_queue r q ≡ false
        → has a (l r) ≡ true
        → (k'.pcb a).next ≡ (k.pcb a).next)
    → ((a : Ptr) → has a ys ≡ true → (has a (l q) ≡ true) ⊎ IsFree l a)
    → Rep k' (put_list q ys l)
Rep-update {k} {l} k' q v ys is qs new same from = record {
  each = λ r. elim (Bool-cases (same_queue r q)) [
    | inl e ↦ rw (qs r, e) new
    | inr e ↦ rw (qs r, e) (other r e (is.each r))
  ];
  apart = λ p r x ne hx.
      apart_cases p r x ne hx (Bool-cases (same_queue p q)) (Bool-cases (same_queue r q));
}
  where
    other :
        (r : QueueId)
        → same_queue r q ≡ false
        → IsQueue k.pcb (k.queue r) (l r)
        → IsQueue k'.pcb (k.queue r) (l r)
    other r e i = record {
      chain = frame k.pcb k'.pcb (k.queue r).head (l r) (λ a. same r a e) i.chain;
      tail = i.tail;
      size = i.size;
      distinct = i.distinct;
    }

    absent :
        (r : QueueId) (x : Ptr) → same_queue r q ≡ false → has x (l r) ≡ true → has x ys ≡ false
    absent r x e hx = elim (Bool-cases (has x ys)) [
      | inr out ↦ out
      | inl m ↦ elim (from x m) [ inl mine ↦ cc (is.apart r q x e hx) | inr out ↦ cc (out r) ]
    ]

    apart_cases :
        (p r : QueueId) (x : Ptr)
        → same_queue p r ≡ false
        → has x (put_list q ys l p) ≡ true
        → (same_queue p q ≡ true) ⊎ (same_queue p q ≡ false)
        → (same_queue r q ≡ true) ⊎ (same_queue r q ≡ false)
        → has x (put_list q ys l r) ≡ false
    apart_cases p r x ne hx (inl a) (inl b) =
        let e : p ≡ r = eq_of_same_queue p q a ∙ sym (eq_of_same_queue r q b) in
        absurd (differ (rw e at ne))
      where
        differ : same_queue r r ≡ false → ⊥
        differ h = let e : same_queue r r ≡ true = same_queue_refl r in cc
    apart_cases p r x ne hx (inl a) (inr b) = rw b (elim (from x (rw a at hx)) [
      | inl m ↦ is.apart q r x (same_queue_sym q r ∙ b) m
      | inr out ↦ out r
    ])
    apart_cases p r x ne hx (inr a) (inl b) = rw b (absent p x a (rw a at hx))
    apart_cases p r x ne hx (inr a) (inr b) = rw b (is.apart p r x ne (rw a at hx))
