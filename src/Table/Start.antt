-- ===== src/Table/Start.antt =====
-- `initpcb` of c/pcb.c: the state in which the kernel starts.
use mathlib.Core.List.{append-nil, append_assoc}
use xeros_kernel.Base.{
  ℕ, zero, suc, ◌+◌, ◌-◌, ◌≤◌, ◌<◌, ◌≡◌, refl, ◌∙◌, sym, ap, subst, ==_of_ne, true, false, ◌&&◌,
  List, [], ◌∷◌, ◌++◌, arith, leb, ◌==◌, if◌then◌else◌, Bool-cases, inl, inr, has, has-append,
  ==_refl,
}
use xeros_kernel.Base.Int.{pos}
use xeros_kernel.Kernel.Config.{Ptr, null, slot, pcb_table_size}
use xeros_kernel.Kernel.Types.{
  Pcb, PcbQueue, Kernel, QueueId, same_queue, stopped_queue, ready_queue, blocked_queue,
  sleep_queue, stopped, unblocked,
}
use xeros_kernel.Kernel.Cmd.{◌>>◌, put_queue, Returns, returns}
use xeros_kernel.Memory.{align_to_paragraph}
use xeros_kernel.Memory.Carve.{Roomy}
use xeros_kernel.Memory.Chunks.{Chunked, Chunked-append, Chunked-heap, kmalloc-chunk}
use xeros_kernel.Kernel.Access.{update-done, bind, mono}
use xeros_kernel.Queue.{init_pcb_queue}
use xeros_kernel.Queue.Chain.{Store}
use xeros_kernel.Queue.Rep.{IsQueue, Queues, put_list, IsFree, Rep, unlinked}
use xeros_kernel.Queue.Becomes.{Becomes, edit, relist, restore, compose_with, unchanged-Rep}
use xeros_kernel.Table.{init_loop, initpcb}
use xeros_kernel.Table.Moves.{offered, write_offer}

-- The slots from `i` on, `n` of them, and what `initpcb` writes into one.
unfoldable pub slots : (i n : ℕ) → List Ptr
slots i zero = []
slots i (suc n) = slot i ∷ slots (i + 1) n

abbrev pub fresh : ℕ → Pcb → Pcb
fresh i p = record p {
  pid = i + 1;
  blocked_id = 0;
  cpu_time = 0;
  blocked_status = unblocked;
  state = stopped;
}

abbrev pub started : (i n : ℕ) → Store → Store
started i n h a = if leb (suc i) a && leb a (i + n) then fresh (a - 1) (h a) else h a

started_blind :
    (i n : ℕ) (h g : Store) (a : Ptr)
    → unlinked (h a) ≡ unlinked (g a)
    → unlinked (started i n h a) ≡ unlinked (started i n g a)
started_blind i n h g a e = elim (Bool-cases (leb (suc i) a && leb a (i + n))) [
  | inl t ↦ rw t (ap (λ p. fresh (a - 1) p) e)
  | inr t ↦ rw t e
]

started-suc :
    (i n : ℕ) (h : Store) (a : Ptr)
    → unlinked (started (i + 1) n (edit (slot i) (fresh i) h) a) ≡ unlinked (started i (suc n) h a)
started-suc i n h a = elim (Bool-cases (a == slot i)) [
  | inl t ↦
      let q : a ≡ slot i = ground arith in
      let behind : (leb (suc (i + 1)) (slot i) && leb (slot i) (i + 1 + n)) ≡ false =
        ground arith in
      let inside : (leb (suc i) (slot i) && leb (slot i) (i + suc n)) ≡ true = ground arith in
      let index : slot i - 1 ≡ i = omega arith in
      rw (q, behind, ==_refl (slot i), inside, index) refl
  | inr t ↦
      let same : (leb (suc (i + 1)) a && leb a (i + 1 + n)) ≡ (leb (suc i) a && leb a (i + suc n)) =
        ground arith in
      rw (t, same) refl
]

has-slots : (a i n : ℕ) → a ≤ i → has a (slots i n) ≡ false
unfolding slots
has-slots a i zero h = refl
has-slots a i (suc n) h = ground (arith, has-slots a (i + 1) n (omega arith))

init_loop_lem :
    (n i : ℕ) {k : Kernel} {l : Queues}
    → Rep k l
    → ((j : ℕ) → i ≤ j → IsFree l (slot j))
    → Returns
        (λ _ k'.
          Becomes k
            (started i n k.pcb)
            (put_list stopped_queue (l stopped_queue ++ slots i n) l)
            k')
        (init_loop n i k)
unfolding init_loop slots
init_loop_lem zero i {k} {l} is free = rw (append-nil (l stopped_queue)) (
    returns (record {
      rep = unchanged-Rep stopped_queue (l stopped_queue) is refl;
      same = λ a. none a;
      others = refl;
    }))
  where
    none : (a : Ptr) → unlinked (k.pcb a) ≡ unlinked (started i 0 k.pcb a)
    none a = let out : (leb (suc i) a && leb a (i + 0)) ≡ false = ground arith in rw out refl
init_loop_lem (suc n) i {k} {l} is free = rw (update-done (slot i) k (omega arith) (fresh i)) (
    bind
      (write_offer stopped_queue (slot i) (fresh i) (λ p. refl) is (omega arith)
        (free i (omega arith)))
      λ u k1 b1. mono (init_loop_lem n (i + 1) b1.rep (later free)) λ v k2 b2.
        relist
          (restore (started i (suc n) k.pcb)
            (compose_with (started (i + 1) n)
              (λ a e. started_blind (i + 1) n k1.pcb (edit (slot i) (fresh i) k.pcb) a e) b1 b2)
            (λ a. started-suc i n k.pcb a))
          lists)
  where
    lists :
        (r : QueueId)
        → put_list stopped_queue
            (offered stopped_queue (slot i) l stopped_queue ++ slots (i + 1) n)
            (offered stopped_queue (slot i) l)
            r
          ≡ put_list stopped_queue (l stopped_queue ++ (slot i ∷ slots (i + 1) n)) l r
    lists r = elim (Bool-cases (same_queue r stopped_queue)) [
      | inl e ↦ rw e (append_assoc (l stopped_queue) (slot i ∷ []) (slots (i + 1) n))
      | inr e ↦ rw e refl
    ]

    later :
        ((j : ℕ) → i ≤ j → IsFree l (slot j))
        → (j : ℕ) → i + 1 ≤ j
        → IsFree (offered stopped_queue (slot i) l) (slot j)
    later out j h q = elim (Bool-cases (same_queue q stopped_queue)) [
      | inl e ↦
          let o = out j (omega arith) stopped_queue in
          rw (e, has-append (slot j) (l stopped_queue) (slot i ∷ []), o) (ground arith)
      | inr e ↦ rw e (out j (omega arith) q)
    ]

abbrev empty_queue : PcbQueue
empty_queue = record { head = null; tail = null; size = pos 0 }

-- All processes are stopped, in the order of the table.
abbrev pub start_lists : Queues
start_lists q = if same_queue q stopped_queue then slots 0 pcb_table_size else []

-- A queue's struct is allocated and cleared.
abbrev cleared : QueueId → Kernel → Kernel → Kernel
cleared q k k' = record k {
  queue = (put_queue q empty_queue k).queue;
  header = k'.header;
  free_list = k'.free_list;
}

init_pcb_queue_lem :
    (q : QueueId) (b n : ℕ) (k : Kernel)
    → Roomy b n k
    → 32 < n
    → Returns (λ _ k'. Chunked b 32 n k k' × (k' ≡ cleared q k k')) (init_pcb_queue q k)
unfolding init_pcb_queue align_to_paragraph put_queue
init_pcb_queue_lem q b n k roomy room =
    bind (kmalloc-chunk 12 b n k (omega arith) refl roomy room) λ p k1 (at, c, others).
      rw (at, ==_of_ne (b + 16) null (λ e. omega (arith, e)))
        (returns (
          Chunked-heap b 32 n refl refl c,
          ap (λ (j : Kernel). (put_queue q empty_queue j)) others,
        ))

-- What `initpcb` leaves.
pub record Initial (b n : ℕ) (k k' : Kernel) : Type 0 where
  pub rep : Rep k' start_lists
  pub same : (a : Ptr) → unlinked (k'.pcb a) ≡ unlinked (started 0 pcb_table_size k.pcb a)
  pub heap : Chunked b 128 n k k'
  pub others :
      k' ≡ record k { pcb = k'.pcb; queue = k'.queue; header = k'.header; free_list = k'.free_list }

nothing : (h : Store) → IsQueue h empty_queue []
nothing h = record { chain = refl; tail = refl; size = refl; distinct = tt }

-- From a state whose sleep queue struct is zero and whose first free block `b`, which is not the
-- last, has more than 128 bytes, `initpcb` returns a state with well-formed queues: the stopped
-- queue holds all 32 slots in the table's order, the others are empty, and the control block of
-- slot `i` is stopped and not blocked, with pid `i + 1`, `blocked_id` 0 and no CPU time. The free
-- list starts 128 bytes behind `b`, with the rest of that block; and but for the queues, the
-- control blocks and the heap's headers and list nothing changes.
pub initpcb_lem :
    (b n : ℕ) (k : Kernel)
    → k.queue sleep_queue ≡ record { head = null; tail = null; size = pos 0 }
    → Roomy b n k
    → 128 < n
    → Returns (λ _ k'. Initial b n k k') (initpcb k)
unfolding initpcb put_queue
initpcb_lem b n k none roomy room =
    bind (init_pcb_queue_lem stopped_queue b n k roomy (omega arith)) λ _ k1 (c1, e1).
      bind (init_pcb_queue_lem ready_queue (b + 32) (n - 32) k1 c1.roomy (omega arith))
        λ _ k2 (c2, e2).
          let c12 = Chunked-append b 32 32 n k k1 k2 c1 c2 (omega arith) in
          bind (init_pcb_queue_lem blocked_queue (b + 64) (n - 64) k2 c12.roomy (omega arith))
            λ _ k3 (c3, e3). filled k3 (Chunked-append b 64 32 n k k2 k3 c12 c3 (omega arith)) (
              e3
              ∙ ap (λ (j : Kernel). cleared blocked_queue j k3)
                  (e2 ∙ ap (λ (j : Kernel). cleared ready_queue j k2) e1))
  where
    emptied : Kernel → Kernel
    emptied k3 = record k {
      queue =
          (put_queue blocked_queue empty_queue
            (put_queue ready_queue empty_queue (put_queue stopped_queue empty_queue k))).queue;
      header = k3.header;
      free_list = k3.free_list;
    }

    at_start : (k3 : Kernel) → Rep (emptied k3) (λ q. [])
    at_start k3 = record { each = each; apart = λ q r x e h. refl }
      where
        each : (q : QueueId) → IsQueue k.pcb ((emptied k3).queue q) []
        each QueueId.stopped_queue = nothing k.pcb
        each QueueId.ready_queue = nothing k.pcb
        each QueueId.blocked_queue = nothing k.pcb
        each QueueId.sleep_queue = rw none (nothing k.pcb)

    again : (k4 k5 : Kernel) → Rep k4 start_lists → Rep (cleared sleep_queue k4 k5) start_lists
    again k4 k5 is = record { each = each; apart = is.apart }
      where
        each : (q : QueueId) → IsQueue k4.pcb ((cleared sleep_queue k4 k5).queue q) (start_lists q)
        each QueueId.stopped_queue = is.each stopped_queue
        each QueueId.ready_queue = is.each ready_queue
        each QueueId.blocked_queue = is.each blocked_queue
        each QueueId.sleep_queue = nothing k4.pcb

    filled :
        (k3 : Kernel)
        → Chunked b 96 n k k3
        → k3 ≡ emptied k3
        → Returns
            (λ _ k'. Initial b n k k')
            ((init_loop pcb_table_size 0 >> init_pcb_queue sleep_queue) k3)
    filled k3 c e =
        bind
          (init_loop_lem pcb_table_size 0 {l = λ q. []}
            (subst (λ j. Rep j (λ q. [])) (sym e) (at_start k3)) (λ j h q. refl))
          λ _ k4 b4.
            let c4 =
              Chunked-heap b 96 n (ap (λ (j : Kernel). j.header) b4.others)
                (ap (λ (j : Kernel). j.free_list) b4.others) c in
            mono (init_pcb_queue_lem sleep_queue (b + 96) (n - 96) k4 c4.roomy (omega arith))
              λ _ k5 (c5, e5). record {
                rep = subst (λ j. Rep j start_lists) (sym e5) (again k4 k5 b4.rep);
                same = λ a.
                    ap (λ (j : Kernel). unlinked (j.pcb a)) e5
                    ∙ b4.same a
                    ∙ ap (λ (j : Kernel). unlinked (started 0 pcb_table_size j.pcb a)) e;
                heap = Chunked-append b 96 32 n k k4 k5 c4 c5 (omega arith);
                others =
                    e5
                    ∙ ap (λ (j : Kernel). cleared sleep_queue j k5)
                        (b4.others
                          ∙ ap (λ (j : Kernel). record j { pcb = k4.pcb; queue = k4.queue }) e)
                    ∙ ap
                        (λ (j : Kernel). record k {
                          pcb = j.pcb;
                          queue = j.queue;
                          header = k5.header;
                          free_list = k5.free_list;
                        })
                        (sym e5);
              }
