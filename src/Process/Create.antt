-- ===== src/Process/Create.antt =====
-- `create` of c/create.c while the heap and the table have room.
use xeros_kernel.Base.{
  ℕ, ◌+◌, ◌-◌, ◌*◌, ◌%◌, ◌^◌, ◌≤◌, ◌<◌, ◌≡◌, refl, ◌≢◌, ◌∙◌, sym, ap, subst, List, ◌∷◌, arith, ◌==◌,
  if◌then◌else◌, ==_of_ne,
}
use xeros_kernel.Base.Int.{ℤ, pos, pos_part, ltb_ℤ}
use xeros_kernel.Kernel.Config.{Ptr, null, kill_signal_num, create_failure, default_stack_size}
use xeros_kernel.Kernel.Types.{log_out, no_pcb, Pcb, Kernel, ready_queue, stopped_queue}
use xeros_kernel.Kernel.Bytes.{Mem, load_word, store_word}
use xeros_kernel.Kernel.Cmd.{pure, print, ◌>>◌, ◌>>=◌, Returns}
use xeros_kernel.Kernel.Access.{bind, mono}
use xeros_kernel.Queue.Rep.{IsQueue, Queues, put_list, Rep, unlinked}
use xeros_kernel.Queue.Ends.{pcb_poll_lem}
use xeros_kernel.Table.{get_free_pcb}
use xeros_kernel.Table.Moves.{offered}
use xeros_kernel.Table.Peek.{polled-IsFree}
use xeros_kernel.Memory.{align_to_paragraph, kfree}
use xeros_kernel.Memory.Alloc.{needed}
use xeros_kernel.Memory.Carve.{Roomy, Carved, kmalloc-carves}
use xeros_kernel.Signal.{Machine, poke}
use xeros_kernel.Process.{create, set_up}
use xeros_kernel.Process.Birth.{stack_pointer, born, set_up_lem}

-- The size of the stack.
abbrev pub stack_size : ℤ → ℕ
stack_size stack =
    if ltb_ℤ stack (pos default_stack_size) then default_stack_size else pos_part stack

pub needed_bounds : (z : ℕ) → z < 2 ^ 31 → (z + 16 ≤ needed z) × (needed z ≤ z + 32)
unfolding align_to_paragraph
needed_bounds z h = ground arith

needed_table : needed 128 ≡ 144
unfolding align_to_paragraph
needed_table = refl

-- A state with the heap of another, and one with the control blocks, queues and memory of another.
abbrev pub from_heads : Kernel → Kernel → Kernel
from_heads h k = record k { header = h.header; free_list = h.free_list }

abbrev pub from_process : Kernel → Kernel → Kernel
from_process p k = record k { pcb = p.pcb; queue = p.queue; mem = p.mem }

pub from_heap : {j k : Kernel} {l : Queues} → Rep j l → k ≡ from_heads k j → Rep k l
from_heap {l = l} is e = subst (λ i. Rep i l) (sym e) (record { each = is.each; apart = is.apart })

pub Roomy-process : {b n : ℕ} {k : Kernel} (p : Kernel) → Roomy b n k → Roomy b n (from_process p k)
Roomy-process p h = record {
  first = h.first;
  size = h.size;
  prev = h.prev;
  some_b = h.some_b;
  above = h.above;
}

pub Rep-mem : {k : Kernel} {l : Queues} (g : Mem) → Rep k l → Rep (record k { mem = g }) l
Rep-mem g is = record { each = is.each; apart = is.apart }

-- The process `x` with the pid that it had in the table, its stack in the first free block, its
-- signal table behind it.
pub record Created (m : Machine) (x b n z fp : ℕ) (l : Queues) (k k' : Kernel) : Type 0 where
  pub rep : Rep k' (offered ready_queue x l)
  pub block : unlinked (k'.pcb x) ≡ unlinked (born (b + 16) (b + needed z + 16) z (k.pcb x))
  pub elsewhere : (a : Ptr) → a ≢ x → unlinked (k'.pcb a) ≡ unlinked (k.pcb a)
  pub entry : load_word k'.mem (stack_pointer (b + 16) z + 32) ≡ fp % 2 ^ 32
  pub return_to : load_word k'.mem (b + 16 + z - 4) ≡ m.sysstop % 2 ^ 32
  pub killed : load_word k'.mem (b + needed z + 16 + 4 * kill_signal_num) ≡ m.sysstop % 2 ^ 32
  pub roomy : Roomy (b + needed z + 144) (n - needed z - 144) k'
  pub others : k' ≡ record k {
    pcb = k'.pcb;
    queue = k'.queue;
    mem = k'.mem;
    header = k'.header;
    free_list = k'.free_list;
  }

module _ (m : Machine) (x b n fp : ℕ) (xs : List Ptr) (stack : ℤ) {k : Kernel} {l : Queues} where
  -- If the queues are well formed, `x` is the first stopped process, the first free block has room
  -- for a stack of the size asked for, 8192 bytes at least and less than 2 ^ 31, and for the signal
  -- table, and the function is not NULL, then `create` returns the pid in the control block of `x`,
  -- which is ready and last in the ready queue. Its stack pointer leads to a context frame with the
  -- function's address; at the end of the stack stands the address of `sysstop`, as it does in the
  -- signal table for signal 31. The free list starts behind the two blocks. Pending signals and
  -- open descriptors of the slot's former process stay, and no other control block's data changes.
  pub create_lem :
      let z = stack_size stack in
      Rep k l
      → l stopped_queue ≡ x ∷ xs
      → Roomy b n k
      → fp ≢ null
      → z < 2 ^ 31
      → needed z + 144 < n
      → Returns
          (λ r k'.
            (r ≡ pos (k.pcb x).pid) × Created m x b n z fp (put_list stopped_queue xs l) k k')
          (create m fp stack k)
  unfolding create get_free_pcb
  create_lem is stopped roomy some_fp small room =
      let z = stack_size stack in
      let nb = needed_bounds z small in
      let large : 8192 ≤ stack_size stack = ground arith in
      rw (==_of_ne fp null some_fp) (
        bind
          (kmalloc-carves z b n k (omega (arith, large)) roomy (omega (arith, nb.0)) (omega arith))
          λ p k1 (pe, c1).
            rw (pe, ==_of_ne (b + 16) null (λ e. omega (arith, e)))
              (bind
                (kmalloc-carves 128 (b + needed z) (n - needed z) k1 (omega arith) c1.roomy
                  (rw needed_table (omega arith)) (rw needed_table (omega (arith, room))))
                λ q k2 (qe, c2).
                  rw (qe, ==_of_ne (b + needed z + 16) null (λ e. omega (arith, e)))
                    (started k1 k2 large nb c1 c2)))
    where
      z : ℕ
      z = stack_size stack

      started :
          (k1 k2 : Kernel)
          → 8192 ≤ z
          → (z + 16 ≤ needed z) × (needed z ≤ z + 32)
          → Carved b (needed z) n k k1
          → Carved (b + needed z) (needed 128) (n - needed z) k1 k2
          → Returns
              (λ r k'.
                (r ≡ pos (k.pcb x).pid) × Created m x b n z fp (put_list stopped_queue xs l) k k')
              ((poke (b + needed z + 16) 0
                  >> (get_free_pcb >>= λ new_proc.
                      if new_proc == null
                      then (do
                        print (log_out no_pcb)
                        kfree (b + 16)
                        kfree (b + needed z + 16)
                        pure create_failure)
                      else set_up m new_proc (b + 16) (b + needed z + 16) z fp))
                k2)
      started k1 k2 large nb c1 c2 =
          let heap = c2.others ∙ ap (from_heads k2) c1.others in
          let is3 : Rep (record k2 { mem = store_word k2.mem (b + needed z + 16) 0 }) l =
            Rep-mem (store_word k2.mem (b + needed z + 16) 0) (from_heap is heap) in
          let i : IsQueue k.pcb (k.queue stopped_queue) (x ∷ xs) =
            rw stopped at (is.each stopped_queue) in
          let ne : x ≢ null = i.chain.1 in
          let left : Roomy (b + needed z + 144) (n - needed z - 144) k2 =
            subst (λ w. Roomy (b + needed z + w) (n - needed z - w) k2) needed_table c2.roomy in
          bind (pcb_poll_lem stopped_queue (x ∷ xs) is3 stopped) λ p k4 (pe, b4).
            let same = λ (a : Ptr). b4.same a ∙ ap (λ (j : Kernel). unlinked (j.pcb a)) heap in
            rw (pe, ==_of_ne x null ne)
              (mono
                (set_up_lem m x (b + 16) (b + needed z + 16) z fp b4.rep ne
                  (polled-IsFree stopped_queue x xs is stopped) (omega (arith, large))
                  (omega (arith, nb.0)))
                λ r k5 (re, bn).
                  let only = bn.others ∙ ap (from_process k5) b4.others in
                  (
                    re ∙ ap (λ (q : Pcb). pos q.pid) (same x),
                    record {
                      rep = bn.rep;
                      block =
                          bn.block
                          ∙ ap (λ (q : Pcb). unlinked (born (b + 16) (b + needed z + 16) z q))
                              (same x);
                      elsewhere = λ a out. bn.elsewhere a out ∙ same a;
                      entry = bn.entry;
                      return_to = bn.return_to;
                      killed = bn.killed;
                      roomy =
                          subst (Roomy (b + needed z + 144) (n - needed z - 144)) (sym only)
                            (Roomy-process k5 left);
                      others =
                          only
                          ∙ ap (from_process k5) heap
                          ∙ ap
                              (λ (j : Kernel). record (from_process k5 k) {
                                header = j.header;
                                free_list = j.free_list;
                              })
                              (sym only);
                    },
                  ))
