-- ===== src/Process/Birth.antt =====
-- `create` of c/create.c: what a new process finds.
use xeros_kernel.Base.{
  ℕ, ◌+◌, ◌-◌, ◌*◌, ◌%◌, ◌^◌, ◌≤◌, ◌≡◌, refl, ◌≢◌, ◌∙◌, sym, ap, arith, ==_of_ne, ==_refl, subst,
}
use xeros_kernel.Base.Int.{pos}
use xeros_kernel.Kernel.Config.{Ptr, null, context_frame_size, kill_signal_num}
use xeros_kernel.Kernel.Types.{Pcb, Kernel, ready_queue, ready, unblocked}
use xeros_kernel.Kernel.Bytes.{
  Mem, load_word, store_word, load-store_mod, load-store_apart, load_agree,
}
use xeros_kernel.Kernel.Cmd.{put_pcb, Returns, returns}
use xeros_kernel.Kernel.Access.{load-done, update-done, bind}
use xeros_kernel.Queue.Chain.{Store}
use xeros_kernel.Queue.Rep.{Queues, IsFree, Rep, unlinked}
use xeros_kernel.Queue.Becomes.{edit, Rep-put_pcb}
use xeros_kernel.Table.Moves.{offered, readied, add_pcb_to_ready_queue_lem}
use xeros_kernel.Signal.{Machine}
use xeros_kernel.Signal.Frame.{init_context_frame_lem}
use xeros_kernel.Process.{set_up}

-- The memory of a new process: its stack of `z` bytes at `s`, its signal table at `t`.
abbrev pub stack_pointer : (s z : ℕ) → ℕ
stack_pointer s z = s + z - 4 - context_frame_size

-- What `create` writes into the control block. Pending signals and descriptors stay.
abbrev pub born : (s t z : ℕ) → Pcb → Pcb
born s t z p = record p {
  stack_start = s;
  signal_table = t;
  signals_enabled = 0;
  esp = stack_pointer s z;
  state = ready;
  blocked_status = unblocked;
}

-- The process `x` is set up to start at `fp`, and to call `sysstop` when it returns or is killed.
pub record Born (m : Machine) (x s t z fp : ℕ) (l : Queues) (k k' : Kernel) : Type 0 where
  pub rep : Rep k' (offered ready_queue x l)
  pub block : unlinked (k'.pcb x) ≡ unlinked (born s t z (k.pcb x))
  pub elsewhere : (a : Ptr) → a ≢ x → unlinked (k'.pcb a) ≡ unlinked (k.pcb a)
  pub entry : load_word k'.mem (stack_pointer s z + 32) ≡ fp % 2 ^ 32
  pub return_to : load_word k'.mem (s + z - 4) ≡ m.sysstop % 2 ^ 32
  pub killed : load_word k'.mem (t + 4 * kill_signal_num) ≡ m.sysstop % 2 ^ 32
  pub others : k' ≡ record k { pcb = k'.pcb; queue = k'.queue; mem = k'.mem }

-- The memory before the context frame is made.
abbrev words : Machine → (s t z : ℕ) → Mem → Mem
words m s t z mem =
    store_word (store_word mem (t + 4 * kill_signal_num) m.sysstop) (s + z - 4) m.sysstop

abbrev block : (s t : ℕ) → Pcb → Pcb
block s t p = record p { stack_start = s; signal_table = t; signals_enabled = 0 }

abbrev pointed : (s z : ℕ) → Pcb → Pcb
pointed s z p = record p { esp = stack_pointer s z }

-- The control blocks and the memory before the frame is made.
abbrev prepared : Machine → (x s t z : ℕ) → Kernel → Kernel
prepared m x s t z k =
    put_pcb x (pointed s z) (record (put_pcb x (block s t) k) { mem = words m s t z k.mem })

prepared-Rep :
    (m : Machine) (x s t z : ℕ) {k : Kernel} {l : Queues} → Rep k l → Rep (prepared m x s t z k) l
prepared-Rep m x s t z {k} is =
    let is1 = Rep-put_pcb x (block s t) (λ p. refl) is in
    Rep-put_pcb x (pointed s z) (λ p. refl) (record { each = is1.each; apart = is1.apart })

prepared_self :
    (m : Machine) (x s t z : ℕ) (k : Kernel)
    → (prepared m x s t z k).pcb x ≡ pointed s z (block s t (k.pcb x))
unfolding put_pcb
prepared_self m x s t z k = rw (==_refl x) refl

prepared_ne :
    (m : Machine) (x s t z a : ℕ) (k : Kernel) → a ≢ x → (prepared m x s t z k).pcb a ≡ k.pcb a
unfolding put_pcb
prepared_ne m x s t z a k ne = rw (==_of_ne a x ne) refl

-- A change of memory alone keeps the queues.
pub from_mem : {j k : Kernel} {l : Queues} → Rep j l → k ≡ record j { mem = k.mem } → Rep k l
from_mem {l = l} is e = subst (λ i. Rep i l) (sym e) (record { each = is.each; apart = is.apart })

readied_self :
    (x : Ptr) (h : Store) (p : Pcb) → h x ≡ p → unlinked (edit x readied h x) ≡ unlinked (readied p)
readied_self x h p e = rw (==_refl x, e) refl

module _ (m : Machine) (x s t z fp : ℕ) {k : Kernel} {l : Queues} where
  pub set_up_lem :
      Rep k l
      → x ≢ null
      → IsFree l x
      → 48 ≤ z
      → (s + z ≤ t)
      → Returns (λ r k'. (r ≡ pos (k.pcb x).pid) × Born m x s t z fp l k k') (set_up m x s t z fp k)
  unfolding set_up put_pcb
  set_up_lem is ne free room above =
      rw
        (
          update-done x k ne (block s t),
          update-done x (record (put_pcb x (block s t) k) { mem = words m s t z k.mem }) ne
              (pointed s z),
        )
        (bind (init_context_frame_lem m (stack_pointer s z) fp (prepared m x s t z k))
          λ _ k1 (same, agree, eip).
            let h = k1.pcb in
            let self : h x ≡ pointed s z (block s t (k.pcb x)) =
              ap (λ (j : Kernel). j.pcb x) same ∙ prepared_self m x s t z k in
            bind (add_pcb_to_ready_queue_lem x (from_mem (prepared-Rep m x s t z is) same) ne free)
              λ _ k2 b.
                let at_x = b.same x ∙ readied_self x h (pointed s z (block s t (k.pcb x))) self in
                let mem_same : k2.mem ≡ k1.mem = ap (λ (j : Kernel). j.mem) b.others in
                rw (load-done x k2 ne) (
                  returns (
                    ap (λ (p : Pcb). pos p.pid) at_x,
                    record {
                      rep = b.rep;
                      block = at_x;
                      elsewhere = λ a out.
                          b.same a
                          ∙ rw (==_of_ne a x out) (
                              ap (λ (j : Kernel). unlinked (j.pcb a)) same
                              ∙ ap unlinked (prepared_ne m x s t z a k out));
                      entry = rw mem_same eip;
                      return_to = rw mem_same (
                          load_agree (stack_pointer s z + 44) (s + z - 4) (words m s t z k.mem)
                            k1.mem (omega arith) agree
                          ∙ load-store_mod _ (s + z - 4) m.sysstop);
                      killed = rw mem_same (
                          load_agree (stack_pointer s z + 44) (t + 124) (words m s t z k.mem) k1.mem
                            (omega arith) agree
                          ∙ load-store_apart _ (s + z - 4) (t + 124) m.sysstop (omega arith)
                          ∙ load-store_mod k.mem (t + 124) m.sysstop);
                      others =
                          b.others
                          ∙ ap (λ (j : Kernel). record j { pcb = k2.pcb; queue = k2.queue }) same
                          ∙ ap (λ (g : Mem). record k { pcb = k2.pcb; queue = k2.queue; mem = g })
                              (sym mem_same);
                    },
                  )))
