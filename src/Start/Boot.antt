-- ===== src/Start/Boot.antt =====
-- The start of the kernel up to its first process.
use xeros_kernel.Base.{
  ℕ, ◌+◌, ◌-◌, ◌%◌, ◌^◌, ◌≤◌, ◌<◌, ◌≡◌, refl, ◌≢◌, ◌∙◌, sym, ap, subst, List, [], ◌∷◌, arith,
  ==_of_ne,
}
use xeros_kernel.Base.Int.{pos}
use xeros_kernel.Kernel.Config.{Ptr, null, hole_start, slot}
use xeros_kernel.Kernel.Types.{
  Pcb, PcbQueue, QueueId, Kernel, Header, ready_queue, stopped_queue, sleep_queue, running,
  Keyboard, Idt,
}
use xeros_kernel.Kernel.Bytes.{Blkcopy, load_word}
use xeros_kernel.Kernel.Cmd.{◌>>◌, pure, Returns, returns}
use xeros_kernel.Kernel.Access.{bind, mono}
use xeros_kernel.Queue.Rep.{Queues, put_list, Rep}
use xeros_kernel.Table.Moves.{offered, get_next_pcb_lem}
use xeros_kernel.Table.Start.{slots, start_lists, initpcb_lem}
use xeros_kernel.Memory.{align_to_paragraph}
use xeros_kernel.Memory.Alloc.{needed}
use xeros_kernel.Memory.Chunks.{Chunked, Chunked-append, Chunked-heap, kmalloc-chunk}
use xeros_kernel.Memory.Carve.{Roomy, kmeminit_lem}
use xeros_kernel.Signal.{Machine}
use xeros_kernel.Process.Birth.{stack_pointer}
use xeros_kernel.Process.Create.{Created, create_lem}
use xeros_kernel.Device.{di_init_devtable}
use xeros_kernel.Keyboard.{enable_irq, kbd_init, kbd_devsw_init}
use xeros_kernel.Hardware.{Entries, set_evec, contextinit, init_pit}
use xeros_kernel.Dispatch.Round.{Order, dispatch, dispatch_run}
use xeros_kernel.Start.Idle.{idleinit_lem}
use xeros_kernel.Start.{dispinit, rootinit, boot, initproc}

-- Both devices' blocks are allocated; else the devices and gates are set up apart from the processes.
device_block :
    (echo b n : ℕ) (k : Kernel)
    → Roomy b n k
    → 32 < n
    → Returns
        (λ _ k'.
          Chunked b 32 n k k' × (k' ≡ record k { header = k'.header; free_list = k'.free_list }))
        (kbd_devsw_init echo k)
unfolding kbd_devsw_init align_to_paragraph
device_block echo b n k roomy room =
    bind (kmalloc-chunk 4 b n k (omega arith) refl roomy room) λ p k1 (at, c, others).
      rw (at, ==_of_ne (b + 16) null (λ e. omega (arith, e))) (returns (c, others))

keyboards_set :
    (k : Kernel)
    → Returns
        (λ _ k'. (kb : Keyboard) × (k' ≡ record k { kbd = kb }))
        ((kbd_init >> (kbd_init >> pure tt)) k)
unfolding kbd_init
keyboards_set k = returns (_, refl)

devices_set :
    (b n : ℕ) (k : Kernel)
    → Roomy b n k
    → 64 < n
    → Returns
        (λ _ k'.
          (kb : Keyboard) × Chunked b 64 n k k'
          × (k' ≡ record k { kbd = kb; header = k'.header; free_list = k'.free_list }))
        (di_init_devtable k)
unfolding di_init_devtable
devices_set b n k roomy room = bind (device_block 0 b n k roomy (omega arith)) λ _ k1 (c1, e1).
    bind (device_block 1 (b + 32) (n - 32) k1 c1.roomy (omega arith)) λ _ k2 (c2, e2).
      mono (keyboards_set k2) λ _ k3 (kb, e3). (
        kb,
        Chunked-heap b 64 n (ap (λ (j : Kernel). j.header) e3) (ap (λ (j : Kernel). j.free_list) e3)
            (Chunked-append b 32 32 n k k1 k2 c1 c2 (omega arith)),
        e3
            ∙ ap (λ (j : Kernel). record j { kbd = kb })
                (e2
                  ∙ ap (λ (j : Kernel). record j { header = k2.header; free_list = k2.free_list })
                      e1)
            ∙ ap (λ (j : Kernel). record k { kbd = kb; header = j.header; free_list = j.free_list })
                (sym e3),
      )

gates_set :
    (e : Entries) (k : Kernel)
    → Returns (λ _ k'. (g : ℕ → Idt) × (k' ≡ record k { idt = g })) (contextinit e k)
unfolding contextinit set_evec
gates_set e k = returns (_, refl)

pit_set :
    (k : Kernel)
    → Returns
        (λ _ k'.
          (mask : ℕ → ℕ) × (out : List (ℕ × ℕ)) × (k' ≡ record k { irq_mask = mask; ports = out }))
        (init_pit 100 k)
unfolding init_pit enable_irq
pit_set k = returns (_, _, refl)

ports-Rep :
    {k : Kernel} {l : Queues} (mask : ℕ → ℕ) (out : List (ℕ × ℕ))
    → Rep k l
    → Rep (record k { irq_mask = mask; ports = out }) l
ports-Rep mask out is = record { each = is.each; apart = is.apart }

Roomy-same :
    {b n : ℕ} {k k' : Kernel}
    → k'.header ≡ k.header
    → k'.free_list ≡ k.free_list
    → Roomy b n k
    → Roomy b n k'
Roomy-same {b} {n} h f r = record {
  first = f ∙ r.first;
  size = ap (λ (g : Ptr → Header). (g b).size) h ∙ r.size;
  prev = ap (λ (g : Ptr → Header). (g b).prev) h ∙ r.prev;
  some_b = r.some_b;
  above = subst (λ (g : Ptr → Header). b + n ≤ (g b).next) (sym h) r.above;
}

-- The ready queue has the root process, the other slots are stopped.
abbrev pub boot_lists : Queues
boot_lists = offered ready_queue 1 (put_list stopped_queue (slots 1 31) start_lists)

-- The root process is ready to run from the address `root`.
pub record Booted (m : Machine) (e : Entries) (root b : ℕ) (k' : Kernel) : Type 0 where
  pub rep : Rep k' boot_lists
  pub pid : (k'.pcb 1).pid ≡ 1
  pub esp : (k'.pcb 1).esp ≡ stack_pointer (b + 2064 + 16) 8192
  pub entry : load_word k'.mem (stack_pointer (b + 2064 + 16) 8192 + 32) ≡ root % 2 ^ 32

needed_root : needed 8192 ≡ 8208
unfolding align_to_paragraph
needed_root = refl

first_slot : slots 0 32 ≡ 1 ∷ slots 1 31
unfolding slots
first_slot = refl

boot_lem :
    (m : Machine) (e : Entries) (idleproc root : ℕ) (k : Kernel)
    → k.queue sleep_queue ≡ record { head = null; tail = null; size = pos 0 }
    → root ≢ null
    → let b = align_to_paragraph k.freemem in
      1 ≤ b
      → b + 10608 < hole_start
      → Returns (λ _ k'. Booted m e root (b + 192) k') (boot m e idleproc root k)
unfolding boot dispinit rootinit
boot_lem m e idleproc root k none some_root lo room =
    let b = align_to_paragraph k.freemem in
    let n = hole_start - align_to_paragraph k.freemem in
    bind (kmeminit_lem k lo (omega arith)) λ _ k1 heap.
      bind (devices_set b n k1 heap.0 (omega arith)) λ _ k2 (kb, c2, e2).
        bind (gates_set e k2) λ _ k3 (g, e3).
          let h3 = ap (λ (j : Kernel). j.header) e3 in
          let f3 = ap (λ (j : Kernel). j.free_list) e3 in
          let c3 = Chunked-heap b 64 n h3 f3 c2 in
          let q3 : k3.queue ≡ k.queue =
            ap (λ (j : Kernel). j.queue) e3
            ∙ ap (λ (j : Kernel). j.queue) e2
            ∙ ap (λ (j : Kernel). j.queue) heap.5 in
          bind
            (initpcb_lem (b + 64) (n - 64) k3
              (ap (λ (g : QueueId → PcbQueue). g sleep_queue) q3 ∙ none) c3.roomy (omega arith))
            λ _ k4 i4.
              let c4 = Chunked-append b 64 128 n k1 k3 k4 c3 i4.heap (omega arith) in
              let pid4 : (k4.pcb 1).pid ≡ 1 = ap (λ (p : Pcb). p.pid) (i4.same 1) in
              bind (idleinit_lem m (b + 192) (n - 192) idleproc i4.rep c4.roomy (omega arith))
                λ _ k5 (_, i5).
                  let pid5 =
                    ap (λ (p : Pcb). p.pid) (i5.elsewhere 1 (λ q. omega (arith, q))) ∙ pid4 in
                  root_ready (b + 192) (n - 192) i5.rep i5.roomy (omega arith) pid5
  where
    root_ready :
        {k5 : Kernel} (b n : ℕ)
        → Rep k5 start_lists
        → Roomy (b + 2064) (n - 2064) k5
        → 10416 < n
        → (k5.pcb 1).pid ≡ 1
        → Returns (λ _ k'. Booted m e root b k') ((rootinit m root >> init_pit 100) k5)
    root_ready {k5} b n is roomy room pid5 =
        bind
          {P = λ _ k6.
            Created m 1 (b + 2064) (n - 2064) 8192 root
              (put_list stopped_queue (slots 1 31) start_lists) k5 k6}
          (bind
            (create_lem m 1 (b + 2064) (n - 2064) root (slots 1 31) (pos 8192) is first_slot roomy
              some_root (omega arith) (rw needed_root (omega arith)))
            λ r k6 (re, c). returns c)
          λ _ k6 c. mono (pit_set k6) λ _ k7 (mask, out, e7).
            let pid6 = ap (λ (p : Pcb). p.pid) c.block ∙ pid5 in
            let esp6 = ap (λ (p : Pcb). p.esp) c.block in
            record {
              rep = subst (λ i. Rep i boot_lists) (sym e7) (ports-Rep mask out c.rep);
              pid = ap (λ (j : Kernel). (j.pcb 1).pid) e7 ∙ pid6;
              esp = ap (λ (j : Kernel). (j.pcb 1).esp) e7 ∙ esp6;
              entry =
                  ap (λ (j : Kernel). load_word j.mem (stack_pointer (b + 2064 + 16) 8192 + 32)) e7
                  ∙ c.entry;
            }

module _ (lib : Blkcopy) (m : Machine) (order : Order) (e : Entries) (idleproc root : ℕ) where
  -- From a state whose sleep queue struct is zero, with a root program that is not NULL and free
  -- memory that, rounded up to a multiple of 16, is not 0 and leaves more than 10608 bytes below
  -- the hole of the address space, `initproc` sets the machine up and reaches the dispatcher's
  -- loop: the process that runs first is slot 0 of the table, running, with pid 1, its stack
  -- pointer leads to a context frame with the root program's address, the ready queue is empty, the
  -- other 31 slots are stopped, and the queues are well formed.
  pub initproc_lem :
      (k : Kernel)
      → k.queue sleep_queue ≡ record { head = null; tail = null; size = pos 0 }
      → root ≢ null
      → 1 ≤ align_to_paragraph k.freemem
      → align_to_paragraph k.freemem + 10608 < hole_start
      → Returns
          (λ p k'.
            (p ≡ slot 0)
            × Rep k' (put_list ready_queue [] boot_lists)
            × ((k'.pcb p).pid ≡ 1)
            × ((k'.pcb p).state ≡ running)
            × (load_word k'.mem ((k'.pcb p).esp + 32) ≡ root % 2 ^ 32))
          (initproc lib m order e idleproc root [] k)
  unfolding initproc dispatch dispatch_run
  initproc_lem k none some_root lo room =
      bind (boot_lem m e idleproc root k none some_root lo room) λ _ k1 b.
        bind (get_next_pcb_lem 1 [] b.rep refl) λ p k2 (pe, b2).
          let one = b2.same 1 in
          let mem_same = ap (λ (j : Kernel). j.mem) b2.others in
          let esp = ap (λ (q : Pcb). q.esp) one ∙ b.esp in
          rw pe (
            returns (
              refl,
              b2.rep,
              ap (λ (q : Pcb). q.pid) one ∙ b.pid,
              ap (λ (q : Pcb). q.state) one,
              rw (mem_same, esp) b.entry,
            ))
