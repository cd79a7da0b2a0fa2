-- ===== src/Start/Idle.antt =====
-- `idleinit` of c/create.c.
use xeros_kernel.Base.{
  ℕ, ◌+◌, ◌-◌, ◌%◌, ◌^◌, ◌<◌, ◌≡◌, refl, ◌≢◌, ◌∙◌, sym, ap, subst, arith, ==_of_ne,
}
use xeros_kernel.Base.Int.{pos}
use xeros_kernel.Kernel.Config.{Ptr, null, idle_process}
use xeros_kernel.Kernel.Types.{Pcb, Kernel, ready, unblocked}
use xeros_kernel.Kernel.Bytes.{load_word, store_word}
use xeros_kernel.Kernel.Cmd.{put_pcb, Returns, returns}
use xeros_kernel.Kernel.Access.{update-done, bind}
use xeros_kernel.Queue.Rep.{Queues, Rep}
use xeros_kernel.Queue.Becomes.{Rep-put_pcb}
use xeros_kernel.Memory.{align_to_paragraph}
use xeros_kernel.Memory.Alloc.{needed}
use xeros_kernel.Memory.Carve.{Roomy, kmalloc-carves}
use xeros_kernel.Signal.{Machine}
use xeros_kernel.Signal.Frame.{init_context_frame_lem}
use xeros_kernel.Process.{idleinit}
use xeros_kernel.Process.Birth.{stack_pointer, from_mem}
use xeros_kernel.Process.Create.{from_heap, from_heads, Rep-mem}

-- The idle process stands in no queue, and has its context on its stack.
pub record Idle (b n idleproc : ℕ) (l : Queues) (k k' : Kernel) : Type 0 where
  pub rep : Rep k' l
  pub roomy : Roomy (b + 2064) (n - 2064) k'
  pub entry : load_word k'.mem (stack_pointer (b + 16) 2048 + 32) ≡ idleproc % 2 ^ 32
  pub elsewhere : (a : Ptr) → a ≢ idle_process → k'.pcb a ≡ k.pcb a
  pub others :
      k' ≡ record k { pcb = k'.pcb; mem = k'.mem; header = k'.header; free_list = k'.free_list }

needed_idle : needed 2048 ≡ 2064
unfolding align_to_paragraph
needed_idle = refl

-- The writes to the idle process' control block.
abbrev stacked : (b : ℕ) → Pcb → Pcb
stacked b p = record p { stack_start = b + 16 }

abbrev aimed : (b : ℕ) → Pcb → Pcb
aimed b p = record p { esp = stack_pointer (b + 16) 2048 }

abbrev idle_fields : Pcb → Pcb
idle_fields p = record p {
  pid = 0;
  blocked_id = 0;
  cpu_time = 0;
  blocked_status = unblocked;
  state = ready;
}

abbrev idle_start : Machine → ℕ → Kernel → Kernel
idle_start m b k = put_pcb idle_process (aimed b) (record (put_pcb idle_process (stacked b) k) {
  mem = store_word k.mem (b + 16 + 2048 - 4) m.sysstop;
})

some_idle : idle_process ≢ null
some_idle e = omega (arith, e)

put_elsewhere :
    (f : Pcb → Pcb) (a : Ptr) (k : Kernel)
    → a ≢ idle_process
    → (put_pcb idle_process f k).pcb a ≡ k.pcb a
unfolding put_pcb
put_elsewhere f a k out = rw (==_of_ne a idle_process out) refl

start_elsewhere :
    (m : Machine) (b : ℕ) (a : Ptr) (k : Kernel)
    → a ≢ idle_process
    → (idle_start m b k).pcb a ≡ k.pcb a
unfolding put_pcb
start_elsewhere m b a k out = rw (==_of_ne a idle_process out) refl

Idle-finish :
    (m : Machine) (b n idleproc : ℕ) {k1 k2 : Kernel} {l : Queues}
    → Rep k1 l
    → Roomy (b + 2064) (n - 2064) k1
    → k2 ≡ record (idle_start m b k1) { mem = k2.mem }
    → load_word k2.mem (stack_pointer (b + 16) 2048 + 32) ≡ idleproc % 2 ^ 32
    → Idle b n idleproc l k1 (put_pcb idle_process idle_fields k2)
unfolding put_pcb
Idle-finish m b n idleproc {k1} {k2} {l} is roomy same eip = record {
  rep =
      let is1 : Rep (put_pcb idle_process (stacked b) k1) l =
        Rep-put_pcb idle_process (stacked b) (λ p. refl) is in
      let is2 : Rep (idle_start m b k1) l =
        Rep-put_pcb idle_process (aimed b) (λ p. refl)
          (Rep-mem (store_word k1.mem (b + 16 + 2048 - 4) m.sysstop) is1) in
      Rep-put_pcb idle_process idle_fields (λ p. refl) (from_mem is2 same);
  roomy =
      let r : Roomy (b + 2064) (n - 2064) k2 =
        subst (Roomy (b + 2064) (n - 2064)) (sym same) (record {
          first = roomy.first;
          size = roomy.size;
          prev = roomy.prev;
          some_b = roomy.some_b;
          above = roomy.above;
        }) in
      record { first = r.first; size = r.size; prev = r.prev; some_b = r.some_b; above = r.above };
  entry = eip;
  elsewhere = λ a out.
      put_elsewhere idle_fields a k2 out
      ∙ ap (λ (j : Kernel). j.pcb a) same
      ∙ start_elsewhere m b a k1 out;
  others =
      ap (λ (j : Kernel). record j { pcb = (put_pcb idle_process idle_fields k2).pcb }) same
      ∙ ap
          (λ (j : Kernel). record k1 {
            pcb = (put_pcb idle_process idle_fields k2).pcb;
            mem = k2.mem;
            header = j.header;
            free_list = j.free_list;
          })
          (sym same);
}

-- The heap may have changed before.
Idle-after :
    {b n idleproc : ℕ} {l : Queues} {k k1 k' : Kernel}
    → k1 ≡ from_heads k1 k
    → Idle b n idleproc l k1 k'
    → Idle b n idleproc l k k'
Idle-after {k = k} {k' = k'} same i = record {
  rep = i.rep;
  roomy = i.roomy;
  entry = i.entry;
  elsewhere = λ a out. i.elsewhere a out ∙ ap (λ (j : Kernel). j.pcb a) same;
  others =
      i.others
      ∙ ap
          (λ (j : Kernel). record j {
            pcb = k'.pcb;
            mem = k'.mem;
            header = k'.header;
            free_list = k'.free_list;
          })
          same;
}

pub idleinit_lem :
    (m : Machine) (b n idleproc : ℕ) {k : Kernel} {l : Queues}
    → Rep k l
    → Roomy b n k
    → 2064 < n
    → Returns (λ r k'. (r ≡ pos 0) × Idle b n idleproc l k k') (idleinit m idleproc k)
unfolding idleinit put_pcb
idleinit_lem m b n idleproc {k} {l} is roomy room =
    bind
      (kmalloc-carves 2048 b n k (omega arith) roomy (rw needed_idle (omega arith))
        (rw needed_idle room))
      λ p k1 (pe, c1).
        rw
          (
            pe,
            ==_of_ne (b + 16) null (λ e. omega (arith, e)),
            update-done idle_process k1 some_idle (stacked b),
            update-done idle_process
                (record (put_pcb idle_process (stacked b) k1) {
                  mem =
                      store_word (put_pcb idle_process (stacked b) k1).mem (b + 16 + 2048 - 4)
                        m.sysstop;
                })
                some_idle (aimed b),
          )
          (bind
            (init_context_frame_lem m (stack_pointer (b + 16) 2048) idleproc (idle_start m b k1))
            λ _ k2 (same, agree, eip). rw (update-done idle_process k2 some_idle idle_fields) (
              returns (
                refl,
                Idle-after c1.others (
                    Idle-finish m b n idleproc (from_heap is c1.others)
                      (subst (λ w. Roomy (b + w) (n - w) k1) needed_idle c1.roomy) same eip),
              )))
