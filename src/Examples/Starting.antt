-- ===== src/Examples/Starting.antt =====
-- The start of the kernel on a machine with free memory from 65536 on, a new process, and the
-- controllers.
use xeros_kernel.Base.{ℕ, ◌+◌, ◌*◌, ◌≤◌, ◌<◌, ◌≡◌, refl, ◌≢◌, [], arith, ◌==◌, if◌then◌else◌}
use xeros_kernel.Base.Int.{pos}
use xeros_kernel.Base.Bits.{clear_bit}
use xeros_kernel.Kernel.Config.{null}
use xeros_kernel.Kernel.Types.{Kernel, ready_queue, stopped_queue, running}
use xeros_kernel.Kernel.Bytes.{load_word, block_copy}
use xeros_kernel.Kernel.Cmd.{◌>>=◌, ◌>>◌, Returns}
use xeros_kernel.Queue.Rep.{put_list, Rep}
use xeros_kernel.Memory.{align_to_paragraph, kmalloc, kfree}
use xeros_kernel.Memory.Carve.{Roomy, Carved, kmalloc-carves}
use xeros_kernel.Memory.Free.{Restored, kfree-kmalloc}
use xeros_kernel.Table.{initpcb}
use xeros_kernel.Table.Start.{Initial, initpcb_lem}
use xeros_kernel.Process.{create}
use xeros_kernel.Process.Create.{Created, create_lem}
use xeros_kernel.Hardware.{Entries, timer_freq, timer_div, init_pit, initevec, contextinit}
use xeros_kernel.Hardware.Gates.{LeadsTo, contextinit-initevec}
use xeros_kernel.Hardware.Timer.{Programmed, init_pit_lem}
use xeros_kernel.Hardware.Segments.{Segments}
use xeros_kernel.Dispatch.Round.{Order}
use xeros_kernel.Start.{initproc}
use xeros_kernel.Start.Boot.{boot_lists, initproc_lem}
use xeros_kernel.Examples.{sample, lists, sample-Rep, machine, blank}

abbrev entries : Entries
entries = record {
  defevec = λ i. 1000 + i;
  syscall_entry_point = 2000;
  timer_entry_point = 70000;
  keyboard_entry_point = 2002;
}

initproc_lem_example :
    Returns
      (λ p k'.
        (p ≡ 1)
        × Rep k' (put_list ready_queue [] boot_lists)
        × ((k'.pcb p).pid ≡ 1)
        × ((k'.pcb p).state ≡ running)
        × (load_word k'.mem ((k'.pcb p).esp + 32) ≡ 3000))
      (initproc block_copy machine Order.left_first entries 2900 3000 [] blank)
unfolding align_to_paragraph
initproc_lem_example =
    initproc_lem block_copy machine Order.left_first entries 2900 3000 blank refl
      (λ e. omega (arith, e)) (omega arith) (omega arith)

-- A heap with a large first block.
abbrev roomy_state : Kernel
roomy_state = record sample {
  free_list = 16384;
  header = λ a. record {
    size = 20480;
    prev = if a == 65536 then 16384 else null;
    next = 65536;
    sanity_check = null;
  };
}

roomy_state-Rep : Rep roomy_state lists
roomy_state-Rep = record { each = sample-Rep.each; apart = sample-Rep.apart }

roomy_state-Roomy : Roomy 16384 20480 roomy_state
roomy_state-Roomy = record {
  first = refl;
  size = refl;
  prev = refl;
  some_b = λ e. omega (arith, e);
  above = omega arith;
}

-- The same with no queue yet.
abbrev roomy_blank : Kernel
roomy_blank = record roomy_state { queue = blank.queue }

roomy_blank-Roomy : Roomy 16384 20480 roomy_blank
roomy_blank-Roomy = record {
  first = refl;
  size = refl;
  prev = refl;
  some_b = λ e. omega (arith, e);
  above = omega arith;
}

initpcb_lem_example : Returns (λ _ k'. Initial 16384 20480 roomy_blank k') (initpcb roomy_blank)
initpcb_lem_example = initpcb_lem 16384 20480 roomy_blank refl roomy_blank-Roomy (omega arith)

create_lem_example :
    Returns
      (λ r k'.
        (r ≡ pos 6)
        × Created machine 6 16384 20480 8192 3000 (put_list stopped_queue [] lists) roomy_state k')
      (create machine 3000 (pos 100) roomy_state)
unfolding align_to_paragraph
create_lem_example =
    create_lem machine 6 16384 20480 3000 [] (pos 100) roomy_state-Rep refl roomy_state-Roomy
      (λ e. omega (arith, e)) (omega arith) (omega arith)

kmalloc-carves_example :
    Returns (λ p k'. (p ≡ 16400) × Carved 16384 128 20480 roomy_state k') (kmalloc 100 roomy_state)
unfolding align_to_paragraph
kmalloc-carves_example =
    kmalloc-carves 100 16384 20480 roomy_state (omega arith) roomy_state-Roomy (omega arith)
      (omega arith)

kfree-kmalloc_example :
    Returns
      (λ z k'. (z ≡ pos 1) × Restored 16384 20480 128 roomy_state k')
      ((kmalloc 100 >>= kfree) roomy_state)
unfolding align_to_paragraph
kfree-kmalloc_example =
    kfree-kmalloc 100 16384 20480 roomy_state (omega arith) roomy_state-Roomy refl (omega arith)
      (omega arith) (omega arith)

contextinit-initevec_example :
    Returns
      (λ _ k'.
        LeadsTo 2000 (k'.idt 255)
        × LeadsTo 70000 (k'.idt 32)
        × LeadsTo 2002 (k'.idt 33)
        × ((i : ℕ) → i < 48 → i ≢ 32 → i ≢ 33 → LeadsTo (1000 + i) (k'.idt i))
        × ((i : ℕ) → 48 ≤ i → i < 255 → (k'.idt i).igd_present ≡ 0))
      ((initevec entries >> contextinit entries) sample)
contextinit-initevec_example =
    contextinit-initevec entries sample (λ i l. omega (arith, l)) (omega arith) (omega arith)
      (omega arith)

init_pit_lem_example :
    (timer_div 100 * 100 ≤ timer_freq + 50)
    × (timer_freq + 50 < (timer_div 100 + 1) * 100)
    × Returns
        (λ _ k'.
          Programmed (timer_div 100) sample k'
          × (k'.irq_mask 0x21 ≡ clear_bit (sample.irq_mask 0x21) 0))
        (init_pit 100 sample)
init_pit_lem_example = init_pit_lem 100 sample (omega arith)

abbrev no_segments : Segments
no_segments = record {
  gdt = λ i. record {
    sd_lolimit = 0;
    sd_lobase = 0;
    sd_midbase = 0;
    sd_perm = 0;
    sd_iscode = 0;
    sd_isapp = 0;
    sd_dpl = 0;
    sd_present = 0;
    sd_hilimit = 0;
    sd_avl = 0;
    sd_mbz = 0;
    sd_32b = 0;
    sd_gran = 0;
    sd_hibase = 0;
  };
  initsp = 0;
  freemem = 0;
  maxaddr = 0;
}
