-- ===== src/Keyboard.antt =====
-- c/kbd.c: the keyboard device, its ring of typed characters, and the reads that wait for them.
-- The three scancode tables stand in the child `Scancodes`.
pub mod Scancodes
pub mod Ring
use xeros_kernel.Base.{
  ℕ, zero, suc, ◌+◌, ◌-◌, ◌*◌, ◌/◌, ◌%◌, Bool, true, false, not, ◌&&◌, ◌||◌, List, [], ◌∷◌, ltb,
  leb, ◌==◌, if◌then◌else◌, get_or, set,
}
use xeros_kernel.Base.Int.{ℤ, pos, negsuc, pos_part, ◌+ℤ◌, ◌-ℤ◌, ◌==ℤ◌, ltb_ℤ, leb_ℤ}
use xeros_kernel.Base.Bits.{set_bit, clear_bit}
use xeros_kernel.Kernel.Config.{Ptr, null, pcb_table_size, syserr, blockerr}
use xeros_kernel.Kernel.Types.{Kernel, Pcb, KbdTask, Keyboard, Output, char_out, unblocked}
use xeros_kernel.Kernel.Bytes.{Mem, store_byte, load_word, va_arg}
use xeros_kernel.Kernel.Cmd.{
  Cmd, spent, pure, ◌>>=◌, ◌>>◌, gets, modify, assert, load_pcb, update_pcb, get_kbd, set_kbd,
  print,
}
use xeros_kernel.Memory.{kmalloc}
use xeros_kernel.Table.{is_blocked, add_pcb_to_ready_queue}
use Scancodes.{keyboard_process_scancode}

abbrev pub keyboard_buffer_size : ℕ
keyboard_buffer_size = 5

abbrev pub kbd_default_eof : ℕ
kbd_default_eof = 4

abbrev pub newline : ℕ
newline = b'\n'

-- `kbd_task_list[pcb->pid % KBD_TASK_LIST_SIZE]`
abbrev pub task_index : ℕ → ℕ
task_index pid = pid % pcb_table_size

abbrev pub put_task : ℕ → KbdTask → Keyboard → Keyboard
put_task i t d = record d { task_list = λ j. if j == i then t else d.task_list j }

abbrev pub stop_waiting : KbdTask → KbdTask
stop_waiting t = record t { waiting_on_read = false }

-- Bit 1 of the mask register of the first interrupt controller is the keyboard's. The register is
-- read back as it was written.
abbrev pub icu1_mask : ℕ
icu1_mask = 0x21

unfoldable pub enable_irq : (irq : ℕ) → (disable : Bool) → Cmd (Unit {0})
enable_irq irq disable =
    let port = if ltb irq 8 then icu1_mask else 0xA1 in
    let bit = if ltb irq 8 then irq else irq - 8 in
    modify (λ k. record k {
      irq_mask = λ p.
          if p == port
          then (if disable then set_bit (k.irq_mask port) bit else clear_bit (k.irq_mask port) bit)
          else k.irq_mask p;
    })

-- `setKbdInt(enable)`
unfoldable pub set_kbd_int : (enable : Bool) → Cmd (Unit {0})
unfolding enable_irq
set_kbd_int enable = enable_irq 1 (not enable)

-- The two reads of stale port data change nothing here.
-- What `kbd_devsw_init` does to the state: the 4 bytes of the device's block. The entry's functions
-- are those of the keyboard, and `orig_echo_flag` is the argument `echo`, the device's number.
unfoldable pub kbd_devsw_init : (echo : ℕ) → Cmd (Unit {0})
kbd_devsw_init echo = do block ← kmalloc 4; assert (not (block == null))

unfoldable pub kbd_init : Cmd ℤ
kbd_init = do
  d ← get_kbd
  set_kbd (record d {
    refcount = pos 0;
    done_flag = false;
    buffer_head = 0;
    buffer_tail = 0;
    task_refcount = pos 0;
    task_list = λ i. if ltb i pcb_table_size then stop_waiting (d.task_list i) else d.task_list i;
  })
  pure (pos 0)

-- `echo` is the `orig_echo_flag` of the device's block.
unfoldable pub kbd_open : Ptr → (echo : ℕ) → Cmd ℤ
kbd_open pcb echo = do
  d ← get_kbd
  if ltb_ℤ (pos 0) d.refcount
      then (if not (d.current_type == echo)
          then pure syserr
          else do set_kbd (record d { refcount = d.refcount +ℤ pos 1 }); pure (pos 0))
      else do
        set_kbd (record d {
          current_type = echo;
          done_flag = false;
          buffer_head = 0;
          buffer_tail = 0;
          keystate_flag = 0;
          eof = kbd_default_eof;
          echo_flag = not (echo == 0);
          refcount = pos 1;
        })
        p ← load_pcb pcb
        assert (not (d.task_list (task_index p.pid)).waiting_on_read)
        set_kbd_int true
        pure (pos 0)

unfoldable pub kbd_close : Ptr → Cmd ℤ
kbd_close pcb = do
  d ← get_kbd
  if leb_ℤ d.refcount (pos 0) then pure syserr else do
    set_kbd (record d { refcount = d.refcount -ℤ pos 1 })
    (if (d.refcount -ℤ pos 1) ==ℤ pos 0 then set_kbd_int false else pure tt)
    p ← load_pcb pcb
    e ← get_kbd
    let t = e.task_list (task_index p.pid)
    set_kbd (record (put_task (task_index p.pid) (stop_waiting t) e) {
      task_refcount = if t.waiting_on_read then e.task_refcount -ℤ pos 1 else e.task_refcount;
    })
    pure (pos 0)

unfoldable pub keyboard_unblock_proc : (i : ℕ) → Cmd (Unit {0})
keyboard_unblock_proc i = do
  d ← get_kbd
  let t = d.task_list i
  set_kbd (record (put_task i (stop_waiting t) d) { task_refcount = d.task_refcount -ℤ pos 1 })
  update_pcb t.pcb (λ p. record p { ret = t.buff_count })
  p ← load_pcb t.pcb
  if is_blocked p.state
      then (do
        add_pcb_to_ready_queue t.pcb
        update_pcb t.pcb (λ p. record p { blocked_status = unblocked }))
      else pure tt

-- The loop of `keyboard_handle_eof`, from task `i` on, with `n` tasks left.
unfoldable pub eof_loop : (n i : ℕ) → Cmd (Unit {0})
unfolding keyboard_unblock_proc
eof_loop zero i = pure tt
eof_loop (suc n) i = do
  d ← get_kbd
  (if (d.task_list i).waiting_on_read then keyboard_unblock_proc i else pure tt)
  eof_loop n (i + 1)

unfoldable pub keyboard_handle_eof : Cmd (Unit {0})
keyboard_handle_eof = do
  set_kbd_int false
  modify (λ k. record k { kbd = record (k.kbd) { done_flag = true } })
  eof_loop pcb_table_size 0

-- Puts `c` into the buffer of task `i`.
unfoldable pub deliver_char : (c i : ℕ) → Cmd (Unit {0})
deliver_char c i = do
  d ← get_kbd
  let t = d.task_list i
  modify (λ k. record k { mem = store_byte k.mem (t.buff + pos_part t.buff_count) c })
  set_kbd (put_task i (record t { buff_count = t.buff_count +ℤ pos 1 }) d)
  (if d.echo_flag && not (c == d.eof) then print (char_out c) else pure tt)
  if ((t.buff_count +ℤ pos 1) ==ℤ t.bufflen) || (c == newline)
      then keyboard_unblock_proc i
      else pure tt

unfoldable pub deliver_loop : (c n i : ℕ) → Cmd (Unit {0})
deliver_loop c zero i = pure tt
deliver_loop c (suc n) i = do
  d ← get_kbd
  (if (d.task_list i).waiting_on_read then deliver_char c i else pure tt)
  deliver_loop c n (i + 1)

unfoldable pub keyboard_process_char : (c : ℕ) → Cmd (Unit {0})
keyboard_process_char c = do
  d ← get_kbd
  if c == d.eof then keyboard_handle_eof else deliver_loop c pcb_table_size 0

-- Each round takes a character off the ring of five, which the fuel covers.
unfoldable pub flush_loop : ℕ → Cmd (Unit {0})
flush_loop zero = λ _. spent
flush_loop (suc fuel) = do
  d ← get_kbd
  if ltb_ℤ (pos 0) d.task_refcount && not (d.buffer_tail == d.buffer_head)
      then (do
        keyboard_process_char (get_or d.buffer d.buffer_tail 0)
        modify (λ k. record k {
          kbd = record (k.kbd) { buffer_tail = (k.kbd.buffer_tail + 1) % keyboard_buffer_size };
        })
        flush_loop fuel)
      else pure tt

unfoldable pub keyboard_flush_buffer : Cmd (Unit {0})
keyboard_flush_buffer = flush_loop (suc keyboard_buffer_size)

unfoldable pub kbd_read : Ptr → (buff : Ptr) → (bufflen : ℤ) → Cmd ℤ
kbd_read pcb buff bufflen = do
  p ← load_pcb pcb
  d ← get_kbd
  set_kbd
      (record (put_task (task_index p.pid)
        (record {
          pcb = pcb;
          buff = buff;
          buff_count = pos 0;
          bufflen = bufflen;
          waiting_on_read = true;
        })
        d) { task_refcount = d.task_refcount +ℤ pos 1 })
  keyboard_flush_buffer
  e ← get_kbd
  let count = (e.task_list (task_index p.pid)).buff_count
  pure (if count ==ℤ bufflen then bufflen else if e.done_flag then count else blockerr)

unfoldable pub kbd_write : Ptr → (buff : Ptr) → (bufflen : ℤ) → Cmd ℤ
kbd_write pcb buff bufflen = pure syserr

unfoldable pub kbd_ioctl_set_eof : (args : Ptr) → Cmd ℤ
kbd_ioctl_set_eof args = if args == null then pure syserr else do
  modify (λ k. record k { kbd = record (k.kbd) { eof = va_arg k.mem args 0 % 256 } })
  pure (pos 0)

unfoldable pub kbd_ioctl : Ptr → (command : ℕ) → (args : Ptr) → Cmd ℤ
unfolding kbd_ioctl_set_eof
kbd_ioctl pcb command args =
    if command == 53
    then kbd_ioctl_set_eof args
    else if command == 56
    then (do modify (λ k. record k { kbd = record (k.kbd) { echo_flag = true } }); pure (pos 0))
    else if command == 55
    then (do modify (λ k. record k { kbd = record (k.kbd) { echo_flag = false } }); pure (pos 0))
    else pure syserr

-- What the controller's ports hold is an argument: whether data is present, and the scancode.
unfoldable pub keyboard_isr : (is_data_present : Bool) → (scancode : ℕ) → Cmd (Unit {0})
keyboard_isr present scancode = if not present then pure tt else do
  d ← get_kbd
  let (c, flag) = keyboard_process_scancode d.keystate_flag scancode
  set_kbd (record d { keystate_flag = flag })
  if c == 0
      then pure tt
      else if ltb_ℤ (pos 0) d.task_refcount
      then keyboard_process_char c
      else if (d.buffer_head + 1) % keyboard_buffer_size == d.buffer_tail
      then pure tt
      else do
        set_kbd (record d {
          keystate_flag = flag;
          buffer = set d.buffer d.buffer_head c;
          buffer_head = (d.buffer_head + 1) % keyboard_buffer_size;
        })
        if d.echo_flag && not (c == d.eof) then print (char_out c) else pure tt
