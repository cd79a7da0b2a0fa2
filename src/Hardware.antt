-- ===== src/Hardware.antt =====
-- The set-up of the processor and of its controllers: c/i386.c, c/evec.c, and `contextinit` of
-- c/ctsw.c.
pub mod Gates
pub mod Timer
pub mod Segments
use xeros_kernel.Base.{ℕ, zero, suc, ◌+◌, ◌/◌, ◌%◌, ◌^◌, false, ltb, ◌==◌, if◌then◌else◌}
use xeros_kernel.Kernel.Config.{Ptr}
use xeros_kernel.Kernel.Types.{Idt}
use xeros_kernel.Kernel.Cmd.{Cmd, pure, ◌>>=◌, ◌>>◌, modify, outb}
use xeros_kernel.Keyboard.{enable_irq}

abbrev pub nid : ℕ
nid = 48

abbrev pub igdt_trapg : ℕ
igdt_trapg = 15

abbrev pub syscall_int_num : ℕ
syscall_int_num = 255

abbrev pub timer_int_num : ℕ
timer_int_num = 32

abbrev pub keyboard_int_num : ℕ
keyboard_int_num = 33

abbrev pub icu1 : ℕ
icu1 = 0x20

abbrev pub icu2 : ℕ
icu2 = 0xA0

abbrev pub timer_freq : ℕ
timer_freq = 1193182

abbrev pub timer_1_port : ℕ
timer_1_port = 0x40

abbrev pub timer_mode : ℕ
timer_mode = timer_1_port + 3

-- `TIMER_SEL0 | TIMER_RATEGEN | TIMER_16BIT`
abbrev pub timer_command : ℕ
timer_command = 0x34

abbrev pub timer_irq : ℕ
timer_irq = 0

-- An entry of 0 bytes.
abbrev pub no_gate : Idt
no_gate = record {
  igd_loffset = 0;
  igd_segsel = 0;
  igd_rsvd = 0;
  igd_mbz = 0;
  igd_type = 0;
  igd_dpl = 0;
  igd_present = 0;
  igd_hoffset = 0;
}

-- The offsets have 16 bits each.
abbrev pub gate : (handler : ℕ) → Idt → Idt
gate handler g = record g {
  igd_loffset = handler % 2 ^ 16;
  igd_segsel = 8;
  igd_mbz = 0;
  igd_type = igdt_trapg;
  igd_dpl = 0;
  igd_present = 1;
  igd_hoffset = handler / 2 ^ 16 % 2 ^ 16;
}

unfoldable pub set_evec : (xnum handler : ℕ) → Cmd (Unit {0})
set_evec xnum handler =
    modify (λ k. record k { idt = λ i. if i == xnum then gate handler (k.idt xnum) else k.idt i })

-- The assembly's labels.
pub record Entries : Type 0 where
  pub defevec : ℕ → Ptr
  pub syscall_entry_point : Ptr
  pub timer_entry_point : Ptr
  pub keyboard_entry_point : Ptr

unfoldable pub init8259 : Cmd (Unit {0})
init8259 = do
  outb icu1 0x11
  outb (icu1 + 1) 0x20
  outb (icu1 + 1) 0x4
  outb (icu1 + 1) 0x1
  outb icu1 0xb
  outb icu2 0x11
  outb (icu2 + 1) 0x28
  outb (icu2 + 1) 0x2
  outb (icu2 + 1) 0xb
  outb icu2 0xb

unfoldable pub end_of_intr : Cmd (Unit {0})
end_of_intr = do outb icu1 0x20; outb icu2 0x20

-- `TIMER_DIV`
unfoldable pub timer_div : ℕ → ℕ
timer_div x = (timer_freq + x / 2) / x

unfoldable pub init_pit : (divisor : ℕ) → Cmd (Unit {0})
init_pit divisor = do
  outb timer_mode timer_command
  outb timer_1_port (timer_div divisor % 256)
  outb timer_1_port (timer_div divisor / 256)
  enable_irq timer_irq false

module _ (e : Entries) where
  -- The loop over the default handlers, from `i` on.
  unfoldable pub evec_loop : (n i : ℕ) → Cmd (Unit {0})
  evec_loop zero i = pure tt
  evec_loop (suc n) i = do set_evec i (e.defevec i); evec_loop n (i + 1)

  -- `lidt` loads the table's address into the processor.
  unfoldable pub initevec : Cmd (Unit {0})
  initevec = do
    modify (λ k. record k { idt = λ i. if ltb i 256 then no_gate else k.idt i })
    evec_loop nid 0
    init8259

  unfoldable pub contextinit : Cmd (Unit {0})
  contextinit = do
    set_evec syscall_int_num e.syscall_entry_point
    set_evec timer_int_num e.timer_entry_point
    set_evec keyboard_int_num e.keyboard_entry_point
