-- ===== src/Kernel/Config.antt =====
-- The constants of h/xeroskernel.h, h/i386.h and c/kbd.c, and the pointers to process control blocks.
use xeros_kernel.Base.{ℕ, ◌+◌, ◌-◌, ◌*◌}
use xeros_kernel.Base.Int.{ℤ, pos, neg}

-- An address. 0 is `NULL`.
abbrev pub Ptr : Type 0
Ptr = ℕ

abbrev pub null : Ptr
null = 0

abbrev pub pcb_table_size : ℕ
pcb_table_size = 32

abbrev pub signal_table_size : ℕ
signal_table_size = 32

abbrev pub pid_max : ℕ
pid_max = 32768

abbrev pub pcb_max_fds : ℕ
pcb_max_fds = 4

abbrev pub num_devices : ℕ
num_devices = 2

abbrev pub ms_per_clock_tick : ℕ
ms_per_clock_tick = 10

abbrev pub paragraph_size : ℕ
paragraph_size = 16

-- `sizeof(mem_header_t)`: four words.
abbrev pub header_size : ℕ
header_size = 16

abbrev pub kernel_stack : ℕ
kernel_stack = 4 * 4096

abbrev pub hole_start : ℕ
hole_start = 640 * 1024

abbrev pub hole_end : ℕ
hole_end = (1024 + 600) * 1024

abbrev pub default_stack_size : ℕ
default_stack_size = 8192

abbrev pub idle_proc_stack_size : ℕ
idle_proc_stack_size = 2048

-- `sizeof(context_frame_t)`: eleven words.
abbrev pub context_frame_size : ℕ
context_frame_size = 44

abbrev pub kill_signal_num : ℕ
kill_signal_num = 31

-- Return codes.
abbrev pub ok_code : ℤ
ok_code = pos 1

abbrev pub syserr : ℤ
syserr = neg 1

abbrev pub blockerr : ℤ
blockerr = neg 5

abbrev pub create_failure : ℤ
create_failure = neg 1

abbrev pub syspid_dne : ℤ
syspid_dne = neg 1

abbrev pub syspid_self : ℤ
syspid_self = neg 2

abbrev pub syserr_other : ℤ
syserr_other = neg 3

abbrev pub invalid_signal : ℤ
invalid_signal = neg 1

abbrev pub newhandler_invalid : ℤ
newhandler_invalid = neg 2

abbrev pub oldhandler_invalid : ℤ
oldhandler_invalid = neg 3

abbrev pub syskill_target_dne : ℤ
syskill_target_dne = neg 512

abbrev pub syskill_sig_invalid : ℤ
syskill_sig_invalid = neg 561

abbrev pub blocked_proc_signaled : ℤ
blocked_proc_signaled = neg 99

-- `&pcb_array[i]` is the pointer i + 1, and `&idle_process` the one behind the table.
abbrev pub slot : ℕ → Ptr
slot i = i + 1

abbrev pub idle_process : Ptr
idle_process = 33

-- `setsegs` of c/i386.c: 1024 pages of 4096 bytes, less one.
abbrev pub maxaddr : ℕ
maxaddr = 1024 * 4096 - 1
