-- ===== src/Syscall.antt =====
-- c/syscall.c: the wrappers, each a request with its argument words, and the programs made of them.
pub mod Words
pub mod Kill
use xeros_kernel.Base.{ℕ, ◌+◌, List, [], ◌∷◌}
use xeros_kernel.Base.Int.{ℤ, pos_part}
use xeros_kernel.Kernel.Config.{Ptr}
use xeros_kernel.Kernel.Bytes.{Mem, store_word, load_word, pattern32, signed32}
use xeros_kernel.Context.{
  Request, Event, syscall_create, syscall_yield, syscall_stop, syscall_getpid, syscall_puts,
  syscall_kill, syscall_recv, syscall_send, syscall_sleep, syscall_cputimes, syscall_sighandler,
  syscall_sigreturn, syscall_wait, syscall_open, syscall_close, syscall_write, syscall_read,
  syscall_ioctl, timer_int, keyboard_int,
}

-- The arguments of `syscall`: the request, and the words that follow it on the process' stack.
pub record Call : Type 0 where
  pub request : Request
  pub words : List ℕ

-- The numbers of the enum.
unfoldable pub request_number : Request → ℕ
request_number syscall_create = 0
request_number syscall_yield = 1
request_number syscall_stop = 2
request_number syscall_getpid = 3
request_number syscall_puts = 4
request_number syscall_kill = 5
request_number syscall_recv = 6
request_number syscall_send = 7
request_number syscall_sleep = 8
request_number syscall_cputimes = 9
request_number syscall_sighandler = 10
request_number syscall_sigreturn = 11
request_number syscall_wait = 12
request_number syscall_open = 13
request_number syscall_close = 14
request_number syscall_write = 15
request_number syscall_read = 16
request_number syscall_ioctl = 17
request_number timer_int = 18
request_number (keyboard_int present scancode) = 19

-- The words of the call on the stack, from `args` upwards.
unfoldable pub push_words : Ptr → List ℕ → Mem → Mem
push_words args [] m = m
push_words args (w ∷ ws) m = store_word (push_words (args + 4) ws m) args w

-- `syscall` up to the trap: the memory, and what the kernel gets. `args` is what `va_start` gives.
unfoldable pub syscall : Call → (args esp : Ptr) → Mem → Mem × Event
unfolding push_words request_number
syscall c args esp m = (
  push_words args c.words m,
  record { esp = esp; eax = request_number c.request; edx = args; request = c.request },
)

-- `result`, after the kernel restored the registers from the frame at `esp`.
unfoldable pub syscall_result : Mem → (esp : Ptr) → ℤ
syscall_result m esp = signed32 (load_word m (esp + 28))

-- The wrappers up to the trap.
unfoldable pub syscreate : (func : Ptr) → (stack : ℤ) → Call
syscreate func stack = record { request = syscall_create; words = func ∷ pattern32 stack ∷ [] }

unfoldable pub sysyield : Call
sysyield = record { request = syscall_yield; words = [] }

unfoldable pub sysstop : Call
sysstop = record { request = syscall_stop; words = [] }

unfoldable pub sysgetpid : Call
sysgetpid = record { request = syscall_getpid; words = [] }

unfoldable pub sysputs : (str : Ptr) → Call
sysputs str = record { request = syscall_puts; words = str ∷ [] }

unfoldable pub syskill : (pid : ℕ) → (signal_number : ℤ) → Call
syskill pid signal_number = record {
  request = syscall_kill;
  words = pid ∷ pattern32 signal_number ∷ [];
}

unfoldable pub syssend : (dest_pid : ℕ) → (buffer : Ptr) → (buffer_len : ℤ) → Call
syssend dest_pid buffer buffer_len = record {
  request = syscall_send;
  words = dest_pid ∷ buffer ∷ pattern32 buffer_len ∷ [];
}

unfoldable pub sysrecv : (from_pid buffer : Ptr) → (buffer_len : ℤ) → Call
sysrecv from_pid buffer buffer_len = record {
  request = syscall_recv;
  words = from_pid ∷ buffer ∷ pattern32 buffer_len ∷ [];
}

unfoldable pub syssleep : (milliseconds : ℕ) → Call
syssleep milliseconds = record { request = syscall_sleep; words = milliseconds ∷ [] }

unfoldable pub sysgetcputimes : (ps : Ptr) → Call
sysgetcputimes ps = record { request = syscall_cputimes; words = ps ∷ [] }

unfoldable pub syswait : (pid : ℕ) → Call
syswait pid = record { request = syscall_wait; words = pid ∷ [] }

unfoldable pub syssighandler : (signal : ℤ) → (new_handler old_handler : Ptr) → Call
syssighandler signal new_handler old_handler = record {
  request = syscall_sighandler;
  words = pattern32 signal ∷ new_handler ∷ old_handler ∷ [];
}

-- The `ASSERT(0)` behind the call is reached if the call returns.
unfoldable pub syssigreturn : (old_sp : Ptr) → Call
syssigreturn old_sp = record { request = syscall_sigreturn; words = old_sp ∷ [] }

unfoldable pub sysopen : (device_no : ℤ) → Call
sysopen device_no = record { request = syscall_open; words = pattern32 device_no ∷ [] }

unfoldable pub sysclose : (fd : ℤ) → Call
sysclose fd = record { request = syscall_close; words = pattern32 fd ∷ [] }

unfoldable pub syswrite : (fd : ℤ) → (buff : Ptr) → (bufflen : ℤ) → Call
syswrite fd buff bufflen = record {
  request = syscall_write;
  words = pattern32 fd ∷ buff ∷ pattern32 bufflen ∷ [];
}

unfoldable pub sysread : (fd : ℤ) → (buff : Ptr) → (bufflen : ℤ) → Call
sysread fd buff bufflen = record {
  request = syscall_read;
  words = pattern32 fd ∷ buff ∷ pattern32 bufflen ∷ [];
}

-- `args` is the address of the arguments behind `command`.
unfoldable pub sysioctl : (fd : ℤ) → (command : ℕ) → (args : Ptr) → Call
sysioctl fd command args = record {
  request = syscall_ioctl;
  words = pattern32 fd ∷ command ∷ args ∷ [];
}
