-- ===== src/Context.antt =====
-- c/ctsw.c: the switch to a process and back. The assembly that runs the process is the environment:
-- an event says how the process came back.
use xeros_kernel.Base.{ℕ, ◌+◌, Bool, true, false, not, ◌==◌, if◌then◌else◌}
use xeros_kernel.Kernel.Config.{Ptr, null}
use xeros_kernel.Kernel.Bytes.{signed32, pattern32}
use xeros_kernel.Kernel.Cmd.{Cmd, pure, ◌>>=◌, ◌>>◌, assert, load_pcb, update_pcb}
use xeros_kernel.Signal.{Machine, poke, deliver_highest_priority_signal}

-- `syscall_request_t`
pub data Request : Type 0 where
  syscall_create syscall_yield syscall_stop syscall_getpid syscall_puts syscall_kill syscall_recv
        syscall_send syscall_sleep syscall_cputimes syscall_sighandler syscall_sigreturn
        syscall_wait syscall_open syscall_close syscall_write syscall_read syscall_ioctl timer_int :
      Request
  -- The controller's ports at the interrupt: whether data is present, and the scancode.
  keyboard_int : (is_data_present : Bool) → (scancode : ℕ) → Request

-- How the process stopped: its new stack pointer, with the saved `eax`, and by what it stopped.
-- `edx` holds the argument list of a system call.
pub record Event : Type 0 where
  pub esp : Ptr
  pub eax : ℕ
  pub edx : Ptr
  pub request : Request

abbrev pub is_interrupt : Request → Bool
is_interrupt Request.timer_int = true
is_interrupt (Request.keyboard_int present scancode) = true
is_interrupt _ = false

module _ (m : Machine) where
  -- What is done before the process runs.
  unfoldable pub enter_process : Ptr → Cmd (Unit {0})
  enter_process proc = do
    assert (not (proc == null))
    p ← load_pcb proc
    (if p.signals_pending == 0 then pure tt else deliver_highest_priority_signal m proc)
    q ← load_pcb proc
    poke (q.esp + 28) (pattern32 q.ret)

  -- `eax` is the process' own after an interrupt, and the request's number after a system call.
  unfoldable pub contextswitch : Event → Ptr → Cmd Request
  unfolding enter_process
  contextswitch e proc = do
    enter_process proc
    update_pcb proc (λ p. record p { esp = e.esp; ret = signed32 e.eax })
    (if is_interrupt e.request then pure tt else update_pcb proc (λ p. record p { args = e.edx }))
    pure e.request
