-- ===== src/Dispatch.antt =====
-- c/disp.c: the handlers of the system calls. The dispatcher's loop is the child `Round`.
pub mod Round
pub mod Sigreturn
pub mod Calls
pub mod Timer
pub mod Progress
use xeros_kernel.Base.{
  ℕ, zero, suc, ◌+◌, ◌-◌, ◌*◌, ◌^◌, ◌%◌, Bool, true, false, not, ◌&&◌, ◌||◌, List, [], ◌∷◌, ltb,
  leb, ◌==◌, if◌then◌else◌, length,
}
use xeros_kernel.Base.Int.{ℤ, pos, pos_part, neg, ltb_ℤ, leb_ℤ, ◌==ℤ◌, ◌-ℤ◌}
use xeros_kernel.Base.Bits.{clear_bit}
use xeros_kernel.Kernel.Config.{
  Ptr, null, idle_process, signal_table_size, kill_signal_num, hole_start, hole_end, maxaddr,
  ok_code, syserr, blockerr, syspid_dne, syspid_self, syserr_other, invalid_signal,
  newhandler_invalid, oldhandler_invalid, syskill_target_dne,
}
use xeros_kernel.Kernel.Types.{Kernel, Pcb, blocked, waiting, device, Output, string_out}
use xeros_kernel.Kernel.Bytes.{Blkcopy, load_word, va_arg, signed32}
use xeros_kernel.Kernel.Cmd.{Cmd, halted, pure, ◌>>=◌, ◌>>◌, gets, load_pcb, update_pcb, print}
use xeros_kernel.Memory.{verify_sysptr}
use xeros_kernel.Table.{
  add_pcb_to_ready_queue, add_pcb_to_blocked_queue, get_next_pcb, pid_to_pcb, StatusRow,
  fill_process_status,
}
use xeros_kernel.Sleep.{sleep, tick}
use xeros_kernel.Message.{send, recv}
use xeros_kernel.Signal.{Machine, poke, in_table, highest_bit, set_pcb_signal, sub32}
use xeros_kernel.Process.{cleanup_pcb, create}
use xeros_kernel.Device.{di_open, di_close, di_write, di_read, di_ioctl}
use xeros_kernel.Keyboard.{keyboard_isr}

-- Argument `i` of the system call of `process`, as a word and as an `int`.
unfoldable pub arg : Ptr → ℕ → Cmd ℕ
arg process i = do p ← load_pcb process; gets (λ k. va_arg k.mem p.args i)

unfoldable pub int_arg : Ptr → ℕ → Cmd ℤ
unfolding arg
int_arg process i = do w ← arg process i; pure (signed32 w)

abbrev pub set_ret : Ptr → ℤ → Cmd (Unit {0})
set_ret process r = update_pcb process (λ p. record p { ret = r })

abbrev pub is_ok : ℤ → Bool
is_ok r = r ==ℤ ok_code

-- `currentSlot` after the rows were filled in.
abbrev pub last_index : List StatusRow → ℕ
last_index [] = 0
last_index (r ∷ rows) = length rows

-- `verify_sysptr(p, 4) == OK`
unfoldable pub check_word : Ptr → Cmd Bool
check_word p = do r ← verify_sysptr p (pos 4); pure (is_ok r)

-- The result of a handler, beside the process that runs next: the variable `process`.
abbrev pub Handled : Type 0
Handled = ℤ × Ptr

unfoldable pub handle_syscall_create : Machine → Ptr → Cmd ℤ
handle_syscall_create m process = do
  fp ← arg process 0
  size ← int_arg process 1
  ptr_check ← verify_sysptr fp (pos 4)
  if not (is_ok ptr_check) then pure ptr_check else create m fp size

unfoldable pub handle_syscall_puts : Ptr → Cmd (Unit {0})
handle_syscall_puts process = do
  str ← arg process 0
  print (string_out str)
  set_ret process (pos 0)

unfoldable pub handle_syscall_kill : Ptr → Cmd ℤ
handle_syscall_kill process = do
  pid ← arg process 0
  signal ← int_arg process 1
  target ← pid_to_pcb pid
  if target == null then pure syskill_target_dne else set_pcb_signal target signal

unfoldable pub handle_syscall_wait : Ptr → Cmd Ptr
handle_syscall_wait process = do
  pid ← arg process 0
  target ← pid_to_pcb pid
  if (target == null) || (pid == 0) then (do set_ret process syspid_dne; pure process) else do
    update_pcb process (λ p. record p { blocked_status = waiting; blocked_id = pid })
    add_pcb_to_blocked_queue process
    set_ret process (pos 0)
    get_next_pcb

-- The check of a buffer and its length.
unfoldable pub bad_buffer : (buffer : Ptr) → (len : ℤ) → Cmd Bool
bad_buffer buffer len =
    if leb_ℤ len (pos 0) then pure true else do r ← verify_sysptr buffer len; pure (not (is_ok r))

-- A transfer that blocks makes the next ready process the current one.
unfoldable pub finish_transfer : Ptr → ℤ → Cmd Handled
finish_transfer process ret =
    if not (ret ==ℤ blockerr)
    then pure (ret, process)
    else do next ← get_next_pcb; pure (syspid_dne, next)

unfoldable pub handle_syscall_send : Blkcopy → Ptr → Cmd Handled
unfolding bad_buffer finish_transfer
handle_syscall_send lib process = do
  dest_pid ← arg process 0
  buffer ← arg process 1
  len ← int_arg process 2
  dest ← pid_to_pcb dest_pid
  p ← load_pcb process
  if dest == null
      then pure (syspid_dne, process)
      else if dest_pid == p.pid
      then pure (syspid_self, process)
      else do
        bad ← bad_buffer buffer len
        if bad
            then pure (syserr_other, process)
            else do ret ← send lib process dest buffer len; finish_transfer process ret

unfoldable pub handle_syscall_recv : Blkcopy → Ptr → Cmd Handled
unfolding bad_buffer finish_transfer
handle_syscall_recv lib process = do
  from_pid ← arg process 0
  buffer ← arg process 1
  len ← int_arg process 2
  check ← verify_sysptr from_pid (pos 4)
  if not (is_ok check) then pure (syserr_other, process) else do
    pid ← gets (λ k. load_word k.mem from_pid)
    from ← pid_to_pcb pid
    p ← load_pcb process
    if not (pid == 0) && (from == null)
        then pure (syspid_dne, process)
        else if pid == p.pid
        then pure (syspid_self, process)
        else do
          bad ← bad_buffer buffer len
          if bad
              then pure (syserr_other, process)
              else do ret ← recv lib from process buffer len; finish_transfer process ret

-- The test for 0 has no early return.
unfoldable pub handle_syscall_sleep : Ptr → Cmd (Unit {0})
handle_syscall_sleep process = do
  ms ← arg process 0
  (if ms == 0 then set_ret process (pos 0) else pure tt)
  sleep process ms

-- `sizeof(processStatuses)`: a word and three tables of 32 words. The rows are the result: they
-- are not written into the memory of the model.
unfoldable pub handle_syscall_cputimes : Ptr → Cmd (ℤ × List StatusRow)
handle_syscall_cputimes process = do
  ps ← arg process 0
  if leb hole_start ps && leb ps hole_end
      then pure (neg 1, [])
      else if ltb maxaddr ((ps + 388) % 2 ^ 32)
      then pure (neg 2, [])
      else do rows ← fill_process_status process; pure (pos (last_index rows), rows)

unfoldable pub handle_syscall_sighandler : Ptr → Cmd ℤ
handle_syscall_sighandler process = do
  signal ← int_arg process 0
  new_handler ← arg process 1
  old_handler ← arg process 2
  if not (in_table signal) || (signal ==ℤ pos kill_signal_num) then pure invalid_signal else do
    new_ok ← if new_handler == null then pure true else check_word new_handler
    if not new_ok then pure newhandler_invalid else do
      old_ok ← check_word old_handler
      if not old_ok then pure oldhandler_invalid else do
        p ← load_pcb process
        let entry = p.signal_table + 4 * pos_part signal
        old ← gets (λ k. load_word k.mem entry)
        poke old_handler old
        poke entry new_handler
        pure (pos 0)

unfoldable pub handle_syscall_sigreturn : Ptr → Cmd Ptr
handle_syscall_sigreturn process = do
  old_sp ← arg process 0
  good ← check_word old_sp
  if not good then (do cleanup_pcb process; get_next_pcb) else do
    ret ← gets (λ k. load_word k.mem (sub32 old_sp 4))
    update_pcb process (λ p. record p { ret = signed32 ret; esp = old_sp })
    p ← load_pcb process
    highest ← highest_bit p.signals_enabled (signal_table_size - 1)
    update_pcb process (λ p. record p { signals_enabled = clear_bit p.signals_enabled highest })
    pure process

unfoldable pub handle_syscall_open : Ptr → Cmd (Unit {0})
handle_syscall_open process = do
  device_no ← int_arg process 0
  r ← di_open process device_no
  set_ret process r

unfoldable pub handle_syscall_close : Ptr → Cmd (Unit {0})
handle_syscall_close process = do fd ← int_arg process 0; r ← di_close process fd; set_ret process r

unfoldable pub handle_syscall_read : Ptr → Cmd Ptr
handle_syscall_read process = do
  fd ← int_arg process 0
  buff ← arg process 1
  len ← int_arg process 2
  check ← verify_sysptr buff len
  if not (is_ok check) then (do set_ret process syserr; pure process) else do
    r ← di_read process fd buff len
    set_ret process r
    if not (r ==ℤ blockerr) then pure process else do
      update_pcb process (λ p. record p { state = blocked; blocked_status = device })
      get_next_pcb

unfoldable pub handle_syscall_write : Ptr → Cmd (Unit {0})
handle_syscall_write process = do
  fd ← int_arg process 0
  buff ← arg process 1
  len ← int_arg process 2
  check ← verify_sysptr buff len
  if not (is_ok check)
      then set_ret process syserr
      else do r ← di_write process fd buff len; set_ret process r

unfoldable pub handle_syscall_ioctl : Ptr → Cmd (Unit {0})
handle_syscall_ioctl process = do
  fd ← int_arg process 0
  command ← arg process 1
  command_args ← arg process 2
  r ← di_ioctl process fd command command_args
  set_ret process r
