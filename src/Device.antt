-- ===== src/Device.antt =====
-- c/di_calls.c: the device-independent calls. Both entries of the device table are keyboards, and
-- entry `d` has `d` for its echo flag: `DEV_ID_KEYBOARD_NO_ECHO` is 0 and `DEV_ID_KEYBOARD` is 1.
pub mod Descriptors
use xeros_kernel.Base.{
  ℕ, zero, suc, ◌+◌, Bool, true, false, not, ◌&&◌, ◌||◌, List, [], ◌∷◌, Option, none, some, ltb,
  leb, ◌==◌, if◌then◌else◌, get_or, set,
}
use xeros_kernel.Base.Int.{ℤ, pos, negsuc, pos_part, ltb_ℤ, leb_ℤ, ◌==ℤ◌}
use xeros_kernel.Kernel.Config.{Ptr, null, num_devices, pcb_max_fds, syserr}
use xeros_kernel.Kernel.Types.{Kernel, Pcb}
use xeros_kernel.Kernel.Cmd.{Cmd, fault, pure, ◌>>=◌, ◌>>◌, assert, load_pcb, update_pcb}
use xeros_kernel.Keyboard.{
  kbd_devsw_init, kbd_init, kbd_open, kbd_close, kbd_read, kbd_write, kbd_ioctl,
}

-- Both entries, and then the `dvinit` of every entry.
unfoldable pub di_init_devtable : Cmd (Unit {0})
di_init_devtable = do kbd_devsw_init 0; kbd_devsw_init 1; kbd_init; kbd_init; pure tt

abbrev pub is_none : Option ℕ → Bool
is_none none = true
is_none (some d) = false

-- The first free descriptor from `i` on, and the end of the table if there is none.
unfoldable pub find_fd : List (Option ℕ) → (i : ℕ) → ℕ
find_fd [] i = i
find_fd (none ∷ fds) i = i
find_fd (some d ∷ fds) i = find_fd fds (i + 1)

-- `fd_table[fd]`, for a descriptor in range.
abbrev pub entry_of : Pcb → ℤ → Option ℕ
entry_of p fd = get_or p.fd_table (pos_part fd) none

unfoldable pub valid_fd : Pcb → ℤ → Bool
valid_fd p fd = not (ltb_ℤ fd (pos 0) || leb_ℤ (pos pcb_max_fds) fd || is_none (entry_of p fd))

unfoldable pub di_open : Ptr → (device_no : ℤ) → Cmd ℤ
unfolding find_fd
di_open pcb device_no = do
  assert (not (pcb == null))
  if ltb_ℤ device_no (pos 0) || leb_ℤ (pos num_devices) device_no then pure syserr else do
    p ← load_pcb pcb
    let fd = find_fd p.fd_table 0
    if leb pcb_max_fds fd then pure syserr else do
      result ← kbd_open pcb (pos_part device_no)
      if not (result ==ℤ pos 0) then pure syserr else do
        update_pcb pcb (λ p. record p { fd_table = set p.fd_table fd (some (pos_part device_no)) })
        pure (pos fd)

unfoldable pub di_close : Ptr → (fd : ℤ) → Cmd ℤ
unfolding valid_fd
di_close pcb fd = do
  assert (not (pcb == null))
  p ← load_pcb pcb
  if not (valid_fd p fd) then pure syserr else do
    result ← kbd_close pcb
    if not (result ==ℤ pos 0) then pure syserr else do
      update_pcb pcb (λ p. record p { fd_table = set p.fd_table (pos_part fd) none })
      pure (pos 0)

unfoldable pub di_write : Ptr → (fd : ℤ) → (buff : Ptr) → (bufflen : ℤ) → Cmd ℤ
unfolding valid_fd
di_write pcb fd buff bufflen = do
  assert (not (pcb == null))
  p ← load_pcb pcb
  if not (valid_fd p fd) then pure syserr else kbd_write pcb buff bufflen

unfoldable pub di_read : Ptr → (fd : ℤ) → (buff : Ptr) → (bufflen : ℤ) → Cmd ℤ
unfolding valid_fd
di_read pcb fd buff bufflen = do
  assert (not (pcb == null))
  p ← load_pcb pcb
  if not (valid_fd p fd) then pure syserr else kbd_read pcb buff bufflen

unfoldable pub di_ioctl : Ptr → (fd : ℤ) → (command : ℕ) → (args : Ptr) → Cmd ℤ
unfolding valid_fd
di_ioctl pcb fd command args = do
  assert (not (pcb == null))
  p ← load_pcb pcb
  if not (valid_fd p fd) then pure syserr else kbd_ioctl pcb command args
