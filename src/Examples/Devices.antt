-- ===== src/Examples/Devices.antt =====
-- The statements on file descriptors and on the keyboard, on the sample state.
use xeros_kernel.Base.{◌≡◌, refl, true, false, [], ◌∷◌, arith}
use xeros_kernel.Base.Int.{pos}
use xeros_kernel.Base.Bits.{check_bit}
use xeros_kernel.Kernel.Cmd.{◌>>=◌, Returns}
use xeros_kernel.Keyboard.{task_index, keyboard_isr}
use xeros_kernel.Keyboard.Ring.{typed, IsRing, keyboard_isr_lem}
use xeros_kernel.Keyboard.Scancodes.{keyboard_process_scancode}
use xeros_kernel.Device.{find_fd, di_open, di_close}
use xeros_kernel.Device.Descriptors.{open-close}
use xeros_kernel.Examples.{sample, keyboard}

keyboard-IsRing : IsRing keyboard
keyboard-IsRing = record { five = refl; head = omega arith; tail = omega arith }

keyboard_isr_lem_example :
    Returns (λ _ k'. (typed k'.kbd ≡ 120 ∷ 97 ∷ []) × IsRing k'.kbd) (keyboard_isr true 30 sample)
unfolding keyboard_process_scancode check_bit
keyboard_isr_lem_example = keyboard_isr_lem sample 30 keyboard-IsRing refl (omega arith)

open-close_example :
    Returns
      (λ r k'.
        (r ≡ pos 0)
        × ((k'.pcb 7).fd_table ≡ (sample.pcb 7).fd_table)
        × (k'.kbd.refcount ≡ pos 1)
        × ((k'.kbd.task_list (task_index 7)).waiting_on_read ≡ false))
      ((di_open 7 (pos 1) >>= di_close 7) sample)
unfolding find_fd
open-close_example =
    open-close sample 7 1 0 (omega arith) (omega arith) refl refl (omega arith) refl
