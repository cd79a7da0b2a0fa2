-- ===== src/Examples/Signals.antt =====
-- The statements on signals, on the sample state.
use xeros_kernel.Base.{ℕ, ◌≡◌, refl, true, [], ◌∷◌, ◌≤◌, arith, leb, ◌==◌, if◌then◌else◌, inl}
use xeros_kernel.Base.Int.{pos}
use xeros_kernel.Base.Bits.{check_bit}
use xeros_kernel.Kernel.Types.{Kernel, ready_queue, blocked_queue}
use xeros_kernel.Kernel.Bytes.{Mem, load_word, va_arg}
use xeros_kernel.Kernel.Cmd.{put_pcb, Returns}
use xeros_kernel.Queue.Rep.{put_list}
use xeros_kernel.Queue.Becomes.{Becomes, edit}
use xeros_kernel.Table.Moves.{readied, offered}
use xeros_kernel.Signal.{push_handler, set_pcb_signal}
use xeros_kernel.Signal.Frame.{Pushed, push_handler_lem}
use xeros_kernel.Signal.Pending.{marked, signaled, set_pcb_signal_transfer}
use xeros_kernel.Dispatch.{handle_syscall_sigreturn}
use xeros_kernel.Dispatch.Sigreturn.{Resumed, sigreturn_lem}
use xeros_kernel.Examples.{lists, sample, sample-Rep, bytes, machine}

push_handler_lem_example :
    Returns (λ _ k'. Pushed machine 7 3 1000 sample k') (push_handler machine 7 3 sample)
push_handler_lem_example =
    push_handler_lem machine 7 3 1000 sample (omega arith) refl (omega arith) (omega arith)

set_pcb_signal_transfer_example :
    Returns
      (λ r k'.
        (r ≡ pos 0)
        × Becomes sample
            (edit 4 readied (edit 4 signaled (edit 4 (marked 3) sample.pcb)))
            (offered ready_queue 4 (put_list blocked_queue (3 ∷ 5 ∷ []) lists))
            k')
      (set_pcb_signal 4 (pos 3) sample)
unfolding load_word
set_pcb_signal_transfer_example =
    set_pcb_signal_transfer sample 4 (pos 3) (omega arith) refl (omega arith) refl sample-Rep refl
      (inl refl)

-- The memory with the words of a handler's stack from 1000 on, and the state of a handler that is done.
abbrev frame_bytes : Mem
frame_bytes a =
    if leb 1060 a
    then bytes a
    else if a == 1032
    then 188
    else if a == 1033
    then 2
    else if a == 1048
    then 1
    else if a == 1052
    then 36
    else if a == 1053
    then 4
    else if a == 1056
    then 17
    else 0

abbrev with_frame : Kernel
with_frame = record sample {
  mem = frame_bytes;
  pcb = λ a. if a == 7 then record (sample.pcb 7) { esp = 1000 } else sample.pcb a;
}

abbrev handled : Kernel
handled = record with_frame {
  pcb = λ a.
      if a == 7
      then record (sample.pcb 7) { esp = 990; ret = pos 3; args = 1052 }
      else sample.pcb a;
}

sample-Pushed : Pushed machine 7 3 1000 sample with_frame
unfolding load_word put_pcb
sample-Pushed = record {
  esp = refl;
  entry = refl;
  handler = refl;
  saved_esp = refl;
  saved_ret = refl;
  kept = λ x le. kept x le;
  blocks = refl;
}
  where
    kept : (x : ℕ) → 1060 ≤ x → frame_bytes x ≡ bytes x
    kept x le = let e : leb 1060 x ≡ true = ground arith in rw e refl

sigreturn_lem_example :
    Returns (λ p k'. (p ≡ 7) × Resumed 7 sample handled k') (handle_syscall_sigreturn 7 handled)
unfolding va_arg load_word check_bit
sigreturn_lem_example =
    sigreturn_lem machine 7 3 1000 sample with_frame handled (omega arith) refl sample-Pushed
      (omega arith) (omega arith) refl refl (omega arith) refl 3 (omega arith) refl
