-- ===== src/Examples/Users.antt =====
-- System calls as the wrappers make them, typed lines, and runs of the user programs.
use xeros_kernel.Base.{ℕ, ◌∙◌, ◌<◌, ◌≤◌, some, none, ◌+◌, ◌≡◌, refl, List, [], ◌∷◌, arith, inl}
use xeros_kernel.Base.Int.{ℤ, pos}
use xeros_kernel.Kernel.Types.{Kernel}
use xeros_kernel.Kernel.Bytes.{pattern32}
use xeros_kernel.Kernel.Cmd.{done, Returns}
use xeros_kernel.Context.{enter_process}
use xeros_kernel.Dispatch.{arg, handle_syscall_kill}
use xeros_kernel.Syscall.{push_words, syscall, syscall_result, syskill}
use xeros_kernel.Syscall.Words.{Trapped, arg-syscall, syscall_result-enter_process}
use xeros_kernel.Syscall.Kill.{syskill_lem}
use xeros_kernel.Kernel.Types.{ready_queue, blocked_queue}
use xeros_kernel.Kernel.Bytes.{load_word, load-store_apart}
use xeros_kernel.Queue.Rep.{Rep, put_list}
use xeros_kernel.Queue.Becomes.{Becomes, edit}
use xeros_kernel.Table.Moves.{readied, offered}
use xeros_kernel.Table.Pids.{pid_of}
use xeros_kernel.Signal.Pending.{marked, signaled}
use xeros_kernel.User.{Image, Reply, codes, get_command, Parsed}
use xeros_kernel.User.Line.{get_command_lem}
use xeros_kernel.Examples.{lists, sample, sample-Rep, machine}

-- Process 7 has called `syskill(4, 3)`, with its arguments at 2000.
abbrev calling : Kernel
calling = record sample { mem = push_words 2000 (4 ∷ pattern32 (pos 3) ∷ []) sample.mem }

calling-Trapped : Trapped (syskill 4 (pos 3)) 7 calling
unfolding syskill syscall
calling-Trapped = record {
  esp = 1060;
  before = sample.mem;
  some_process = λ e. omega (arith, e);
  pushed = refl;
  all = (omega arith, (omega arith, tt));
}

calling-Rep : Rep calling lists
calling-Rep = record { each = sample-Rep.each; apart = sample-Rep.apart }

arg-syscall_example : arg 7 0 calling ≡ done 4 calling
unfolding syskill
arg-syscall_example = arg-syscall (syskill 4 (pos 3)) 7 calling 0 calling-Trapped (omega arith)

handler_above : load_word calling.mem 4108 ≡ 1
unfolding push_words load_word
handler_above =
    load-store_apart (push_words 2004 (3 ∷ []) sample.mem) 2000 4108 4 (omega arith)
    ∙ load-store_apart sample.mem 2004 4108 3 (omega arith)

syskill_lem_example :
    Returns
      (λ r k'.
        (r ≡ pos 0)
        × Becomes calling
            (edit 4 readied (edit 4 signaled (edit 4 (marked 3) sample.pcb)))
            (offered ready_queue 4 (put_list blocked_queue (3 ∷ 5 ∷ []) lists))
            k')
      (handle_syscall_kill 7 calling)
unfolding pid_of
syskill_lem_example =
    (syskill_lem 3 0 (pos 3) 7 calling lists (omega arith) refl calling-Trapped calling-Rep).1 refl
      (inl refl) refl (λ e. omega (arith, handler_above, e))

syscall_result-enter_process_example :
    Returns (λ _ k'. syscall_result k'.mem 1060 ≡ pos 17) (enter_process machine 7 sample)
syscall_result-enter_process_example =
    syscall_result-enter_process machine 7 sample (λ e. omega (arith, e)) refl (omega arith)
      (omega arith)

abbrev image : Image
image = record {
  shell = 3000;
  command_t = 3100;
  command_ps = 3200;
  command_a = 3300;
  command_k = 3400;
  command_a_handler = 3500;
  user_buf = 5000;
  pass_buf = 5100;
  buf = 5200;
  ps = 5300;
  old_handler = 5400;
  ioctl_args = 5500;
  atoi = λ s. pos 0;
  sprintf = λ r. (48 + r.pid) ∷ [];
}

abbrev reply : ℤ → List ℕ → Reply
reply z bytes = record { result = z; bytes = bytes; rows = [] }

abbrev zero_reply : Reply
zero_reply = reply (pos 0) []

get_command_lem_example :
    let r = get_command 50 (codes "a  500 &") in
    (1 < 50
      → 3 < 50
      → (p : Parsed) × (r ≡ some p) × (p.command ≡ codes "a") × (p.arg ≡ codes "500"))
    × (50 ≤ 1 → r ≡ none)
    × (50 ≤ 3 → r ≡ none)
get_command_lem_example =
    get_command_lem 50 (codes "a") 32 (32 ∷ []) 53 (codes "00") (codes " &") (refl, tt) refl
      (refl, tt) (refl, (refl, (refl, tt))) refl refl
