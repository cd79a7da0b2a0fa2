-- ===== src/Syscall/Words.antt =====
-- What a handler reads of a wrapper's arguments, and what the wrapper returns.
use xeros_kernel.Base.{
  ℕ, zero, suc, ◌+◌, ◌*◌, ◌^◌, ◌≤◌, ◌<◌, ◌≡◌, refl, ◌≢◌, ◌∙◌, ap, List, [], ◌∷◌, arith, length,
  get_or, ◌==◌, if◌then◌else◌, ==_of_ne,
}
use xeros_kernel.Base.Int.{ℤ, pos_part, neg_part}
use xeros_kernel.Kernel.Config.{Ptr, null, syskill_target_dne}
use xeros_kernel.Kernel.Types.{Kernel}
use xeros_kernel.Kernel.Bytes.{
  Mem, load_word, store_word, va_arg, signed32, pattern32, load-store_self, load-store_apart,
  load-store_below, load-store_mod,
}
use xeros_kernel.Kernel.Cmd.{done, pure, ◌>>=◌, Returns, returns}
use xeros_kernel.Kernel.Access.{load-done}
use xeros_kernel.Table.{pid_to_pcb}
use xeros_kernel.Signal.{Machine, set_pcb_signal}
use xeros_kernel.Context.{enter_process}
use xeros_kernel.Dispatch.{arg, int_arg, handle_syscall_kill}
use xeros_kernel.Dispatch.Sigreturn.{signed-pattern}
use xeros_kernel.Syscall.{Call, push_words, syscall, syscall_result, syskill}

-- All words are 32 bits.
abbrev pub AllWords : List ℕ → Type 0
AllWords [] = Unit {0}
AllWords (w ∷ ws) = (w < 2 ^ 32) × AllWords ws

-- The words behind leave those in front.
load-push_below :
    (args a : Ptr) (ws : List ℕ) (m : Mem)
    → (a + 4 ≤ args)
    → load_word (push_words args ws m) a ≡ load_word m a
unfolding push_words
load-push_below args a [] m h = refl
load-push_below args a (w ∷ ws) m h =
    load-store_below (push_words (args + 4) ws m) args a w h
    ∙ load-push_below (args + 4) a ws m (omega arith)

va_arg-push_words :
    (args : Ptr) (ws : List ℕ) (m : Mem) (i : ℕ)
    → AllWords ws
    → i < length ws
    → load_word (push_words args ws m) (args + 4 * i) ≡ get_or ws i 0
unfolding push_words
va_arg-push_words args [] m i all h = absurd (omega arith)
va_arg-push_words args (w ∷ ws) m zero all h =
    ap (load_word (store_word (push_words (args + 4) ws m) args w)) (omega arith)
    ∙ load-store_self (push_words (args + 4) ws m) args w all.0
va_arg-push_words args (w ∷ ws) m (suc i) all h =
    load-store_apart (push_words (args + 4) ws m) args (args + 4 * suc i) w (omega arith)
    ∙ ap (load_word (push_words (args + 4) ws m)) (omega arith)
    ∙ va_arg-push_words (args + 4) ws m i all.1 (omega arith)

-- The kernel is in a call that the process made with `syscall`: the words are on its stack, and the
-- control block has their address.
pub record Trapped (c : Call) (process : Ptr) (k : Kernel) : Type 0 where
  pub esp : Ptr
  pub before : Mem
  pub some_process : process ≢ null
  pub pushed : k.mem ≡ (syscall c (k.pcb process).args esp before).0
  pub all : AllWords c.words

-- While the kernel is in a call that a process, not NULL, made with `syscall` and words of 32 bits,
-- a handler that reads argument `i`, one of those passed, gets the word that the wrapper passed in
-- this place, and changes nothing.
pub arg-syscall :
    (c : Call) (process : Ptr) (k : Kernel) (i : ℕ)
    → Trapped c process k
    → i < length c.words
    → arg process i k ≡ done (get_or c.words i 0) k
unfolding arg va_arg syscall
arg-syscall c process k i t h =
    let read =
      ap (λ m. load_word m ((k.pcb process).args + 4 * i)) t.pushed
      ∙ va_arg-push_words (k.pcb process).args c.words t.before i t.all h in
    simp (load-done process k t.some_process, read) refl

int_arg-syscall :
    (c : Call) (process : Ptr) (k : Kernel) (i : ℕ) (z : ℤ)
    → Trapped c process k
    → i < length c.words
    → get_or c.words i 0 ≡ pattern32 z
    → pos_part z < 2 ^ 31
    → neg_part z ≤ 2 ^ 31
    → int_arg process i k ≡ done z k
unfolding int_arg
int_arg-syscall c process k i z t h word lo hi =
    let back = ap signed32 word ∙ signed-pattern z lo hi in
    simp (arg-syscall c process k i t h, back) refl

-- For a call made with `syskill` of a pid below 2 ^ 32 and a signal number in C's range of `int`,
-- by a non-NULL process, the kernel's handler does what the call says: it looks the pid up, returns
-- -512 if there is none, and else sends that signal to it.
pub handle_syscall_kill-syskill :
    (pid : ℕ) (signal : ℤ) (process : Ptr) (k : Kernel)
    → Trapped (syskill pid signal) process k
    → pos_part signal < 2 ^ 31
    → neg_part signal ≤ 2 ^ 31
    → handle_syscall_kill process k
      ≡ (pid_to_pcb pid >>= λ target.
            if target == null then pure syskill_target_dne else set_pcb_signal target signal)
          k
unfolding handle_syscall_kill syskill
handle_syscall_kill-syskill pid signal process k t lo hi =
    let first = arg-syscall (syskill pid signal) process k 0 t (omega arith) in
    let second =
      int_arg-syscall (syskill pid signal) process k 1 signal t (omega arith) refl lo hi in
    simp (first, second) refl

-- When the context switch enters a non-NULL process without pending signals whose result is in C's
-- range of `int`, the result of its system call, as the wrapper takes it from the process' stack,
-- is the one in the control block.
pub syscall_result-enter_process :
    (m : Machine) (process : Ptr) (k : Kernel)
    → process ≢ null
    → (k.pcb process).signals_pending ≡ 0
    → pos_part (k.pcb process).ret < 2 ^ 31
    → neg_part (k.pcb process).ret ≤ 2 ^ 31
    → Returns
        (λ _ k'. syscall_result k'.mem (k.pcb process).esp ≡ (k.pcb process).ret)
        (enter_process m process k)
unfolding enter_process syscall_result
syscall_result-enter_process m process k ne calm lo hi =
    let word =
      load-store_mod k.mem ((k.pcb process).esp + 28) (pattern32 (k.pcb process).ret)
      ∙ omega arith in
    simp (==_of_ne process null ne, load-done process k ne, calm)
      (returns (ap signed32 word ∙ signed-pattern (k.pcb process).ret lo hi))
