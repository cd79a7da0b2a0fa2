-- ===== src/Dispatch/Sigreturn.antt =====
-- The end of a signal handler: `handle_syscall_sigreturn` of c/disp.c after the stack of `signal`.
use xeros_kernel.Base.{
  ℕ, ◌+◌, ◌^◌, ◌≤◌, ◌<◌, ◌≡◌, refl, ◌≢◌, ◌∙◌, sym, true, false, arith, ==_refl, ==_of_ne,
}
use xeros_kernel.Base.Int.{ℤ, pos, negsuc, pos_part, neg_part}
use xeros_kernel.Base.Bits.{check_bit, clear_bit}
use xeros_kernel.Kernel.Config.{Ptr, null}
use xeros_kernel.Kernel.Types.{Kernel}
use xeros_kernel.Kernel.Bytes.{load_word, va_arg, signed32, pattern32}
use xeros_kernel.Kernel.Cmd.{done, put_pcb, Returns, returns}
use xeros_kernel.Kernel.Access.{load-done, update-done}
use xeros_kernel.Memory.Sysptr.{accepted, verify_sysptr_lem}
use xeros_kernel.Signal.{Machine, sub32}
use xeros_kernel.Signal.Frame.{Pushed}
use xeros_kernel.Signal.Pending.{highest_bit_lem}
use xeros_kernel.Dispatch.{arg, check_word, handle_syscall_sigreturn}

pub check_word_lem :
    (k : Kernel) (p : Ptr) → p + 3 < 2 ^ 31 → check_word p k ≡ done (accepted k p (p + 3)) k
unfolding check_word
check_word_lem k p h = rw (verify_sysptr_lem k p 3 h) (ground arith)

pub signed-pattern :
    (z : ℤ) → pos_part z < 2 ^ 31 → neg_part z ≤ 2 ^ 31 → signed32 (pattern32 z) ≡ z
signed-pattern (pos n) a b = ground arith
signed-pattern (negsuc n) a b = ground arith

-- The process is as it was when the signal was delivered, and the highest enabled signal `b` is off.
pub record Resumed (process : Ptr) (old k k' : Kernel) : Type 0 where
  pub ret : (k'.pcb process).ret ≡ (old.pcb process).ret
  pub esp : (k'.pcb process).esp ≡ (old.pcb process).esp
  pub bit : ℕ
  pub enabled : check_bit (k.pcb process).signals_enabled bit ≡ true
  pub highest : (j : ℕ) → bit < j → j ≤ 31 → check_bit (k.pcb process).signals_enabled j ≡ false
  pub disabled : (k'.pcb process).signals_enabled ≡ clear_bit (k.pcb process).signals_enabled bit
  pub memory : k'.mem ≡ k.mem
  pub others : (a : Ptr) → a ≢ process → k'.pcb a ≡ k.pcb a

module _ (m : Machine) (process : Ptr) (signal b : ℕ) (old pushed k : Kernel) where
  -- Let `signal` have built a handler's stack in the state `pushed`, from the state `old` in which
  -- the process had its stack pointer at `b + 60` and a result of 32 bits. If in state `k` the word
  -- with the saved result is as it was built, the argument of the call is the saved stack pointer
  -- as it was built, that pointer lies below 2 ^ 31 - 3 and passes the check, and some signal is
  -- enabled, then the `sigreturn` call returns to the same process, its result and stack pointer
  -- are those of `old`, and the highest enabled signal is cleared; memory and the other control
  -- blocks stay as they are.
  pub sigreturn_lem :
      process ≢ null
      → (old.pcb process).esp ≡ b + 60
      → Pushed m process signal b old pushed
      → pos_part (old.pcb process).ret < 2 ^ 31
      → neg_part (old.pcb process).ret ≤ 2 ^ 31
      → load_word k.mem (b + 56) ≡ load_word pushed.mem (b + 56)
      → va_arg k.mem (k.pcb process).args 0 ≡ load_word pushed.mem (b + 52)
      → b + 63 < 2 ^ 31
      → accepted k (b + 60) (b + 60 + 3) ≡ true
      → (n : ℕ) → n ≤ 31
      → check_bit (k.pcb process).signals_enabled n ≡ true
      → Returns
          (λ p k'. (p ≡ process) × Resumed process old k k')
          (handle_syscall_sigreturn process k)
  unfolding handle_syscall_sigreturn arg put_pcb
  sigreturn_lem ne esp frame lo hi saved argument room good n le on =
      let sp : va_arg k.mem (k.pcb process).args 0 ≡ b + 60 = argument ∙ frame.saved_esp in
      let at : sub32 (b + 60) 4 ≡ b + 56 = omega arith in
      let word : load_word k.mem (b + 56) ≡ pattern32 (old.pcb process).ret =
        saved ∙ frame.saved_ret in
      let (bit, run, set, bound, above) =
        highest_bit_lem (k.pcb process).signals_enabled 31 n
          (put_pcb process
            (λ p. record p { ret = signed32 (pattern32 (old.pcb process).ret); esp = b + 60 }) k)
          le on in
      rw
        (
          load-done process k ne,
          sp,
          check_word_lem k (b + 60) (omega arith),
          good,
          at,
          word,
          update-done process k ne _,
          load-done process _ ne,
          ==_refl process,
          run,
          update-done process _ ne _,
        )
        (returns (
          refl,
          record {
            ret = rw (==_refl process) (signed-pattern (old.pcb process).ret lo hi);
            esp = rw (==_refl process) (sym esp);
            bit = bit;
            enabled = set;
            highest = above;
            disabled = rw (==_refl process) refl;
            memory = refl;
            others = λ a out. rw (==_of_ne a process out) refl;
          },
        ))
