-- ===== src/Signal.antt =====
-- c/signal.c: pending and enabled signals, and the stack frame of a handler.
pub mod Pending
pub mod Frame
use xeros_kernel.Base.{
  ℕ, zero, suc, ◌+◌, ◌-◌, ◌*◌, ◌%◌, ◌^◌, Bool, true, false, not, ◌&&◌, ◌||◌, ◌==◌, ltb,
  if◌then◌else◌,
}
use xeros_kernel.Base.Int.{ℤ, pos, pos_part, ltb_ℤ, leb_ℤ}
use xeros_kernel.Base.Bits.{check_bit, set_bit, clear_bit}
use xeros_kernel.Kernel.Config.{
  Ptr, null, signal_table_size, context_frame_size, syspid_dne, invalid_signal, syskill_sig_invalid,
  blocked_proc_signaled,
}
use xeros_kernel.Kernel.Types.{
  Kernel, Pcb, BlockedStatus, unblocked, send, receive, waiting, sleep, device,
}
use xeros_kernel.Kernel.Bytes.{Mem, load_word, store_word, pattern32}
use xeros_kernel.Kernel.Cmd.{
  Cmd, halted, spent, pure, ◌>>=◌, ◌>>◌, gets, modify, assert, load_pcb, update_pcb,
}
use xeros_kernel.Table.{
  is_blocked, add_pcb_to_ready_queue, remove_pcb_from_blocked_queue, pid_to_pcb,
}
use xeros_kernel.Sleep.{wake}

-- `*a = v`, for a word.
abbrev pub poke : Ptr → ℕ → Cmd (Unit {0})
poke a v = modify (λ k. record k { mem = store_word k.mem a v })

abbrev pub sub32 : ℕ → ℕ → ℕ
sub32 a b = (a + 2 ^ 32 - b) % 2 ^ 32

-- `handler = pcb->signal_table[signal]`
abbrev pub handler_of : Kernel → Pcb → (signal : ℕ) → Ptr
handler_of k p signal = load_word k.mem (p.signal_table + 4 * signal)

abbrev pub in_table : ℤ → Bool
in_table signal = not (ltb_ℤ signal (pos 0) || leb_ℤ (pos signal_table_size) signal)

-- What stands outside the C code: the code selector, the address of `sigtramp`.
pub record Machine : Type 0 where
  pub code_selector : ℕ
  pub sigtramp : Ptr
  pub sysstop : Ptr

abbrev pub starting_eflags : ℕ
starting_eflags = 0x3200

-- The eleven words of a fresh context frame: registers cleared, `esp` and `ebp` behind the frame.
unfoldable pub init_context_frame : Machine → (context fp : Ptr) → Cmd (Unit {0})
init_context_frame m context fp = do
  poke context 0
  poke (context + 4) 0
  poke (context + 8) (context + context_frame_size)
  poke (context + 12) (context + context_frame_size)
  poke (context + 16) 0
  poke (context + 20) 0
  poke (context + 24) 0
  poke (context + 28) 0
  poke (context + 32) fp
  poke (context + 36) m.code_selector
  poke (context + 40) starting_eflags

-- The search from bit `n` down. Below bit 0 the source shifts by a negative count.
unfoldable pub highest_bit : (flag n : ℕ) → Cmd ℕ
highest_bit flag zero = if check_bit flag zero then pure zero else λ _. spent
highest_bit flag (suc n) =
    let below = highest_bit flag n in if check_bit flag (suc n) then pure (suc n) else below

module _ (m : Machine) where
  -- The four words and the frame that `signal` puts under the process' stack pointer.
  unfoldable pub push_handler : Ptr → (signal : ℕ) → Cmd (Unit {0})
  push_handler process signal = do
    p ← load_pcb process
    let esp = p.esp
    poke (sub32 esp 4) (pattern32 p.ret)
    poke (sub32 esp 8) esp
    handler ← gets (λ k. handler_of k p signal)
    poke (sub32 esp 12) handler
    poke (sub32 esp 16) 0xBADA555
    update_pcb process (λ p. record p { esp = sub32 esp (16 + context_frame_size) })
    init_context_frame m (sub32 esp (16 + context_frame_size)) m.sigtramp

  unfoldable pub signal : (pid : ℕ) → (signal_number : ℤ) → Cmd ℤ
  signal pid n = do
    process ← pid_to_pcb pid
    if process == null
        then pure syspid_dne
        else if not (in_table n)
        then pure invalid_signal
        else do
          update_pcb process
              (λ p. record p { signals_enabled = set_bit p.signals_enabled (pos_part n) })
          push_handler process (pos_part n)
          pure (pos 0)

  unfoldable pub deliver_highest_priority_signal : Ptr → Cmd (Unit {0})
  deliver_highest_priority_signal pcb = do
    p ← load_pcb pcb
    assert (not (p.signals_pending == 0))
    highest ← highest_bit p.signals_pending (signal_table_size - 1)
    if ltb p.signals_enabled p.signals_pending
        then (do
          update_pcb pcb (λ p. record p { signals_pending = clear_bit p.signals_pending highest })
          signal p.pid (pos highest)
          pure tt)
        else pure tt

-- How a blocked process is released by a signal.
unfoldable pub interrupt : BlockedStatus → Ptr → Cmd (Unit {0})
interrupt sleep pcb = wake pcb
interrupt receive pcb = do
  update_pcb pcb (λ p. record p { ret = blocked_proc_signaled })
  remove_pcb_from_blocked_queue pcb
  add_pcb_to_ready_queue pcb
interrupt send pcb = do
  update_pcb pcb (λ p. record p { ret = blocked_proc_signaled })
  remove_pcb_from_blocked_queue pcb
  add_pcb_to_ready_queue pcb
interrupt waiting pcb = do remove_pcb_from_blocked_queue pcb; add_pcb_to_ready_queue pcb
interrupt _ pcb = λ _. halted

unfoldable pub set_pcb_signal : Ptr → (signal : ℤ) → Cmd ℤ
set_pcb_signal pcb signal = do
  assert (not (pcb == null))
  if not (in_table signal) then pure syskill_sig_invalid else do
    p ← load_pcb pcb
    handler ← gets (λ k. handler_of k p (pos_part signal))
    if handler == null then pure (pos 0) else do
      update_pcb pcb
          (λ p. record p { signals_pending = set_bit p.signals_pending (pos_part signal) })
      (if is_blocked p.state then interrupt p.blocked_status pcb else pure tt)
      pure (pos 0)
