-- ===== src/Signal/Frame.antt =====
-- The stack that `signal` builds for a handler, and what it leaves alone.
use xeros_kernel.Base.{ℕ, ◌+◌, ◌*◌, ◌%◌, ◌^◌, ◌≤◌, ◌<◌, ◌≡◌, refl, ◌≢◌, ◌∙◌, ap, arith, ==_refl}
use xeros_kernel.Kernel.Config.{Ptr, null}
use xeros_kernel.Kernel.Types.{Kernel}
use xeros_kernel.Kernel.Bytes.{
  Mem, load_word, store_word, pattern32, AgreeFrom, agree-store, load_agree, load-store_mod,
  load-store_apart, load-store_below,
}
use xeros_kernel.Kernel.Cmd.{put_pcb, Returns, returns}
use xeros_kernel.Kernel.Access.{load-done, update-done, mono}
use xeros_kernel.Signal.{Machine, sub32, handler_of, init_context_frame, push_handler}

-- `init_context_frame` returns, changes memory only, and nothing of it behind the frame.
pub init_context_frame_lem :
    (m : Machine) (c fp : ℕ) (k : Kernel)
    → Returns
        (λ _ k'.
          (k' ≡ record k { mem = k'.mem })
          × AgreeFrom (c + 44) k.mem k'.mem
          × (load_word k'.mem (c + 32) ≡ fp % 2 ^ 32))
        (init_context_frame m c fp k)
unfolding init_context_frame
init_context_frame_lem m c fp k = returns (
  refl,
  agree-store (c + 44) _ _ k.mem _ (omega arith) (
      agree-store (c + 44) _ _ k.mem _ (omega arith) (
        agree-store (c + 44) _ _ k.mem _ (omega arith) (
          agree-store (c + 44) _ _ k.mem _ (omega arith) (
            agree-store (c + 44) _ _ k.mem _ (omega arith) (
              agree-store (c + 44) _ _ k.mem _ (omega arith) (
                agree-store (c + 44) _ _ k.mem _ (omega arith) (
                  agree-store (c + 44) _ _ k.mem _ (omega arith) (
                    agree-store (c + 44) _ _ k.mem _ (omega arith) (
                      agree-store (c + 44) _ _ k.mem _ (omega arith)
                        (agree-store (c + 44) _ _ k.mem _ (omega arith) (λ x le. refl))))))))))),
  load-store_below _ (c + 40) (c + 32) _ (omega arith)
      ∙ load-store_below _ (c + 36) (c + 32) _ (omega arith)
      ∙ load-store_mod _ (c + 32) fp,
)

-- The state before the frame: the four words under the old stack pointer `b + 60`.
abbrev pushed_words : Ptr → (signal b : ℕ) → Kernel → Mem
pushed_words process signal b k =
    let m1 = store_word k.mem (b + 56) (pattern32 (k.pcb process).ret) in
    let m2 = store_word m1 (b + 52) (b + 60) in
    let m3 = store_word m2 (b + 48) (handler_of (record k { mem = m2 }) (k.pcb process) signal) in
    store_word m3 (b + 44) 0xBADA555

-- What `sigtramp` finds when the process runs on: its return address, the handler and the saved
-- stack pointer as arguments, and above them the saved result. Nothing from the old stack pointer
-- upwards has changed, and of the control blocks only the stack pointer of this process.
pub record Pushed (m : Machine) (process : Ptr) (signal b : ℕ) (k k' : Kernel) : Type 0 where
  pub esp : (k'.pcb process).esp ≡ b
  pub entry : load_word k'.mem (b + 32) ≡ m.sigtramp % 2 ^ 32
  pub handler : load_word k'.mem (b + 48) ≡ handler_of k (k.pcb process) signal % 2 ^ 32
  pub saved_esp : load_word k'.mem (b + 52) ≡ b + 60
  pub saved_ret : load_word k'.mem (b + 56) ≡ pattern32 (k.pcb process).ret
  pub kept : AgreeFrom (b + 60) k.mem k'.mem
  pub blocks : k'.pcb ≡ (put_pcb process (λ p. record p { esp = b }) k).pcb

-- With 60 bytes of room under the stack pointer of a process (which is not NULL), below 2 ^ 32, and
-- the signal table above them, the stack building part of `signal` returns. The new frame enters
-- `sigtramp`; above it stand the handler and the old stack pointer as its arguments, and the saved
-- result; nothing from the old stack pointer upwards changes, and of the control blocks only this
-- process' stack pointer.
pub push_handler_lem :
    (m : Machine) (process : Ptr) (signal b : ℕ) (k : Kernel)
    → process ≢ null
    → (k.pcb process).esp ≡ b + 60
    → b + 60 < 2 ^ 32
    → b + 60 ≤ (k.pcb process).signal_table
    → Returns (λ _ k'. Pushed m process signal b k k') (push_handler m process signal k)
unfolding push_handler put_pcb
push_handler_lem m process signal b k ne esp room apart =
    let at : (n c : ℕ) → n + c ≡ 60 → sub32 (b + 60) n ≡ b + c = λ n c e. omega arith in
    let base : sub32 (b + 60) 60 ≡ b = omega arith in
    rw
      (
        load-done process k ne,
        esp,
        at 4 56 refl,
        at 8 52 refl,
        at 12 48 refl,
        at 16 44 refl,
        base,
        update-done process _ ne (λ p. record p { esp = b }),
      )
      (mono (init_context_frame_lem m b m.sigtramp _)
        λ u k' (same, agree, eip). found k' same agree eip)
  where
    words : Mem
    words = pushed_words process signal b k

    before : Kernel
    before = put_pcb process (λ p. record p { esp = b }) (record k { mem = words })

    at_process : (before.pcb process).esp ≡ b
    at_process = rw (==_refl process)

    words_kept : AgreeFrom (b + 60) k.mem words
    words_kept = agree-store (b + 60) _ _ k.mem _ (omega arith) (
        agree-store (b + 60) _ _ k.mem _ (omega arith) (
          agree-store (b + 60) _ _ k.mem _ (omega arith)
            (agree-store (b + 60) _ _ k.mem _ (omega arith) (λ x le. refl))))

    ret_word : load_word words (b + 56) ≡ pattern32 (k.pcb process).ret
    ret_word =
        load-store_apart _ (b + 44) (b + 56) _ (omega arith)
        ∙ load-store_apart _ (b + 48) (b + 56) _ (omega arith)
        ∙ load-store_apart _ (b + 52) (b + 56) _ (omega arith)
        ∙ load-store_mod k.mem (b + 56) (pattern32 (k.pcb process).ret)
        ∙ omega arith

    esp_word : load_word words (b + 52) ≡ b + 60
    esp_word =
        load-store_apart _ (b + 44) (b + 52) _ (omega arith)
        ∙ load-store_apart _ (b + 48) (b + 52) _ (omega arith)
        ∙ load-store_mod _ (b + 52) (b + 60)
        ∙ omega arith

    handler_word : load_word words (b + 48) ≡ handler_of k (k.pcb process) signal % 2 ^ 32
    handler_word =
        load-store_apart _ (b + 44) (b + 48) _ (omega arith)
        ∙ load-store_mod _ (b + 48) _
        ∙ ap (λ (w : ℕ). w % 2 ^ 32)
            (load-store_apart _ (b + 52) ((k.pcb process).signal_table + 4 * signal) _ (omega arith)
              ∙ load-store_apart k.mem (b + 56) ((k.pcb process).signal_table + 4 * signal) _
                  (omega arith))

    found :
        (k' : Kernel)
        → k' ≡ record before { mem = k'.mem }
        → AgreeFrom (b + 44) words k'.mem
        → load_word k'.mem (b + 32) ≡ m.sigtramp % 2 ^ 32
        → Pushed m process signal b k k'
    found k' same agree eip = record {
      esp = ap (λ (j : Kernel). (j.pcb process).esp) same ∙ at_process;
      entry = eip;
      handler = load_agree (b + 44) (b + 48) words k'.mem (omega arith) agree ∙ handler_word;
      saved_esp = load_agree (b + 44) (b + 52) words k'.mem (omega arith) agree ∙ esp_word;
      saved_ret = load_agree (b + 44) (b + 56) words k'.mem (omega arith) agree ∙ ret_word;
      kept = λ x le. agree x (omega arith) ∙ words_kept x le;
      blocks = ap (λ (j : Kernel). j.pcb) same;
    }
