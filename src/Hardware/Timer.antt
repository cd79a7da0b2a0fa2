-- ===== src/Hardware/Timer.antt =====
-- The timer's set-up: how often it interrupts.
use native.Mathlib.Nat.{div-lt_iff_lt-mul, div-mul-le_self, lt-div-mul-add}
use xeros_kernel.Base.{ℕ, ◌+◌, ◌*◌, ◌/◌, ◌%◌, ◌≤◌, ◌<◌, ◌≡◌, refl, subst, ◌∷◌, arith}
use xeros_kernel.Base.Bits.{clear_bit}
use xeros_kernel.Kernel.Types.{Kernel}
use xeros_kernel.Kernel.Cmd.{Returns, returns}
use xeros_kernel.Keyboard.{enable_irq}
use xeros_kernel.Hardware.{timer_freq, timer_div, init_pit}

timer_div_lem :
    (d : ℕ)
    → 19 ≤ d
    → (timer_div d < 65536)
      × (timer_div d * d ≤ timer_freq + d / 2)
      × (timer_freq + d / 2 < (timer_div d + 1) * d)
unfolding timer_div
timer_div_lem d lo =
    let some_d : 0 < d = omega arith in
    (
      (div-lt_iff_lt-mul some_d).1 (omega arith),
      div-mul-le_self (timer_freq + d / 2) d,
      next (lt-div-mul-add some_d),
    )
  where
    next :
        timer_freq + d / 2 < (timer_freq + d / 2) / d * d + d
        → timer_freq + d / 2 < ((timer_freq + d / 2) / d + 1) * d
    next h = subst (λ n. timer_freq + d / 2 < n) (omega arith) h

-- What the timer was told: a command, and the two bytes of the ticks between interrupts.
abbrev pub Programmed : (ticks : ℕ) → Kernel → Kernel → Type 0
Programmed ticks k k' =
    (low high : ℕ) × (k'.ports ≡ (0x40, high) ∷ (0x40, low) ∷ (0x43, 0x34) ∷ k.ports)
    × (low < 256)
    × (high < 256)
    × (low + 256 * high ≡ ticks)

-- For a rate of `d` interrupts a second, 19 or more, `initPIT` writes to the timer, in the order of
-- the controller, the low and the high byte of the number of ticks for one interrupt, and this
-- number is the timer's frequency divided by `d`, rounded to the nearest; and it clears bit 0 of
-- the first controller's mask, which lets the timer interrupt.
pub init_pit_lem :
    (d : ℕ) (k : Kernel)
    → 19 ≤ d
    → (timer_div d * d ≤ timer_freq + d / 2)
      × (timer_freq + d / 2 < (timer_div d + 1) * d)
      × Returns
          (λ _ k'.
            Programmed (timer_div d) k k' × (k'.irq_mask 0x21 ≡ clear_bit (k.irq_mask 0x21) 0))
          (init_pit d k)
unfolding init_pit enable_irq
init_pit_lem d k lo =
    let (small, below, above) = timer_div_lem d lo in
    (
      below,
      above,
      returns (
        (
          timer_div d % 256 % 256,
          timer_div d / 256 % 256,
          refl,
          omega arith,
          omega arith,
          omega arith,
        ),
        refl,
      ),
    )
