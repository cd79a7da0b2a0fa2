-- ===== src/Base/Bits.antt =====
-- The bit macros of h/xeroskernel.h on an unsigned word, by recursion on the bit's number:
-- `flag >> n` drops a digit a step.
use Prim.Native.Nat.{ℕ, zero, suc, ◌+◌, ◌-◌, ◌*◌, ◌/◌, ◌%◌, bit_and, bit_or, bit_xor}
use mathlib.Core.Path.{◌≡◌, refl, ap}
use mathlib.Core.Logic.{◌≢◌}
use mathlib.Core.Bool.{Bool, true, false}
use native.Mathlib.Omega.{arith}
use xeros_kernel.Base.Tests.{◌==◌}

-- `CHECK_BIT(flag, n)`: `0x01 & (flag >> n)`, as a truth value
unfoldable pub check_bit : ℕ → ℕ → Bool
check_bit flag zero = flag % 2 == 1
check_bit flag (suc n) = check_bit (flag / 2) n

-- `SET_BIT(flag, n)`: `flag |= 0x01 << n`
pub set_bit : ℕ → ℕ → ℕ
set_bit flag zero = flag / 2 * 2 + 1
set_bit flag (suc n) = set_bit (flag / 2) n * 2 + flag % 2

-- `CLEAR_BIT(flag, n)`: `flag &= ~(0x01 << n)`
pub clear_bit : ℕ → ℕ → ℕ
clear_bit flag zero = flag / 2 * 2
clear_bit flag (suc n) = clear_bit (flag / 2) n * 2 + flag % 2

-- `TOGGLE_BIT(flag, n)`: `flag ^= 0x01 << n`
pub toggle_bit : ℕ → ℕ → ℕ
toggle_bit flag zero = flag / 2 * 2 + (1 - flag % 2)
toggle_bit flag (suc n) = toggle_bit (flag / 2) n * 2 + flag % 2

pub check-set_self : (f n : ℕ) → check_bit (set_bit f n) n ≡ true
unfolding check_bit set_bit
check-set_self f zero = ground arith
check-set_self f (suc n) =
    let e : (set_bit (f / 2) n * 2 + f % 2) / 2 ≡ set_bit (f / 2) n = omega arith in
    rw e (check-set_self (f / 2) n)

pub check-set_ne : (f n m : ℕ) → n ≢ m → check_bit (set_bit f n) m ≡ check_bit f m
unfolding check_bit set_bit
check-set_ne f zero zero h = absurd (h refl)
check-set_ne f zero (suc m) h = ap (λ g. check_bit g m) (omega arith)
check-set_ne f (suc n) zero h = ground arith
check-set_ne f (suc n) (suc m) h =
    let e : (set_bit (f / 2) n * 2 + f % 2) / 2 ≡ set_bit (f / 2) n = omega arith in
    rw e (check-set_ne (f / 2) n m (λ p. h (ap suc p)))

pub check-clear_self : (f n : ℕ) → check_bit (clear_bit f n) n ≡ false
unfolding check_bit clear_bit
check-clear_self f zero = ground arith
check-clear_self f (suc n) =
    let e : (clear_bit (f / 2) n * 2 + f % 2) / 2 ≡ clear_bit (f / 2) n = omega arith in
    rw e (check-clear_self (f / 2) n)

pub check-clear_ne : (f n m : ℕ) → n ≢ m → check_bit (clear_bit f n) m ≡ check_bit f m
unfolding check_bit clear_bit
check-clear_ne f zero zero h = absurd (h refl)
check-clear_ne f zero (suc m) h = ap (λ g. check_bit g m) (omega arith)
check-clear_ne f (suc n) zero h = ground arith
check-clear_ne f (suc n) (suc m) h =
    let e : (clear_bit (f / 2) n * 2 + f % 2) / 2 ≡ clear_bit (f / 2) n = omega arith in
    rw e (check-clear_ne (f / 2) n m (λ p. h (ap suc p)))

-- The macros agree with the native bit operations on a sample word.
bits_agree :
    (set_bit 0xa5 3 ≡ bit_or 0xa5 8)
    × (clear_bit 0xa5 5 ≡ bit_and 0xa5 0xdf)
    × (toggle_bit 0xa5 2 ≡ bit_xor 0xa5 4)
unfolding set_bit clear_bit toggle_bit
bits_agree = (refl, refl, refl)
