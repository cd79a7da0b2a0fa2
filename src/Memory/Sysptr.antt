-- ===== src/Memory/Sysptr.antt =====
-- What `align_to_paragraph` and `verify_sysptr` of c/mem.c answer.
use xeros_kernel.Base.{
  ℕ, suc, ◌+◌, ◌-◌, ◌%◌, ◌^◌, ◌≤◌, ◌<◌, ◌≡◌, Bool, true, not, ◌&&◌, ◌||◌, arith, ltb, leb,
  if◌then◌else◌,
}
use xeros_kernel.Base.Int.{pos, negsuc}
use xeros_kernel.Kernel.Config.{hole_start, hole_end, kernel_stack, maxaddr, syserr, ok_code}
use xeros_kernel.Kernel.Types.{Kernel}
use xeros_kernel.Kernel.Bytes.{signed32}
use xeros_kernel.Kernel.Cmd.{done}
use xeros_kernel.Memory.{align_to_paragraph, verify_sysptr}

-- For an address at most 2 ^ 32 - 17, `align_to_paragraph` returns a multiple of 16 that is at
-- least the address and less than 16 above it.
pub align_to_paragraph_lem :
    (a : ℕ)
    → a + 16 ≤ 2 ^ 32 - 1
    → (align_to_paragraph a % 16 ≡ 0) × (a ≤ align_to_paragraph a) × (align_to_paragraph a < a + 16)
unfolding align_to_paragraph
align_to_paragraph_lem a h = (ground arith, ground arith, ground arith)

-- The first and the last byte of a buffer that may be passed to the kernel.
abbrev pub in_hole : ℕ → Bool
in_hole a = leb hole_start a && ltb a hole_end

abbrev pub in_kernel_stack : Kernel → ℕ → Bool
in_kernel_stack k a = leb (k.freemem - kernel_stack) a && ltb a k.freemem

abbrev pub accepted : Kernel → (first last : ℕ) → Bool
accepted k first last =
    ltb 0 first
    && leb last maxaddr
    && not (in_hole first || in_hole last)
    && not (in_kernel_stack k first)

-- For a buffer of `n + 1` bytes whose last address is below 2 ^ 31, `verify_sysptr` changes nothing
-- and returns OK exactly if the first address is positive, the last one at most `maxaddr`, neither
-- of the two in the hole, and the first one not in the kernel's stack; else it returns SYSERR.
pub verify_sysptr_lem :
    (k : Kernel) (ptr n : ℕ)
    → ptr + n < 2 ^ 31
    → verify_sysptr ptr (pos (suc n)) k
      ≡ done (if accepted k ptr (ptr + n) then ok_code else syserr) k
unfolding verify_sysptr
verify_sysptr_lem k ptr n h =
    let a : signed32 ptr ≡ pos ptr = ground arith in
    let e : signed32 ((ptr + suc n - 1) % 2 ^ 32) ≡ pos (ptr + n) = ground arith in
    let t : ltb 0 (suc n + 0) ≡ true = ground arith in rw (t, a, e) (ground arith)

-- A buffer that starts between the end of the hole and `maxaddr`, with the kernel's memory below
-- the hole, of a length up to 2 ^ 31 that takes its end past 2 ^ 31, passes `verify_sysptr`: its
-- end address is taken for a negative number.
pub verify_sysptr-overflow :
    (k : Kernel) (ptr n : ℕ)
    → hole_end ≤ ptr
    → ptr ≤ maxaddr
    → k.freemem ≤ hole_start
    → n < 2 ^ 31
    → 2 ^ 31 ≤ ptr + n
    → verify_sysptr ptr (pos (suc n)) k ≡ done ok_code k
unfolding verify_sysptr
verify_sysptr-overflow k ptr n lo hi fm small over =
    let a : signed32 ptr ≡ pos ptr = ground arith in
    let e : signed32 ((ptr + suc n - 1) % 2 ^ 32) ≡ negsuc (2 ^ 32 - (ptr + n) - 1) =
      ground arith in
    let t : ltb 0 (suc n + 0) ≡ true = ground arith in rw (t, a, e) (ground arith)
