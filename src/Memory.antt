-- ===== src/Memory.antt =====
-- c/mem.c: the free list, `kmalloc`, `kfree` and the check of a system call's pointer.
pub mod Sysptr
pub mod Alloc
pub mod Fit
pub mod Carve
pub mod Free
pub mod Chunks
use xeros_kernel.Base.{
  ℕ, zero, suc, ◌+◌, ◌-◌, ◌*◌, ◌/◌, ◌%◌, ◌^◌, Bool, true, false, not, ◌&&◌, ◌||◌, ltb, leb, ◌==◌,
  if◌then◌else◌,
}
use xeros_kernel.Base.Int.{ℤ, pos, pos_part, ltb_ℤ, leb_ℤ}
use xeros_kernel.Kernel.Config.{
  Ptr, null, paragraph_size, header_size, hole_start, hole_end, kernel_stack, maxaddr, syserr,
  ok_code,
}
use xeros_kernel.Kernel.Types.{Kernel, Header, log_out, no_memory}
use xeros_kernel.Kernel.Bytes.{signed32}
use xeros_kernel.Kernel.Cmd.{
  Cmd, spent, pure, ◌>>=◌, ◌>>◌, gets, modify, assert, print, load_header, update_header,
}

-- Rounds of a walk over the free list. The blocks of a 4 MB memory take 16 bytes or more each.
unfoldable pub heap_fuel : ℕ
heap_fuel = 2 ^ 18

unfoldable pub align_to_paragraph : ℕ → ℕ
align_to_paragraph address =
    if address % paragraph_size == 0
    then address
    else (address + paragraph_size) % 2 ^ 32 / paragraph_size * paragraph_size

-- The two regions around the hole. `sanity_check` of both and both ends of the list are NULL.
unfoldable pub kmeminit : Cmd (Unit {0})
unfolding align_to_paragraph
kmeminit = do
  freemem ← gets (λ k. k.freemem)
  let memstart = align_to_paragraph freemem
  modify (λ k. record k { free_list = memstart })
  update_header memstart (λ h. record h {
    size = (hole_start + 2 ^ 32 - memstart) % 2 ^ 32;
    sanity_check = null;
    prev = null;
  })
  update_header hole_end (λ h. record {
    size = (maxaddr - hole_end) / paragraph_size * paragraph_size;
    prev = memstart;
    sanity_check = null;
    next = null;
  })
  update_header memstart (λ h. record h { next = hole_end })

-- The split of a block that is larger than what is asked for.
unfoldable pub split_block : (curr required : ℕ) → Cmd (Unit {0})
split_block curr required = do
  c ← load_header curr
  let leftover = curr + required
  update_header leftover (λ h. record h { size = c.size - required; prev = curr; next = c.next })
  (if c.next == null then pure tt else update_header c.next (λ h. record h { prev = leftover }))
  update_header curr (λ h. record h { next = leftover })

-- The unlinking of the chosen block. The write to `curr->next->prev` has no test for NULL.
unfoldable pub take_block : (curr required : ℕ) → Cmd Ptr
take_block curr required = do
  c ← load_header curr
  (if c.prev == null
      then modify (λ k. record k { free_list = c.next })
      else update_header c.prev (λ h. record h { next = c.next }))
  update_header curr (λ h. record h { size = required })
  update_header c.next (λ h. record h { prev = c.prev })
  update_header curr (λ h. record h { sanity_check = curr + header_size })
  pure (curr + header_size)

-- First fit. The end of the list is logged.
unfoldable pub kmalloc_loop : ℕ → (size required curr : ℕ) → Cmd Ptr
kmalloc_loop zero size required curr = λ _. spent
kmalloc_loop (suc fuel) size required curr =
    if curr == null then (do print (log_out (no_memory size)); pure null) else do
      c ← load_header curr
      if leb required c.size
          then (do
            (if required == c.size then pure tt else split_block curr required)
            take_block curr required)
          else kmalloc_loop fuel size required c.next

unfoldable pub kmalloc : ℕ → Cmd Ptr
kmalloc size = if size == 0 then pure null else do
  first ← gets (λ k. k.free_list)
  kmalloc_loop heap_fuel size ((align_to_paragraph size + header_size) % 2 ^ 32) first

unfoldable pub coalesce_blocks : (first second : Ptr) → Cmd (Unit {0})
coalesce_blocks first second = if (first == null) || (second == null) then pure tt else do
  f ← load_header first
  s ← load_header second
  if ltb (first + header_size + f.size) (second + header_size) then pure tt else do
    update_header first (λ h. record h {
      size = (second + header_size + s.size + 2 ^ 32 - (first + header_size)) % 2 ^ 32;
      next = s.next;
    })
    if s.next == null then pure tt else update_header s.next (λ h. record h { prev = first })

-- The walk `while (next != NULL && next < node)`: the last `prev` and `next`.
unfoldable pub place_loop : ℕ → (node prev next : Ptr) → Cmd (Ptr × Ptr)
place_loop zero node prev next = λ _. spent
place_loop (suc fuel) node prev next =
    if not (next == null) && ltb next node
    then (do h ← load_header next; place_loop fuel node next h.next)
    else pure (prev, next)

unfoldable pub insert_block : (node prev next : Ptr) → Cmd (Unit {0})
insert_block node prev next = do
  (if prev == null
      then modify (λ k. record k { free_list = node })
      else update_header prev (λ h. record h { next = node }))
  (if next == null then pure tt else update_header next (λ h. record h { prev = node }))
  update_header node (λ h. record h { prev = prev; next = next })

unfoldable pub kfree : Ptr → Cmd ℤ
kfree ptr = do
  let node = (ptr + 2 ^ 32 - header_size) % 2 ^ 32
  n ← load_header node
  if not (n.sanity_check == ptr) then pure (pos 0) else do
    first ← gets (λ k. k.free_list)
    (prev, next) ← place_loop heap_fuel node null first
    insert_block node prev next
    coalesce_blocks node next
    coalesce_blocks prev node
    pure (pos 1)

-- `long` has 32 bits: the end address is the wrapped sum, read as a signed number.
unfoldable pub verify_sysptr : Ptr → ℤ → Cmd ℤ
verify_sysptr ptr len = do
  assert (ltb_ℤ (pos 0) len)
  freemem ← gets (λ k. k.freemem)
  let addr = signed32 ptr
  let end_addr = signed32 ((ptr + pos_part len - 1) % 2 ^ 32)
  pure (
      if leb_ℤ addr (pos 0) || ltb_ℤ (pos maxaddr) end_addr
      then syserr
      else if (leb_ℤ (pos hole_start) addr && ltb_ℤ addr (pos hole_end))
          || (leb_ℤ (pos hole_start) end_addr && ltb_ℤ end_addr (pos hole_end))
      then syserr
      else if leb (freemem - kernel_stack) ptr && ltb ptr freemem
      then syserr
      else ok_code)
