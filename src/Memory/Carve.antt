-- ===== src/Memory/Carve.antt =====
-- `kmalloc` of c/mem.c where the first free block is large, as when the kernel starts.
use xeros_kernel.Base.{
  ℕ, zero, suc, ◌+◌, ◌-◌, ◌%◌, ◌*◌, ◌/◌, ◌^◌, ◌≤◌, ◌<◌, ◌≡◌, refl, ◌≢◌, ◌∙◌, sym, ap, true, false,
  arith, leb, ◌==◌, ==_of_ne, ==_refl,
}
use xeros_kernel.Kernel.Config.{
  Ptr, null, header_size, hole_start, hole_end, maxaddr, paragraph_size,
}
use xeros_kernel.Kernel.Types.{Kernel}
use xeros_kernel.Kernel.Cmd.{done, ◌>>◌, put_header, Returns, returns}
use xeros_kernel.Kernel.Access.{bind, mono, load_header-done, update_header-done}
use xeros_kernel.Memory.{
  heap_fuel, align_to_paragraph, kmeminit, split_block, take_block, kmalloc_loop, kmalloc,
}
use xeros_kernel.Memory.Alloc.{needed, Taken, take_block_lem}

-- The free list starts with the block `b` of `n` bytes, and goes on with another one above it.
pub record Roomy (b n : ℕ) (k : Kernel) : Type 0 where
  pub first : k.free_list ≡ b
  pub size : (k.header b).size ≡ n
  pub prev : (k.header b).prev ≡ null
  pub some_b : b ≢ null
  pub above : b + n ≤ (k.header b).next

-- What `kmalloc` leaves: the block `b` of `r` bytes is taken, and the list starts behind it.
pub record Carved (b r n : ℕ) (k k' : Kernel) : Type 0 where
  pub roomy : Roomy (b + r) (n - r) k'
  pub size : (k'.header b).size ≡ r
  pub mark : (k'.header b).sanity_check ≡ b + header_size
  pub next : (k'.header (b + r)).next ≡ (k.header b).next
  pub behind : k'.header (k.header b).next ≡ record (k.header (k.header b).next) { prev = b + r }
  pub elsewhere :
      (a : Ptr) → a ≢ null → a ≢ b → a ≢ b + r → a ≢ (k.header b).next → k'.header a ≡ k.header a
  pub others : k' ≡ record k { header = k'.header; free_list = k'.free_list }

-- What the split leaves.
record Split (b r n : ℕ) (k k1 : Kernel) : Type 0 where
  size : (k1.header b).size ≡ n
  prev : (k1.header b).prev ≡ null
  next : (k1.header b).next ≡ b + r
  rest_size : (k1.header (b + r)).size ≡ n - r
  rest_next : (k1.header (b + r)).next ≡ (k.header b).next
  behind : k1.header (k.header b).next ≡ record (k.header (k.header b).next) { prev = b + r }
  elsewhere : (a : Ptr) → a ≢ b → a ≢ b + r → a ≢ (k.header b).next → k1.header a ≡ k.header a
  others : k1 ≡ record k { header = k1.header }

split_block_lem :
    (b r n : ℕ) (k : Kernel)
    → Roomy b n k
    → 1 ≤ r
    → r < n
    → Returns (λ _ k1. Split b r n k k1) (split_block b r k)
unfolding split_block put_header
split_block_lem b r n k h lo hi =
    let c = (k.header b).next in
    let above : b + n ≤ (k.header b).next = h.above in
    let c_null : ((k.header b).next == null) ≡ false = ground arith in
    rw
      (
        load_header-done b k h.some_b,
        update_header-done (b + r) k (ground arith) _,
        c_null,
        update_header-done c _ (λ e. ground arith) (λ h. record h { prev = b + r }),
        update_header-done b _ h.some_b (λ h. record h { next = b + r }),
      )
      (returns (record {
        size = ground (arith, h.size);
        prev = ground (arith, h.prev);
        next = ground arith;
        rest_size = ground (arith, h.size);
        rest_next = ground arith;
        behind =
            let apart : (c == b) ≡ false = ground arith in
            let apart2 : (c == b + r) ≡ false = ground arith in rw (apart, ==_refl c, apart2) refl;
        elsewhere = λ a nb nr nc. rw (==_of_ne a b nb, ==_of_ne a c nc, ==_of_ne a (b + r) nr) refl;
        others = refl;
      }))

split_take :
    (b r n : ℕ) (k : Kernel)
    → Roomy b n k
    → 1 ≤ r
    → r < n
    → Returns
        (λ p k'. (p ≡ b + header_size) × Carved b r n k k')
        ((split_block b r >> take_block b r) k)
split_take b r n k h lo hi = bind (split_block_lem b r n k h lo hi) λ _ k1 s.
    mono
      (take_block_lem b r k1 h.some_b (λ e. omega (arith, s.next, h.some_b, e))
        (λ e. h.some_b (sym e ∙ s.prev)) (λ e. omega (arith, s.next, e))
        (λ e. omega (arith, s.next, s.prev, e)))
      λ p k' (at, t). (at, carved k1 k' s t)
  where
    kept :
        (k1 k' : Kernel)
        → Split b r n k k1
        → Taken b r k1 k'
        → (a : Ptr) → a ≢ null
        → a ≢ b
        → a ≢ b + r
        → k'.header a ≡ k1.header a
    kept k1 k' s t a na nb nr = t.others a nb (λ e. na (e ∙ s.prev)) (λ e. nr (e ∙ s.next))

    carved : (k1 k' : Kernel) → Split b r n k k1 → Taken b r k1 k' → Carved b r n k k'
    carved k1 k' s t = record {
      roomy = record {
        first = t.first ∙ rw s.prev s.next;
        size =
            sym (ap (λ a. (k'.header a).size) s.next)
            ∙ t.rest_size
            ∙ ap (λ a. (k1.header a).size) s.next
            ∙ s.rest_size;
        prev = sym (ap (λ a. (k'.header a).prev) s.next) ∙ t.behind ∙ s.prev;
        some_b = λ e. omega (arith, e, lo);
        above =
            let same : (k'.header (b + r)).next ≡ (k.header b).next =
              sym (ap (λ a. (k'.header a).next) s.next)
              ∙ t.rest_next
              ∙ ap (λ a. (k1.header a).next) s.next
              ∙ s.rest_next in
            omega (arith, same, h.above);
      };
      size = t.size;
      mark = t.mark;
      next =
          sym (ap (λ a. (k'.header a).next) s.next)
          ∙ t.rest_next
          ∙ ap (λ a. (k1.header a).next) s.next
          ∙ s.rest_next;
      behind =
          kept k1 k' s t (k.header b).next (λ e. omega (arith, e, h.above))
            (λ e. omega (arith, e, h.above)) (λ e. omega (arith, e, h.above))
          ∙ s.behind;
      elsewhere = λ a na nb nr nc. kept k1 k' s t a na nb nr ∙ s.elsewhere a nb nr nc;
      others =
          t.frame
          ∙ ap (λ (j : Kernel). record j { header = k'.header; free_list = k'.free_list }) s.others;
    }

first_fits :
    (f size b r n p : ℕ) (k : Kernel)
    → 1 ≤ f
    → p ≡ b
    → Roomy b n k
    → r < n
    → kmalloc_loop f size r p k ≡ (split_block b r >> take_block b r) k
unfolding kmalloc_loop
first_fits zero size b r n p k some_f e h hi = absurd (omega arith)
first_fits (suc f) size b r n p k some_f e h hi =
    let fits : leb r n ≡ true = ground arith in
    rw
      (
        e,
        ==_of_ne b null h.some_b,
        load_header-done b k h.some_b,
        h.size,
        fits,
        ==_of_ne r n (omega arith),
      )
      refl

some_fuel : 1 ≤ heap_fuel
unfolding heap_fuel
some_fuel = omega arith

-- If the first free block has more bytes than a positive size needs with its header, and another
-- one is above it, then `kmalloc` returns the address behind its header: the block has the bytes
-- needed and is marked as taken, the list starts with the rest of the bytes behind it, and nothing
-- else changes.
pub kmalloc-carves :
    (size b n : ℕ) (k : Kernel)
    → 0 < size
    → Roomy b n k
    → 1 ≤ needed size
    → needed size < n
    → Returns (λ p k'. (p ≡ b + header_size) × Carved b (needed size) n k k') (kmalloc size k)
unfolding kmalloc
kmalloc-carves size b n k pos_size h lo hi =
    rw
      (
        ==_of_ne size 0 (omega arith),
        first_fits heap_fuel size b (needed size) n k.free_list k some_fuel h.first h hi,
      )
      (split_take b (needed size) n k h lo hi)

-- If free memory, rounded up to a multiple of 16, starts above 0 and below the hole of the address
-- space, then `kmeminit` leaves a free list of two blocks, the bytes up to the hole and those behind
-- it, and changes nothing else.
pub kmeminit_lem :
    (k : Kernel)
    → 1 ≤ align_to_paragraph k.freemem
    → align_to_paragraph k.freemem < hole_start
    → let b = align_to_paragraph k.freemem in
      Returns
        (λ _ k'.
          Roomy b (hole_start - b) k'
          × ((k'.header b).next ≡ hole_end)
          × ((k'.header hole_end).prev ≡ b)
          × ((k'.header hole_end).next ≡ null)
          × (hole_end + (k'.header hole_end).size ≤ maxaddr)
          × (k' ≡ record k { header = k'.header; free_list = k'.free_list }))
        (kmeminit k)
unfolding kmeminit put_header
kmeminit_lem k lo hi =
    let b = align_to_paragraph k.freemem in
    rw
      (
        update_header-done b _ (λ e. omega (arith, e, lo)) _,
        update_header-done hole_end _ (λ e. omega (arith, e)) _,
        update_header-done b _ (λ e. omega (arith, e, lo)) (λ h. record h { next = hole_end }),
      )
      (regions b lo hi)
  where
    regions :
        (b : ℕ)
        → 1 ≤ b
        → b < hole_start
        → Returns
            (λ _ k'.
              Roomy b (hole_start - b) k'
              × ((k'.header b).next ≡ hole_end)
              × ((k'.header hole_end).prev ≡ b)
              × ((k'.header hole_end).next ≡ null)
              × (hole_end + (k'.header hole_end).size ≤ maxaddr)
              × (k' ≡ record k { header = k'.header; free_list = k'.free_list }))
            (done tt (
              put_header b
                (λ h. record h { next = hole_end })
                (put_header hole_end
                  (λ h. record {
                    size = (maxaddr - hole_end) / paragraph_size * paragraph_size;
                    prev = b;
                    sanity_check = null;
                    next = null;
                  })
                  (put_header b
                    (λ h. record h {
                      size = (hole_start + 2 ^ 32 - b) % 2 ^ 32;
                      sanity_check = null;
                      prev = null;
                    })
                    (record k { free_list = b })))))
    regions b some_b low =
        let apart : (b == hole_end) ≡ false = ground arith in
        let apart2 : (hole_end == b) ≡ false = ground arith in
        returns (
          record {
            first = refl;
            size = ground arith;
            prev = ground arith;
            some_b = λ e. omega (arith, e, some_b);
            above = ground arith;
          },
          ground arith,
          ground arith,
          ground arith,
          ground arith,
          refl,
        )
