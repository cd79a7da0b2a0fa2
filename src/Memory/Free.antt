-- ===== src/Memory/Free.antt =====
-- `kfree` of c/mem.c for the block that `kmalloc` took off the front of the free list.
use xeros_kernel.Base.{
  ℕ, zero, suc, ◌+◌, ◌-◌, ◌%◌, ◌^◌, ◌≤◌, ◌<◌, ◌≡◌, refl, ◌≢◌, ◌∙◌, sym, ap, true, false, arith, ltb,
  ◌==◌, ==_of_ne, ==_refl, ne_of_==, Bool-cases, inl, inr,
}
use xeros_kernel.Base.Int.{pos}
use xeros_kernel.Kernel.Config.{Ptr, null, header_size}
use xeros_kernel.Kernel.Types.{Kernel, Header}
use xeros_kernel.Kernel.Cmd.{done, ◌>>=◌, put_header, Returns, returns}
use xeros_kernel.Kernel.Access.{bind, load_header-done, update_header-done}
use xeros_kernel.Memory.{heap_fuel, coalesce_blocks, place_loop, insert_block, kmalloc, kfree}
use xeros_kernel.Memory.Alloc.{needed}
use xeros_kernel.Memory.Carve.{Roomy, Carved, kmalloc-carves}

-- A block that lies in front of the one that the walk starts at goes there.
place_front :
    (f b p q : ℕ) (k : Kernel) → 1 ≤ f → p ≡ q → b < q → place_loop f b null p k ≡ done (null, q) k
unfolding place_loop
place_front zero b p q k some_f e low = absurd (omega arith)
place_front (suc f) b p q k some_f e low =
    let stop : ltb q b ≡ false = ground arith in rw (e, stop, ==_of_ne q null (omega arith)) refl

-- A block is put before the first one.
abbrev inserted : (b q : Ptr) → Kernel → Kernel
inserted b q k =
    put_header b (λ h. record h { prev = null; next = q })
      (put_header q (λ h. record h { prev = b }) (record k { free_list = b }))

insert_front :
    (b q : Ptr) (k : Kernel)
    → b ≢ null
    → q ≢ null
    → insert_block b null q k ≡ done tt (inserted b q k)
unfolding insert_block
insert_front b q k some_b some_q =
    rw
      (
        ==_of_ne q null some_q,
        update_header-done q (record k { free_list = b }) some_q (λ h. record h { prev = b }),
        update_header-done b _ some_b (λ h. record h { prev = null; next = q }),
      )
      refl

-- The second block becomes part of the first.
abbrev joined : (a c : Ptr) → Kernel → Kernel
joined a c k =
    put_header (k.header c).next (λ h. record h { prev = a })
      (put_header a
        (λ h. record h {
          size = (c + header_size + (k.header c).size + 2 ^ 32 - (a + header_size)) % 2 ^ 32;
          next = (k.header c).next;
        })
        k)

coalesce_adjacent :
    (a c r : ℕ) (k : Kernel)
    → a ≢ null
    → c ≢ null
    → (k.header a).size ≡ r
    → c ≡ a + r
    → (k.header c).next ≢ null
    → coalesce_blocks a c k ≡ done tt (joined a c k)
unfolding coalesce_blocks
coalesce_adjacent a c r k some_a some_c size e more =
    let touch : ltb (a + header_size + r) (c + header_size) ≡ false = ground arith in
    rw
      (
        ==_of_ne a null some_a,
        ==_of_ne c null some_c,
        load_header-done a k some_a,
        load_header-done c k some_c,
        size,
        touch,
        update_header-done a k some_a _,
        ==_of_ne (k.header c).next null more,
        update_header-done (k.header c).next _ more (λ h. record h { prev = a }),
      )
      refl

-- The free list is as before, and so are the headers but for the two blocks' own marks.
pub record Restored (b n r : ℕ) (k k' : Kernel) : Type 0 where
  pub roomy : Roomy b n k'
  pub next : (k'.header b).next ≡ (k.header b).next
  pub elsewhere : (a : Ptr) → a ≢ null → a ≢ b → a ≢ b + r → k'.header a ≡ k.header a
  pub others : k' ≡ record k { header = k'.header; free_list = k'.free_list }

joined_own :
    (a c : Ptr) (k : Kernel)
    → (k.header c).next ≢ a
    → (joined a c k).header a ≡ record (k.header a) {
      size = (c + header_size + (k.header c).size + 2 ^ 32 - (a + header_size)) % 2 ^ 32;
      next = (k.header c).next;
    }
unfolding put_header
joined_own a c k ne = rw (==_of_ne a (k.header c).next (λ e. ne (sym e)), ==_refl a) refl

joined_behind :
    (a c x : Ptr) (k : Kernel)
    → x ≡ (k.header c).next
    → x ≢ a
    → (joined a c k).header x ≡ record (k.header x) { prev = a }
unfolding put_header
joined_behind a c x k e ne =
    let same : (x == (k.header c).next) ≡ true = ap (λ y. x == y) (sym e) ∙ ==_refl x in
    rw (same, sym e, ==_of_ne x a ne) refl

joined_elsewhere :
    (a c x : Ptr) (k : Kernel)
    → x ≢ (k.header c).next
    → x ≢ a
    → (joined a c k).header x ≡ k.header x
unfolding put_header
joined_elsewhere a c x k nn na = rw (==_of_ne x (k.header c).next nn, ==_of_ne x a na) refl

inserted_elsewhere :
    (b q x : Ptr) (k : Kernel) → x ≢ b → x ≢ q → (inserted b q k).header x ≡ k.header x
unfolding put_header
inserted_elsewhere b q x k nb nq = rw (==_of_ne x b nb, ==_of_ne x q nq) refl

same_prev : (h : Header) (b : Ptr) → h.prev ≡ b → record h { prev = b } ≡ h
same_prev h b e = ap (λ v. record h { prev = v }) (sym e)

-- A block of `r` bytes goes back in front of the rest, and the two are one block again.
module _ (b r n : ℕ) (k k1 : Kernel) where
  abbrev back_inserted : Kernel
  back_inserted = inserted b (b + r) k1

  inserted_next :
      Carved b r n k k1
      → 1 ≤ r
      → ((back_inserted.header (b + r)).next ≡ (k.header b).next)
        × ((back_inserted.header (b + r)).size ≡ n - r)
        × ((back_inserted.header b).size ≡ r)
        × ((back_inserted.header b).prev ≡ null)
  unfolding put_header
  inserted_next c lo =
      let apart : (b + r == b) ≡ false = ground arith in
      let apart2 : (b == b + r) ≡ false = ground arith in
      rw (apart, apart2, ==_refl (b + r), ==_refl b) (c.next, c.roomy.size, c.size, refl)

  joined-Restored :
      Roomy b n k
      → Carved b r n k k1
      → ((k.header (k.header b).next).prev ≡ b)
      → 1 ≤ r
      → r < n
      → b + n < 2 ^ 32
      → Restored b n r k (joined b (b + r) back_inserted)
  unfolding put_header
  joined-Restored h c back lo hi small =
      let (far, rest, own, front) = inserted_next c lo in
      let block =
        joined_own b (b + r) back_inserted (λ e. omega (arith, e, far, h.above, lo, hi)) in
      let next = ap (λ (g : Header). g.next) block ∙ far in
      record {
        roomy = record {
          first = refl;
          size = ap (λ (g : Header). g.size) block ∙ omega (arith, rest, small, hi);
          prev = ap (λ (g : Header). g.prev) block ∙ front;
          some_b = h.some_b;
          above = omega (arith, next, h.above);
        };
        next = next;
        elsewhere = others h c back lo hi far;
        others =
            ap
              (λ (j : Kernel). record j {
                header = (joined b (b + r) back_inserted).header;
                free_list = b;
              })
              c.others;
      }
    where
      others :
          Roomy b n k
          → Carved b r n k k1
          → ((k.header (k.header b).next).prev ≡ b)
          → 1 ≤ r
          → r < n
          → (back_inserted.header (b + r)).next ≡ (k.header b).next
          → (a : Ptr) → a ≢ null
          → a ≢ b
          → a ≢ b + r
          → (joined b (b + r) back_inserted).header a ≡ k.header a
      others h c back lo hi far a na nb nr = elim (Bool-cases (a == (k.header b).next)) [
        | inl t ↦
            let q : a ≡ (k.header b).next = ground arith in
            joined_behind b (b + r) a back_inserted (q ∙ sym far) nb
            ∙ ap (λ (g : Header). record g { prev = b }) (inserted_elsewhere b (b + r) a k1 nb nr)
            ∙ ap (λ x. record (k1.header x) { prev = b }) q
            ∙ ap (λ (g : Header). record g { prev = b }) c.behind
            ∙ same_prev (k.header (k.header b).next) b back
            ∙ ap k.header (sym q)
        | inr t ↦
            let ne : a ≢ (k.header b).next = ne_of_== a (k.header b).next t in
            joined_elsewhere b (b + r) a back_inserted (λ e. ne (e ∙ far)) nb
            ∙ inserted_elsewhere b (b + r) a k1 nb nr
            ∙ c.elsewhere a na nb nr ne
      ]

free_front :
    (b r n : ℕ) (k k1 : Kernel)
    → Roomy b n k
    → Carved b r n k k1
    → ((k.header (k.header b).next).prev ≡ b)
    → 1 ≤ r
    → r < n
    → b + n < 2 ^ 32
    → Returns (λ z k'. (z ≡ pos 1) × Restored b n r k k') (kfree (b + header_size) k1)
unfolding kfree heap_fuel coalesce_blocks
free_front b r n k k1 h c back lo hi small =
    let node : (b + header_size + 2 ^ 32 - header_size) % 2 ^ 32 ≡ b = omega (arith, small) in
    let (far, rest, own, front) = inserted_next b r n k k1 c lo in
    rw
      (
        node,
        load_header-done b k1 h.some_b,
        c.mark,
        ==_refl (b + header_size),
        place_front heap_fuel b k1.free_list (b + r) k1 (omega arith) c.roomy.first
            (omega (arith, lo)),
        insert_front b (b + r) k1 h.some_b c.roomy.some_b,
        coalesce_adjacent b (b + r) r (inserted b (b + r) k1) h.some_b c.roomy.some_b own refl
            (λ e. omega (arith, e, far, h.above, lo, hi)),
      )
      (returns (refl, joined-Restored b r n k k1 h c back lo hi small))

-- If the first free block has more bytes than a positive size needs with its header, another one is
-- above it, linked back to it, and all of the block lies in 32 bits of addresses, then `kfree` of
-- what `kmalloc` returns gives 1 and the free list is as it was: it starts with a block of the same
-- place, size and neighbours, and no header changes but those of this block and of the rest that it
-- was split from.
pub kfree-kmalloc :
    (size b n : ℕ) (k : Kernel)
    → 0 < size
    → Roomy b n k
    → (k.header (k.header b).next).prev ≡ b
    → 1 ≤ needed size
    → needed size < n
    → b + n < 2 ^ 32
    → Returns (λ z k'. (z ≡ pos 1) × Restored b n (needed size) k k') ((kmalloc size >>= kfree) k)
kfree-kmalloc size b n k some_size h back lo hi small =
    bind (kmalloc-carves size b n k some_size h lo hi)
      λ p k1 (e, c). rw e (free_front b (needed size) n k k1 h c back lo hi small)
