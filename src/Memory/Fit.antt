-- ===== src/Memory/Fit.antt =====
-- `kmalloc` of c/mem.c at any place of the free list: what it makes of the first block that is large
-- enough.
use xeros_kernel.Base.{
  ℕ, ◌+◌, ◌-◌, ◌<◌, ◌≡◌, refl, ◌≢◌, ◌∙◌, sym, ap, List, some, none, ◌∷◌, arith, ◌==◌, if◌then◌else◌,
  length, Bool-cases, inl, inr, ==_of_ne, ◌⊎◌, ==_refl,
}
use xeros_kernel.Kernel.Config.{Ptr, null, header_size}
use xeros_kernel.Kernel.Types.{Kernel, Header, log_out, no_memory}
use xeros_kernel.Kernel.Cmd.{done, fault, Returns, returns, put_header, ◌>>◌}
use xeros_kernel.Kernel.Access.{load_header-done, update_header-done, bind, mono}
use xeros_kernel.Memory.{heap_fuel, split_block, take_block, kmalloc}
use xeros_kernel.Memory.Alloc.{
  Blocks, first_fit, needed, kmalloc-walk, Taken, take_block_lem, take_block-last,
}

-- The block is divided and both parts are still in the list.
record Cut (b n : ℕ) (k k' : Kernel) : Type 0 where
  pub next : (k'.header b).next ≡ b + n
  pub prev : (k'.header b).prev ≡ (k.header b).prev
  pub rest_size : (k'.header (b + n)).size ≡ (k.header b).size - n
  pub rest_next : (k'.header (b + n)).next ≡ (k.header b).next
  pub behind :
      (k.header b).next ≢ null
      → k'.header (k.header b).next ≡ record (k.header (k.header b).next) { prev = b + n }
  pub same_list : k'.free_list ≡ k.free_list
  pub frame : k' ≡ record k { header = k'.header }
  pub others : (a : Ptr) → a ≢ b → a ≢ b + n → a ≢ (k.header b).next → k'.header a ≡ k.header a

split_block_lem :
    (b n : ℕ) (k : Kernel)
    → b ≢ null
    → 0 < n
    → (k.header b).next ≢ b
    → (k.header b).next ≢ b + n
    → Returns (λ _ k'. Cut b n k k') (split_block b n k)
unfolding split_block put_header
split_block_lem b n k ne pos_n nb nr =
    rw (load_header-done b k ne, update_header-done (b + n) k (omega arith) _)
      (elim (Bool-cases ((k.header b).next == null)) [
        | inl last ↦
            rw (last, update_header-done b _ ne _)
              (returns (record {
                next = ground arith;
                prev = ground arith;
                rest_size = ground arith;
                rest_next = ground arith;
                behind = λ z. ground arith;
                same_list = refl;
                frame = refl;
                others = λ a x y z. ground arith;
              }))
        | inr more ↦
            rw
              (
                more,
                update_header-done (k.header b).next _ (ground arith) _,
                update_header-done b _ ne _,
              )
              (returns (record {
                next = ground arith;
                prev = ground arith;
                rest_size = ground arith;
                rest_next = ground arith;
                behind = λ z. ground arith;
                same_list = refl;
                frame = refl;
                others = λ a x y z. ground arith;
              }))
      ])

-- The front of a block is taken, and what is left stands in the list in its place.
pub record Divided (b n : ℕ) (k k' : Kernel) : Type 0 where
  pub size : (k'.header b).size ≡ n
  pub mark : (k'.header b).sanity_check ≡ b + header_size
  pub rest_size : (k'.header (b + n)).size ≡ (k.header b).size - n
  pub rest_prev : (k'.header (b + n)).prev ≡ (k.header b).prev
  pub rest_next : (k'.header (b + n)).next ≡ (k.header b).next
  pub first : k'.free_list ≡ (if (k.header b).prev == null then b + n else k.free_list)
  pub before :
      (k.header b).prev ≢ null
      → k'.header (k.header b).prev ≡ record (k.header (k.header b).prev) { next = b + n }
  pub behind :
      (k.header b).next ≢ null
      → k'.header (k.header b).next ≡ record (k.header (k.header b).next) { prev = b + n }
  pub frame : k' ≡ record k { header = k'.header; free_list = k'.free_list }
  pub others :
      (a : Ptr)
      → a ≢ b
      → a ≢ b + n
      → a ≢ (k.header b).prev
      → a ≢ (k.header b).next
      → k'.header a ≡ k.header a

above : (b n : ℕ) {x : ℕ} → (x ≡ null) ⊎ (b + n < x) → x ≢ null → b + n < x
above b n high more = elim high [ inl e ↦ absurd (more e) | inr h ↦ h ]

-- A front that was cut off and then taken.
Divided-Cut :
    {k k1 k2 : Kernel} (b n : ℕ)
    → b ≢ null
    → 0 < n
    → (k.header b).prev < b
    → ((k.header b).next ≡ null) ⊎ (b + n < (k.header b).next)
    → Cut b n k k1
    → Taken b n k1 k2
    → Divided b n k k2
Divided-Cut {k} {k1} {k2} b n ne pos_n low high c t = record {
  size = t.size;
  mark = t.mark;
  rest_size = size ∙ c.rest_size;
  rest_prev = prev;
  rest_next = next ∙ c.rest_next;
  first = rw (c.prev, c.next, c.same_list) at t.first;
  before = λ some_before.
      let away : (k.header b).prev ≢ (k.header b).next = elim high [
        | inl e ↦ λ same. some_before (same ∙ e)
        | inr h ↦ λ same. omega (arith, low, h, same)
      ] in
      let kept = c.others (k.header b).prev (omega (arith, low)) (omega (arith, low)) away in
      before ∙ rw (linked some_before, kept) refl;
  behind = λ some_behind.
      let more = above b n high some_behind in
      others (k.header b).next (omega (arith, more)) (omega (arith, more))
        (omega (arith, more, low))
      ∙ c.behind some_behind;
  frame =
      t.frame
      ∙ ap {A = Kernel} (λ q. record q { header = k2.header; free_list = k2.free_list }) c.frame;
  others = λ a x y z w. others a x y z ∙ c.others a x y w;
}
  where
    size : (k2.header (b + n)).size ≡ (k1.header (b + n)).size
    size = rw c.next at t.rest_size

    next : (k2.header (b + n)).next ≡ (k1.header (b + n)).next
    next = rw c.next at t.rest_next

    prev : (k2.header (b + n)).prev ≡ (k.header b).prev
    prev = rw (c.next, c.prev) at t.behind

    before :
        k2.header (k.header b).prev
        ≡ record (k1.header (k.header b).prev) { next = (k2.header (k.header b).prev).next }
    before = rw c.prev at t.before_kept

    linked : (k.header b).prev ≢ null → (k2.header (k.header b).prev).next ≡ b + n
    linked = rw (c.prev, c.next) at t.before

    others : (a : Ptr) → a ≢ b → a ≢ b + n → a ≢ (k.header b).prev → k2.header a ≡ k1.header a
    others a x y z = (rw (c.prev, c.next) at (t.others a)) x z y

divides :
    (b n : ℕ) {k : Kernel}
    → b ≢ null
    → 0 < n
    → (k.header b).prev < b
    → ((k.header b).next ≡ null) ⊎ (b + n < (k.header b).next)
    → Returns
        (λ p k'. (p ≡ b + header_size) × Divided b n k k')
        ((split_block b n >> take_block b n) k)
divides b n {k} ne pos_n low high = bind (split_block_lem b n k ne pos_n away.0 away.1) λ u k1 c.
    mono
      (take_block_lem b n k1 ne (rw c.next (omega arith)) (rw c.prev (omega (arith, low)))
        (rw c.next (omega arith)) (rw (c.next, c.prev) (omega (arith, low))))
      λ p k2 (e, t). (e, Divided-Cut b n ne pos_n low high c t)
  where
    away : ((k.header b).next ≢ b) × ((k.header b).next ≢ b + n)
    away = elim high [
      | inl e ↦ rw e (omega arith, omega arith)
      | inr h ↦ (omega (arith, h), omega (arith, h))
    ]

-- The block and what will be left of it lie between its neighbours.
abbrev pub Placed : (Ptr → Header) → (b n : ℕ) → Type 0
Placed h b n = (b ≢ null) × ((h b).prev < b) × (((h b).next ≡ null) ⊎ (b + n < (h b).next))

-- For a positive size, and a free list of fewer than 2 ^ 18 blocks that ends in NULL, `kmalloc`
-- with `n` for the bytes needed (which have not wrapped to 0) does first fit. Let the first block
-- `b` that has `n` bytes, if there is one, not be NULL, its `prev` be below it and its `next`, if
-- any, above `b + n`. If no block has `n` bytes, the result is NULL and only a message is logged.
-- If `b` is larger, the result is `b + 16`: `b` has `n` bytes and is marked as taken, the rest of
-- its bytes is a block at `b + n` that stands in its place between its neighbours, or first in the
-- list, and no other header changes. If `b` has just `n` bytes and is not the last, the result is
-- `b + 16`, `b` is marked as taken, and its neighbours are linked to each other; if it is the last,
-- `kmalloc` writes through NULL.
pub kmalloc_lem :
    (size : ℕ) (bs : List Ptr) (k : Kernel)
    → 0 < size
    → 0 < needed size
    → Blocks k.header k.free_list bs
    → length bs < heap_fuel
    → ((b : Ptr) → first_fit k.header (needed size) bs ≡ some b → Placed k.header b (needed size))
    → (first_fit k.header (needed size) bs ≡ none
        → kmalloc size k ≡ done null (record k { console = log_out (no_memory size) ∷ k.console }))
      × ((b : Ptr)
          → first_fit k.header (needed size) bs ≡ some b
          → ((k.header b).size ≢ needed size
              → Returns
                  (λ p k'. (p ≡ b + header_size) × Divided b (needed size) k k')
                  (kmalloc size k))
            × ((k.header b).size ≡ needed size
                → (k.header b).next ≢ null
                → Returns
                    (λ p k'. (p ≡ b + header_size) × Taken b (needed size) k k')
                    (kmalloc size k))
            × ((k.header b).size ≡ needed size → (k.header b).next ≡ null → kmalloc size k ≡ fault))
kmalloc_lem size bs k some_size some_need blocks fuel placed =
    let walk = kmalloc-walk size bs k some_size blocks fuel in
    (
      λ e. rw (walk, e) refl,
      λ b e.
          let (ne, low, high) = placed b e in
          (
            λ differs.
                rw (walk, e, ==_of_ne (needed size) (k.header b).size (λ q. differs (sym q)))
                  (divides b (needed size) ne some_need low high),
            λ same more.
                let far = above b (needed size) high more in
                rw (walk, e, same, ==_refl (needed size))
                  (take_block_lem b (needed size) k ne more (omega (arith, low))
                    (omega (arith, far)) (omega (arith, low, far))),
            λ same last.
                rw (walk, e, same, ==_refl (needed size))
                  (take_block-last b (needed size) k ne last),
          ),
    )
