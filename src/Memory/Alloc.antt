-- ===== src/Memory/Alloc.antt =====
-- The walk of `kmalloc` of c/mem.c over the free list: first fit, and the end of the walk.
use xeros_kernel.Base.{
  ℕ, zero, suc, ◌+◌, ◌%◌, ◌^◌, ◌<◌, ◌≡◌, refl, ◌≢◌, List, [], ◌∷◌, Option, none, some, arith, leb,
  ◌==◌, if◌then◌else◌, length, Bool-cases, inl, inr, ==_of_ne,
}
use xeros_kernel.Kernel.Config.{Ptr, null, header_size}
use xeros_kernel.Kernel.Types.{Kernel, Header, log_out, no_memory}
use xeros_kernel.Kernel.Cmd.{
  Outcome, done, fault, ◌>>◌, put_header, update_header, Returns, returns,
}
use xeros_kernel.Kernel.Access.{load_header-done, update_header-done}
use xeros_kernel.Memory.{
  heap_fuel, align_to_paragraph, split_block, take_block, kmalloc_loop, kmalloc,
}

-- From `p` the `next` pointers of the headers lead through exactly these blocks to NULL.
abbrev pub Blocks : (Ptr → Header) → Ptr → List Ptr → Type 0
Blocks h p [] = p ≡ null
Blocks h p (b ∷ bs) = (p ≡ b) × (b ≢ null) × Blocks h (h b).next bs

abbrev pub first_fit : (Ptr → Header) → (required : ℕ) → List Ptr → Option Ptr
first_fit h required [] = none
first_fit h required (b ∷ bs) = if leb required (h b).size then some b else first_fit h required bs

-- What happens with the block that was found.
abbrev pub allocate : (size required : ℕ) → Option Ptr → Kernel → Outcome Ptr
allocate size required none k =
    done null (record k { console = log_out (no_memory size) ∷ k.console })
allocate size required (some b) k =
    if required == (k.header b).size
    then take_block b required k
    else (split_block b required >> take_block b required) k

pub kmalloc_loop_lem :
    (fuel size required : ℕ) (bs : List Ptr) (p : Ptr) (k : Kernel)
    → Blocks k.header p bs
    → length bs < fuel
    → kmalloc_loop fuel size required p k
      ≡ allocate size required (first_fit k.header required bs) k
unfolding kmalloc_loop
kmalloc_loop_lem zero size required bs p k c f = absurd (omega arith)
kmalloc_loop_lem (suc fuel) size required [] p k c f = rw c
kmalloc_loop_lem (suc fuel) size required (b ∷ bs) p k c f =
    rw (c.0, ==_of_ne b null c.1, load_header-done b k c.1)
      (elim (Bool-cases (leb required (k.header b).size)) [
        | inl fits ↦
            rw fits
              (elim (Bool-cases (required == (k.header b).size)) [ inl e ↦ rw e | inr e ↦ rw e ])
        | inr small ↦
            rw small (kmalloc_loop_lem fuel size required bs (k.header b).next k c.2 (omega arith))
      ])

-- The bytes that a block for `size` bytes takes.
abbrev pub needed : ℕ → ℕ
needed size = (align_to_paragraph size + header_size) % 2 ^ 32

-- For a positive size and a free list of fewer than 2 ^ 18 blocks, the walk of `kmalloc` ends.
pub kmalloc-walk :
    (size : ℕ) (bs : List Ptr) (k : Kernel)
    → 0 < size
    → Blocks k.header k.free_list bs
    → length bs < heap_fuel
    → kmalloc size k ≡ allocate size (needed size) (first_fit k.header (needed size) bs) k
unfolding kmalloc
kmalloc-walk size bs k h c f =
    rw (==_of_ne size 0 (omega arith))
      (kmalloc_loop_lem heap_fuel size (needed size) bs k.free_list k c f)

update_header-null : (f : Header → Header) (k : Kernel) → update_header null f k ≡ fault
unfolding update_header
update_header-null f k = refl

-- If a non-NULL block is the last of the free list, its unlinking in `kmalloc`, when it is taken
-- whole, writes through NULL.
pub take_block-last :
    (b required : ℕ) (k : Kernel)
    → b ≢ null
    → (k.header b).next ≡ null
    → take_block b required k ≡ fault
unfolding take_block
take_block-last b required k ne last =
    rw (load_header-done b k ne) (elim (Bool-cases ((k.header b).prev == null)) [
      | inl first ↦ rw (first, update_header-done b _ ne _, last, update_header-null) refl
      | inr later ↦
          rw
            (
              later,
              update_header-done (k.header b).prev _ (ground arith) _,
              update_header-done b _ ne _,
              last,
              update_header-null,
            )
            refl
    ])

-- A block that is not the last is unlinked from both neighbours and marked as taken.
pub record Taken (b required : ℕ) (k k' : Kernel) : Type 0 where
  pub first : k'.free_list ≡ (if (k.header b).prev == null then (k.header b).next else k.free_list)
  pub before : (k.header b).prev ≢ null → (k'.header (k.header b).prev).next ≡ (k.header b).next
  pub before_kept :
      k'.header (k.header b).prev
      ≡ record (k.header (k.header b).prev) { next = (k'.header (k.header b).prev).next }
  pub behind : (k'.header (k.header b).next).prev ≡ (k.header b).prev
  pub size : (k'.header b).size ≡ required
  pub mark : (k'.header b).sanity_check ≡ b + header_size
  pub rest_size : (k'.header (k.header b).next).size ≡ (k.header (k.header b).next).size
  pub rest_next : (k'.header (k.header b).next).next ≡ (k.header (k.header b).next).next
  pub frame : k' ≡ record k { header = k'.header; free_list = k'.free_list }
  pub others :
      (a : Ptr) → a ≢ b → a ≢ (k.header b).prev → a ≢ (k.header b).next → k'.header a ≡ k.header a

-- If a non-NULL block is not the last of the free list, and it and its neighbours are distinct, the
-- unlinking of `kmalloc` returns the address behind the block's header; the neighbours are linked
-- to each other, or the list starts at the next block if there is none before, the block has the
-- required size and is marked as taken, and no other header changes.
pub take_block_lem :
    (b required : ℕ) (k : Kernel)
    → b ≢ null
    → (k.header b).next ≢ null
    → (k.header b).prev ≢ b
    → (k.header b).next ≢ b
    → (k.header b).next ≢ (k.header b).prev
    → Returns (λ p k'. (p ≡ b + header_size) × Taken b required k k') (take_block b required k)
unfolding take_block put_header
take_block_lem b required k ne more pb nb np =
    rw (load_header-done b k ne) (elim (Bool-cases ((k.header b).prev == null)) [
      | inl first ↦
          rw
            (
              first,
              update_header-done b _ ne _,
              update_header-done (k.header b).next _ more _,
              update_header-done b _ ne _,
            )
            (returns (
              refl,
              record {
                first = rw first;
                before = λ z. ground arith;
                before_kept = ground arith;
                behind = ground arith;
                size = ground arith;
                mark = ground arith;
                rest_size = ground arith;
                rest_next = ground arith;
                frame = refl;
                others = λ a x y z. ground arith;
              },
            ))
      | inr later ↦
          rw
            (
              later,
              update_header-done (k.header b).prev _ (ground arith) _,
              update_header-done b _ ne _,
              update_header-done (k.header b).next _ more _,
              update_header-done b _ ne _,
            )
            (returns (
              refl,
              record {
                first = rw later;
                before = λ z. ground arith;
                before_kept = ground arith;
                behind = ground arith;
                size = ground arith;
                mark = ground arith;
                rest_size = ground arith;
                rest_next = ground arith;
                frame = refl;
                others = λ a x y z. ground arith;
              },
            ))
    ])
