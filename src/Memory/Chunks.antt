-- ===== src/Memory/Chunks.antt =====
-- Several calls of `kmalloc` of c/mem.c, one after the other, at the front of a large first block.
use xeros_kernel.Base.{
  ℕ, ◌+◌, ◌-◌, ◌≤◌, ◌<◌, ◌≡◌, ◌≢◌, ◌∙◌, sym, ap, subst, true, false, arith, leb, ltb, ◌&&◌,
}
use xeros_kernel.Kernel.Config.{Ptr, null, header_size}
use xeros_kernel.Kernel.Types.{Kernel, Header}
use xeros_kernel.Kernel.Cmd.{Returns}
use xeros_kernel.Kernel.Access.{mono}
use xeros_kernel.Memory.{kmalloc}
use xeros_kernel.Memory.Alloc.{needed}
use xeros_kernel.Memory.Carve.{Roomy, Carved, kmalloc-carves}

-- The first `c` of the `n` bytes at `b` are given out, and no header outside of these `n` changes but
-- that of the block behind, which is linked back.
pub record Chunked (b c n : ℕ) (k k' : Kernel) : Type 0 where
  pub roomy : Roomy (b + c) (n - c) k'
  pub next : (k'.header (b + c)).next ≡ (k.header b).next
  pub elsewhere :
      (a : Ptr)
      → a ≢ null
      → (leb b a && ltb a (b + n)) ≡ false
      → a ≢ (k.header b).next
      → k'.header a ≡ k.header a

pub Carved-Chunked : (b r n : ℕ) (k k' : Kernel) → r < n → Carved b r n k k' → Chunked b r n k k'
Carved-Chunked b r n k k' hi c = record {
  roomy = c.roomy;
  next = c.next;
  elsewhere =
      λ a na out nc. c.elsewhere a na (λ e. differ (ground arith)) (λ e. differ (ground arith)) nc;
}
  where
    differ : true ≡ false → ⊥
    differ e = cc

pub Chunked-append :
    (b c d n : ℕ) (k k1 k2 : Kernel)
    → Chunked b c n k k1
    → Chunked (b + c) d (n - c) k1 k2
    → c ≤ n
    → Chunked b (c + d) n k k2
Chunked-append b c d n k k1 k2 s t small = record {
  roomy =
      subst (λ q. Roomy q (n - (c + d)) k2) (omega arith)
        (subst (λ q. Roomy (b + c + d) q k2) (omega arith) t.roomy);
  next = ap (λ a. (k2.header a).next) (omega arith) ∙ t.next ∙ s.next;
  elsewhere = λ a na out nc.
      t.elsewhere a na (ground arith) (λ e. nc (e ∙ s.next)) ∙ s.elsewhere a na out nc;
}

-- Only the headers and the start of the list count.
pub Chunked-heap :
    (b c n : ℕ) {j k k' : Kernel}
    → k'.header ≡ k.header
    → k'.free_list ≡ k.free_list
    → Chunked b c n j k
    → Chunked b c n j k'
Chunked-heap b c n {j} {k} {k'} h f s = record {
  roomy = record {
    first = f ∙ s.roomy.first;
    size = ap (λ (g : Ptr → Header). (g (b + c)).size) h ∙ s.roomy.size;
    prev = ap (λ (g : Ptr → Header). (g (b + c)).prev) h ∙ s.roomy.prev;
    some_b = s.roomy.some_b;
    above = subst (λ (g : Ptr → Header). b + c + (n - c) ≤ (g (b + c)).next) (sym h) s.roomy.above;
  };
  next = ap (λ (g : Ptr → Header). (g (b + c)).next) h ∙ s.next;
  elsewhere = λ a na out nc. ap (λ (g : Ptr → Header). g a) h ∙ s.elsewhere a na out nc;
}

-- `kmalloc` of a few bytes takes 32.
pub kmalloc-chunk :
    (size b n : ℕ) (k : Kernel)
    → 0 < size
    → needed size ≡ 32
    → Roomy b n k
    → 32 < n
    → Returns
        (λ p k'.
          (p ≡ b + header_size)
          × Chunked b 32 n k k'
          × (k' ≡ record k { header = k'.header; free_list = k'.free_list }))
        (kmalloc size k)
kmalloc-chunk size b n k some_size e roomy room =
    mono (kmalloc-carves size b n k some_size roomy (omega (arith, e)) (omega (arith, e, room)))
      λ p k' (at, c). (at, Carved-Chunked b 32 n k k' room (rw e at c), c.others)
