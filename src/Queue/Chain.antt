-- ===== src/Queue/Chain.antt =====
-- Chains of `next` pointers in a store, and how writes to `next` change the list that they hold.
use xeros_kernel.Base.{
  ◌≡◌, refl, ◌≢◌, ◌⊎◌, true, false, List, [], ◌∷◌, ◌++◌, arith, ◌==◌, if◌then◌else◌, Bool-cases,
  has, Distinct, remove, last_or, inl, inr, ==_iff,
}
use xeros_kernel.Kernel.Config.{Ptr, null}
use xeros_kernel.Kernel.Types.{Pcb}

abbrev pub Store : Type 0
Store = Ptr → Pcb

-- From `p` the `next` pointers lead through exactly the nodes of the list to NULL.
abbrev pub Chain : Store → Ptr → List Ptr → Type 0
Chain h p [] = p ≡ null
Chain h p (x ∷ xs) = (p ≡ x) × (x ≢ null) × Chain h (h x).next xs

-- The entry in front of `e`, if the list follows `z`.
abbrev pub pred_of : Ptr → Ptr → List Ptr → Ptr
pred_of e z [] = z
pred_of e z (y ∷ ys) = elim (e == y) [ true ↦ z | false ↦ pred_of e y ys ]

-- A chain survives any change that spares the `next` pointers of its own nodes.
pub frame :
    (h g : Store) (p : Ptr) (xs : List Ptr)
    → ((a : Ptr) → has a xs ≡ true → (g a).next ≡ (h a).next)
    → Chain h p xs
    → Chain g p xs
frame h g p [] same c = c
frame h g p (x ∷ xs) same c =
    let e : (g x).next ≡ (h x).next = same x (ground arith) in
    (c.0, c.1, rw e (frame h g (h x).next xs (λ a i. same a (ground arith)) c.2))

-- Linking a fresh node behind the last one appends it.
pub Chain-append :
    (h g : Store) (p e x : Ptr) (xs : List Ptr)
    → Chain h p (x ∷ xs)
    → Distinct (x ∷ xs)
    → has e (x ∷ xs) ≡ false
    → e ≢ null
    → (g e).next ≡ null
    → (g (last_or x xs)).next ≡ e
    → ((a : Ptr) → a ≢ e → a ≢ last_or x xs → (g a).next ≡ (h a).next)
    → Chain g p ((x ∷ xs) ++ (e ∷ []))
Chain-append h g p e x [] c d n ne ge gl same = (c.0, c.1, (gl, ne, ge))
Chain-append h g p e x (y ∷ ys) c d n ne ge gl same =
    (c.0, c.1, rw keep (Chain-append h g (h x).next e y ys c.2 d.1 (ground arith) ne ge gl same))
  where
    not_last : has x (y ∷ ys) ≡ false → x ≢ last_or y ys
    not_last = go y ys
      where
        go : (y : Ptr) (ys : List Ptr) → has x (y ∷ ys) ≡ false → x ≢ last_or y ys
        go y [] out = ground arith
        go y (z ∷ zs) out = go z zs (ground arith)

    keep : (g x).next ≡ (h x).next
    keep = same x (ground arith) (not_last d.0)

-- The predecessor of a member stands in the list that follows, or is `z`.
pub pred-has :
    (e z : Ptr) (ys : List Ptr)
    → has e ys ≡ true
    → (pred_of e z ys ≡ z) ⊎ (has (pred_of e z ys) ys ≡ true)
pred-has e z [] h = inl refl
pred-has e z (y ∷ ys) h = ground (arith, pred-has e y ys)

-- Unlinking a member that is not the first.
pub Chain-remove :
    (h g : Store) (p e z : Ptr) (ys : List Ptr)
    → Chain h p (z ∷ ys)
    → Distinct (z ∷ ys)
    → has e ys ≡ true
    → (g (pred_of e z ys)).next ≡ (h e).next
    → ((a : Ptr) → a ≢ e → a ≢ pred_of e z ys → (g a).next ≡ (h a).next)
    → Chain g p (z ∷ remove e ys)
Chain-remove h g p e z [] c d i gp same = absurd (cc)
Chain-remove h g p e z (y ∷ ys) c d i gp same = elim (Bool-cases (e == y)) [
  | inl hit ↦
      rw hit (at_head (rw (hit, pred_of) at gp) (rw (hit, pred_of) at same) ((==_iff e y).0 hit))
  | inr miss ↦ rw miss (
      behind (rw (miss, pred_of) at same) (ground arith) (
        Chain-remove h g (h z).next e y ys c.2 d.1 (ground arith) (rw (miss, pred_of) at gp)
          (rw (miss, pred_of) at same)))
]
  where
    at_head :
        (g z).next ≡ (h e).next
        → ((a : Ptr) → a ≢ e → a ≢ z → (g a).next ≡ (h a).next)
        → e ≡ y
        → Chain g p (z ∷ ys)
    at_head gp' same' eq = (
      c.0,
      c.1,
      rw (gp', eq) (frame h g (h y).next ys (λ a m. same' a (ground arith) (ground arith)) c.2.2),
    )

    behind :
        ((a : Ptr) → a ≢ e → a ≢ pred_of e y ys → (g a).next ≡ (h a).next)
        → has e ys ≡ true
        → Chain g (h z).next (y ∷ remove e ys)
        → Chain g p (z ∷ y ∷ remove e ys)
    behind same' m rest =
        let keep : (g z).next ≡ (h z).next =
          same' z (ground arith) (ground (arith, pred-has e y ys m)) in
        (c.0, c.1, rw keep rest)

-- The successor of a member is NULL exactly if the member is last.
pub last_or-remove :
    (h : Store) (p e z : Ptr) (ys : List Ptr)
    → Chain h p (z ∷ ys)
    → Distinct (z ∷ ys)
    → has e ys ≡ true
    → last_or z (remove e ys) ≡ (if (h e).next == null then pred_of e z ys else last_or z ys)
last_or-remove h p e z [] c d i = absurd (cc)
last_or-remove h p e z (y ∷ []) c d i = ground arith
last_or-remove h p e z (y ∷ w ∷ ws) c d i =
    ground (arith, last_or-remove h (h z).next e y (w ∷ ws) c.2 d.1)

pub ne_null_of_Chain :
    (h : Store) (p a : Ptr) (xs : List Ptr) → Chain h p xs → has a xs ≡ true → a ≢ null
ne_null_of_Chain h p a [] c m = cc
ne_null_of_Chain h p a (x ∷ xs) c m = ground (arith, ne_null_of_Chain h (h x).next a xs c.2)

pub has-last_or : (x : Ptr) (xs : List Ptr) → has (last_or x xs) (x ∷ xs) ≡ true
has-last_or x [] = ground arith
has-last_or x (y ∷ ys) = ground (arith, has-last_or y ys)

pub pred-ne : (e z : Ptr) (ys : List Ptr) → Distinct (z ∷ ys) → has e ys ≡ true → pred_of e z ys ≢ e
pred-ne e z [] d m = cc
pred-ne e z (y ∷ ys) d m = ground (arith, pred-ne e y ys d.1)
