-- ===== src/Sleep/Insert.antt =====
-- `insert_before` of c/sleep.c links the new entry in front of another one of the sleep queue.
use xeros_kernel.Base.{
  ℕ, suc, ◌≡◌, refl, ◌≢◌, ◌∙◌, sym, ap, true, false, ◌||◌, List, [], ◌∷◌, ◌++◌, arith, ◌==◌,
  if◌then◌else◌, Bool-cases, ◌⊎◌, inl, inr, length, has, Distinct, last_or, has-append, ==_of_ne,
  ==_refl,
}
use xeros_kernel.Base.Int.{pos, ◌+ℤ◌}
use xeros_kernel.Kernel.Config.{Ptr, null}
use xeros_kernel.Kernel.Types.{PcbQueue, Kernel, QueueId, same_queue, sleep_queue}
use xeros_kernel.Kernel.Cmd.{put_pcb, put_queue, Returns, returns}
use xeros_kernel.Kernel.Access.{load-done, update-done}
use xeros_kernel.Queue.{link}
use xeros_kernel.Queue.Chain.{Store, Chain, frame, has-last_or, ne_null_of_Chain}
use xeros_kernel.Queue.Ends.{first}
use xeros_kernel.Queue.Rep.{IsQueue, Queues, put_list, IsFree, Rep, unlinked, Rep-update}
use xeros_kernel.Queue.Becomes.{Becomes, edit}
use xeros_kernel.Sleep.{take_ret, insert_before}

Chain-first : (h : Store) (p : Ptr) (xs : List Ptr) → Chain h p xs → p ≡ first xs
Chain-first h p [] c = c
Chain-first h p (x ∷ xs) c = c.0

-- Linking a fresh node behind the nodes `z ∷ ys`.
Chain-insert_after :
    (h g : Store) (p e z : Ptr) (ys zs : List Ptr)
    → Chain h p (z ∷ (ys ++ zs))
    → Distinct (z ∷ (ys ++ zs))
    → has e (z ∷ (ys ++ zs)) ≡ false
    → e ≢ null
    → (g e).next ≡ first zs
    → (g (last_or z ys)).next ≡ e
    → ((a : Ptr) → a ≢ e → a ≢ last_or z ys → (g a).next ≡ (h a).next)
    → Chain g p (z ∷ (ys ++ (e ∷ zs)))
Chain-insert_after h g p e z [] zs c d out ne ge gl same = (
  c.0,
  c.1,
  rw gl (
    refl,
    ne,
    rw (ge, sym (Chain-first h (h z).next zs c.2))
        (frame h g (h z).next zs (λ a m. same a (ground arith) (ground arith)) c.2),
  ),
)
Chain-insert_after h g p e z (y ∷ ys) zs c d out ne ge gl same =
    let not_last : z ≢ last_or y ys =
      ground (arith, has-last_or y ys, has-append (last_or y ys) (y ∷ ys) zs, d.0) in
    let keep : (g z).next ≡ (h z).next = same z (ground arith) not_last in
    (
      c.0,
      c.1,
      rw keep (Chain-insert_after h g (h z).next e y ys zs c.2 d.1 (ground arith) ne ge gl same),
    )

-- In front of the first node, or behind others.
Chain-insert :
    (h g : Store) (p e : Ptr) (ys zs : List Ptr)
    → Chain h p (ys ++ zs)
    → Distinct (ys ++ zs)
    → has e (ys ++ zs) ≡ false
    → e ≢ null
    → (g e).next ≡ first zs
    → (last_or null ys ≢ null → (g (last_or null ys)).next ≡ e)
    → ((a : Ptr) → a ≢ e → a ≢ last_or null ys → (g a).next ≡ (h a).next)
    → ((a : Ptr) → has a (ys ++ zs) ≡ true → a ≢ null)
    → Chain g (if last_or null ys == null then e else p) (ys ++ (e ∷ zs))
Chain-insert h g p e [] zs c d out ne ge gl same some = (
  refl,
  ne,
  rw (ge, sym (Chain-first h p zs c)) (frame h g p zs (λ a m. same a (ground arith) (some a m)) c),
)
Chain-insert h g p e (z ∷ ys) zs c d out ne ge gl same some =
    rw (==_of_ne (last_or z ys) null (some _ last))
      (Chain-insert_after h g p e z ys zs c d out ne ge (gl (some _ last)) same)
  where
    last : has (last_or z ys) (z ∷ (ys ++ zs)) ≡ true
    last =
        has-append (last_or z ys) (z ∷ ys) zs
        ∙ ap (λ b. b || has (last_or z ys) zs) (has-last_or z ys)

has-insert :
    (a e : Ptr) (ys zs : List Ptr) → has a (ys ++ (e ∷ zs)) ≡ ((a == e) || has a (ys ++ zs))
has-insert a e [] zs = refl
has-insert a e (y ∷ ys) zs = ground (arith, has-insert a e ys zs)

insert-Distinct :
    (e : Ptr) (ys zs : List Ptr)
    → Distinct (ys ++ zs)
    → has e (ys ++ zs) ≡ false
    → Distinct (ys ++ (e ∷ zs))
insert-Distinct e [] zs d out = (out, d)
insert-Distinct e (y ∷ ys) zs d out =
    (ground (arith, has-insert y e ys zs, d.0), insert-Distinct e ys zs d.1 (ground arith))

last_or-insert :
    (n e : Ptr) (ys : List Ptr) (c : Ptr) (cs : List Ptr)
    → last_or n (ys ++ (e ∷ c ∷ cs)) ≡ last_or n (ys ++ (c ∷ cs))
last_or-insert n e [] c cs = refl
last_or-insert n e (y ∷ ys) c cs = last_or-insert y e ys c cs

length-insert : (e : Ptr) (ys zs : List Ptr) → length (ys ++ (e ∷ zs)) ≡ suc (length (ys ++ zs))
length-insert e [] zs = refl
length-insert e (y ∷ ys) zs = ap suc (length-insert e ys zs)

has-last : (ys : List Ptr) → last_or null ys ≢ null → has (last_or null ys) ys ≡ true
has-last [] h = absurd (h refl)
has-last (y ∷ ys) h = has-last_or y ys

module _ {k : Kernel} {l : Queues} (entry : Ptr) (m : ℕ) (ys : List Ptr) (c : Ptr) (cs : List Ptr)
    (is : Rep k l) (e : l sleep_queue ≡ ys ++ (c ∷ cs)) (ne : entry ≢ null)
    (free : IsFree l entry) where
  abbrev longer : PcbQueue
  longer = record {
    head = if last_or null ys == null then entry else (k.queue sleep_queue).head;
    tail = (k.queue sleep_queue).tail;
    size = (k.queue sleep_queue).size +ℤ pos 1;
  }

  inserted :
      (k' : Kernel)
      → ((r : QueueId) → k'.queue r ≡ (if same_queue r sleep_queue then longer else k.queue r))
      → (k'.pcb entry).next ≡ c
      → (last_or null ys ≢ null → (k'.pcb (last_or null ys)).next ≡ entry)
      → ((a : Ptr) → a ≢ entry → a ≢ last_or null ys → (k'.pcb a).next ≡ (k.pcb a).next)
      → Rep k' (put_list sleep_queue (ys ++ (entry ∷ c ∷ cs)) l)
  inserted k' queues at_entry at_last same =
      Rep-update k' sleep_queue longer (ys ++ (entry ∷ c ∷ cs)) is queues
        (record {
          chain =
              Chain-insert k.pcb k'.pcb (k.queue sleep_queue).head entry ys (c ∷ cs) i.chain
                i.distinct out ne at_entry at_last same
                (λ a h.
                  ne_null_of_Chain k.pcb (k.queue sleep_queue).head a (ys ++ (c ∷ cs)) i.chain h);
          tail = i.tail ∙ sym (last_or-insert null entry ys c cs);
          size = rw (i.size, length-insert entry ys (c ∷ cs)) (ground arith);
          distinct = insert-Distinct entry ys (c ∷ cs) i.distinct out;
        })
        (λ r a other h. same a (not_entry r a h) (not_last r a other h)) from
    where
      i : IsQueue k.pcb (k.queue sleep_queue) (ys ++ (c ∷ cs))
      i = rw e at (is.each sleep_queue)

      out : has entry (ys ++ (c ∷ cs)) ≡ false
      out = rw e at (free sleep_queue)

      differ : true ≡ false → ⊥
      differ q = cc

      not_entry : (r : QueueId) (a : Ptr) → has a (l r) ≡ true → a ≢ entry
      not_entry r a h q = differ (sym h ∙ ap (λ b. has b (l r)) q ∙ free r)

      not_last :
          (r : QueueId) (a : Ptr)
          → same_queue r sleep_queue ≡ false
          → has a (l r) ≡ true
          → a ≢ last_or null ys
      not_last r a other h q =
          let j : IsQueue k.pcb (k.queue r) (l r) = is.each r in
          let some : a ≢ null = ne_null_of_Chain k.pcb (k.queue r).head a (l r) j.chain h in
          let last : has a ys ≡ true = ap (λ b. has b ys) q ∙ has-last ys (λ z. some (q ∙ z)) in
          differ (
            sym (ap (has a) e ∙ has-append a ys (c ∷ cs) ∙ ap (λ b. b || has a (c ∷ cs)) last)
            ∙ is.apart r sleep_queue a other h)

      from :
          (a : Ptr)
          → has a (ys ++ (entry ∷ c ∷ cs)) ≡ true
          → (has a (l sleep_queue) ≡ true) ⊎ IsFree l a
      from a h = elim (Bool-cases (a == entry)) [
        | inl s ↦ let t : a ≡ entry = ground arith in inr (rw t free)
        | inr s ↦ inl (rw e (ground (arith, has-insert a entry ys (c ∷ cs))))
      ]

-- The entry stands between the two parts of the queue, and the one behind it waits that much less.
pub insert_before_lem :
    {k : Kernel} {l : Queues} (entry : Ptr) (m : ℕ) (ys : List Ptr) (c : Ptr) (cs : List Ptr)
    → Rep k l
    → l sleep_queue ≡ ys ++ (c ∷ cs)
    → entry ≢ null
    → IsFree l entry
    → (k.pcb entry).ret ≡ pos m
    → Returns
        (λ _ k'.
          Becomes k
            (edit c (take_ret (pos m)) k.pcb)
            (put_list sleep_queue (ys ++ (entry ∷ c ∷ cs)) l)
            k')
        (insert_before entry (last_or null ys) c k)
unfolding insert_before put_pcb put_queue
insert_before_lem {k} {l} entry m ys c cs is e ne free ticks =
    rw (load-done entry k ne, ticks, update-done c k nc _, update-done entry _ ne _)
      (elim (Bool-cases (last_or null ys == null)) [
        | inl none ↦ rw none (
            returns (record {
              rep =
                  inserted entry m ys c cs is e ne free _ (first_queue none) entry_next
                    (λ z. absurd (z (ground arith))) (λ a x y. next_same a x);
              same = first_same;
              others = refl;
            }))
        | inr some ↦
            rw (some, update-done (last_or null ys) _ (ground arith) _)
              (returns (record {
                rep =
                    inserted entry m ys c cs is e ne free _ (later_queue some)
                      (rw (==_of_ne entry (last_or null ys) (apart some)) entry_next)
                      (λ z. rw (==_refl (last_or null ys)) refl)
                      (λ a x y. rw (==_of_ne a (last_or null ys) y) (next_same a x));
                same = λ a. elim (Bool-cases (a == last_or null ys)) [
                  | inl t ↦
                      let q : a ≡ last_or null ys = ground arith in
                      rw (q, ==_refl (last_or null ys)) (first_same (last_or null ys))
                  | inr t ↦ rw t (first_same a)
                ];
                others = refl;
              }))
      ])
  where
    i : IsQueue k.pcb (k.queue sleep_queue) (ys ++ (c ∷ cs))
    i = rw e at (is.each sleep_queue)

    nc : c ≢ null
    nc =
        ne_null_of_Chain k.pcb (k.queue sleep_queue).head c (ys ++ (c ∷ cs)) i.chain
          (has-append c ys (c ∷ cs) ∙ ground arith)

    linked : Kernel
    linked = put_pcb entry (link c) (put_pcb c (take_ret (pos m)) k)

    differ : true ≡ false → ⊥
    differ q = cc

    out : has entry (ys ++ (c ∷ cs)) ≡ false
    out = rw e at (free sleep_queue)

    entry_c : entry ≢ c
    entry_c q = differ (
        sym (has-append c ys (c ∷ cs) ∙ ground arith)
        ∙ ap (λ b. has b (ys ++ (c ∷ cs))) (sym q)
        ∙ out)

    apart : (last_or null ys == null) ≡ false → entry ≢ last_or null ys
    apart some q = differ (
        sym (
          has-append entry ys (c ∷ cs)
          ∙ ap (λ b. b || has entry (c ∷ cs)) (ap (λ b. has b ys) q ∙ has-last ys (ground arith)))
        ∙ out)

    entry_next : (linked.pcb entry).next ≡ c
    entry_next = rw (==_refl entry) refl

    next_same : (a : Ptr) → a ≢ entry → (linked.pcb a).next ≡ (k.pcb a).next
    next_same a x = rw (==_of_ne a entry x) (elim (Bool-cases (a == c)) [
      | inl t ↦ let q : a ≡ c = ground arith in rw (q, ==_refl c) refl
      | inr t ↦ rw t refl
    ])

    first_same : (a : Ptr) → unlinked (linked.pcb a) ≡ unlinked (edit c (take_ret (pos m)) k.pcb a)
    first_same a = elim (Bool-cases (a == entry)) [
      | inl t ↦
          let q : a ≡ entry = ground arith in rw (q, ==_refl entry, ==_of_ne entry c entry_c) refl
      | inr t ↦ rw t refl
    ]

    first_queue :
        (last_or null ys == null) ≡ true
        → (r : QueueId)
        → (if same_queue r sleep_queue
            then record {
              head = entry;
              tail = (k.queue sleep_queue).tail;
              size = (k.queue sleep_queue).size +ℤ pos 1;
            }
            else if same_queue r sleep_queue
            then record (k.queue sleep_queue) { size = (k.queue sleep_queue).size +ℤ pos 1 }
            else k.queue r)
          ≡ (if same_queue r sleep_queue then longer entry m ys c cs is e ne free else k.queue r)
    first_queue none r =
        rw none
          (elim (Bool-cases (same_queue r sleep_queue)) [ inl t ↦ rw t refl | inr t ↦ rw t refl ])

    later_queue :
        (last_or null ys == null) ≡ false
        → (r : QueueId)
        → (if same_queue r sleep_queue
            then record (k.queue sleep_queue) { size = (k.queue sleep_queue).size +ℤ pos 1 }
            else k.queue r)
          ≡ (if same_queue r sleep_queue then longer entry m ys c cs is e ne free else k.queue r)
    later_queue some r = rw some refl
