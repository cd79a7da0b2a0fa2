-- ===== src/Queue/Ends.antt =====
-- `pcb_poll`, `pcb_peek` and `pcb_offer` against first-in first-out lists.
use xeros_kernel.Base.{
  ◌≡◌, refl, ◌≢◌, sym, ap, true, false, List, [], ◌∷◌, ◌++◌, arith, ◌==◌, if◌then◌else◌, has,
  last_or, ◌⊎◌, inl, inr, Bool-cases, length-append, append-Distinct, last_or-append, has-append,
  ==_of_ne,
}
use xeros_kernel.Base.Int.{pos, ◌+ℤ◌, ◌-ℤ◌}
use xeros_kernel.Kernel.Config.{Ptr, null}
use xeros_kernel.Kernel.Types.{PcbQueue, QueueId, same_queue, Kernel}
use xeros_kernel.Kernel.Cmd.{put_pcb, put_queue, Returns, returns}
use xeros_kernel.Kernel.Access.{load-done, update-done}
use xeros_kernel.Queue.{link, pcb_poll, pcb_offer}
use xeros_kernel.Queue.Chain.{Store, frame, Chain-append, has-last_or, ne_null_of_Chain}
use xeros_kernel.Queue.Becomes.{Queued, unchanged-Rep}
use xeros_kernel.Queue.Rep.{IsQueue, Queues, put_list, IsFree, Rep, Rep-update, same_queue_refl}

-- The first entry, NULL of an empty list.
abbrev pub first : List Ptr → Ptr
first [] = null
first (x ∷ xs) = x

abbrev pub rest : List Ptr → List Ptr
rest [] = []
rest (x ∷ xs) = xs

poll-IsQueue :
    (h : Store) (s : PcbQueue) (x : Ptr) (xs : List Ptr)
    → IsQueue h s (x ∷ xs)
    → IsQueue
        (λ a. if a == x then link null (h x) else h a)
        (record {
          head = (h x).next;
          tail = if (h x).next == null then null else s.tail;
          size = s.size -ℤ pos 1;
        })
        xs
poll-IsQueue h s x [] is = ground arith
poll-IsQueue h s x (y ∷ ys) is = record {
  chain =
      frame h (λ a. if a == x then link null (h x) else h a) (h x).next (y ∷ ys)
        (λ a m. ground arith) is.chain.2;
  tail = ground arith;
  size = ground arith;
  distinct = is.distinct.1;
}

-- The state that `pcb_poll` leaves when the queue's first node is `x`.
abbrev polled_state : QueueId → Ptr → Kernel → Kernel
polled_state q x k = put_pcb x (link null) (
    put_queue q
      (record {
        head = (k.pcb x).next;
        tail = if (k.pcb x).next == null then null else (k.queue q).tail;
        size = (k.queue q).size -ℤ pos 1;
      })
      k)

polled :
    {k : Kernel} {l : Queues} (q : QueueId) (x : Ptr) (xs : List Ptr)
    → Rep k l
    → l q ≡ x ∷ xs
    → IsQueue k.pcb (k.queue q) (x ∷ xs)
    → Queued k (put_list q xs l) (polled_state q x k)
unfolding put_pcb put_queue
polled {k} {l} q x xs is e i = record {
  rep =
      Rep-update (polled_state q x k) q _ xs is (λ r. refl) (poll-IsQueue k.pcb (k.queue q) x xs i)
        (λ r a n h. keep r a n h) (λ a h. inl (rw e (ground arith)));
  same = λ a. ground arith;
  others = refl;
}
  where
    keep :
        (r : QueueId) (a : Ptr)
        → same_queue r q ≡ false
        → has a (l r) ≡ true
        → ((polled_state q x k).pcb a).next ≡ (k.pcb a).next
    keep r a n h = elim (Bool-cases (a == x)) [
      | inl s ↦ cc (is.apart r q a n h, ap (has a) e, s)
      | inr s ↦ rw s
    ]

-- If the four queues hold the lists `l`, `pcb_poll` returns the first node of queue `q`, or NULL if
-- the queue is empty, and leaves the rest of that list in the queue; the other queues hold what
-- they held, and nothing changes but `next` pointers and queue structs.
pub pcb_poll_lem :
    {k : Kernel} {l : Queues} (q : QueueId) (xs : List Ptr)
    → Rep k l
    → l q ≡ xs
    → Returns (λ p k'. (p ≡ first xs) × Queued k (put_list q (rest xs) l) k') (pcb_poll q k)
unfolding pcb_poll
pcb_poll_lem {k} {l} q [] is e =
    let i : IsQueue k.pcb (k.queue q) [] = rw e at (is.each q) in
    rw i.chain
      (returns (refl, record { rep = unchanged-Rep q [] is e; same = λ a. refl; others = refl }))
pcb_poll_lem {k} {l} q (x ∷ xs) is e =
    let i : IsQueue k.pcb (k.queue q) (x ∷ xs) = rw e at (is.each q) in
    rw (i.chain.0, ==_of_ne x null i.chain.1, load-done x k i.chain.1)
      (rw (update-done x _ i.chain.1 (link null)) (returns (refl, polled q x xs is e i)))

-- The two states that `pcb_offer` leaves: on an empty queue, and behind the last node.
abbrev offered_first : QueueId → Ptr → Kernel → Kernel
offered_first q e k =
    put_pcb e (link null)
      (put_queue q (record { head = e; tail = e; size = (k.queue q).size +ℤ pos 1 }) k)

abbrev offered_last : QueueId → Ptr → Ptr → Kernel → Kernel
offered_last q e t k = put_pcb e (link null) (
    put_queue q (record { head = (k.queue q).head; tail = e; size = (k.queue q).size +ℤ pos 1 })
      (put_pcb t (link e) k))

offer_first-IsQueue :
    (k : Kernel) (q : QueueId) (e : Ptr)
    → IsQueue k.pcb (k.queue q) []
    → e ≢ null
    → IsQueue (offered_first q e k).pcb ((offered_first q e k).queue q) (e ∷ [])
unfolding put_pcb put_queue
offer_first-IsQueue k q e i ne = rw (same_queue_refl q) (record {
  chain = (refl, ne, ground arith);
  tail = refl;
  size = ground arith;
  distinct = (refl, tt);
})

offer_last-IsQueue :
    (k : Kernel) (q : QueueId) (e x : Ptr) (xs : List Ptr)
    → IsQueue k.pcb (k.queue q) (x ∷ xs)
    → e ≢ null
    → has e (x ∷ xs) ≡ false
    → IsQueue
        (offered_last q e (last_or x xs) k).pcb
        ((offered_last q e (last_or x xs) k).queue q)
        ((x ∷ xs) ++ (e ∷ []))
unfolding put_pcb put_queue
offer_last-IsQueue k q e x xs i ne out = rw (same_queue_refl q) (record {
  chain =
      Chain-append k.pcb (offered_last q e (last_or x xs) k).pcb (k.queue q).head e x xs i.chain
        i.distinct out ne (ground arith) (ground (arith, has-last_or x xs)) (λ a n m. ground arith);
  tail = sym (last_or-append x xs e);
  size = ground (arith, length-append (x ∷ xs) (e ∷ []));
  distinct = append-Distinct (x ∷ xs) e i.distinct out;
})

module _ {k : Kernel} {l : Queues} (q : QueueId) (e : Ptr) (is : Rep k l) (ne : e ≢ null)
    (free : IsFree l e) where
  offered_first-Queued : l q ≡ [] → Queued k (put_list q (e ∷ []) l) (offered_first q e k)
  unfolding put_pcb put_queue
  offered_first-Queued eq = record {
    rep =
        Rep-update (offered_first q e k) q ((offered_first q e k).queue q) (e ∷ []) is queues
          (offer_first-IsQueue k q e (rw eq at (is.each q)) ne) (λ r a n h. keep r a h)
          (λ a h. inr (rw (only a h) free));
    same = λ a. ground arith;
    others = refl;
  }
    where
      queues :
          (r : QueueId)
          → (offered_first q e k).queue r
            ≡ (if same_queue r q then (offered_first q e k).queue q else k.queue r)
      queues r = rw (same_queue_refl q)

      keep :
          (r : QueueId) (a : Ptr)
          → has a (l r) ≡ true
          → ((offered_first q e k).pcb a).next ≡ (k.pcb a).next
      keep r a h = elim (Bool-cases (a == e)) [
        | inl s ↦ let t : a ≡ e = ground arith in cc (free r, t)
        | inr s ↦ rw s
      ]

      only : (a : Ptr) → has a (e ∷ []) ≡ true → a ≡ e
      only a h = ground arith

  offered_last-Queued :
      (x : Ptr) (xs : List Ptr)
      → l q ≡ x ∷ xs
      → Queued k (put_list q ((x ∷ xs) ++ (e ∷ [])) l) (offered_last q e (last_or x xs) k)
  unfolding put_pcb put_queue
  offered_last-Queued x xs eq = record {
    rep =
        Rep-update (offered_last q e (last_or x xs) k) q
          ((offered_last q e (last_or x xs) k).queue q) ((x ∷ xs) ++ (e ∷ [])) is queues
          (offer_last-IsQueue k q e x xs (rw eq at (is.each q)) ne (rw eq at (free q))) keep from;
    same = λ a. ground arith;
    others = refl;
  }
    where
      queues :
          (r : QueueId)
          → (offered_last q e (last_or x xs) k).queue r
            ≡ (if same_queue r q then (offered_last q e (last_or x xs) k).queue q else k.queue r)
      queues r = rw (same_queue_refl q)

      keep :
          (r : QueueId) (a : Ptr)
          → same_queue r q ≡ false
          → has a (l r) ≡ true
          → ((offered_last q e (last_or x xs) k).pcb a).next ≡ (k.pcb a).next
      keep r a n h =
          let ne_e : a ≢ e = λ t. cc (free r, t) in
          let ne_last : a ≢ last_or x xs =
            λ t. cc (is.apart r q a n h, ap (has a) eq, has-last_or x xs, t) in
          ground arith

      from : (a : Ptr) → has a ((x ∷ xs) ++ (e ∷ [])) ≡ true → (has a (l q) ≡ true) ⊎ IsFree l a
      from a h = elim (Bool-cases (a == e)) [
        | inl s ↦ let t : a ≡ e = ground arith in inr (rw t free)
        | inr s ↦ inl (rw eq (ground (arith, has-append a (x ∷ xs) (e ∷ []))))
      ]

-- If the four queues hold the lists `l` and the non-NULL pointer `e` stands in none of them,
-- `pcb_offer` returns and puts `e` at the end of queue `q`; the other queues hold what they held,
-- and nothing changes but `next` pointers and queue structs.
pub pcb_offer_lem :
    {k : Kernel} {l : Queues} (q : QueueId) (e : Ptr)
    → Rep k l
    → e ≢ null
    → IsFree l e
    → Returns (λ _ k'. Queued k (put_list q (l q ++ (e ∷ [])) l) k') (pcb_offer q e k)
unfolding pcb_offer
pcb_offer_lem {k} {l} q e is ne free = by_contents (l q) refl
  where
    by_contents :
        (xs : List Ptr)
        → l q ≡ xs
        → Returns (λ _ k'. Queued k (put_list q (l q ++ (e ∷ [])) l) k') (pcb_offer q e k)
    by_contents [] eq =
        let i : IsQueue k.pcb (k.queue q) [] = rw eq at (is.each q) in
        rw (i.chain, eq, update-done e _ ne (link null))
          (returns (offered_first-Queued q e is ne free eq))
    by_contents (x ∷ xs) eq =
        let i : IsQueue k.pcb (k.queue q) (x ∷ xs) = rw eq at (is.each q) in
        let there : last_or x xs ≢ null =
          ne_null_of_Chain k.pcb (k.queue q).head _ (x ∷ xs) i.chain (has-last_or x xs) in
        rw
          (
            ==_of_ne (k.queue q).head null (rw i.chain.0 i.chain.1),
            eq,
            i.tail,
            update-done (last_or x xs) k there (link e),
            update-done e _ ne (link null),
          )
          (returns (offered_last-Queued q e is ne free x xs eq))
