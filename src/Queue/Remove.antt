-- ===== src/Queue/Remove.antt =====
-- `pcb_remove` of c/pcbqueue.c on the list that a queue stands for.
use xeros_kernel.Base.{
  ℕ, zero, suc, ◌<◌, ◌≡◌, refl, ◌≢◌, ◌∙◌, sym, subst, true, false, List, [], ◌∷◌, arith, ◌==◌,
  if◌then◌else◌, length, has, remove, last_or, ◌⊎◌, inl, inr, Bool-cases, ==_of_ne, length-remove,
  remove_absent, remove-Distinct, has-remove, ==_iff,
}
use xeros_kernel.Base.Int.{pos, pos_part, ◌-ℤ◌}
use xeros_kernel.Kernel.Config.{Ptr, null}
use xeros_kernel.Kernel.Types.{QueueId, same_queue, Kernel}
use xeros_kernel.Kernel.Cmd.{done, put_pcb, put_queue, Returns, returns}
use xeros_kernel.Kernel.Access.{load-done, update-done, bind}
use xeros_kernel.Queue.{link, find_loop, pcb_remove}
use xeros_kernel.Queue.Chain.{
  Chain, pred_of, pred-has, pred-ne, Chain-remove, last_or-remove, ne_null_of_Chain,
}
use xeros_kernel.Queue.Rep.{IsQueue, Queues, put_list, IsFree, Rep, Rep-update, same_queue_refl}
use xeros_kernel.Queue.Becomes.{Queued, unchanged-Rep}
use xeros_kernel.Queue.Ends.{pcb_poll_lem}

-- Where the walk ends, if the nodes `xs` follow `z`.
abbrev found_at : Ptr → Ptr → List Ptr → Ptr × Ptr
found_at e z xs = if has e xs then (pred_of e z xs, e) else (last_or z xs, null)

find_loop_lem :
    (fuel : ℕ) (k : Kernel) (e z p : Ptr) (xs : List Ptr)
    → Chain k.pcb p xs
    → length xs < fuel
    → find_loop fuel e z p k ≡ done (found_at e z xs) k
unfolding find_loop
find_loop_lem zero k e z p xs c f = absurd (omega arith)
find_loop_lem (suc fuel) k e z p [] c f = rw c
find_loop_lem (suc fuel) k e z p (x ∷ xs) c f = elim (Bool-cases (x == e)) [
  | inl hit ↦ let t : e ≡ x = ground arith in rw (c.0, t, ==_of_ne x null c.1) (ground arith)
  | inr miss ↦
      let t : (e == x) ≡ false = ground arith in
      rw (c.0, ==_of_ne x null c.1, miss, load-done x k c.1)
        (find_loop_lem fuel k e x (k.pcb x).next xs c.2 (omega arith) ∙ passes t)
]
  where
    passes : (e == x) ≡ false → done (found_at e x xs) k ≡ done (found_at e z (x ∷ xs)) k
    passes t = ground arith

-- The state after an unlinking behind `z`.
abbrev removed_state : QueueId → (e prev : Ptr) → Kernel → Kernel
removed_state q e prev k = put_pcb e (link null) (
    put_pcb prev (link (k.pcb e).next) (
      put_queue q
        (record {
          head = (k.queue q).head;
          tail = if (k.pcb e).next == null then prev else (k.queue q).tail;
          size = (k.queue q).size -ℤ pos 1;
        })
        k))

remove-IsQueue :
    (k : Kernel) (q : QueueId) (e z : Ptr) (ys : List Ptr)
    → IsQueue k.pcb (k.queue q) (z ∷ ys)
    → has e ys ≡ true
    → IsQueue
        (removed_state q e (pred_of e z ys) k).pcb
        ((removed_state q e (pred_of e z ys) k).queue q)
        (z ∷ remove e ys)
unfolding put_pcb put_queue
remove-IsQueue k q e z ys i m = rw (same_queue_refl q) (record {
  chain =
      Chain-remove k.pcb (removed_state q e (pred_of e z ys) k).pcb (k.queue q).head e z ys i.chain
        i.distinct m (ground (arith, pred-ne e z ys i.distinct m)) (λ a n o. ground arith);
  tail = ground (arith, last_or-remove k.pcb (k.queue q).head e z ys i.chain i.distinct m);
  size = ground (arith, length-remove e ys m);
  distinct = (has-remove z e ys i.distinct.0, remove-Distinct e ys i.distinct.1);
})

removed-Queued :
    {k : Kernel} {l : Queues} (q : QueueId) (e z : Ptr) (ys : List Ptr)
    → Rep k l
    → l q ≡ z ∷ ys
    → has e ys ≡ true
    → Queued k (put_list q (z ∷ remove e ys) l) (removed_state q e (pred_of e z ys) k)
unfolding put_pcb put_queue
removed-Queued {k} {l} q e z ys is eq m = record {
  rep =
      Rep-update (removed_state q e (pred_of e z ys) k) q
        ((removed_state q e (pred_of e z ys) k).queue q) (z ∷ remove e ys) is
        (λ r. rw (same_queue_refl q)) (remove-IsQueue k q e z ys (rw eq at (is.each q)) m) keep
        from;
  same = λ a. ground arith;
  others = refl;
}
  where
    keep :
        (r : QueueId) (a : Ptr)
        → same_queue r q ≡ false
        → has a (l r) ≡ true
        → ((removed_state q e (pred_of e z ys) k).pcb a).next ≡ (k.pcb a).next
    keep r a n h =
        let out : has a (z ∷ ys) ≡ false = rw eq at (is.apart r q a n h) in
        let ne_e : a ≢ e = ground arith in
        let ne_prev : a ≢ pred_of e z ys = ground (arith, pred-has e z ys m) in ground arith

    from : (a : Ptr) → has a (z ∷ remove e ys) ≡ true → (has a (l q) ≡ true) ⊎ IsFree l a
    from a h = elim (Bool-cases (has a ys)) [
      | inl i ↦ inl (rw eq (ground arith))
      | inr o ↦ inl (rw eq (ground (arith, has-remove a e ys o)))
    ]

-- If the four queues hold the lists `l`, `pcb_remove` of any pointer `e` from queue `q` returns,
-- with TRUE exactly if `e` stands in the list of `q`; afterwards the list of `q` is the old one
-- without `e`, the other queues hold what they held, and nothing of the kernel's state changes but
-- `next` pointers and queue structs.
pub pcb_remove_lem :
    {k : Kernel} {l : Queues} (q : QueueId) (e : Ptr)
    → Rep k l
    → Returns
        (λ b k'. (b ≡ has e (l q)) × Queued k (put_list q (remove e (l q)) l) k')
        (pcb_remove q e k)
unfolding pcb_remove
pcb_remove_lem {k} {l} q e is = by_contents (l q) refl
  where
    Goal : List Ptr → Type 0
    Goal xs =
        Returns (λ b k'. (b ≡ has e xs) × Queued k (put_list q (remove e xs) l) k')
          (pcb_remove q e k)

    walk :
        (xs : List Ptr)
        → l q ≡ xs
        → find_loop (suc (pos_part (k.queue q).size)) e null (k.queue q).head k
          ≡ done (found_at e null xs) k
    walk xs eq =
        let i : IsQueue k.pcb (k.queue q) xs = rw eq at (is.each q) in
        find_loop_lem _ k e null (k.queue q).head xs i.chain (ground (arith, i.size))

    missing : (xs : List Ptr) → l q ≡ xs → has e xs ≡ false → Goal xs
    missing xs eq out =
        rw (walk xs eq, out, remove_absent e xs out)
          (returns
            (refl, record { rep = unchanged-Rep q xs is eq; same = λ a. refl; others = refl }))

    first_node : (z : Ptr) (ys : List Ptr) → l q ≡ z ∷ ys → e ≡ z → Goal (z ∷ ys)
    first_node z ys eq t =
        let hit : (e == z) ≡ true = (==_iff e z).1 t in
        let i : IsQueue k.pcb (k.queue q) (z ∷ ys) = rw eq at (is.each q) in
        let ne : e ≢ null = rw t i.chain.1 in
        let w : done (found_at e null (z ∷ ys)) k ≡ done (null, e) k = ground arith in
        let left : remove e (z ∷ ys) ≡ ys = ground arith in
        rw (walk (z ∷ ys) eq ∙ w, ==_of_ne e null ne)
          (bind (pcb_poll_lem q (z ∷ ys) is eq) λ p k' polled.
            returns (ground arith, subst (λ xs. Queued k (put_list q xs l) k') (sym left) polled.1))

    behind :
        (z : Ptr) (ys : List Ptr)
        → l q ≡ z ∷ ys
        → (e == z) ≡ false
        → has e ys ≡ true
        → Goal (z ∷ ys)
    behind z ys eq miss m =
        let i : IsQueue k.pcb (k.queue q) (z ∷ ys) = rw eq at (is.each q) in
        let ne : e ≢ null =
          ne_null_of_Chain k.pcb (k.queue q).head e (z ∷ ys) i.chain (ground arith) in
        let prev : pred_of e z ys ≢ null = ground (
          arith,
          pred-has e z ys m,
          i.chain.1,
          ne_null_of_Chain k.pcb (k.queue q).head (pred_of e z ys) (z ∷ ys) i.chain,
        ) in
        let w : done (found_at e null (z ∷ ys)) k ≡ done (pred_of e z ys, e) k = ground arith in
        let left : remove e (z ∷ ys) ≡ z ∷ remove e ys = ground arith in
        rw (walk (z ∷ ys) eq ∙ w, ==_of_ne e null ne, ==_of_ne _ null prev, load-done e k ne)
          (rw
            (
              update-done (pred_of e z ys) _ prev (link (k.pcb e).next),
              update-done e _ ne (link null),
            )
            (returns (
              ground arith,
              subst (λ xs. Queued k (put_list q xs l) (removed_state q e (pred_of e z ys) k))
                  (sym left) (removed-Queued q e z ys is eq m),
            )))

    by_contents : (xs : List Ptr) → l q ≡ xs → Goal xs
    by_contents [] eq = missing [] eq refl
    by_contents (z ∷ ys) eq = elim (Bool-cases (e == z)) [
      | inl hit ↦ first_node z ys eq ((==_iff e z).0 hit)
      | inr miss ↦ elim (Bool-cases (has e ys)) [
        | inl m ↦ behind z ys eq miss m
        | inr out ↦ missing (z ∷ ys) eq (ground arith)
      ]
    ]
