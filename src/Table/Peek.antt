-- ===== src/Table/Peek.antt =====
-- `peek_next_sender` and `peek_any_receiver` of c/pcb.c: they turn the blocked queue round once.
use mathlib.Core.List.{append-nil, append_assoc}
use xeros_kernel.Base.{
  ◌≡◌, refl, ◌∙◌, sym, ap, Bool, ◌&&◌, List, [], ◌∷◌, ◌++◌, arith, ◌==◌, if◌then◌else◌, length, inl,
  inr, Bool-cases,
}
use xeros_kernel.Base.Int.{pos_part}
use xeros_kernel.Kernel.Config.{Ptr, null}
use xeros_kernel.Kernel.Types.{Pcb, Kernel, QueueId, same_queue, blocked_queue}
use xeros_kernel.Kernel.Cmd.{Returns, returns}
use xeros_kernel.Kernel.Access.{load-done, bind, mono}
use xeros_kernel.Queue.{pcb_size}
use xeros_kernel.Queue.Chain.{Chain, Store}
use xeros_kernel.Queue.Rep.{
  Queues, put_list, IsFree, Rep, IsQueue, unlinked, same_queue_sym, eq_of_same_queue,
}
use xeros_kernel.Queue.Becomes.{Queued, compose, relist, unchanged-Rep, put_list_twice}
use xeros_kernel.Queue.Ends.{pcb_poll_lem, pcb_offer_lem}
use xeros_kernel.Table.{is_send, peek_loop, peek_next_sender, peek_any_receiver}

-- The first entry of the list whose control block passes the test, NULL if there is none.
unfoldable pub first_with : (Pcb → Bool) → Store → List Ptr → Ptr
first_with test h [] = null
first_with test h (x ∷ xs) = if test (h x) then x else first_with test h xs

-- The accumulator of the loop.
pick : (Pcb → Bool) → Store → Ptr → List Ptr → Ptr
pick test h r [] = r
pick test h r (x ∷ xs) = pick test h (if r == null && test (h x) then x else r) xs

-- A node just polled stands in no queue.
pub polled-IsFree :
    {k : Kernel} {l : Queues} (q : QueueId) (x : Ptr) (xs : List Ptr)
    → Rep k l
    → l q ≡ x ∷ xs
    → IsFree (put_list q xs l) x
polled-IsFree {k} {l} q x xs is e r = elim (Bool-cases (same_queue r q)) [
  | inl s ↦ let i : IsQueue k.pcb (k.queue q) (x ∷ xs) = rw e at (is.each q) in rw s i.distinct.0
  | inr s ↦ rw s (is.apart q r x (same_queue_sym q r ∙ s) (rw e (ground arith)))
]

module _ (test : Pcb → Bool) (blind : (p : Pcb) → test p ≡ test (unlinked p)) where
  test_same : (h g : Store) (x : Ptr) → unlinked (g x) ≡ unlinked (h x) → test (g x) ≡ test (h x)
  test_same h g x e = blind (g x) ∙ ap test e ∙ sym (blind (h x))

  pick_same :
      (h g : Store) (r : Ptr) (xs : List Ptr)
      → ((a : Ptr) → unlinked (g a) ≡ unlinked (h a))
      → pick test g r xs ≡ pick test h r xs
  unfolding pick
  pick_same h g r [] e = refl
  pick_same h g r (x ∷ xs) e =
      rw (test_same h g x (e x)) (pick_same h g (if r == null && test (h x) then x else r) xs e)

  peek_loop_lem :
      (xs : List Ptr) {k : Kernel} {l : Queues} (r : Ptr) (ys : List Ptr)
      → Rep k l
      → l blocked_queue ≡ xs ++ ys
      → Returns
          (λ p k'. (p ≡ pick test k.pcb r xs) × Queued k (put_list blocked_queue (ys ++ xs) l) k')
          (peek_loop test (length xs) r k)
  unfolding peek_loop pick
  peek_loop_lem [] {k} {l} r ys is e = returns (
    refl,
    record {
      rep = unchanged-Rep blocked_queue (ys ++ []) is (e ∙ sym (append-nil ys));
      same = λ a. refl;
      others = refl;
    },
  )
  peek_loop_lem (x ∷ xs) {k} {l} r ys is e =
      let i : IsQueue k.pcb (k.queue blocked_queue) (x ∷ (xs ++ ys)) =
        rw e at (is.each blocked_queue) in
      bind (pcb_poll_lem blocked_queue (x ∷ (xs ++ ys)) is e) λ p k1 (eq, b1).
        rw (eq, load-done x k1 i.chain.1, test_same k.pcb k1.pcb x (b1.same x))
          (bind
            (pcb_offer_lem blocked_queue x b1.rep i.chain.1
              (polled-IsFree blocked_queue x (xs ++ ys) is e))
            λ u k2 b2.
              mono (peek_loop_lem xs _ (ys ++ (x ∷ [])) b2.rep (append_assoc xs ys (x ∷ [])))
                λ p' k3 (pe, b3). (
                  pe ∙ pick_same k.pcb k2.pcb _ xs (λ a. b2.same a ∙ b1.same a),
                  relist (compose (compose b1 b2) b3) (lists _ _),
                ))
    where
      lists :
          (cs bs : List Ptr) (q : QueueId)
          → put_list blocked_queue
              ((ys ++ (x ∷ [])) ++ xs)
              (put_list blocked_queue cs (put_list blocked_queue bs l))
              q
            ≡ put_list blocked_queue (ys ++ (x ∷ xs)) l q
      lists cs bs q =
          put_list_twice blocked_queue ((ys ++ (x ∷ [])) ++ xs) cs (put_list blocked_queue bs l) q
          ∙ put_list_twice blocked_queue ((ys ++ (x ∷ [])) ++ xs) bs l q
          ∙ ap (λ (zs : List Ptr). put_list blocked_queue zs l q) (append_assoc ys (x ∷ []) xs)

  pick_eq_first_with :
      (h : Store) (r : Ptr) (xs : List Ptr)
      → (p : Ptr) → Chain h p xs
      → pick test h r xs ≡ (if r == null then first_with test h xs else r)
  unfolding pick first_with
  pick_eq_first_with h r [] p c = ground arith
  pick_eq_first_with h r (x ∷ xs) p c = ground (
    arith,
    pick_eq_first_with h (if r == null && test (h x) then x else r) xs (h x).next c.2,
    c.1,
  )

  pub peek_blocked :
      {k : Kernel} {l : Queues}
      → Rep k l
      → Returns
          (λ p k'. (p ≡ first_with test k.pcb (l blocked_queue)) × Queued k l k')
          (peek_loop test (pos_part (k.queue blocked_queue).size) null k)
  peek_blocked {k} {l} is =
      let i : IsQueue k.pcb (k.queue blocked_queue) (l blocked_queue) = is.each blocked_queue in
      rw i.size (
        mono (peek_loop_lem (l blocked_queue) null [] is (sym (append-nil (l blocked_queue))))
          λ p k' (e, b). (
            e
                ∙ pick_eq_first_with k.pcb null (l blocked_queue) (k.queue blocked_queue).head
                    i.chain,
            relist b same_lists,
          ))
    where
      same_lists : (q : QueueId) → put_list blocked_queue (l blocked_queue) l q ≡ l q
      same_lists q = elim (Bool-cases (same_queue q blocked_queue)) [
        | inl e ↦ rw e (ap l (sym (eq_of_same_queue q blocked_queue e)))
        | inr e ↦ rw e
      ]

-- If the queues are well formed, `peek_next_sender` returns the first blocked process that waits in
-- a send, or NULL, and leaves every queue in its order and all else as it was.
pub peek_next_sender_lem :
    {k : Kernel} {l : Queues}
    → Rep k l
    → Returns
        (λ p k'.
          (p ≡ first_with (λ e. is_send e.blocked_status) k.pcb (l blocked_queue)) × Queued k l k')
        (peek_next_sender k)
unfolding peek_next_sender pcb_size
peek_next_sender_lem is = peek_blocked (λ e. is_send e.blocked_status) (λ p. refl) is

-- If the queues are well formed, `peek_any_receiver` returns the first blocked process whose
-- `blocked_id` is 0, whatever it waits for, or NULL, and leaves every queue in its order and all
-- else as it was.
pub peek_any_receiver_lem :
    {k : Kernel} {l : Queues}
    → Rep k l
    → Returns
        (λ p k'. (p ≡ first_with (λ e. e.blocked_id == 0) k.pcb (l blocked_queue)) × Queued k l k')
        (peek_any_receiver k)
unfolding peek_any_receiver pcb_size
peek_any_receiver_lem is = peek_blocked (λ e. e.blocked_id == 0) (λ p. refl) is
