-- ===== src/Sleep/Wake.antt =====
-- The loop of `tick` of c/sleep.c: which sleeping processes it wakes.
use mathlib.Core.List.{append-nil, append_assoc}
use xeros_kernel.Base.{
  ℕ, zero, suc, ◌<◌, ◌≡◌, refl, ◌≢◌, ◌∙◌, sym, ap, List, [], ◌∷◌, ◌++◌, arith, ◌==◌, if◌then◌else◌,
  Bool-cases, inl, inr, length, ==_of_ne, ==_refl, remove,
}
use xeros_kernel.Base.Int.{pos, leb_ℤ}
use xeros_kernel.Kernel.Config.{Ptr, null}
use xeros_kernel.Kernel.Types.{Pcb, PcbQueue, Kernel, QueueId, ready_queue, sleep_queue}
use xeros_kernel.Kernel.Cmd.{Returns, returns}
use xeros_kernel.Kernel.Access.{load-done, bind, mono}
use xeros_kernel.Queue.{pcb_peek}
use xeros_kernel.Queue.Chain.{Store}
use xeros_kernel.Queue.Rep.{IsQueue, Queues, put_list, Rep, unlinked}
use xeros_kernel.Queue.Becomes.{Becomes, Queued, edit, relist, compose_with, compose_edit}
use xeros_kernel.Queue.Ends.{first}
use xeros_kernel.Queue.Remove.{pcb_remove_lem}
use xeros_kernel.Table.Moves.{readied, add_pcb_to_ready_queue_lem}
use xeros_kernel.Table.Peek.{polled-IsFree}
use xeros_kernel.Sleep.{wake, wake_loop, remove_pcb_from_sleep_queue, peek_pcb_from_sleep_queue}

-- The leading entries that have no ticks left, and those from the first that has.
unfoldable pub due : Store → List Ptr → List Ptr
due h [] = []
due h (x ∷ xs) = if leb_ℤ (h x).ret (pos 0) then x ∷ due h xs else []

unfoldable pub asleep_still : Store → List Ptr → List Ptr
asleep_still h [] = []
asleep_still h (x ∷ xs) = if leb_ℤ (h x).ret (pos 0) then asleep_still h xs else x ∷ xs

-- All entries of a list are made ready.
abbrev pub ready_all : List Ptr → Store → Store
ready_all [] h = h
ready_all (x ∷ xs) h = ready_all xs (edit x readied h)

pub due-asleep : (h : Store) (xs : List Ptr) → due h xs ++ asleep_still h xs ≡ xs
unfolding due asleep_still
due-asleep h [] = refl
due-asleep h (x ∷ xs) = elim (Bool-cases (leb_ℤ (h x).ret (pos 0))) [
  | inl e ↦ rw e (ap (λ ys. x ∷ ys) (due-asleep h xs))
  | inr e ↦ rw e refl
]

-- Only the ticks count.
due_same :
    (g h : Store) (xs : List Ptr)
    → ((a : Ptr) → (g a).ret ≡ (h a).ret)
    → (due g xs ≡ due h xs) × (asleep_still g xs ≡ asleep_still h xs)
unfolding due asleep_still
due_same g h [] same = (refl, refl)
due_same g h (x ∷ xs) same = let (a, b) = due_same g h xs same in rw (same x, a, b) (refl, refl)

-- Taking the first of a sleep queue and making it ready.
abbrev woken : Ptr → List Ptr → Queues → Queues
woken x xs l = put_list ready_queue (l ready_queue ++ (x ∷ [])) (put_list sleep_queue xs l)

-- A write keeps the fields that it does not name.
pub edit_keeps {ℓ} :
    {A : Type ℓ} (φ : Pcb → A) (f : Pcb → Pcb)
    → ((p : Pcb) → φ (f p) ≡ φ p)
    → (x a : Ptr) (h : Store) → φ (edit x f h a) ≡ φ (h a)
edit_keeps φ f same x a h = elim (Bool-cases (a == x)) [
  | inl e ↦ let q : a ≡ x = ground arith in rw (q, ==_refl x) (same (h x))
  | inr e ↦ rw e refl
]

pub ready_all_keeps {ℓ} :
    {A : Type ℓ} (φ : Pcb → A)
    → ((p : Pcb) → φ (readied p) ≡ φ p)
    → (xs : List Ptr) (a : Ptr) (h : Store) → φ (ready_all xs h a) ≡ φ (h a)
ready_all_keeps φ same [] a h = refl
ready_all_keeps φ same (x ∷ xs) a h =
    ready_all_keeps φ same xs a (edit x readied h) ∙ edit_keeps φ readied same x a h

same_ret : (p q : Pcb) → unlinked p ≡ unlinked q → p.ret ≡ q.ret
same_ret p q e = ap (λ (r : Pcb). r.ret) e

ready_all_blind :
    (xs : List Ptr) (g h : Store) (a : Ptr)
    → ((b : Ptr) → unlinked (g b) ≡ unlinked (h b))
    → unlinked (ready_all xs g a) ≡ unlinked (ready_all xs h a)
ready_all_blind [] g h a e = e a
ready_all_blind (x ∷ xs) g h a e = ready_all_blind xs (edit x readied g) (edit x readied h) a each
  where
    each : (b : Ptr) → unlinked (edit x readied g b) ≡ unlinked (edit x readied h b)
    each b = elim (Bool-cases (b == x)) [
      | inl t ↦ rw t (ap (λ p. readied p) (e x))
      | inr t ↦ rw t (e b)
    ]

remove_self : (x : Ptr) (xs : List Ptr) → remove x (x ∷ xs) ≡ xs
remove_self x xs = rw (remove, ==_refl x) refl

-- Describing the contents again.
pub stays :
    {k : Kernel} {l : Queues} (xs : List Ptr)
    → Rep k l
    → l sleep_queue ≡ xs
    → Queued k (put_list ready_queue (l ready_queue ++ []) (put_list sleep_queue xs l)) k
stays {k} {l} xs is e = relist idle again
  where
    idle : Queued k l k
    idle = record { rep = is; same = λ a. refl; others = refl }

    again :
        (r : QueueId)
        → l r ≡ put_list ready_queue (l ready_queue ++ []) (put_list sleep_queue xs l) r
    again QueueId.stopped_queue = refl
    again QueueId.ready_queue = sym (append-nil (l ready_queue))
    again QueueId.blocked_queue = refl
    again QueueId.sleep_queue = e

module _ {k : Kernel} {l : Queues} (x : Ptr) (xs : List Ptr) (is : Rep k l)
    (e : l sleep_queue ≡ x ∷ xs) where
  pub sleepers : IsQueue k.pcb (k.queue sleep_queue) (x ∷ xs)
  sleepers = rw e at (is.each sleep_queue)

  wake_lem : Returns (λ _ k'. Becomes k (edit x readied k.pcb) (woken x xs l) k') (wake x k)
  unfolding wake remove_pcb_from_sleep_queue
  wake_lem = bind (pcb_remove_lem sleep_queue x is) λ b k1 (eq, b1).
      let b2 : Queued k (put_list sleep_queue xs l) k1 =
        relist b1
          (λ r. ap (λ ys. put_list sleep_queue ys l r) (ap (remove x) e ∙ remove_self x xs)) in
      mono
        (add_pcb_to_ready_queue_lem x b2.rep sleepers.chain.1 (polled-IsFree sleep_queue x xs is e))
        λ _ k2 b3. compose_edit x readied (λ p. refl) b2 b3

head-first : (h : Store) (s : PcbQueue) (xs : List Ptr) → IsQueue h s xs → s.head ≡ first xs
head-first h s [] i = i.chain
head-first h s (x ∷ xs) i = i.chain.0

-- The rounds after the first.
after_wake :
    {k k1 k2 : Kernel} {l : Queues} (x : Ptr) (ds xs zs : List Ptr)
    → Becomes k (edit x readied k.pcb) (woken x xs l) k1
    → Becomes k1
        (ready_all ds k1.pcb)
        (put_list ready_queue
          (woken x xs l ready_queue ++ ds)
          (put_list sleep_queue zs (woken x xs l)))
        k2
    → Becomes k
        (ready_all (x ∷ ds) k.pcb)
        (put_list ready_queue (l ready_queue ++ (x ∷ ds)) (put_list sleep_queue zs l))
        k2
after_wake {k} {k1} {k2} {l} x ds xs zs b1 b2 = relist both again
  where
    both :
        Becomes k
          (ready_all ds (edit x readied k.pcb))
          (put_list ready_queue
            (woken x xs l ready_queue ++ ds)
            (put_list sleep_queue zs (woken x xs l)))
          k2
    both =
        compose_with (ready_all ds)
          (λ a e. ready_all_blind ds k1.pcb (edit x readied k.pcb) a b1.same) b1 b2

    again :
        (r : QueueId)
        → put_list ready_queue
            (woken x xs l ready_queue ++ ds)
            (put_list sleep_queue zs (woken x xs l))
            r
          ≡ put_list ready_queue (l ready_queue ++ (x ∷ ds)) (put_list sleep_queue zs l) r
    again QueueId.stopped_queue = refl
    again QueueId.ready_queue = append_assoc (l ready_queue) (x ∷ []) ds
    again QueueId.blocked_queue = refl
    again QueueId.sleep_queue = refl

pub wake_loop_lem :
    (xs : List Ptr) (fuel : ℕ) (k : Kernel) (l : Queues)
    → Rep k l
    → l sleep_queue ≡ xs
    → length xs < fuel
    → Returns
        (λ _ k'.
          Becomes k
            (ready_all (due k.pcb xs) k.pcb)
            (put_list ready_queue
              (l ready_queue ++ due k.pcb xs)
              (put_list sleep_queue (asleep_still k.pcb xs) l))
            k')
        (wake_loop fuel (first xs) k)
unfolding wake_loop due asleep_still peek_pcb_from_sleep_queue pcb_peek
wake_loop_lem xs zero k l is e h = absurd (omega arith)
wake_loop_lem [] (suc fuel) k l is e h = returns (stays [] is e)
wake_loop_lem (x ∷ xs) (suc fuel) k l is e h =
    let ne : x ≢ null = (sleepers x xs is e).chain.1 in
    rw (==_of_ne x null ne, load-done x k ne)
      (elim (Bool-cases (leb_ℤ (k.pcb x).ret (pos 0))) [
        | inr t ↦ rw t (returns (stays (x ∷ xs) is e))
        | inl t ↦ rw t (
            bind (wake_lem x xs is e) λ _ k1 b1.
              let same = due_same k1.pcb k.pcb xs (λ a.
                same_ret (k1.pcb a) (edit x readied k.pcb a) (b1.same a)
                ∙ edit_keeps (λ p. p.ret) readied (λ p. refl) x a k.pcb) in
              rw (head-first k1.pcb (k1.queue sleep_queue) xs (b1.rep.each sleep_queue)) (
                mono (wake_loop_lem xs fuel k1 (woken x xs l) b1.rep refl (omega arith)) λ _ k2 b2.
                  after_wake {l = l} x (due k.pcb xs) xs (asleep_still k.pcb xs) b1
                    (rw (same.0, same.1) at b2)))
      ])
