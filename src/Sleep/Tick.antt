-- ===== src/Sleep/Tick.antt =====
-- `tick` of c/sleep.c: the delta queue after a tick of the clock.
use xeros_kernel.Base.{
  ℕ, zero, suc, ◌-◌, ◌≤◌, ◌≡◌, refl, ◌≢◌, ◌∙◌, ap, true, false, List, [], ◌∷◌, ◌++◌, arith, ◌==◌,
  if◌then◌else◌, Bool-cases, inl, inr, length, has, leb, ==_of_ne, ==_refl, Distinct,
}
use xeros_kernel.Base.Int.{pos, leb_ℤ, ◌-ℤ◌}
use xeros_kernel.Kernel.Config.{Ptr, null}
use xeros_kernel.Kernel.Types.{Pcb, Kernel, ready_queue, sleep_queue}
use xeros_kernel.Kernel.Cmd.{put_pcb, Returns, returns}
use xeros_kernel.Kernel.Access.{update-done, mono}
use xeros_kernel.Queue.{pcb_peek, pcb_size}
use xeros_kernel.Queue.Chain.{Store}
use xeros_kernel.Queue.Rep.{IsQueue, Queues, put_list, Rep}
use xeros_kernel.Queue.Becomes.{Becomes, edit, Rep-put_pcb, from_put}
use xeros_kernel.Table.Moves.{readied}
use xeros_kernel.Sleep.{take_ret, tick, peek_pcb_from_sleep_queue}
use xeros_kernel.Sleep.Wake.{
  due, asleep_still, due-asleep, ready_all, stays, sleepers, wake_loop_lem, edit_keeps,
  ready_all_keeps,
}

-- The clock's tick is taken off the first entry.
abbrev pub aged : List Ptr → Store → Store
aged [] h = h
aged (x ∷ xs) h = edit x (take_ret (pos 1)) h

from_aged :
    {k k' : Kernel} {l : Queues} (x : Ptr) (xs : List Ptr)
    → let j = put_pcb x (take_ret (pos 1)) k in
      Becomes j
        (ready_all (due j.pcb (x ∷ xs)) j.pcb)
        (put_list ready_queue
          (l ready_queue ++ due j.pcb (x ∷ xs))
          (put_list sleep_queue (asleep_still j.pcb (x ∷ xs)) l))
        k'
      → let h = aged (x ∷ xs) k.pcb in
        Becomes k
          (ready_all (due h (x ∷ xs)) h)
          (put_list ready_queue
            (l ready_queue ++ due h (x ∷ xs))
            (put_list sleep_queue (asleep_still h (x ∷ xs)) l))
          k'
unfolding put_pcb
from_aged x xs b = from_put x (take_ret (pos 1)) (λ h. ready_all (due h (x ∷ xs)) h) b

-- `tick` takes one tick off the first sleeping process, and makes the leading ones ready that have
-- none left then.
pub tick_lem :
    {k : Kernel} {l : Queues}
    → Rep k l
    → let xs = l sleep_queue in
      let h = aged xs k.pcb in
      Returns
        (λ _ k'.
          Becomes k
            (ready_all (due h xs) h)
            (put_list ready_queue
              (l ready_queue ++ due h xs)
              (put_list sleep_queue (asleep_still h xs) l))
            k')
        (tick k)
unfolding tick peek_pcb_from_sleep_queue pcb_peek pcb_size due asleep_still
tick_lem {k} {l} is = by_contents (l sleep_queue) refl
  where
    by_contents :
        (xs : List Ptr)
        → l sleep_queue ≡ xs
        → let h = aged xs k.pcb in
          Returns
            (λ _ k'.
              Becomes k
                (ready_all (due h xs) h)
                (put_list ready_queue
                  (l ready_queue ++ due h xs)
                  (put_list sleep_queue (asleep_still h xs) l))
                k')
            (tick k)
    by_contents [] e =
        let i : IsQueue k.pcb (k.queue sleep_queue) [] = rw e at (is.each sleep_queue) in
        rw i.chain (returns (stays [] is e))
    by_contents (x ∷ xs) e =
        let i : IsQueue k.pcb (k.queue sleep_queue) (x ∷ xs) = sleepers x xs is e in
        let ne : x ≢ null = i.chain.1 in
        let is1 : Rep (put_pcb x (take_ret (pos 1)) k) l =
          Rep-put_pcb x (take_ret (pos 1)) (λ p. refl) is in
        rw (i.chain.0, ==_of_ne x null ne, update-done x k ne (take_ret (pos 1)), i.size)
          (mono
            (wake_loop_lem (x ∷ xs) (suc (suc (length xs))) (put_pcb x (take_ret (pos 1)) k) l is1 e
              (omega arith))
            λ _ k' b. from_aged {l = l} x xs b)

-- The entries that wake within `n` ticks, where each waits `d` ticks after the one before it.
unfoldable pub within : (Ptr → ℕ) → ℕ → List Ptr → List Ptr
within d n [] = []
within d n (x ∷ xs) = if leb (d x) n then x ∷ within d (n - d x) xs else []

-- Behind the first entry, those that wake with it.
due-within :
    (d : Ptr → ℕ) (h : Store) (xs : List Ptr)
    → ((a : Ptr) → has a xs ≡ true → (h a).ret ≡ pos (d a))
    → due h xs ≡ within d 0 xs
unfolding due within
due-within d h [] ds = refl
due-within d h (x ∷ xs) ds =
    rw (ds x (rw (==_refl x) refl), due-within d h xs (λ a m. ds a (ground arith))) (tail (d x))
  where
    tail :
        (m : ℕ)
        → (if leb_ℤ (pos m) (pos 0) then x ∷ within d 0 xs else [])
          ≡ (if leb m 0 then x ∷ within d (0 - m) xs else [])
    tail zero = refl
    tail (suc m) = ground arith

aged_behind :
    (h : Store) (x a : Ptr) (xs : List Ptr)
    → has x xs ≡ false
    → has a xs ≡ true
    → aged (x ∷ xs) h a ≡ h a
aged_behind h x a xs out m = elim (Bool-cases (a == x)) [
  | inl e ↦ let q : a ≡ x = ground arith in cc (rw q at m)
  | inr e ↦ rw e refl
]

-- Those that have no tick left are those that wake within one.
tick_due :
    (d : Ptr → ℕ) (h : Store) (x : Ptr) (xs : List Ptr)
    → Distinct (x ∷ xs)
    → ((a : Ptr) → has a (x ∷ xs) ≡ true → (h a).ret ≡ pos (d a))
    → 1 ≤ d x
    → due (aged (x ∷ xs) h) (x ∷ xs) ≡ within d 1 (x ∷ xs)
unfolding due within
tick_due d h x xs dist ds pos_d =
    rw (==_refl x, ds x (rw (==_refl x) refl), due-within d (aged (x ∷ xs) h) xs later)
      (tail (d x) pos_d)
  where
    later : (a : Ptr) → has a xs ≡ true → (aged (x ∷ xs) h a).ret ≡ pos (d a)
    later a m = ap (λ (p : Pcb). p.ret) (aged_behind h x a xs dist.0 m) ∙ ds a (ground arith)

    tail :
        (m : ℕ)
        → 1 ≤ m
        → (if leb_ℤ (pos m -ℤ pos 1) (pos 0) then x ∷ within d 0 xs else [])
          ≡ (if leb m 1 then x ∷ within d (1 - m) xs else [])
    tail zero h1 = absurd (omega arith)
    tail (suc zero) h1 = refl
    tail (suc (suc m)) h1 = ground arith

-- If the queues are well formed and every entry `a` of the sleep queue waits `d a` ticks after the
-- one before it, the first one tick or more, then `tick` returns and wakes exactly the processes
-- that wake within one tick, the leading ones whose ticks add up to 1 at most: they leave the sleep
-- queue for the end of the ready queue, ready and in their order, and the others stay in theirs.
-- One tick is taken off the first entry, and no other process and no other queue changes.
pub tick_wakes :
    {k : Kernel} {l : Queues} (d : Ptr → ℕ) (x : Ptr) (xs : List Ptr)
    → Rep k l
    → l sleep_queue ≡ x ∷ xs
    → ((a : Ptr) → has a (x ∷ xs) ≡ true → (k.pcb a).ret ≡ pos (d a))
    → 1 ≤ d x
    → let ds = within d 1 (x ∷ xs) in
      Returns
        (λ _ k'.
          (zs : List Ptr) × (ds ++ zs ≡ x ∷ xs)
          × Becomes k
              (ready_all ds (edit x (take_ret (pos 1)) k.pcb))
              (put_list ready_queue (l ready_queue ++ ds) (put_list sleep_queue zs l))
              k')
        (tick k)
tick_wakes {k} {l} d x xs is e ds pos_d =
    let i : IsQueue k.pcb (k.queue sleep_queue) (x ∷ xs) = rw e at (is.each sleep_queue) in
    let same = tick_due d k.pcb x xs i.distinct ds pos_d in
    let all = due-asleep (aged (x ∷ xs) k.pcb) (x ∷ xs) in
    mono (tick_lem is) λ _ k' b.
      (asleep_still (aged (x ∷ xs) k.pcb) (x ∷ xs), rw same at all, rw same at (rw e at b))

-- A tick keeps the fields that neither it nor waking writes.
pub tick_keeps {ℓ} :
    {A : Type ℓ} (φ : Pcb → A)
    → ((p : Pcb) → φ (readied p) ≡ φ p)
    → ((p : Pcb) → φ (take_ret (pos 1) p) ≡ φ p)
    → (ds xs : List Ptr) (a : Ptr) (h : Store) → φ (ready_all ds (aged xs h) a) ≡ φ (h a)
tick_keeps φ r t ds [] a h = ready_all_keeps φ r ds a h
tick_keeps φ r t ds (x ∷ xs) a h =
    ready_all_keeps φ r ds a (aged (x ∷ xs) h) ∙ edit_keeps φ (take_ret (pos 1)) t x a h
