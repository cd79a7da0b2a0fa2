-- ===== src/Sleep/Asleep.antt =====
-- A `sleep` of c/sleep.c and the ticks behind it: when the process is ready again.
use xeros_kernel.Base.{
  ℕ, ◌+◌, ◌*◌, ◌≤◌, ◌≡◌, refl, ◌≢◌, ◌∙◌, sym, ap, subst, Bool, true, false, List, ◌∷◌, ◌++◌, arith,
  leb, ◌||◌, has, has-append, Distinct, ==_refl,
}
use xeros_kernel.Base.Int.{pos}
use xeros_kernel.Kernel.Config.{Ptr, null}
use xeros_kernel.Kernel.Types.{Pcb, Kernel, sleep_queue, ready_queue}
use xeros_kernel.Kernel.Cmd.{◌>>◌, Returns}
use xeros_kernel.Kernel.Access.{update-done, bind, mono}
use xeros_kernel.Queue.Rep.{IsQueue, Queues, IsFree, Rep}
use xeros_kernel.Queue.Becomes.{Rep-put_pcb}
use xeros_kernel.Sleep.{sleep, ticks_of, add_pcb_to_sleep_queue}
use xeros_kernel.Sleep.Place.{
  before, behind, left_over, total, before-behind, put_pcb_self, put_pcb_ne,
}
use xeros_kernel.Sleep.Delta.{ticks_of_lem, add_pcb_to_sleep_queue_lem}
use xeros_kernel.Sleep.Tick.{within}
use xeros_kernel.Sleep.Ticks.{differ, Starts, ticks, ticks_wake}
use xeros_kernel.Sleep.Timed.{
  timed, has-within, total_same, behind-Fits, timed_front, timed_ret, timed-Starts, left_over_first,
}

-- The process is in the ready queue or not.
abbrev pub IsReady : Ptr → Bool → Kernel → Type 0
IsReady x b k = (l : Queues) × Rep k l × (has x (l ready_queue) ≡ b)

module _ {k : Kernel} {l : Queues} (d : Ptr → ℕ) (x n : ℕ) (is : Rep k l) (ne : x ≢ null)
    (free : IsFree l x) (alone : (k.pcb x).next ≡ null)
    (waits : (a : Ptr) → has a (l sleep_queue) ≡ true → (k.pcb a).ret ≡ pos (d a)) where
  abbrev front : List Ptr
  front = before d n (l sleep_queue)

  abbrev rear : List Ptr
  rear = behind d n (l sleep_queue)

  abbrev own : ℕ
  own = left_over d n (l sleep_queue)

  added-ticks :
      (t : ℕ)
      → (k.pcb x).ret ≡ pos n
      → 1 ≤ n
      → Starts d (l sleep_queue)
      → Returns (λ _ k'. IsReady x (leb n t) k') ((add_pcb_to_sleep_queue x >> ticks t) k)
  added-ticks t ret some_n start =
      let all = before-behind d n (l sleep_queue) in
      let (sum, added) = add_pcb_to_sleep_queue_lem d x n is ne free alone ret waits in
      let out : has x (front ++ rear) ≡ false = ap (has x) all ∙ free sleep_queue in
      let i : IsQueue k.pcb (k.queue sleep_queue) (l sleep_queue) = is.each sleep_queue in
      let w = λ (a : Ptr) (h : has a (front ++ rear) ≡ true). waits a (sym (ap (has a) all) ∙ h) in
      let dist : Distinct (front ++ rear) = subst (λ q. Distinct q) (sym all) i.distinct in
      let fits = behind-Fits d n (l sleep_queue) in
      let same = timed_front x own d front rear k.pcb w out dist fits in
      let starts =
        timed-Starts x own d front rear same
          (λ e. subst (λ q. 1 ≤ q) (sym (left_over_first d n (l sleep_queue) e)) some_n)
          (subst (λ q. Starts d q) (sym all) start) in
      bind added λ _ k1 b.
        mono
          (ticks_wake t (timed x rear own d) (front ++ (x ∷ rear)) b.rep refl
            (λ a h.
              ap (λ (p : Pcb). p.ret) (b.same a)
              ∙ timed_ret x own d front rear k.pcb w out fits a h)
            starts)
          λ _ k2 (zs, rest, is2). (
            _,
            is2,
            has-append x (l ready_queue) (within (timed x rear own d) t (front ++ (x ∷ rear)))
                ∙ awake t out (total_same d (timed x rear own d) front same) sum,
          )
    where
      awake :
          (t : ℕ)
          → has x (front ++ rear) ≡ false
          → total d front ≡ total (timed x rear own d) front
          → total d front + own ≡ n
          → (has x (l ready_queue) || has x (within (timed x rear own d) t (front ++ (x ∷ rear))))
            ≡ leb n t
      awake t out same sum =
          let parts : (has x front || has x rear) ≡ false = sym (has-append x front rear) ∙ out in
          let absent : has x front ≡ false = ground arith in
          let self : timed x rear own d x ≡ own = rw (==_refl x) refl in
          rw (free ready_queue) (
            has-within (timed x rear own d) t x front rear absent
            ∙ ap (λ q. leb q t)
                (ap (λ q. total (timed x rear own d) front + q) self
                  ∙ ap (λ q. q + own) (sym same)
                  ∙ sum))

-- If the queues are well formed, every entry `a` of the sleep queue waits `d a` ticks after the one
-- before it, the first one tick or more, and a process (not NULL, in no queue, with no successor)
-- sleeps for `ms` milliseconds, 1 or more, then `sleep` and `t` ticks behind it return with
-- well-formed queues, and the process stands in the ready queue then exactly if `ms` is at most `t
-- * 10`.
pub sleep-ticks :
    {k : Kernel} {l : Queues} (d : Ptr → ℕ) (x ms t : ℕ)
    → Rep k l
    → x ≢ null
    → IsFree l x
    → (k.pcb x).next ≡ null
    → ((a : Ptr) → has a (l sleep_queue) ≡ true → (k.pcb a).ret ≡ pos (d a))
    → Starts d (l sleep_queue)
    → 1 ≤ ms
    → Returns (λ _ k'. IsReady x (leb ms (t * 10)) k') ((sleep x ms >> ticks t) k)
unfolding sleep
sleep-ticks {k} {l} d x ms t is ne free alone waits start some_ms =
    let ticked = λ (p : Pcb). record p { ret = pos (ticks_of ms) } in
    let self = put_pcb_self x ticked k in
    let (enough, close) = ticks_of_lem ms in
    let same : leb (ticks_of ms) t ≡ leb ms (t * 10) = ground (arith, enough, close) in
    rw (update-done x k ne ticked) (
      mono
        (added-ticks d x (ticks_of ms) (Rep-put_pcb x ticked (λ p. refl) is) ne free
          (ap (λ (p : Pcb). p.next) self ∙ alone)
          (λ a h. ap (λ (p : Pcb). p.ret) (put_pcb_ne x a ticked k (apart a h)) ∙ waits a h) t
          (ap (λ (p : Pcb). p.ret) self) (omega (arith, (ticks_of_lem ms).0, some_ms)) start)
        λ _ k' r. subst (λ b. IsReady x b k') same r)
  where
    apart : (a : Ptr) → has a (l sleep_queue) ≡ true → a ≢ x
    apart a h q = differ (sym h ∙ ap (λ b. has b (l sleep_queue)) q ∙ free sleep_queue)
