-- ===== src/Sleep/Delta.antt =====
-- The delta queue of c/sleep.c: how long a sleep takes, and where the process waits.
use mathlib.Core.List.{append-nil}
use mathlib.Core.Path.{fun_ext}
use xeros_kernel.Base.{
  ℕ, suc, ◌+◌, ◌*◌, ◌≤◌, ◌<◌, ◌≡◌, refl, ◌≢◌, ◌∙◌, sym, ap, true, false, List, [], ◌∷◌, ◌++◌, arith,
  ◌==◌, if◌then◌else◌, Bool-cases, inl, inr, length, has, last_or, has-append, ==_of_ne, ==_refl,
}
use xeros_kernel.Base.Int.{pos}
use xeros_kernel.Kernel.Config.{Ptr, null, ms_per_clock_tick}
use xeros_kernel.Kernel.Types.{Pcb, Kernel, ProcState, BlockedStatus, sleep_queue}
use xeros_kernel.Kernel.Cmd.{put_pcb, Returns}
use xeros_kernel.Kernel.Access.{load-done, update-done, bind, mono}
use xeros_kernel.Queue.Chain.{Store, frame, ne_null_of_Chain}
use xeros_kernel.Queue.Rep.{IsQueue, Queues, put_list, IsFree, Rep, unlinked}
use xeros_kernel.Queue.Becomes.{Becomes, edit, Rep-put_pcb}
use xeros_kernel.Queue.Ends.{first, pcb_offer_lem}
use xeros_kernel.Queue.{pcb_offer}
use xeros_kernel.Sleep.{insert_before, take_ret, ticks_of, add_pcb_to_sleep_queue}
use xeros_kernel.Sleep.Place.{
  before, behind, left_over, total, before-behind, left_over_lem, Placed, put_pcb_self, put_pcb_ne,
  place_loop_lem,
}
use xeros_kernel.Sleep.Insert.{insert_before_lem}

-- The ticks of a sleep of `ms` milliseconds last at least `ms` and less than 10 milliseconds more.
pub ticks_of_lem :
    (ms : ℕ)
    → (ms ≤ ticks_of ms * ms_per_clock_tick)
      × (ticks_of ms * ms_per_clock_tick < ms + ms_per_clock_tick)
unfolding ticks_of
ticks_of_lem ms = ground arith

-- What the sleep writes into the process, and how much less the process behind it waits.
abbrev pub slept : ℕ → Pcb → Pcb
slept m p = record p {
  state = ProcState.blocked;
  blocked_status = BlockedStatus.sleep;
  ret = pos m;
}

abbrev pub shorten : List Ptr → ℕ → Store → Store
shorten [] m h = h
shorten (c ∷ cs) m h = edit c (take_ret (pos m)) h

abbrev asleep : Pcb → Pcb
asleep p = record p { state = ProcState.blocked; blocked_status = BlockedStatus.sleep }

Placed-Rep :
    {k k1 : Kernel} {l : Queues} (entry : Ptr) (m : ℕ) → Rep k l → Placed entry m k k1 → Rep k1 l
Placed-Rep {k} {k1} {l} entry m is pl = record {
  each = λ q.
      let i : IsQueue k.pcb (k.queue q) (l q) = is.each q in
      let same : k1.queue q ≡ k.queue q = ap (λ (j : Kernel). j.queue q) pl.others in
      rw same (record {
        chain = frame k.pcb k1.pcb (k.queue q).head (l q) (λ a h. next_same a) i.chain;
        tail = i.tail;
        size = i.size;
        distinct = i.distinct;
      });
  apart = is.apart;
}
  where
    next_same : (a : Ptr) → (k1.pcb a).next ≡ (k.pcb a).next
    next_same a = elim (Bool-cases (a == entry)) [
      | inl t ↦ let q : a ≡ entry = ground arith in rw q (ap (λ (p : Pcb). p.next) pl.block)
      | inr t ↦ ap (λ (p : Pcb). p.next) (pl.elsewhere a (ground arith))
    ]

module _ {k : Kernel} {l : Queues} (d : Ptr → ℕ) (entry : Ptr) (n : ℕ) (is : Rep k l)
    (ne : entry ≢ null) (free : IsFree l entry) where
  Placed-store :
      {k2 : Kernel} (m : ℕ)
      → Placed entry m (put_pcb entry asleep k) k2
      → k2.pcb ≡ edit entry (slept m) k.pcb
  Placed-store {k2} m pl = fun_ext λ a. elim (Bool-cases (a == entry)) [
    | inl t ↦
        let q : a ≡ entry = ground arith in
        rw (q, ==_refl entry)
          (pl.block ∙ ap (λ (p : Pcb). record p { ret = pos m }) (put_pcb_self entry asleep k))
    | inr t ↦ rw t (pl.elsewhere a (ground arith) ∙ put_pcb_ne entry a asleep k (ground arith))
  ]

  from_Placed :
      {k2 k3 : Kernel} {l' : Queues} (m : ℕ) (zs : List Ptr)
      → Placed entry m (put_pcb entry asleep k) k2
      → Becomes k2 (shorten zs m k2.pcb) l' k3
      → Becomes k (shorten zs m (edit entry (slept m) k.pcb)) l' k3
  unfolding put_pcb
  from_Placed {k2} {k3} m zs pl b = record {
    rep = b.rep;
    same = λ a. b.same a ∙ ap (λ h. unlinked (shorten zs m h a)) (Placed-store m pl);
    others = b.others ∙ ap (λ (j : Kernel). record j { pcb = k3.pcb; queue = k3.queue }) pl.others;
  }

  -- If the queues are well formed, every entry `a` of the sleep queue waits `d a` ticks after the
  -- one before it, and the non-NULL process `entry`, with no successor, in no queue and with `n`
  -- ticks for its result, is to sleep, then `add_pcb_to_sleep_queue` returns: the process, blocked
  -- in a sleep, stands behind the entries that wake before it and in front of the others, with the
  -- ticks that are left after theirs, so that these together are `n`; the entry behind it, if there
  -- is one, waits that much less after it; and nothing else changes.
  pub add_pcb_to_sleep_queue_lem :
      (k.pcb entry).next ≡ null
      → (k.pcb entry).ret ≡ pos n
      → ((a : Ptr) → has a (l sleep_queue) ≡ true → (k.pcb a).ret ≡ pos (d a))
      → let xs = l sleep_queue in
        (total d (before d n xs) + left_over d n xs ≡ n)
        × Returns
            (λ _ k'.
              Becomes k
                (shorten
                  (behind d n xs)
                  (left_over d n xs)
                  (edit entry (slept (left_over d n xs)) k.pcb))
                (put_list sleep_queue (before d n xs ++ (entry ∷ behind d n xs)) l)
                k')
            (add_pcb_to_sleep_queue entry k)
  unfolding add_pcb_to_sleep_queue
  add_pcb_to_sleep_queue_lem alone ticks ds = (
    left_over_lem d n (l sleep_queue),
    rw (load-done entry k ne, alone, update-done entry k ne asleep)
        (let is1 : Rep (put_pcb entry asleep k) l = Rep-put_pcb entry asleep (λ p. refl) is in
          let i : IsQueue (put_pcb entry asleep k).pcb ((put_pcb entry asleep k).queue sleep_queue)
              (l sleep_queue) =
            is1.each sleep_queue in
          rw i.size (
            bind
              (place_loop_lem d (l sleep_queue) (suc (length (l sleep_queue)))
                (put_pcb entry asleep k) entry null
                ((put_pcb entry asleep k).queue sleep_queue).head n i.chain (omega arith) ne
                (free sleep_queue) (ap (λ (p : Pcb). p.ret) (put_pcb_self entry asleep k) ∙ ticks)
                (λ a h. ap (λ (p : Pcb). p.ret) (put_pcb_ne entry a asleep k (apart a h)) ∙ ds a h))
              λ r k2 (er, pl). rw er (choose (behind d n (l sleep_queue)) refl k2 is1 pl))),
  )
    where
      differ : true ≡ false → ⊥
      differ q = cc

      apart : (a : Ptr) → has a (l sleep_queue) ≡ true → a ≢ entry
      apart a h q = differ (sym h ∙ ap (λ b. has b (l sleep_queue)) q ∙ free sleep_queue)

      m : ℕ
      m = left_over d n (l sleep_queue)

      choose :
          (zs : List Ptr)
          → behind d n (l sleep_queue) ≡ zs
          → (k2 : Kernel) → Rep (put_pcb entry asleep k) l
          → Placed entry m (put_pcb entry asleep k) k2
          → Returns
              (λ _ k'.
                Becomes k
                  (shorten zs m (edit entry (slept m) k.pcb))
                  (put_list sleep_queue (before d n (l sleep_queue) ++ (entry ∷ zs)) l)
                  k')
              ((if first zs == null
                  then pcb_offer sleep_queue entry
                  else insert_before entry (last_or null (before d n (l sleep_queue))) (first zs))
                k2)
      choose [] e k2 is1 pl =
          let all : before d n (l sleep_queue) ≡ l sleep_queue =
            sym (append-nil (before d n (l sleep_queue)))
            ∙ ap (λ ys. before d n (l sleep_queue) ++ ys) (sym e)
            ∙ before-behind d n (l sleep_queue) in
          mono (pcb_offer_lem sleep_queue entry (Placed-Rep entry m is1 pl) ne free)
            λ u k3 b. from_Placed m [] pl (rw all b)
      choose (c ∷ cs) e k2 is1 pl =
          let is2 : Rep k2 l = Placed-Rep entry m is1 pl in
          let parts : l sleep_queue ≡ before d n (l sleep_queue) ++ (c ∷ cs) =
            sym (before-behind d n (l sleep_queue))
            ∙ ap (λ ys. before d n (l sleep_queue) ++ ys) e in
          let there : has c (l sleep_queue) ≡ true =
            ap (has c) parts ∙ has-append c (before d n (l sleep_queue)) (c ∷ cs) ∙ ground arith in
          let i : IsQueue k2.pcb (k2.queue sleep_queue) (l sleep_queue) = is2.each sleep_queue in
          rw
            (==_of_ne c null
              (ne_null_of_Chain k2.pcb (k2.queue sleep_queue).head c (l sleep_queue) i.chain there))
            (mono
              (insert_before_lem entry m (before d n (l sleep_queue)) c cs is2 parts ne free
                (ap (λ (p : Pcb). p.ret) pl.block))
              λ u k3 b. from_Placed m (c ∷ cs) pl b)
