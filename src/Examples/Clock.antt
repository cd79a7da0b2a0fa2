-- ===== src/Examples/Clock.antt =====
-- Ticks of the clock on the sample state, and two rounds that end by the timer.
use xeros_kernel.Base.{ℕ, ◌==◌, if◌then◌else◌, ◌≡◌, refl, List, [], ◌∷◌, ◌++◌, has, true, arith}
use xeros_kernel.Base.Int.{pos}
use xeros_kernel.Kernel.Config.{Ptr}
use xeros_kernel.Kernel.Types.{Kernel, ready_queue, sleep_queue}
use xeros_kernel.Kernel.Bytes.{block_copy}
use xeros_kernel.Kernel.Cmd.{◌>>◌, Returns}
use xeros_kernel.Queue.Chain.{frame}
use xeros_kernel.Queue.Rep.{Rep, put_list}
use xeros_kernel.Queue.Becomes.{Becomes, edit}
use xeros_kernel.Table.Moves.{readied, scheduled}
use xeros_kernel.Sleep.{take_ret, tick, sleep}
use xeros_kernel.Sleep.Wake.{due, asleep_still, ready_all}
use xeros_kernel.Sleep.Ticks.{ticks}
use xeros_kernel.Sleep.Asleep.{IsReady, sleep-ticks}
use xeros_kernel.Sleep.Tick.{within, tick_wakes}
use xeros_kernel.Context.{Event, timer_int}
use xeros_kernel.Dispatch.Round.{Order, timer_case, dispatch_run}
use xeros_kernel.Dispatch.Timer.{counted, Current, timer_case_lem}
use xeros_kernel.Dispatch.Progress.{dispatch_run-progress}
use xeros_kernel.Examples.{ticks_left, sample, lists, sample-Rep, running-IsFree, machine}

-- The last tick of process 9, and process 10 sleeps for no longer.
abbrev awaking : Kernel
awaking = record sample {
  pcb = λ a. record (sample.pcb a) {
    ret = if a == 9 then pos 1 else if a == 10 then pos 0 else pos 30;
  };
}

awaking-Rep : Rep awaking lists
awaking-Rep = record {
  each = λ q.
      let i = sample-Rep.each q in
      record {
        chain = frame sample.pcb awaking.pcb (sample.queue q).head (lists q) (λ a h. refl) i.chain;
        tail = i.tail;
        size = i.size;
        distinct = i.distinct;
      };
  apart = sample-Rep.apart;
}

abbrev ticks_awaking : Ptr → ℕ
ticks_awaking a = if a == 9 then 1 else if a == 10 then 0 else 30

tick_wakes_example :
    Returns
      (λ _ k'.
        (zs : List Ptr) × ((9 ∷ 10 ∷ []) ++ zs ≡ 9 ∷ 10 ∷ [])
        × Becomes awaking
            (ready_all (9 ∷ 10 ∷ []) (edit 9 (take_ret (pos 1)) awaking.pcb))
            (put_list ready_queue (1 ∷ 2 ∷ 9 ∷ 10 ∷ []) (put_list sleep_queue zs lists))
            k')
      (tick awaking)
unfolding within
tick_wakes_example = tick_wakes ticks_awaking 9 (10 ∷ []) awaking-Rep refl waits (omega arith)
  where
    waits : (a : Ptr) → has a (9 ∷ 10 ∷ []) ≡ true → (awaking.pcb a).ret ≡ pos (ticks_awaking a)
    waits a h = ground arith

sleep-ticks_example : Returns (λ _ k'. IsReady 7 true k') ((sleep 7 160 >> ticks 16) sample)
sleep-ticks_example =
    sleep-ticks ticks_left 7 160 16 sample-Rep (omega arith) running-IsFree refl waits (omega arith)
      (omega arith)
  where
    waits : (a : Ptr) → has a (9 ∷ 10 ∷ []) ≡ true → (sample.pcb a).ret ≡ pos (ticks_left a)
    waits a h = refl

timer_case_lem_example :
    let l' = put_list ready_queue (2 ∷ 7 ∷ []) (put_list sleep_queue (9 ∷ 10 ∷ []) lists) in
    Returns
      (λ p k'.
        Current 1 l' p
        × Becomes sample
            (edit 1 scheduled
              (edit 7 readied (edit 7 counted (edit 9 (take_ret (pos 1)) sample.pcb))))
            l'
            k')
      (timer_case 7 sample)
unfolding due asleep_still
timer_case_lem_example =
    timer_case_lem 7 1 (2 ∷ 7 ∷ []) sample-Rep (omega arith) running-IsFree refl

abbrev by_timer : Event
by_timer = record { esp = 1060; eax = 0; edx = 0; request = timer_int }

dispatch_run-progress_example :
    Returns
      (λ p k'. p ≡ 2)
      (dispatch_run block_copy machine Order.left_first (by_timer ∷ by_timer ∷ []) 7 sample)
dispatch_run-progress_example =
    dispatch_run-progress block_copy machine Order.left_first (by_timer ∷ by_timer ∷ []) 7 2
      (1 ∷ []) [] (refl, (refl, tt)) refl sample-Rep (λ a. refl) (omega arith) running-IsFree refl
