-- ===== src/Dispatch/Progress.antt =====
-- Rounds of `dispatch` that end by the timer: who gets the processor, and when.
use mathlib.Core.List.{append_assoc}
use xeros_kernel.Base.{
  ℕ, suc, ◌+◌, ◌≡◌, refl, ◌≢◌, ◌∙◌, ap, List, [], ◌∷◌, ◌++◌, arith, ◌==◌, Bool-cases, inl, inr,
  length, ==_of_ne,
}
use xeros_kernel.Kernel.Config.{Ptr, null}
use xeros_kernel.Kernel.Types.{Pcb, Kernel, ready_queue, sleep_queue}
use xeros_kernel.Kernel.Bytes.{Mem, store_word, Blkcopy, pattern32, signed32}
use xeros_kernel.Kernel.Cmd.{and_then, put_pcb, Returns, returns}
use xeros_kernel.Kernel.Access.{load-done, update-done, bind}
use xeros_kernel.Queue.Chain.{Store}
use xeros_kernel.Queue.Rep.{Queues, IsFree, Rep}
use xeros_kernel.Queue.Becomes.{Becomes, edit, Rep-put_pcb}
use xeros_kernel.Table.Moves.{readied, scheduled}
use xeros_kernel.Sleep.Wake.{due, edit_keeps, ready_all}
use xeros_kernel.Sleep.Tick.{aged, tick_keeps}
use xeros_kernel.Signal.{Machine}
use xeros_kernel.Context.{Event, is_interrupt, timer_int, enter_process, contextswitch}
use xeros_kernel.Hardware.{icu1, icu2, end_of_intr}
use xeros_kernel.Dispatch.Round.{Order, dispatch_request, dispatch_round, dispatch_run}
use xeros_kernel.Dispatch.Timer.{counted, back, set_back, Current, timer_case_lem}

-- No process has a signal pending.
abbrev pub IsCalm : Kernel → Type 0
IsCalm k = (a : Ptr) → (k.pcb a).signals_pending ≡ 0

abbrev Quiet : Queues → Kernel → Type 0
Quiet l k = Rep k l × IsCalm k

put-Quiet :
    {k : Kernel} {l : Queues} (x : Ptr) (f : Pcb → Pcb)
    → ((p : Pcb) → (f p).next ≡ p.next)
    → ((p : Pcb) → (f p).signals_pending ≡ p.signals_pending)
    → Quiet l k
    → Quiet l (put_pcb x f k)
unfolding put_pcb
put-Quiet {k} x f next same (is, calm) =
    (Rep-put_pcb x f next is, λ a. edit_keeps (λ p. p.signals_pending) f same x a k.pcb ∙ calm a)

store-Quiet : {k : Kernel} {l : Queues} (g : Mem) → Quiet l k → Quiet l (record k { mem = g })
store-Quiet g (is, calm) = (record { each = is.each; apart = is.apart }, calm)

port-Quiet :
    {k : Kernel} {l : Queues} (out : List (ℕ × ℕ)) → Quiet l k → Quiet l (record k { ports = out })
port-Quiet out (is, calm) = (record { each = is.each; apart = is.apart }, calm)

module _ (m : Machine) (e : Event) (x : Ptr) {k : Kernel} {l : Queues} where
  -- A switch to a process without pending signals keeps the queues.
  contextswitch-Quiet :
      Quiet l k → x ≢ null → Returns (λ r j. (r ≡ e.request) × Quiet l j) (contextswitch m e x k)
  unfolding contextswitch enter_process
  contextswitch-Quiet (is, calm) ne =
      let q = put-Quiet x saved (λ p. refl) (λ p. refl) (store-Quiet k1.mem (is, calm)) in
      rw (==_of_ne x null ne, load-done x k ne, calm x, load-done x k ne, update-done x k1 ne saved)
        (elim (Bool-cases (is_interrupt e.request)) [
          | inl i ↦ rw i (returns (refl, q))
          | inr s ↦
              rw (s, update-done x (put_pcb x saved k1) ne passed)
                (returns (refl, put-Quiet x passed (λ p. refl) (λ p. refl) q))
        ])
    where
      saved : Pcb → Pcb
      saved p = record p { esp = e.esp; ret = signed32 e.eax }

      passed : Pcb → Pcb
      passed p = record p { args = e.edx }

      k1 : Kernel
      k1 = record k { mem = store_word k.mem ((k.pcb x).esp + 28) (pattern32 (k.pcb x).ret) }

-- A timer interrupt leaves the pending signals.
pending_timer :
    {k k' : Kernel} {l' : Queues} (pid x y : Ptr) (ds xs : List Ptr)
    → Becomes k
        (edit y scheduled (set_back pid x (edit x counted (ready_all ds (aged xs k.pcb)))))
        l'
        k'
    → IsCalm k
    → IsCalm k'
pending_timer {k} {k'} pid x y ds xs b calm a =
    ap pending (b.same a)
    ∙ edit_keeps pending scheduled (λ p. refl) y a (set_back pid x h)
    ∙ returned
    ∙ edit_keeps pending counted (λ p. refl) x a (ready_all ds (aged xs k.pcb))
    ∙ tick_keeps pending (λ p. refl) (λ p. refl) ds xs a k.pcb
    ∙ calm a
  where
    pending : Pcb → ℕ
    pending p = p.signals_pending

    h : Store
    h = edit x counted (ready_all ds (aged xs k.pcb))

    returned : pending (set_back pid x h a) ≡ pending (h a)
    returned = elim (Bool-cases (pid == 0)) [
      | inl e ↦ rw e refl
      | inr e ↦ rw e (edit_keeps pending readied (λ p. refl) x a h)
    ]

-- All rounds end by the timer.
abbrev pub OnlyTimer : List Event → Type 0
OnlyTimer [] = Unit {0}
OnlyTimer (e ∷ es) = (e.request ≡ timer_int) × OnlyTimer es

-- What a round leaves: the first ready process is current, and the others moved up.
record Rotated (z : Ptr) (zs : List Ptr) (p : Ptr) (k : Kernel) : Type 0 where
  lists : Queues
  quiet : Quiet lists k
  current : Current z lists p
  added : List Ptr
  ready : lists ready_queue ≡ zs ++ added

module _ (lib : Blkcopy) (m : Machine) (order : Order) where
  started :
      (e : Event) (x : Ptr) (k : Kernel)
      → x ≢ null
      → dispatch_round lib m order e x k
        ≡ and_then (contextswitch m e x k) (λ r. dispatch_request lib m order r x)
  unfolding dispatch_round
  started e x k ne = rw (==_of_ne x null ne) refl

  timer_round :
      {k : Kernel} {l : Queues} (e : Event) (x z : Ptr) (zs : List Ptr)
      → e.request ≡ timer_int
      → Quiet l k
      → x ≢ null
      → IsFree l x
      → l ready_queue ≡ z ∷ zs
      → Returns (Rotated z zs) (dispatch_round lib m order e x k)
  unfolding dispatch_request end_of_intr
  timer_round {k} {l} e x z zs timer q ne free ready = rw (started e x k ne) (
      bind (contextswitch-Quiet m e x q ne) λ r k1 (er, (is1, calm1)).
        let h = aged (l sleep_queue) k1.pcb in
        let more = due h (l sleep_queue) ++ back (k1.pcb x).pid x in
        rw (er, timer)
          (bind
            (timer_case_lem {l = l} x z (zs ++ more) is1 ne free (
              append_assoc (l ready_queue) (due h (l sleep_queue)) (back (k1.pcb x).pid x)
              ∙ ap (λ ys. ys ++ more) ready))
            λ p k2 (now, b).
              let calm2 =
                pending_timer (k1.pcb x).pid x z (due h (l sleep_queue)) (l sleep_queue) b calm1 in
              returns (record {
                lists = _;
                quiet = port-Quiet ((icu2, 0x20) ∷ (icu1, 0x20) ∷ k2.ports) (b.rep, calm2);
                current = now;
                added = more;
                ready = refl;
              })))

  -- If the queues are well formed, no signal is pending, the current process is not NULL and stands
  -- in no queue, and every round ends by a timer interrupt, then the process with `n` others before
  -- it in the ready queue is the current one after `n + 1` rounds of the dispatcher, whatever wakes
  -- up meanwhile.
  pub dispatch_run-progress :
      {k : Kernel} {l : Queues} (es : List Event) (x y : Ptr) (before behind : List Ptr)
      → OnlyTimer es
      → length es ≡ suc (length before)
      → Rep k l
      → IsCalm k
      → x ≢ null
      → IsFree l x
      → l ready_queue ≡ before ++ (y ∷ behind)
      → Returns (λ p k'. p ≡ y) (dispatch_run lib m order es x k)
  unfolding dispatch_run
  dispatch_run-progress [] x y before behind only n is calm ne free e = absurd (omega arith)
  dispatch_run-progress {k} {l} (e1 ∷ []) x y [] behind only n is calm ne free e =
      bind (timer_round {l = l} e1 x y behind only.0 (is, calm) ne free e)
        λ p k1 r. returns r.current.0
  dispatch_run-progress (e1 ∷ e2 ∷ es) x y [] behind only n is calm ne free e = absurd (omega arith)
  dispatch_run-progress {k} {l} (e1 ∷ es) x y (z ∷ zs) behind only n is calm ne free e =
      bind (timer_round {l = l} e1 x z (zs ++ (y ∷ behind)) only.0 (is, calm) ne free e) λ p k1 r.
        let (here, some_z, out) = r.current in
        rw here (
          dispatch_run-progress {l = r.lists} es z y zs (behind ++ r.added) only.1 (omega arith)
            r.quiet.0 r.quiet.1 some_z out (r.ready ∙ append_assoc zs (y ∷ behind) r.added))
