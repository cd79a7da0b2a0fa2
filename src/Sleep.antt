-- ===== src/Sleep.antt =====
-- c/sleep.c: the sleeping processes, a queue in which `ret` holds the ticks after the entry before.
pub mod Delta
pub mod Place
pub mod Insert
pub mod Wake
pub mod Tick
pub mod Ticks
pub mod Timed
pub mod Asleep
use xeros_kernel.Base.{
  ℕ, zero, suc, ◌+◌, ◌/◌, ◌%◌, Bool, true, false, not, ◌==◌, if◌then◌else◌, ◌||◌, ◌&&◌,
}
use xeros_kernel.Base.Int.{ℤ, pos, pos_part, ◌+ℤ◌, ◌-ℤ◌, ltb_ℤ, leb_ℤ}
use xeros_kernel.Kernel.Config.{Ptr, null, ms_per_clock_tick}
use xeros_kernel.Kernel.Types.{
  Kernel, Pcb, PcbQueue, ProcState, BlockedStatus, QueueId, sleep_queue,
}
use xeros_kernel.Kernel.Cmd.{
  Cmd, spent, pure, ◌>>=◌, ◌>>◌, gets, assert, load_pcb, update_pcb, get_queue, set_queue,
}
use xeros_kernel.Queue.{link, init_pcb_queue, pcb_peek, pcb_offer, pcb_remove, pcb_size}
use xeros_kernel.Table.{add_pcb_to_ready_queue}

unfoldable pub sleepinit : Cmd (Unit {0})
sleepinit = init_pcb_queue sleep_queue

abbrev pub take_ret : ℤ → Pcb → Pcb
take_ret d p = record p { ret = p.ret -ℤ d }

-- The walk of `add_pcb_to_sleep_queue`, which takes the deltas that it passes off `entry->ret`.
unfoldable pub place_loop : ℕ → (entry prev curr : Ptr) → Cmd (Ptr × Ptr)
place_loop zero entry prev curr = λ _. spent
place_loop (suc fuel) entry prev curr = if curr == null then pure (prev, curr) else do
  c ← load_pcb curr
  e ← load_pcb entry
  if ltb_ℤ c.ret e.ret
      then (do update_pcb entry (take_ret c.ret); place_loop fuel entry curr c.next)
      else pure (prev, curr)

-- The insertion in front of `curr`.
unfoldable pub insert_before : (entry prev curr : Ptr) → Cmd (Unit {0})
insert_before entry prev curr = do
  e ← load_pcb entry
  update_pcb curr (take_ret e.ret)
  update_pcb entry (link curr)
  s ← get_queue sleep_queue
  set_queue sleep_queue (record s { size = s.size +ℤ pos 1 })
  if prev == null
      then (do t ← get_queue sleep_queue; set_queue sleep_queue (record t { head = entry }))
      else update_pcb prev (link entry)

-- The fuel is one round more than the size, as in `pcb_remove`.
unfoldable pub add_pcb_to_sleep_queue : Ptr → Cmd (Unit {0})
add_pcb_to_sleep_queue entry = do
  e ← load_pcb entry
  assert (e.next == null)
  update_pcb entry
      (λ p. record p { state = ProcState.blocked; blocked_status = BlockedStatus.sleep })
  s ← get_queue sleep_queue
  (prev, curr) ← place_loop (suc (pos_part s.size)) entry null s.head
  if curr == null then pcb_offer sleep_queue entry else insert_before entry prev curr

unfoldable pub remove_pcb_from_sleep_queue : Ptr → Cmd Bool
remove_pcb_from_sleep_queue = pcb_remove sleep_queue

unfoldable pub peek_pcb_from_sleep_queue : Cmd Ptr
peek_pcb_from_sleep_queue = pcb_peek sleep_queue

-- The ticks of a sleep: the milliseconds rounded up.
unfoldable pub ticks_of : ℕ → ℕ
ticks_of ms = ms / ms_per_clock_tick + (if ms % ms_per_clock_tick == 0 then 0 else 1)

unfoldable pub sleep : Ptr → (ms : ℕ) → Cmd (Unit {0})
sleep pcb ms = do
  update_pcb pcb (λ p. record p { ret = pos (ticks_of ms) })
  add_pcb_to_sleep_queue pcb

unfoldable pub wake : Ptr → Cmd (Unit {0})
wake pcb = do remove_pcb_from_sleep_queue pcb; add_pcb_to_ready_queue pcb

-- The loop of `tick`.
unfoldable pub wake_loop : ℕ → Ptr → Cmd (Unit {0})
wake_loop zero head = λ _. spent
wake_loop (suc fuel) head = if head == null then pure tt else do
  h ← load_pcb head
  if leb_ℤ h.ret (pos 0)
      then (do wake head; next ← peek_pcb_from_sleep_queue; wake_loop fuel next)
      else pure tt

unfoldable pub tick : Cmd (Unit {0})
tick = do
  head ← peek_pcb_from_sleep_queue
  size ← pcb_size sleep_queue
  if head == null
      then pure tt
      else do update_pcb head (take_ret (pos 1)); wake_loop (suc (pos_part size)) head
