-- ===== src/Queue.antt =====
-- c/pcbqueue.c: singly linked queues of process control blocks, through their `next` pointers.
pub mod Chain
pub mod Becomes
pub mod Rep
pub mod Remove
pub mod Ends
use xeros_kernel.Base.{ℕ, zero, suc, ◌==◌, if◌then◌else◌, Bool, true, false, not, ◌&&◌, ◌||◌}
use xeros_kernel.Base.Int.{ℤ, pos, pos_part, ◌+ℤ◌, ◌-ℤ◌}
use xeros_kernel.Memory.{kmalloc}
use xeros_kernel.Kernel.Config.{Ptr, null}
use xeros_kernel.Kernel.Types.{Kernel, Pcb, PcbQueue, QueueId}
use xeros_kernel.Kernel.Cmd.{
  Cmd, fault, spent, pure, ◌>>=◌, ◌>>◌, gets, load_pcb, update_pcb, get_queue, set_queue,
}

abbrev pub link : Ptr → Pcb → Pcb
link q p = record p { next = q }

-- The struct is found by the queue's name in the model; its 12 bytes are taken off the heap as in
-- the source, which does not test the pointer that it writes through.
unfoldable pub init_pcb_queue : QueueId → Cmd (Unit {0})
init_pcb_queue q = do
  queue ← kmalloc 12
  if queue == null
      then (λ _. fault)
      else set_queue q (record { head = null; tail = null; size = pos 0 })

unfoldable pub pcb_size : QueueId → Cmd ℤ
pcb_size q = gets (λ k. (k.queue q).size)

unfoldable pub pcb_peek : QueueId → Cmd Ptr
pcb_peek q = gets (λ k. (k.queue q).head)

unfoldable pub pcb_poll : QueueId → Cmd Ptr
pcb_poll q = do
  s ← get_queue q
  if s.head == null then pure null else do
    node ← load_pcb s.head
    set_queue q (record {
      head = node.next;
      tail = if node.next == null then null else s.tail;
      size = s.size -ℤ pos 1;
    })
    update_pcb s.head (link null)
    pure s.head

-- The branch of `pcb_offer` for an empty queue.
pub offer_first : QueueId → Ptr → PcbQueue → Cmd (Unit {0})
offer_first q entry s = do
  set_queue q (record { head = entry; tail = entry; size = s.size +ℤ pos 1 })
  update_pcb entry (link null)

unfoldable pub pcb_offer : QueueId → Ptr → Cmd (Unit {0})
unfolding offer_first
pcb_offer q entry = do
  s ← get_queue q
  if s.head == null then offer_first q entry s else do
    update_pcb s.tail (link entry)
    set_queue q (record { head = s.head; tail = entry; size = s.size +ℤ pos 1 })
    update_pcb entry (link null)

-- The walk `while (curr != NULL && curr != entry)`: the last `prev` and `curr`.
unfoldable pub find_loop : ℕ → (entry prev curr : Ptr) → Cmd (Ptr × Ptr)
find_loop zero entry prev curr = λ _. spent
find_loop (suc fuel) entry prev curr =
    if (curr == null) || (curr == entry)
    then pure (prev, curr)
    else do node ← load_pcb curr; find_loop fuel entry curr node.next

-- The fuel is one round more than the size: a queue whose size counts its nodes never needs more.
unfoldable pub pcb_remove : QueueId → Ptr → Cmd Bool
pcb_remove q entry = do
  s ← get_queue q
  (prev, curr) ← find_loop (suc (pos_part s.size)) entry null s.head
  if curr == null then pure false else if prev == null then (do pcb_poll q; pure true) else do
    node ← load_pcb curr
    set_queue q (record {
      head = s.head;
      tail = if node.next == null then prev else s.tail;
      size = s.size -ℤ pos 1;
    })
    update_pcb prev (link node.next)
    update_pcb curr (link null)
    pure true
