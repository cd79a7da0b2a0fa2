-- ===== src/Message.antt =====
-- c/msg.c: a message goes from the buffer of one process straight into the buffer of another.
pub mod Release
pub mod Send
pub mod Meet
pub mod Receive
use xeros_kernel.Base.{ℕ, Bool, true, false, not, ◌&&◌, ◌||◌, ◌==◌, if◌then◌else◌}
use xeros_kernel.Base.Int.{ℤ, pos, pos_part, ltb_ℤ}
use xeros_kernel.Kernel.Config.{Ptr, null, blockerr}
use xeros_kernel.Kernel.Types.{Kernel, Pcb, BlockedStatus}
use xeros_kernel.Kernel.Bytes.{Mem, va_arg, signed32, Blkcopy}
use xeros_kernel.Kernel.Cmd.{Cmd, pure, ◌>>=◌, ◌>>◌, gets, modify, load_pcb, update_pcb}
use xeros_kernel.Table.{
  add_pcb_to_ready_queue, add_pcb_to_blocked_queue, remove_pcb_from_blocked_queue, peek_next_sender,
  peek_any_receiver,
}

-- The system call arguments 1 and 2 of a blocked process: its buffer and the buffer's length.
unfoldable pub buffer_of : Kernel → Ptr → Ptr
buffer_of k p = va_arg k.mem (k.pcb p).args 1

unfoldable pub buffer_len_of : Kernel → Ptr → ℤ
buffer_len_of k p = signed32 (va_arg k.mem (k.pcb p).args 2)

abbrev pub min_ℤ : ℤ → ℤ → ℤ
min_ℤ a b = if ltb_ℤ b a then b else a

-- The `curr` process blocks until `other` takes part.
unfoldable pub block_on : BlockedStatus → (curr : Ptr) → (blocked_id : ℕ) → Cmd ℤ
block_on status curr id = do
  update_pcb curr (λ p. record p { blocked_status = status; blocked_id = id })
  add_pcb_to_blocked_queue curr
  pure blockerr

-- The process at the other end goes on, with the length as its result.
unfoldable pub release : Ptr → ℤ → Cmd ℤ
release other len = do
  add_pcb_to_ready_queue other
  update_pcb other (λ p. record p { blocked_id = 0; ret = len })
  pure len

module _ (lib : Blkcopy) where
  open lib use {copy}

  -- The first branch of `send`, with `dest` the receiver that was chosen.
  unfoldable pub send_to : (curr dest : Ptr) → (buffer : Ptr) → (buffer_len : ℤ) → Cmd ℤ
  send_to curr dest buffer buffer_len = do
    d ← load_pcb dest
    c ← load_pcb curr
    if not (d.pid == 0) && not (d.blocked_id == c.pid)
        then (do add_pcb_to_blocked_queue dest; block_on BlockedStatus.send curr d.pid)
        else do
          dest_buffer ← gets (λ k. buffer_of k dest)
          dest_len ← gets (λ k. buffer_len_of k dest)
          let len = min_ℤ buffer_len dest_len
          modify (λ k. record k { mem = copy k.mem dest_buffer buffer len })
          release dest len

  unfoldable pub send : (curr dest : Ptr) → (buffer : Ptr) → (buffer_len : ℤ) → Cmd ℤ
  send curr dest buffer buffer_len = do
    any_receiver ← peek_any_receiver
    exists ← if dest == null then pure false else remove_pcb_from_blocked_queue dest
    if exists || not (any_receiver == null)
        then send_to curr (if exists then dest else any_receiver) buffer buffer_len
        else do d ← load_pcb dest; block_on BlockedStatus.send curr d.pid

  -- The first branch of `recv`: `from` was taken off the blocked queue.
  unfoldable pub recv_from :
      (exists : Bool) → (from curr : Ptr) → (buffer : Ptr) → (buffer_len : ℤ) → Cmd ℤ
  recv_from exists from curr buffer buffer_len = do
    f ← load_pcb from
    c ← load_pcb curr
    if exists && not (f.blocked_id == c.pid)
        then (do add_pcb_to_blocked_queue from; block_on BlockedStatus.receive curr f.pid)
        else do
          from_buffer ← gets (λ k. buffer_of k from)
          from_len ← gets (λ k. buffer_len_of k from)
          let len = min_ℤ buffer_len from_len
          modify (λ k. record k { mem = copy k.mem buffer from_buffer len })
          release from len

  unfoldable pub recv : (from curr : Ptr) → (buffer : Ptr) → (buffer_len : ℤ) → Cmd ℤ
  recv from curr buffer buffer_len = do
    let exists = not (from == null)
    from' ← if exists then pure from else peek_next_sender
    taken ← if from' == null then pure false else remove_pcb_from_blocked_queue from'
    if taken then recv_from exists from' curr buffer buffer_len else do
      id ← if exists then (do f ← load_pcb from'; pure f.pid) else pure 0
      block_on BlockedStatus.receive curr id
