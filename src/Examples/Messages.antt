-- ===== src/Examples/Messages.antt =====
-- The statements on messages, on the sample state.
use xeros_kernel.Base.{◌≡◌, refl, [], ◌∷◌, arith}
use xeros_kernel.Base.Int.{pos}
use xeros_kernel.Kernel.Config.{null, blockerr}
use xeros_kernel.Kernel.Types.{BlockedStatus, ready_queue, blocked_queue}
use xeros_kernel.Kernel.Bytes.{block_copy, load_word, va_arg, Copied}
use xeros_kernel.Kernel.Cmd.{◌>>◌, Returns}
use xeros_kernel.Queue.Rep.{put_list}
use xeros_kernel.Queue.Becomes.{Becomes, edit}
use xeros_kernel.Table.Moves.{readied, blocks, offered}
use xeros_kernel.Message.{buffer_of, buffer_len_of, send, recv}
use xeros_kernel.Message.Receive.{Took, recv_takes, recv_takes_any}
use xeros_kernel.Table.Peek.{first_with}
use xeros_kernel.Message.Release.{delivered, waits_for}
use xeros_kernel.Message.Meet.{met, recv-send}
use xeros_kernel.Message.Send.{transfer_length, transferred, send_delivers, send_blocks}
use xeros_kernel.Examples.{lists, sample, sample-Rep, running-IsFree}

send_delivers_example :
    Returns
      (λ r k'.
        (r ≡ pos 4)
        × Copied (buffer_of sample 3) 900 4 sample.mem k'.mem
        × Becomes
            (record sample { mem = k'.mem })
            (edit 3 (delivered (pos 4)) (edit 3 readied sample.pcb))
            (offered ready_queue 3 (put_list blocked_queue (4 ∷ 5 ∷ []) lists))
            k')
      (send block_copy 7 3 900 (pos 10) sample)
unfolding buffer_len_of va_arg load_word
send_delivers_example =
    send_delivers block_copy 7 3 900 (pos 10) sample-Rep (omega arith) (omega arith) refl 4 refl
      refl

send_blocks_example :
    Returns
      (λ r k'.
        (r ≡ blockerr)
        × Becomes sample
            (edit 7 blocks (edit 7 (waits_for BlockedStatus.send 5) (edit 5 blocks sample.pcb)))
            (offered blocked_queue 7
              (offered blocked_queue 5 (put_list blocked_queue (3 ∷ 4 ∷ []) lists)))
            k')
      (send block_copy 7 5 900 (pos 10) sample)
send_blocks_example =
    send_blocks block_copy 7 5 900 (pos 10) sample-Rep (omega arith) (omega arith) refl
      (omega arith) (omega arith) (omega arith) running-IsFree

recv_takes_example :
    Returns
      (λ r k'.
        (r ≡ pos 4)
        × Copied 900 (buffer_of sample 3) 4 sample.mem k'.mem
        × Becomes
            (record sample { mem = k'.mem })
            (edit 3 (delivered (pos 4)) (edit 3 readied sample.pcb))
            (offered ready_queue 3 (put_list blocked_queue (4 ∷ 5 ∷ []) lists))
            k')
      (recv block_copy 3 7 900 (pos 10) sample)
unfolding buffer_len_of va_arg load_word
recv_takes_example =
    recv_takes block_copy 3 7 900 (pos 10) sample-Rep (omega arith) (omega arith) refl 4 refl refl

recv_takes_any_example :
    Returns
      (λ r k'.
        Took block_copy 4 7 900 (pos 10) sample (put_list blocked_queue (3 ∷ 5 ∷ []) lists) r k')
      (recv block_copy null 7 900 (pos 10) sample)
unfolding first_with
recv_takes_any_example =
    recv_takes_any block_copy 4 7 900 (pos 10) sample-Rep (omega arith) (omega arith) refl refl

recv-send_example :
    Returns
      (λ r k'.
        (r ≡ transfer_length block_copy 1 7 800 (pos 10) sample)
        × Becomes
            (transferred block_copy 1 7 800 (pos 10) sample)
            (edit 7 (met (transfer_length block_copy 1 7 800 (pos 10) sample)) sample.pcb)
            (offered ready_queue 7 lists)
            k')
      ((recv block_copy 1 7 900 (pos 20) >> send block_copy 1 7 800 (pos 10)) sample)
recv-send_example =
    recv-send block_copy 1 7 900 800 (pos 20) (pos 10) sample-Rep (omega arith) (omega arith)
      running-IsFree (omega arith) refl
