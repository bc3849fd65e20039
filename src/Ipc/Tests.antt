-- ===== src/Ipc/Tests.antt =====
-- Runs of kernel/src/ipc/mod.rs, and its theorems at concrete calls.
use aetherion_os.Base.{◌≡◌, refl, none, some, [], ◌∷◌}
use aetherion_os.Ipc.{
  Queues, queue_full, no_queue, new, push, take_first, pull, send, receive, init_process_queue,
}
use aetherion_os.Ipc.Order.{send_call, receive_call, calls, InOrder, calls_order}

abbrev no_queues : Queues
no_queues i = none

-- Process 5 has a queue of capacity 1.
abbrev one_queue : Queues
one_queue = init_process_queue no_queues 5 1

send_full : (send (send one_queue 5 7 (1 ∷ [])).1 5 8 []).0 ≡ queue_full
unfolding send init_process_queue new push
send_full = refl

send_nowhere : (send one_queue 6 7 []).0 ≡ no_queue
unfolding send init_process_queue new
send_nowhere = refl

-- Identifiers that agree modulo 256 share a queue.
receive_shared :
    (receive (send one_queue 5 7 (1 ∷ [])).1 261).0 ≡ some (record { sender = 7; bytes = 1 ∷ [] })
unfolding send receive init_process_queue new push pull take_first
receive_shared = refl

calls_order_example :
    InOrder 5 one_queue
      (calls 5 one_queue (send_call 5 7 (1 ∷ []) ∷ send_call 5 8 [] ∷ receive_call 5 ∷ []))
calls_order_example =
    calls_order 5 (send_call 5 7 (1 ∷ []) ∷ send_call 5 8 [] ∷ receive_call 5 ∷ []) one_queue
