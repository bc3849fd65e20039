-- ===== src/Ipc.antt =====
-- kernel/src/ipc/mod.rs: a bounded message queue in each of 256 slots.
pub mod Order
pub mod Bounds
mod Tests
use aetherion_os.Base.{
  ℕ, ◌+◌, ◌%◌, leb, ◌==◌, if◌then◌else◌, Option, none, some, List, [], ◌∷◌, ◌++◌, length,
}

-- A `Pid` is its `usize`.
abbrev pub Pid : Type 0
Pid = ℕ

-- The field `data`, a reserved word here, is `bytes`.
pub record Message : Type 0 where
  pub sender : Pid
  pub bytes : List ℕ

pub record MessageQueue : Type 0 where
  pub messages : List Message
  pub capacity : ℕ

pub new : ℕ → MessageQueue
new capacity = record { messages = []; capacity = capacity }

-- `Ok(())` and the two errors
pub data Sent : Type 0 where
  ok : Sent
  queue_full : Sent
  no_queue : Sent

pub push : MessageQueue → Message → Sent × MessageQueue
push q msg =
    if leb q.capacity (length q.messages)
    then (queue_full, q)
    else (ok, record q { messages = q.messages ++ (msg ∷ []) })

-- `messages.remove(0)`, if there is a message.
pub take_first : MessageQueue → List Message → Option Message × MessageQueue
take_first q [] = (none, q)
take_first q (msg ∷ rest) = (some msg, record q { messages = rest })

pub pull : MessageQueue → Option Message × MessageQueue
pull q = take_first q q.messages

-- `IPC_QUEUES`, as a function of the index.
abbrev pub Queues : Type 0
Queues = ℕ → Option MessageQueue

abbrev pub slot : Pid → ℕ
slot pid = pid % 256

abbrev pub put : Queues → ℕ → MessageQueue → Queues
put queues index q = λ i. if i == index then some q else queues i

pub init_process_queue : Queues → Pid → ℕ → Queues
init_process_queue queues pid capacity = put queues (slot pid) (new capacity)

pub send : Queues → Pid → Pid → List ℕ → Sent × Queues
send queues to from bytes =
    let msg : Message = record { sender = from; bytes = bytes } in
    elim (queues (slot to)) [
      | some q ↦ let r = push q msg in (r.0, put queues (slot to) r.1)
      | none ↦ (no_queue, queues)
    ]

pub receive : Queues → Pid → Option Message × Queues
receive queues pid = elim (queues (slot pid)) [
  | some q ↦ let r = pull q in (r.0, put queues (slot pid) r.1)
  | none ↦ (none, queues)
]
