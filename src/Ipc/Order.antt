-- ===== src/Ipc/Order.antt =====
-- The order of messages through the queues of kernel/src/ipc/mod.rs.
use aetherion_os.Base.{
  ℕ, ◌≤◌, ◌≡◌, refl, sym, ap, ◌∙◌, inl, inr, leb, ◌==◌, Bool-cases, if◌then◌else◌, Option, none,
  some, List, [], ◌∷◌, ◌++◌, length, ℕ_discrete, eq→==, ne→==,
}
use mathlib.Core.Path.{subst}
use mathlib.Core.List.{append-nil, append_assoc}
use aetherion_os.Ipc.{
  Pid, Message, MessageQueue, Sent, ok, queue_full, no_queue, push, take_first, pull, Queues, slot,
  put, send, receive,
}

-- The messages that wait in a slot.
abbrev pub waiting : Option MessageQueue → List Message
waiting none = []
waiting (some q) = q.messages

-- A queue holds no more than its capacity.
abbrev pub IsBounded : Option MessageQueue → Type 0
IsBounded none = Unit
IsBounded (some q) = length q.messages ≤ q.capacity

-- A call of a process.
pub data Call : Type 0 where
  send_call : Pid → Pid → List ℕ → Call
  receive_call : Pid → Call

-- What a call puts into slot `i`, what it takes out of it, and the queues after it.
pub record Effect : Type 0 where
  pub accepted : List Message
  pub delivered : List Message
  pub queues : Queues

abbrev accepted_by : Sent → Message → List Message
accepted_by ok msg = msg ∷ []
accepted_by queue_full msg = []
accepted_by no_queue msg = []

abbrev delivered_by : Option Message → List Message
delivered_by none = []
delivered_by (some msg) = msg ∷ []

abbrev pub at_slot : ℕ → Pid → List Message → List Message
at_slot i pid l = if i == slot pid then l else []

abbrev after_send : ℕ → Pid → Message → Sent × Queues → Effect
after_send i to msg r = record {
  accepted = at_slot i to (accepted_by r.0 msg);
  delivered = [];
  queues = r.1;
}

abbrev after_receive : ℕ → Pid → Option Message × Queues → Effect
after_receive i pid r = record {
  accepted = [];
  delivered = at_slot i pid (delivered_by r.0);
  queues = r.1;
}

abbrev pub call : ℕ → Queues → Call → Effect
call i queues (send_call to from bytes) =
    after_send i to (record { sender = from; bytes = bytes }) (send queues to from bytes)
call i queues (receive_call pid) = after_receive i pid (receive queues pid)

abbrev pub calls : ℕ → Queues → List Call → Effect
calls i queues [] = record { accepted = []; delivered = []; queues = queues }
calls i queues (c ∷ cs) =
    let e = call i queues c in
    let rest = calls i e.queues cs in
    record {
      accepted = e.accepted ++ rest.accepted;
      delivered = e.delivered ++ rest.delivered;
      queues = rest.queues;
    }

-- What was waiting and what is accepted is what is delivered and what is waiting then, in order.
abbrev pub InOrder : ℕ → Queues → Effect → Type 0
InOrder i queues e = waiting (queues i) ++ e.accepted ≡ e.delivered ++ waiting (e.queues i)

push_order :
    (q : MessageQueue) (msg : Message)
    → q.messages ++ accepted_by (push q msg).0 msg ≡ (push q msg).1.messages
unfolding push
push_order q msg = elim (Bool-cases (leb q.capacity (length q.messages))) [
  | inl full ↦ rw full (append-nil q.messages)
  | inr room ↦ rw room refl
]

take_first_order :
    (q : MessageQueue) (l : List Message)
    → q.messages ≡ l
    → l ≡ delivered_by (take_first q l).0 ++ (take_first q l).1.messages
unfolding take_first
take_first_order q [] e = sym e
take_first_order q (m ∷ l) e = refl

pull_order : (q : MessageQueue) → q.messages ≡ delivered_by (pull q).0 ++ (pull q).1.messages
unfolding pull
pull_order q = take_first_order q q.messages refl

pub send-some :
    (queues : Queues) (to from : Pid) (bytes : List ℕ) (q : MessageQueue)
    → queues (slot to) ≡ some q
    → send queues to from bytes ≡ (
      (push q (record { sender = from; bytes = bytes })).0,
      put queues (slot to) (push q (record { sender = from; bytes = bytes })).1,
    )
unfolding send
send-some queues to from bytes q e = rw (e, send) refl

pub send-none :
    (queues : Queues) (to from : Pid) (bytes : List ℕ)
    → queues (slot to) ≡ none
    → send queues to from bytes ≡ (no_queue, queues)
unfolding send
send-none queues to from bytes e = rw (e, send) refl

pub receive-some :
    (queues : Queues) (pid : Pid) (q : MessageQueue)
    → queues (slot pid) ≡ some q
    → receive queues pid ≡ ((pull q).0, put queues (slot pid) (pull q).1)
unfolding receive
receive-some queues pid q e = rw (e, receive) refl

pub receive-none :
    (queues : Queues) (pid : Pid) → queues (slot pid) ≡ none → receive queues pid ≡ (none, queues)
unfolding receive
receive-none queues pid e = rw (e, receive) refl

send_order :
    (i : ℕ) (queues : Queues) (to : Pid) (msg : Message) (o : Option MessageQueue)
    → queues (slot to) ≡ o
    → InOrder i queues (after_send i to msg (send queues to msg.sender msg.bytes))
send_order i queues to msg none e =
    subst (λ (r : Sent × Queues). InOrder i queues (after_send i to msg r))
      (sym (send-none queues to msg.sender msg.bytes e))
      (elim (ℕ_discrete i (slot to)) [
        | yes here ↦ rw (eq→== i (slot to) here) (append-nil (waiting (queues i)))
        | no away ↦ rw (ne→== i (slot to) away) (append-nil (waiting (queues i)))
      ])
send_order i queues to msg (some q) e =
    subst (λ (r : Sent × Queues). InOrder i queues (after_send i to msg r))
      (sym (send-some queues to msg.sender msg.bytes q e))
      (elim (ℕ_discrete i (slot to)) [
        | yes here ↦ rw (eq→== i (slot to) here) (
            ap (λ (o : Option MessageQueue). waiting o ++ accepted_by (push q msg).0 msg)
              (ap queues here ∙ e)
            ∙ push_order q msg)
        | no away ↦ rw (ne→== i (slot to) away) (append-nil (waiting (queues i)))
      ])

receive_order :
    (i : ℕ) (queues : Queues) (pid : Pid) (o : Option MessageQueue)
    → queues (slot pid) ≡ o
    → InOrder i queues (after_receive i pid (receive queues pid))
receive_order i queues pid none e =
    subst (λ (r : Option Message × Queues). InOrder i queues (after_receive i pid r))
      (sym (receive-none queues pid e))
      (elim (ℕ_discrete i (slot pid)) [
        | yes here ↦ rw (eq→== i (slot pid) here) (append-nil (waiting (queues i)))
        | no away ↦ rw (ne→== i (slot pid) away) (append-nil (waiting (queues i)))
      ])
receive_order i queues pid (some q) e =
    subst (λ (r : Option Message × Queues). InOrder i queues (after_receive i pid r))
      (sym (receive-some queues pid q e))
      (elim (ℕ_discrete i (slot pid)) [
        | yes here ↦
            rw (eq→== i (slot pid) here)
              (append-nil (waiting (queues i)) ∙ ap waiting (ap queues here ∙ e) ∙ pull_order q)
        | no away ↦ rw (ne→== i (slot pid) away) (append-nil (waiting (queues i)))
      ])

call_order : (i : ℕ) (queues : Queues) (c : Call) → InOrder i queues (call i queues c)
call_order i queues (send_call to from bytes) =
    send_order i queues to (record { sender = from; bytes = bytes }) (queues (slot to)) refl
call_order i queues (receive_call pid) = receive_order i queues pid (queues (slot pid)) refl

-- Whatever processes send and receive, in whatever order: the messages that wait in a slot, and
-- after them those that the slot accepts, are those that it delivers, and after them those that
-- wait in the end. So each slot is first-in first-out, and loses and doubles no message.
pub calls_order : (i : ℕ) (cs : List Call) (queues : Queues) → InOrder i queues (calls i queues cs)
calls_order i [] queues = append-nil (waiting (queues i))
calls_order i (c ∷ cs) queues =
    let e = call i queues c in
    let rest = calls i e.queues cs in
    sym (append_assoc (waiting (queues i)) e.accepted rest.accepted)
    ∙ ap (λ (l : List Message). l ++ rest.accepted) (call_order i queues c)
    ∙ append_assoc e.delivered (waiting (e.queues i)) rest.accepted
    ∙ ap (λ (l : List Message). e.delivered ++ l) (calls_order i cs e.queues)
    ∙ sym (append_assoc e.delivered rest.delivered (waiting (rest.queues i)))
