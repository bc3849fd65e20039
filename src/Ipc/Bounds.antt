-- ===== src/Ipc/Bounds.antt =====
-- The capacity of the queues of kernel/src/ipc/mod.rs, and who shares one.
use aetherion_os.Base.{
  ℕ, ◌≤◌, ◌≡◌, ◌≢◌, refl, sym, ap, inl, inr, leb, Bool-cases, Option, none, some, List, [], ◌∷◌,
  length, length-append, arith, ℕ_discrete, eq→==, ne→==,
}
use mathlib.Core.Path.{subst}
use aetherion_os.Ipc.{
  Pid, Message, MessageQueue, Sent, push, take_first, pull, Queues, slot, put, send, receive,
  init_process_queue, new,
}
use aetherion_os.Ipc.Order.{
  IsBounded, Call, send_call, receive_call, call, calls, send-some, send-none, receive-some,
  receive-none,
}

abbrev pub AllBounded : Queues → Type 0
AllBounded queues = (i : ℕ) → IsBounded (queues i)

put_here : (queues : Queues) (k : ℕ) (q : MessageQueue) (i : ℕ) → i ≡ k → put queues k q i ≡ some q
put_here queues k q i e = rw (eq→== i k e) refl

put_away :
    (queues : Queues) (k : ℕ) (q : MessageQueue) (i : ℕ) → i ≢ k → put queues k q i ≡ queues i
put_away queues k q i ne = rw (ne→== i k ne) refl

put-AllBounded :
    (queues : Queues) (k : ℕ) (q : MessageQueue)
    → AllBounded queues
    → IsBounded (some q)
    → AllBounded (put queues k q)
put-AllBounded queues k q all one i = elim (ℕ_discrete i k) [
  | yes e ↦ subst IsBounded (sym (put_here queues k q i e)) one
  | no ne ↦ subst IsBounded (sym (put_away queues k q i ne)) (all i)
]

push-IsBounded :
    (q : MessageQueue) (msg : Message) → IsBounded (some q) → IsBounded (some (push q msg).1)
unfolding push
push-IsBounded q msg h = elim (Bool-cases (leb q.capacity (length q.messages))) [
  | inl full ↦ rw full h
  | inr room ↦ rw room (ground (arith, room, length-append q.messages (msg ∷ [])))
]

take_first-IsBounded :
    (q : MessageQueue) (l : List Message)
    → q.messages ≡ l
    → length l ≤ q.capacity
    → IsBounded (some (take_first q l).1)
unfolding take_first
take_first-IsBounded q [] e h = omega (arith, ap length e)
take_first-IsBounded q (m ∷ l) e h = omega (arith, h)

send-AllBounded :
    (queues : Queues) (to from : Pid) (bytes : List ℕ) (o : Option MessageQueue)
    → queues (slot to) ≡ o
    → AllBounded queues
    → AllBounded (send queues to from bytes).1
send-AllBounded queues to from bytes none e all =
    subst (λ (r : Sent × Queues). AllBounded r.1) (sym (send-none queues to from bytes e)) all
send-AllBounded queues to from bytes (some q) e all =
    subst (λ (r : Sent × Queues). AllBounded r.1) (sym (send-some queues to from bytes q e))
      (put-AllBounded queues (slot to) _ all
        (push-IsBounded q _ (subst IsBounded e (all (slot to)))))

receive-AllBounded :
    (queues : Queues) (pid : Pid) (o : Option MessageQueue)
    → queues (slot pid) ≡ o
    → AllBounded queues
    → AllBounded (receive queues pid).1
unfolding pull
receive-AllBounded queues pid none e all =
    subst (λ (r : Option Message × Queues). AllBounded r.1) (sym (receive-none queues pid e)) all
receive-AllBounded queues pid (some q) e all =
    subst (λ (r : Option Message × Queues). AllBounded r.1) (sym (receive-some queues pid q e))
      (put-AllBounded queues (slot pid) _ all
        (take_first-IsBounded q q.messages refl (subst IsBounded e (all (slot pid)))))

call-AllBounded :
    (c : Call) (k : ℕ) (queues : Queues) → AllBounded queues → AllBounded (call k queues c).queues
call-AllBounded (send_call to from bytes) k queues all =
    send-AllBounded queues to from bytes (queues (slot to)) refl all
call-AllBounded (receive_call pid) k queues all =
    receive-AllBounded queues pid (queues (slot pid)) refl all

-- If no queue holds more than its capacity, none does after whatever sends and receives, nor after
-- a queue is made anew.
pub calls-AllBounded :
    (cs : List Call) (k : ℕ) (pid : Pid) (capacity : ℕ) (queues : Queues)
    → AllBounded queues
    → AllBounded (calls k queues cs).queues × AllBounded (init_process_queue queues pid capacity)
unfolding init_process_queue new
calls-AllBounded [] k pid capacity queues all = (
  all,
  put-AllBounded queues (slot pid) (record { messages = []; capacity = capacity }) all
      (omega arith),
)
calls-AllBounded (c ∷ cs) k pid capacity queues all =
    let one : AllBounded (call k queues c).queues = call-AllBounded c k queues all in
    (
      (calls-AllBounded cs k pid capacity (call k queues c).queues one).0,
      put-AllBounded queues (slot pid) (record { messages = []; capacity = capacity }) all
          (omega arith),
    )
