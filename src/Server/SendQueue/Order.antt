-- ===== src/Server/SendQueue/Order.antt =====
-- The send queue of czrpc/server/connection.hpp over whole histories.
use czrpc.Prelude.{Bytes, List, [], ◌∷◌, ◌++◌, ◌≡◌, refl, arith, ◌∙◌, ap}
use czrpc.Base.Queue
use czrpc.Server.SendQueue.{SendQueue, Event, posts, written, fails, step, run}

-- The plain account of the same events: what has been sent, and what waits, the first in front. An
-- error drops all that waits.
pub record Outbox : Type 0 where
  pub sent : List Bytes
  pub waiting : List Bytes

abbrev pub outbox_step : Event → Outbox → Outbox
outbox_step (posts buffer) o = record o { waiting = o.waiting ++ buffer ∷ [] }
outbox_step written o = elim o.waiting [
  | [] ↦ o
  | buffer ∷ rest ↦ record { sent = o.sent ++ buffer ∷ []; waiting = rest }
]
outbox_step fails o = record o { waiting = [] }

abbrev pub outbox_run : List Event → Outbox → Outbox
outbox_run [] o = o
outbox_run (e ∷ es) o = outbox_run es (outbox_step e o)

abbrev pub outbox : SendQueue → Outbox
outbox s = record { sent = s.sent; waiting = s.send_queue }

-- The buffer in flight is the front of the queue: there is one exactly when the queue has a front.
abbrev pub IsSending : SendQueue → Type 0
IsSending s = s.in_flight ≡ Queue.front s.send_queue

step-IsSending : (e : Event) (s : SendQueue) → IsSending s → IsSending (step e s)
unfolding step Queue.front
step-IsSending (posts buffer) s h = ground arith
step-IsSending written s h = ground arith
step-IsSending fails s h = ground arith

outbox-step :
    (e : Event) (s : SendQueue) → IsSending s → outbox (step e s) ≡ outbox_step e (outbox s)
unfolding step Queue.front
outbox-step (posts buffer) s h = ground arith
outbox-step written s h = ground arith
outbox-step fails s h = ground arith

-- From any state in which the front of the queue is in flight, so from a new connection, every
-- history of posts, ends of writes and errors leaves the queue and the sent buffers that the plain
-- account tells, and has exactly the front of the queue in flight.
pub run-outbox :
    (events : List Event) (s : SendQueue)
    → IsSending s
    → (outbox (run events s) ≡ outbox_run events (outbox s)) × IsSending (run events s)
unfolding run
run-outbox [] s h = (refl, h)
run-outbox (e ∷ es) s h =
    let (same, sending) = run-outbox es (step e s) (step-IsSending e s h) in
    (same ∙ ap (outbox_run es) (outbox-step e s h), sending)
