-- ===== src/Client/SendQueue/Order.antt =====
-- The send queue of czrpc/client/client_base.hpp over whole histories.
use czrpc.Prelude.{
  Bytes, true, false, List, [], ◌∷◌, ◌++◌, append-nil, append_assoc, none, ◌≡◌, refl, arith, sym,
  ◌∙◌, ap, if◌then◌else◌,
}
use czrpc.Base.Queue
use czrpc.Client.SendQueue.{SendQueue, Event, posts, written, fails, step, run}

-- The buffers that a history posts, in order.
abbrev pub posted : List Event → List Bytes
posted [] = []
posted (posts buffer ∷ es) = buffer ∷ posted es
posted (e ∷ es) = posted es

-- `resend` is on, and the buffer in flight is the front of the queue.
pub record IsResending (s : SendQueue) : Type 0 where
  pub on : s.is_resend ≡ true
  pub sending : s.in_flight ≡ Queue.front s.send_queue

step-IsResending : (e : Event) (s : SendQueue) → IsResending s → IsResending (step e s)
unfolding step Queue.front
step-IsResending (posts buffer) s h = ground arith
step-IsResending written s h = ground arith
step-IsResending fails s h = ground arith

abbrev all_of : SendQueue → List Bytes
all_of s = s.sent ++ s.send_queue

post_all_of :
    (buffer : Bytes) (s : SendQueue) → all_of (step (posts buffer) s) ≡ all_of s ++ buffer ∷ []
unfolding step
post_all_of buffer s = ground (arith, append_assoc s.sent s.send_queue (buffer ∷ []))

-- A split on the queue: what is in flight goes from its front to the end of what has been sent.
end_all_of :
    (s : SendQueue) (q : List Bytes)
    → s.send_queue ≡ q
    → IsResending s
    → (all_of (step written s) ≡ all_of s) × (all_of (step fails s) ≡ all_of s)
unfolding step Queue.front
end_all_of s [] e h = ground arith
end_all_of s (b ∷ rest) e h = ground (arith, append_assoc s.sent (b ∷ []) rest)

-- A client that resends loses no buffer and writes none twice: whatever writes fail, what has been
-- written whole and then what stands in the queue is what had been there and then what was posted,
-- in this order, and exactly the front of the queue is in flight.
pub run-resends :
    (events : List Event) (s : SendQueue)
    → IsResending s
    → ((run events s).sent ++ (run events s).send_queue ≡ (s.sent ++ s.send_queue) ++ posted events)
      × ((run events s).in_flight ≡ Queue.front (run events s).send_queue)
unfolding run
run-resends [] s h = (sym (append-nil (s.sent ++ s.send_queue)), h.sending)
run-resends (posts b ∷ es) s h =
    let (all, sending) = run-resends es (step (posts b) s) (step-IsResending (posts b) s h) in
    (
      all
          ∙ ap (λ l. l ++ posted es) (post_all_of b s)
          ∙ append_assoc (all_of s) (b ∷ []) (posted es),
      sending,
    )
run-resends (written ∷ es) s h =
    let (all, sending) = run-resends es (step written s) (step-IsResending written s h) in
    (all ∙ ap (λ l. l ++ posted es) (end_all_of s s.send_queue refl h).0, sending)
run-resends (fails ∷ es) s h =
    let (all, sending) = run-resends es (step fails s) (step-IsResending fails s h) in
    (all ∙ ap (λ l. l ++ posted es) (end_all_of s s.send_queue refl h).1, sending)

-- A client that does not resend drops all that waits when a write fails, and is not connected then.
pub fails_drops :
    (s : SendQueue)
    → s.is_resend ≡ false
    → s.in_flight ≡ Queue.front s.send_queue
    → ((step fails s).send_queue ≡ [])
      × ((step fails s).in_flight ≡ none)
      × ((step fails s).sent ≡ s.sent)
      × ((step fails s).is_connected ≡ (if Queue.empty s.send_queue then s.is_connected else false))
unfolding step Queue.front Queue.empty
fails_drops s off sending = ground arith

-- No write fails.
abbrev pub NoFails : List Event → Type 0
NoFails [] = Unit {0}
NoFails (fails ∷ es) = ⊥
NoFails (e ∷ es) = NoFails es

written-all_of :
    (s : SendQueue) (q : List Bytes)
    → s.send_queue ≡ q
    → s.in_flight ≡ Queue.front s.send_queue
    → (all_of (step written s) ≡ all_of s)
      × ((step written s).in_flight ≡ Queue.front (step written s).send_queue)
unfolding step Queue.front
written-all_of s [] e h = ground arith
written-all_of s (b ∷ rest) e h = ground (arith, append_assoc s.sent (b ∷ []) rest)

posts-sending :
    (b : Bytes) (s : SendQueue)
    → s.in_flight ≡ Queue.front s.send_queue
    → (step (posts b) s).in_flight ≡ Queue.front (step (posts b) s).send_queue
unfolding step Queue.front
posts-sending b s h = ground arith

-- While no write fails, a client loses no buffer and writes none twice, whether or not it resends.
pub run-posted :
    (events : List Event) (s : SendQueue)
    → NoFails events
    → s.in_flight ≡ Queue.front s.send_queue
    → (run events s).sent ++ (run events s).send_queue ≡ (s.sent ++ s.send_queue) ++ posted events
unfolding run
run-posted [] s n h = sym (append-nil (s.sent ++ s.send_queue))
run-posted (posts b ∷ es) s n h =
    run-posted es (step (posts b) s) n (posts-sending b s h)
    ∙ ap (λ l. l ++ posted es) (post_all_of b s)
    ∙ append_assoc (all_of s) (b ∷ []) (posted es)
run-posted (written ∷ es) s n h =
    let (same, sending) = written-all_of s s.send_queue refl h in
    run-posted es (step written s) n sending ∙ ap (λ l. l ++ posted es) same
run-posted (fails ∷ es) s n h = absurd n
