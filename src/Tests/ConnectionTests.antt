-- ===== src/Tests/ConnectionTests.antt =====
-- A server's connection at concrete inputs.
use czrpc.Prelude.{codes, true, List, [], ◌∷◌, ok, ◌≡◌, refl, map, All, arith}
use czrpc.Base.Queue
use czrpc.Base.Protocol.{RequestContent}
use czrpc.Wire.Request.RoundTrip.{IsSendable}
use czrpc.Server.SendQueue as SendQueue
use czrpc.Server.SendQueue.{no_writes, posts, written, fails}
use czrpc.Server.SendQueue.Order.{outbox, run-outbox}
use czrpc.Server.Connection.{Connection, route, disconnected, head, content, on_read, receive}
use czrpc.Server.Connection.Delivery.{after_requests, stream_of, receive-stream_of}
use czrpc.Server.Connection.Errors.{content_error_ends_twice}
use czrpc.Tests.Sample.{new_connection, echo_request, subscribe_request}

abbrev some_writes : List SendQueue.Event
some_writes = posts (codes "a") ∷ posts (codes "b") ∷ written ∷ fails ∷ posts (codes "c") ∷ []

run-outbox_example :
    (outbox (SendQueue.run some_writes no_writes)
      ≡ record { sent = codes "a" ∷ []; waiting = codes "c" ∷ [] })
    × ((SendQueue.run some_writes no_writes).in_flight
        ≡ Queue.front (SendQueue.run some_writes no_writes).send_queue)
unfolding Queue.front
run-outbox_example = run-outbox some_writes no_writes refl

requests-IsSendable :
    All IsSendable (echo_request ∷ subscribe_request (codes "news") (codes "1") ∷ [])
requests-IsSendable =
    let sendable : IsSendable echo_request = record {
      call_id = omega arith;
      mode = omega arith;
      type = omega arith;
      protocol = omega arith;
      message_name = omega arith;
      body = omega arith;
    } in
    let sendable' : IsSendable (subscribe_request (codes "news") (codes "1")) = record {
      call_id = omega arith;
      mode = omega arith;
      type = omega arith;
      protocol = omega arith;
      message_name = omega arith;
      body = omega arith;
    } in
    (sendable, (sendable', tt))

abbrev two_requests : List RequestContent
two_requests = echo_request ∷ subscribe_request (codes "news") (codes "1") ∷ []

abbrev waiting_connection : Connection
waiting_connection = record new_connection { pending = head ∷ [] }

receive-stream_of_example :
    receive 4 (stream_of two_requests (codes "rest")) waiting_connection
    ≡ ((codes "rest", after_requests two_requests waiting_connection), map route two_requests)
receive-stream_of_example =
    receive-stream_of two_requests (codes "rest") waiting_connection requests-IsSendable refl refl

abbrev known_connection : Connection
known_connection = record new_connection { session_id = codes "a:1#b:2" }

content_error_ends_twice_example :
    (on_read true (content 5) [] known_connection
      ≡ ok (record known_connection { pending = head ∷ [] }, disconnected (codes "a:1#b:2") ∷ []))
    × (on_read true head [] known_connection
        ≡ ok (known_connection, disconnected (codes "a:1#b:2") ∷ []))
content_error_ends_twice_example = content_error_ends_twice known_connection 5 [] [] refl (λ e. cc)
