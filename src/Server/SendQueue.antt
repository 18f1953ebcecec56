-- ===== src/Server/SendQueue.antt =====
-- The send queue of a server's connection: the two `async_write_impl` of
-- czrpc/server/connection.hpp. Both run on the connection's io_service, one handler at a time.
pub mod Order
use czrpc.Prelude.{
  ℕ, Bytes, Bool, true, false, List, [], ◌∷◌, ◌++◌, Option, none, some, if◌then◌else◌,
}
use czrpc.Base.Queue
use czrpc.Base.Queue.{Queue}

pub record SendQueue : Type 0 where
  pub send_queue : Queue Bytes
  -- the buffer of the `boost::asio::async_write` that has been started and has not ended
  pub in_flight : Option Bytes
  -- the buffers that have been written whole, in order
  pub sent : List Bytes

abbrev pub no_writes : SendQueue
no_writes = record { send_queue = []; in_flight = none; sent = [] }

-- `async_write_impl()`: a write of the front.
unfoldable pub start_write : SendQueue → SendQueue
unfolding Queue.front
start_write s = record s { in_flight = Queue.front s.send_queue }

-- The handler that `async_write_impl(buffer)` posts.
unfoldable pub enqueue : Bytes → SendQueue → SendQueue
unfolding start_write Queue.emplace_back Queue.empty
enqueue buffer s =
    let queued = record s { send_queue = Queue.emplace_back buffer s.send_queue } in
    if Queue.empty s.send_queue then start_write queued else queued

-- The end of the write of `buffer`, with or without an error.
unfoldable pub on_written : Bool → Bytes → SendQueue → SendQueue
unfolding start_write Queue.pop_front Queue.empty Queue.clear
on_written false buffer s =
    let rest = Queue.pop_front s.send_queue in
    let popped = record s { send_queue = rest; in_flight = none; sent = s.sent ++ buffer ∷ [] } in
    if Queue.empty rest then popped else start_write popped
on_written true buffer s = record s { send_queue = Queue.clear s.send_queue; in_flight = none }

pub data Event : Type 0 where
  posts : Bytes → Event
  written : Event
  fails : Event

-- A write that is not in flight cannot end.
ends : Bool → Option Bytes → SendQueue → SendQueue
unfolding on_written
ends ec none s = s
ends ec (some buffer) s = on_written ec buffer s

unfoldable pub step : Event → SendQueue → SendQueue
unfolding ends enqueue
step (posts buffer) s = enqueue buffer s
step written s = ends false s.in_flight s
step fails s = ends true s.in_flight s

unfoldable pub run : List Event → SendQueue → SendQueue
unfolding step
run [] s = s
run (e ∷ es) s = run es (step e s)
