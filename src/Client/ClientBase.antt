-- ===== src/Client/ClientBase.antt =====
-- `client_base` of czrpc/client/client_base.hpp: connecting, and the blocking write and read. What the
-- network does is an argument: the attempts to connect, whether a write succeeds, and the bytes that
-- come before the connection ends or is closed. The queue of `async_write` is in Client/SendQueue.
pub mod Connect
use czrpc.Prelude.{
  ℕ, ◌+◌, Bytes, Bool, true, false, not, List, [], ◌∷◌, Option, none, some, leb, if◌then◌else◌,
  Result, ok, throw, Exception, runtime_error,
}
use czrpc.Base.Protocol.{RequestContent, ResponseHeader, ResponseContent, response_header_len}
use czrpc.Wire.Reads.{read_exact}
use czrpc.Wire.Request.{request_buffer}
use czrpc.Wire.Response.{read_response_header, response_content_size, make_response_content}

pub record ClientBase : Type 0 where
  pub connect_timeout : ℕ
  pub request_timeout : ℕ
  pub is_resend : Bool
  pub is_stoped : Bool
  pub is_connected : Bool
  pub is_open : Bool

-- The members as they are initialised.
abbrev pub new_client_base : ClientBase
new_client_base = record {
  connect_timeout = 3;
  request_timeout = 10;
  is_resend = false;
  is_stoped = false;
  is_connected = false;
  is_open = false;
}

unfoldable pub timeout : ℕ → ℕ → ClientBase → ClientBase
timeout connect_timeout request_timeout c = record c {
  connect_timeout = connect_timeout;
  request_timeout = request_timeout;
}

unfoldable pub resend : Bool → ClientBase → ClientBase
resend is_resend c = record c { is_resend = is_resend }

-- The socket is shut down and closed.
unfoldable pub disconnect : ClientBase → ClientBase
disconnect c = record c { is_connected = false; is_open = false }

-- `stop`, but for the end of the io_service and of its thread.
unfoldable pub stop : ClientBase → ClientBase
unfolding disconnect
stop c = disconnect (record c { is_stoped = true })

-- One round of the loop of `connect()`: `boost::asio::connect` succeeds, or throws, and then the clock
-- is read.
pub data Attempt : Type 0 where
  succeeds : Attempt
  fails : Exception → ℕ → Attempt

-- `none`: the attempts have been used up, and the loop goes on.
unfoldable pub connect_loop : ℕ → ℕ → List Attempt → Option (Result (Unit {0}))
connect_loop begin_time connect_timeout [] = none
connect_loop begin_time connect_timeout (succeeds ∷ rest) = some (ok tt)
connect_loop begin_time connect_timeout (fails e now ∷ rest) =
    let again = connect_loop begin_time connect_timeout rest in
    if leb (begin_time + connect_timeout) now then some (throw e) else again

-- Whether this call has connected; an exception leaves the client as it was.
unfoldable pub try_connect : ℕ → List Attempt → ClientBase → Option (ClientBase × Result Bool)
try_connect begin_time attempts c =
    if c.is_connected
    then some (c, ok false)
    else elim (connect_loop begin_time c.connect_timeout attempts) [
      | none ↦ none
      | some (throw e) ↦ some (c, throw e)
      | some (ok done) ↦ some (record c { is_connected = true; is_open = true }, ok true)
    ]

-- `write_impl`: the error of the blocking write, if it has one, and the bytes that go out.
abbrev write_impl : Option Exception → Bytes → ClientBase → ClientBase × Result Bytes
write_impl none buffer c = (c, ok buffer)
write_impl (some e) buffer c = (record c { is_connected = false }, throw e)

unfoldable pub write : Option Exception → RequestContent → ClientBase → ClientBase × Result Bytes
write ec content c = write_impl ec (request_buffer content) c

-- A read that the stream cannot fill fails with the error `e`, and the client disconnects.
read_buffer : Exception → ℕ → Bytes → ClientBase → ClientBase × Result (Bytes × Bytes)
unfolding disconnect
read_buffer e n stream c = elim (read_exact n stream) [
  | none ↦ (disconnect c, throw e)
  | some r ↦ (c, ok r)
]

-- The next statement, unless an exception has been thrown.
abbrev pub and_then :
    {A B : Type 0}
    → ClientBase × Result A
    → (A → ClientBase → ClientBase × Result B)
    → ClientBase × Result B
and_then (c, ok a) next = next a c
and_then (c, throw e) next = (c, throw e)

read_content : Exception → ResponseHeader → Bytes → ClientBase → ClientBase × Result ResponseContent
unfolding read_buffer
read_content e head stream c =
    and_then (read_buffer e (response_content_size head) stream c)
      (λ r c'. (c', ok (make_response_content head r.0)))

-- `read_head` and then `read_content`.
unfoldable pub read : Exception → Bytes → ClientBase → ClientBase × Result ResponseContent
unfolding read_content
read e stream c =
    and_then (read_buffer e response_header_len stream c)
      (λ r c'. read_content e (read_response_header r.0) r.1 c')
