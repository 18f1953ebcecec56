-- ===== src/Server/Connection.antt =====
-- `connection` of czrpc/server/connection.hpp: what it does when a read that it has started ends. The
-- asynchronous operations that are outstanding stand in `pending`; a handler returns the connection
-- and what it asks of the rest of the server, or throws out of `io_service::run`.
pub mod Delivery
pub mod Errors
use czrpc.Prelude.{
  ℕ, zero, suc, ◌+◌, Bytes, codes, Bool, true, false, not, ◌&&◌, List, [], ◌∷◌, ◌++◌, Option, none,
  some, is_empty, ◌==◌, if◌then◌else◌, Result, ok, throw, ◌>>=◌, ◌>>◌,
}
use czrpc.Prelude.Decimal.{to_string}
use czrpc.Base.ClientType
use czrpc.Base.ClientType.{ClientType}
use czrpc.Base.Protocol.{
  RequestHeader, RequestContent, ResponseContent, PushContent, request_header_len,
}
use czrpc.Wire.Reads.{read_exact}
use czrpc.Wire.Request.{read_header, content_size, make_content}
use czrpc.Wire.Response.{response_buffer}
use czrpc.Wire.Push.{push_buffer}
use czrpc.Server.SendQueue
use czrpc.Server.SendQueue.{SendQueue, no_writes}

pub record Endpoint : Type 0 where
  pub address : Bytes
  pub port : ℕ

-- What the program sees of a socket. `local_endpoint()` and `remote_endpoint()` are called in the
-- form that throws, so the error codes that are tested after them are never set.
pub record Socket : Type 0 where
  pub is_open : Bool
  pub local_endpoint : Result Endpoint
  pub remote_endpoint : Result Endpoint

-- An `async_read` that has been started.
pub data Read : Type 0 where
  head : Read
  content : ℕ → Read

pub record Connection : Type 0 where
  pub socket : Socket
  pub req_head : RequestHeader
  -- not initialised until the first request has been read
  pub type : ClientType
  pub send : SendQueue
  pub session_id : Bytes
  -- whether the two notifications have been set
  pub has_connect_notify : Bool
  pub has_disconnect_notify : Bool
  pub pending : List Read

pub data Effect : Type 0 where
  -- `route_`
  route : RequestContent → Effect
  -- `handle_error_`
  topic_error : Effect
  -- `client_connect_notify_` and `client_disconnect_notify_`, with the session
  connected : Bytes → Effect
  disconnected : Bytes → Effect

abbrev endpoint_text : Endpoint → Bytes
endpoint_text e = e.address ++ (codes ":" ++ to_string e.port)

-- A session id that has been made once is kept.
unfoldable pub get_session_id : Connection → Result (Connection × Bytes)
get_session_id c =
    if is_empty c.session_id && c.socket.is_open
    then (do
      local ← c.socket.local_endpoint
      remote ← c.socket.remote_endpoint
      let id = endpoint_text local ++ (codes "#" ++ endpoint_text remote)
      ok (record c { session_id = id }, id))
    else ok (c, c.session_id)

abbrev notify : (Bytes → Effect) → Connection × Bytes → Connection × List Effect
notify effect (c, id) = (c, if is_empty id then [] else effect id ∷ [])

unfoldable pub client_connect_notify_callback : Connection → Result (Connection × List Effect)
unfolding get_session_id
client_connect_notify_callback c =
    if c.has_connect_notify then (do r ← get_session_id c; ok (notify connected r)) else ok (c, [])

unfoldable pub client_disconnect_notify_callback : Connection → Result (Connection × List Effect)
unfolding get_session_id
client_disconnect_notify_callback c =
    if c.has_disconnect_notify
    then (do r ← get_session_id c; ok (notify disconnected r))
    else ok (c, [])

unfoldable pub handle_error : Connection → Result (Connection × List Effect)
unfolding client_disconnect_notify_callback
handle_error c = do
  r ← client_disconnect_notify_callback c
  ok (r.0, (if c.type == ClientType.sub_client then topic_error ∷ [] else []) ++ r.1)

unfoldable pub start_read_head : Connection → Connection
start_read_head c = record c { pending = c.pending ++ head ∷ [] }

-- The buffer gets its size from the header that has just been read.
unfoldable pub start_read_content : Connection → Connection
unfolding content_size
start_read_content c = record c { pending = c.pending ++ content (content_size c.req_head) ∷ [] }

-- The handler of `read_head`; `ec` tells whether the read failed.
unfoldable pub on_head : Bool → Bytes → Connection → Result (Connection × List Effect)
unfolding handle_error start_read_content read_header
on_head ec req_head_buf c =
    if not c.socket.is_open
    then handle_error c
    else if ec
    then handle_error c
    else ok (start_read_content (record c { req_head = read_header req_head_buf }), [])

-- The handler of `read_content`, which starts the next read before it looks at its own.
unfoldable pub on_content : Bool → Bytes → Connection → Result (Connection × List Effect)
unfolding handle_error start_read_head make_content
on_content ec content_ c =
    let next = start_read_head c in
    if not c.socket.is_open
    then handle_error next
    else if ec
    then handle_error next
    else (let request = make_content c.req_head content_ in
        ok (record next { type = request.flag.type }, route request ∷ []))

-- The end of the read that was started first: its handler runs without it in `pending`.
unfoldable pub on_read : Bool → Read → Bytes → Connection → Result (Connection × List Effect)
unfolding on_head on_content
on_read ec head buf c = on_head ec buf c
on_read ec (content n) buf c = on_content ec buf c

unfoldable pub start : Connection → Result (Connection × List Effect)
unfolding client_connect_notify_callback start_read_head
start c = do r ← client_connect_notify_callback c; ok (start_read_head r.0, r.1)

unfoldable pub disconnect : Connection → Connection
disconnect c =
    if c.socket.is_open then record c { socket = record c.socket { is_open = false } } else c

-- The two `async_write`.
unfoldable pub async_write_response : ResponseContent → Connection → Connection
async_write_response content' c = record c {
  send = SendQueue.enqueue (response_buffer content') c.send;
}

unfoldable pub async_write_push : PushContent → Connection → Connection
async_write_push content' c = record c { send = SendQueue.enqueue (push_buffer content') c.send }

read_size : Read → ℕ
read_size head = request_header_len
read_size (content n) = n

-- One completion: the read that was started first takes its bytes from the stream, if they have come.
complete_first : Read → List Read → Bytes → Connection → Option ((Bytes × Connection) × List Effect)
unfolding read_size
complete_first r later stream c = elim (read_exact (read_size r) stream) [
  | none ↦ none
  | some (buf, rest) ↦ elim (on_read false r buf (record c { pending = later })) [
    | throw e ↦ none
    | ok (c', effects) ↦ some ((rest, c'), effects)
  ]
]

unfoldable pub complete : Bytes → Connection → Option ((Bytes × Connection) × List Effect)
unfolding complete_first
complete stream c = elim c.pending [ [] ↦ none | r ∷ later ↦ complete_first r later stream c ]

-- `rounds` completions at most.
unfoldable pub receive : ℕ → Bytes → Connection → (Bytes × Connection) × List Effect
receive zero stream c = ((stream, c), [])
receive (suc rounds) stream c = elim (complete stream c) [
  | none ↦ ((stream, c), [])
  | some ((rest, c'), effects) ↦
      let (end, later) = receive rounds rest c' in (end, effects ++ later)
]
