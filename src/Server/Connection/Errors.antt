-- ===== src/Server/Connection/Errors.antt =====
-- Failed reads of czrpc/server/connection.hpp.
use czrpc.Prelude.{
  ℕ, Bytes, true, List, [], ◌∷◌, ◌++◌, ◌==◌, if◌then◌else◌, ok, ◌≡◌, ◌≢◌, refl, arith,
}
use czrpc.Base.ClientType
use czrpc.Base.Protocol.{RequestContent}
use czrpc.Server.Connection.{
  Connection, head, content, Effect, topic_error, connected, disconnected, get_session_id,
  handle_error, on_read, start,
}
use czrpc.Server.Connection.Delivery.{after_request, after_requests}

-- What a connection with a session tells when a read of it fails.
abbrev pub end_effects : Connection → List Effect
end_effects c =
    (if c.type == ClientType.sub_client then topic_error ∷ [] else [])
    ++ (if c.has_disconnect_notify then disconnected c.session_id ∷ [] else [])

-- When the read of a header fails, the connection tells once of its end, and reads no more.
pub head_error_ends :
    (c : Connection) (buf : Bytes)
    → c.pending ≡ []
    → c.session_id ≢ []
    → on_read true head buf c ≡ ok (c, end_effects c)
unfolding on_read handle_error
head_error_ends c buf p s = ground arith

-- When the read of a content fails, the handler has started a read of the next header before it
-- looks at the error. So it tells of the connection's end, and so does, in the same words, the
-- handler of that other read.
pub content_error_ends_twice :
    (c : Connection) (n : ℕ) (buf later : Bytes)
    → c.pending ≡ []
    → c.session_id ≢ []
    → (on_read true (content n) buf c ≡ ok (record c { pending = head ∷ [] }, end_effects c))
      × (on_read true head later c ≡ ok (c, end_effects c))
unfolding on_read handle_error
content_error_ends_twice c n buf later p s = ground arith

session_kept :
    (rs : List RequestContent) (c : Connection)
    → ((after_requests rs c).session_id ≡ c.session_id)
      × ((after_requests rs c).has_disconnect_notify ≡ c.has_disconnect_notify)
session_kept [] c = (refl, refl)
session_kept (r ∷ rs) c = session_kept rs (after_request r c)

start_session :
    (c c' : Connection) (id : Bytes)
    → start c ≡ ok (c', connected id ∷ [])
    → (c'.session_id ≡ id) × (id ≢ []) × (c'.has_disconnect_notify ≡ c.has_disconnect_notify)
unfolding start get_session_id
start_session c c' id e = ground arith

-- A connection that has been announced under a session is, whatever requests it has read since,
-- announced as gone under the same session when the read of a header fails.
pub disconnected-connected :
    (c c' : Connection) (id buf : Bytes) (rs : List RequestContent)
    → start c ≡ ok (c', connected id ∷ [])
    → c.has_disconnect_notify ≡ true
    → let d = record (after_requests rs c') { pending = [] } in
      on_read true head buf d
      ≡ ok (
        d,
        (if d.type == ClientType.sub_client then topic_error ∷ [] else []) ++ disconnected id ∷ [],
      )
disconnected-connected c c' id buf rs e n =
    let d = record (after_requests rs c') { pending = [] } in
    let (named, some_id, kept) = start_session c c' id e in
    let (same, noted) = session_kept rs c' in ground (arith, head_error_ends d buf refl)
