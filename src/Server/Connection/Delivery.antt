-- ===== src/Server/Connection/Delivery.antt =====
-- The reads of czrpc/server/connection.hpp over the stream of a client.
use czrpc.Prelude.{
  ℕ, suc, Bytes, true, List, [], ◌∷◌, ◌++◌, map, some, length, All, ◌≡◌, refl, arith, ◌∙◌, ap, sym,
}
use czrpc.Base.Protocol.{RequestHeader, RequestContent}
use czrpc.Wire.Word.{put_u32}
use czrpc.Wire.Reads.{read_exact-append}
use czrpc.Wire.Request.{request_buffer, request_header_of, read_header, content_size, make_content}
use czrpc.Wire.Request.RoundTrip
use czrpc.Wire.Request.RoundTrip.{
  IsSendable, header-read, content-size, content-made, content_bytes,
}
use czrpc.Server.Connection.{
  Connection, head, content, Effect, route, on_read, complete, complete_first, read_size, receive,
}

header_completes :
    (h rest : Bytes) (c : Connection)
    → length h ≡ 12
    → c.pending ≡ head ∷ []
    → c.socket.is_open ≡ true
    → complete (h ++ rest) c
      ≡ some (
        (
          rest,
          record c {
            req_head = read_header h;
            pending = content (content_size (read_header h)) ∷ [];
          },
        ),
        [],
      )
unfolding complete complete_first read_size on_read
header_completes h rest c fits p o = ground (arith, read_exact-append 12 h rest fits)

content_completes :
    (b rest : Bytes) (n : ℕ) (c : Connection)
    → length b ≡ n
    → c.pending ≡ content n ∷ []
    → c.socket.is_open ≡ true
    → complete (b ++ rest) c
      ≡ some (
        (rest, record c { type = (make_content c.req_head b).flag.type; pending = head ∷ [] }),
        route (make_content c.req_head b) ∷ [],
      )
unfolding complete complete_first read_size on_read
content_completes b rest n c fits p o = ground (arith, read_exact-append n b rest fits)

-- The connection when it has read the request `r` and waits for the next one.
abbrev pub after_request : RequestContent → Connection → Connection
after_request r c = record c {
  req_head = request_header_of r;
  type = r.flag.type;
  pending = head ∷ [];
}

abbrev behind :
    List Effect → (Bytes × Connection) × List Effect → (Bytes × Connection) × List Effect
behind effects (end, later) = (end, effects ++ later)

receive_step :
    (n : ℕ) (stream rest : Bytes) (c c' : Connection) (effects : List Effect)
    → complete stream c ≡ some ((rest, c'), effects)
    → receive (suc n) stream c ≡ behind effects (receive n rest c')
unfolding receive
receive_step n stream rest c c' effects e = rw (e, receive)

buffer_split :
    (r : RequestContent) (rest : Bytes)
    → request_buffer r ++ rest ≡ RoundTrip.head r ++ (content_bytes r ++ rest)
unfolding request_buffer put_u32
buffer_split r rest = refl

header_is_12 : (r : RequestContent) → length (RoundTrip.head r) ≡ 12
unfolding put_u32
header_is_12 r = refl

module _ (r : RequestContent) (rest : Bytes) (c : Connection) (s : IsSendable r)
    (p : c.pending ≡ head ∷ []) (o : c.socket.is_open ≡ true) where
  abbrev between : Connection
  between = record c {
    req_head = request_header_of r;
    pending = content (content_size (request_header_of r)) ∷ [];
  }

  head_read : complete (request_buffer r ++ rest) c ≡ some ((content_bytes r ++ rest, between), [])
  head_read = rw (buffer_split r rest) (
      header_completes (RoundTrip.head r) (content_bytes r ++ rest) c (header_is_12 r) p o
      ∙ ap
          (λ (h : RequestHeader). some (
            (
              content_bytes r ++ rest,
              record c { req_head = h; pending = content (content_size h) ∷ [] },
            ),
            [],
          ))
          (header-read r))

  content_read :
      complete (content_bytes r ++ rest) between ≡ some ((rest, after_request r c), route r ∷ [])
  content_read =
      content_completes (content_bytes r) rest _ between (sym (content-size r s)) refl o
      ∙ ap
          (λ (d : RequestContent).
            some ((rest, record between { type = d.flag.type; pending = head ∷ [] }), route d ∷ []))
          (content-made r s)

  receive_request :
      (n : ℕ)
      → receive (suc (suc n)) (request_buffer r ++ rest) c
        ≡ behind (route r ∷ []) (receive n rest (after_request r c))
  receive_request n =
      receive_step (suc n) _ _ c between [] head_read
      ∙ receive_step n _ _ between (after_request r c) (route r ∷ []) content_read

-- The stream of a list of requests, and the rounds that it takes.
abbrev pub stream_of : List RequestContent → Bytes → Bytes
stream_of [] rest = rest
stream_of (r ∷ rs) rest = request_buffer r ++ stream_of rs rest

abbrev pub rounds_of : List RequestContent → ℕ
rounds_of [] = 0
rounds_of (r ∷ rs) = suc (suc (rounds_of rs))

abbrev pub after_requests : List RequestContent → Connection → Connection
after_requests [] c = c
after_requests (r ∷ rs) c = after_requests rs (after_request r c)

-- An open connection that waits for a request hands on the requests of its stream, each whole, once
-- and in order, in two reads for each; what follows them stays in the stream, and the connection
-- waits for the next request.
pub receive-stream_of :
    (rs : List RequestContent) (rest : Bytes) (c : Connection)
    → All IsSendable rs
    → c.pending ≡ head ∷ []
    → c.socket.is_open ≡ true
    → receive (rounds_of rs) (stream_of rs rest) c ≡ ((rest, after_requests rs c), map route rs)
unfolding receive
receive-stream_of [] rest c s p o = refl
receive-stream_of (r ∷ rs) rest c s p o =
    receive_request r (stream_of rs rest) c s.0 p o (rounds_of rs)
    ∙ ap (behind (route r ∷ [])) (receive-stream_of rs rest (after_request r c) s.1 refl o)
