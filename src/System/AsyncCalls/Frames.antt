-- ===== src/System/AsyncCalls/Frames.antt =====
-- The frames of many calls, of `client_base::async_write` and `connection::route` in czrpc/client/client_base.hpp
-- and czrpc/server/connection.hpp, and the lists of the calls that they stand for.
use czrpc.Prelude.{
  ℕ, suc, ◌+◌, ◌<◌, ◌≤◌, Bytes, List, [], ◌∷◌, ◌++◌, append_assoc, map, some, length, length-append,
  length-map, length-take_le, take, concat, ◌≡◌, refl, ap, ◌∙◌, arith,
}
use czrpc.Base.Protocol.{ResponseContent, response_header_len}
use czrpc.Wire.Word.{u32_mod}
use czrpc.Wire.Reads.{read_frame}
use czrpc.Wire.Request.{request_buffer}
use czrpc.Wire.Response.{response_buffer, read_response}
use czrpc.Wire.Response.RoundTrip as ResponseTrip
use czrpc.Server.Connection.{Effect, route}
use czrpc.Server.Connection.Delivery.{stream_of}
use czrpc.Server.Work.{Task}
use czrpc.Client.AsyncRpcClient as AsyncRpcClient
use czrpc.Client.AsyncRpcClient.{AsyncRpcClient, dispatch, write}
use czrpc.Client.AsyncRpcClient.Responses.{response_size, response_made}
use czrpc.System.Delivery.{map-prefix}
use czrpc.System.AsyncCalls.{Call, numbered, request_of}
use czrpc.System.AsyncCalls.Routed.{numbered-take}

-- The frames that a client posts.
abbrev pub requests_of : List AsyncRpcClient.Output → List Bytes
requests_of [] = []
requests_of (write content ∷ rest) = request_buffer content ∷ requests_of rest
requests_of (o ∷ rest) = requests_of rest

-- The tasks that a connection gives to the pool.
abbrev pub tasks_of : ℕ → List Effect → List Task
tasks_of conn [] = []
tasks_of conn (route content ∷ rest) = (content, conn) ∷ tasks_of conn rest
tasks_of conn (e ∷ rest) = tasks_of conn rest

pub requests_of-write :
    (xs : List (ℕ × Call))
    → requests_of (map (λ x. write (request_of x)) xs) ≡ map (λ x. request_buffer (request_of x)) xs
requests_of-write [] = refl
requests_of-write (x ∷ xs) = ap (◌∷◌ (request_buffer (request_of x))) (requests_of-write xs)

pub tasks_of-route :
    (conn : ℕ) (xs : List (ℕ × Call))
    → tasks_of conn (map route (map request_of xs)) ≡ map (λ x. (request_of x, conn)) xs
tasks_of-route conn [] = refl
tasks_of-route conn (x ∷ xs) = ap (◌∷◌ (request_of x, conn)) (tasks_of-route conn xs)

pub stream_of-concat :
    (xs : List (ℕ × Call)) (rest : Bytes)
    → concat (map (λ x. request_buffer (request_of x)) xs) ++ rest
      ≡ stream_of (map request_of xs) rest
stream_of-concat [] rest = refl
stream_of-concat (x ∷ xs) rest =
    append_assoc (request_buffer (request_of x))
      (concat (map (λ y. request_buffer (request_of y)) xs)) rest
    ∙ ap (λ b. request_buffer (request_of x) ++ b) (stream_of-concat xs rest)

pub length-numbered : (last : ℕ) (calls : List Call) → length (numbered last calls) ≡ length calls
length-numbered last [] = refl
length-numbered last (call ∷ calls) = ap suc (length-numbered (suc last) calls)

-- What stands first among the values on the numbered calls are those on the first calls.
pub numbered-prefix {κ} :
    {B : Type κ} (f : ℕ × Call → B) (last : ℕ) (calls : List Call) (xs ys : List B)
    → xs ++ ys ≡ map f (numbered last calls)
    → (xs ≡ map f (numbered last (take (length xs) calls))) × (length xs ≤ length calls)
numbered-prefix f last calls xs ys e = (
  map-prefix f xs ys (numbered last calls) e ∙ ap (map f) (numbered-take (length xs) last calls),
  omega (
    arith,
    length-append xs ys,
    ap length e,
    length-map f (numbered last calls),
    length-numbered last calls,
  ),
)

pub small_take :
    (i n : ℕ) (calls : List Call) → n + length calls < u32_mod → n + length (take i calls) < u32_mod
small_take i n calls h = omega (arith, length-take_le i calls, h)

pub response_read :
    (content : ResponseContent) (rest : Bytes)
    → ResponseTrip.IsSendable content
    → read_frame response_header_len response_size response_made (response_buffer content ++ rest)
      ≡ some (content, rest)
unfolding read_response
response_read content rest s = ResponseTrip.read_response-response_buffer content rest s
