-- ===== src/Client/AsyncRpcClient/Responses.antt =====
-- The read loop of czrpc/client/async_rpc_client.hpp over the stream of a server.
use czrpc.Prelude.{ℕ, Bytes, List, [], ◌∷◌, ◌++◌, map, All, ◌≡◌, refl}
use czrpc.Base.Protocol.{ResponseContent, response_header_len}
use czrpc.Wire.Response.{
  response_buffer, read_response_header, response_content_size, make_response_content,
  read_response,
}
use czrpc.Wire.Response.RoundTrip.{IsSendable, read_response-response_buffer}
use czrpc.Client.ReadLoop.{ReadLoop, received, receive}
use czrpc.Client.ReadLoop.Frames.{Frames, rounds_of, IsReading, receive-Frames}

-- The size and the content of a frame, as `async_read_content` and the handler behind it take them.
abbrev pub response_size : Bytes → ℕ
response_size head = response_content_size (read_response_header head)

abbrev pub response_made : Bytes → Bytes → ResponseContent
response_made head content_ = make_response_content (read_response_header head) content_

abbrev responses_stream : List ResponseContent → Bytes → Bytes
responses_stream [] rest = rest
responses_stream (r ∷ rs) rest = response_buffer r ++ responses_stream rs rest

responses-Frames :
    (rs : List ResponseContent) (rest : Bytes)
    → All IsSendable rs
    → Frames response_size response_made response_header_len rs (responses_stream rs rest) rest
unfolding read_response
responses-Frames [] rest s = refl
responses-Frames (r ∷ rs) rest s = (
  responses_stream rs rest,
  read_response-response_buffer r (responses_stream rs rest) s.0,
  responses-Frames rs rest s.1,
)

-- A client that waits for a response hands on the responses that the server has written, each whole, once
-- and in order; what follows them stays in the stream, and the client waits for the next. The numbers
-- and text lengths of the responses are 32-bit words.
responses_received :
    (rs : List ResponseContent) (rest : Bytes) (c : ReadLoop)
    → All IsSendable rs
    → IsReading response_size response_made response_header_len c
    → (end : ReadLoop) × (receive response_size response_made response_header_len
          (rounds_of response_size response_made response_header_len rs)
          (responses_stream rs rest)
          c
        ≡ (rest, (end, map received rs)))
      × IsReading response_size response_made response_header_len end
responses_received rs rest c s r =
    receive-Frames response_size response_made response_header_len rs (responses_stream rs rest)
      rest c (responses-Frames rs rest s) r
