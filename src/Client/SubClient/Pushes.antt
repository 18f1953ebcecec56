-- ===== src/Client/SubClient/Pushes.antt =====
-- The read loop of czrpc/client/sub_client.hpp over the stream of a server.
use czrpc.Prelude.{ℕ, Bytes, List, [], ◌∷◌, ◌++◌, map, All, ◌≡◌, refl}
use czrpc.Base.Protocol.{PushContent, push_header_len}
use czrpc.Wire.Push.{push_buffer, read_push_header, push_content_size, make_push_content, read_push}
use czrpc.Wire.Push.RoundTrip.{IsSendable, read_push-push_buffer}
use czrpc.Client.ReadLoop.{ReadLoop, received, receive}
use czrpc.Client.ReadLoop.Frames.{Frames, rounds_of, IsReading, receive-Frames}

-- The size and the content of a frame, as `async_read_content` and the handler behind it take them.
abbrev pub push_size : Bytes → ℕ
push_size head = push_content_size (read_push_header head)

abbrev pub push_made : Bytes → Bytes → PushContent
push_made head content_ = make_push_content (read_push_header head) content_

abbrev pub pushes_stream : List PushContent → Bytes → Bytes
pushes_stream [] rest = rest
pushes_stream (r ∷ rs) rest = push_buffer r ++ pushes_stream rs rest

pushes-Frames :
    (rs : List PushContent) (rest : Bytes)
    → All IsSendable rs
    → Frames push_size push_made push_header_len rs (pushes_stream rs rest) rest
unfolding read_push
pushes-Frames [] rest s = refl
pushes-Frames (r ∷ rs) rest s = (
  pushes_stream rs rest,
  read_push-push_buffer r (pushes_stream rs rest) s.0,
  pushes-Frames rs rest s.1,
)

-- A client that waits for a push hands on the pushes that the server has written, each whole, once
-- and in order; what follows them stays in the stream, and the client waits for the next. The numbers
-- and text lengths of the pushes are 32-bit words.
pub pushes_received :
    (rs : List PushContent) (rest : Bytes) (c : ReadLoop)
    → All IsSendable rs
    → IsReading push_size push_made push_header_len c
    → (end : ReadLoop) × (receive push_size push_made push_header_len
          (rounds_of push_size push_made push_header_len rs)
          (pushes_stream rs rest)
          c
        ≡ (rest, (end, map received rs)))
      × IsReading push_size push_made push_header_len end
pushes_received rs rest c s r =
    receive-Frames push_size push_made push_header_len rs (pushes_stream rs rest) rest c
      (pushes-Frames rs rest s) r
