-- ===== src/Wire/Push.antt =====
-- Pushes on the wire: `async_write` and `get_buffer` of czrpc/server/connection.hpp lay one out, and
-- `async_read_head`, `async_read_content` and `make_push_content` of czrpc/client/sub_client.hpp
-- read it back.
pub mod RoundTrip
use czrpc.Prelude.{ℕ, ◌+◌, Bytes, ◌++◌, length, drop, Option, none, some, List, [], ◌∷◌}
use czrpc.Prelude.Slices.{slice}
use czrpc.Base.Protocol.{PushHeader, PushContent, PushData, push_header_len}
use czrpc.Wire.Word.{put_u32, get_u32, to_u32}
use czrpc.Wire.Reads.{read_frame}

unfoldable pub push_header_of : PushContent → PushHeader
push_header_of content = record {
  protocol_len = to_u32 (length content.protocol);
  message_name_len = to_u32 (length content.message_name);
  body_len = to_u32 (length content.body);
}

abbrev pub header_bytes : PushHeader → Bytes
header_bytes h = put_u32 h.protocol_len ++ put_u32 h.message_name_len ++ put_u32 h.body_len

unfoldable pub push_get_buffer : PushData → Bytes
push_get_buffer data' =
    header_bytes data'.header
    ++ (put_u32 data'.content.mode
        ++ (data'.content.protocol ++ (data'.content.message_name ++ data'.content.body)))

-- What `async_write(const push_content&)` hands to the send queue.
unfoldable pub push_buffer : PushContent → Bytes
unfolding push_header_of push_get_buffer
push_buffer content =
    push_get_buffer (record { header = push_header_of content; content = content })

-- `memcpy(&push_head_, push_head_buf_, sizeof(push_head_buf_))`
unfoldable pub read_push_header : Bytes → PushHeader
read_push_header buf = record {
  protocol_len = get_u32 buf;
  message_name_len = get_u32 (drop 4 buf);
  body_len = get_u32 (drop 8 buf);
}

unfoldable pub push_content_size : PushHeader → ℕ
push_content_size h = 4 + h.protocol_len + h.message_name_len + h.body_len

unfoldable pub make_push_content : PushHeader → Bytes → PushContent
make_push_content h content_ = record {
  mode = get_u32 content_;
  protocol = slice 4 h.protocol_len content_;
  message_name = slice (4 + h.protocol_len) h.message_name_len content_;
  body = slice (4 + h.protocol_len + h.message_name_len) h.body_len content_;
}

-- One round of `async_read_head` and `async_read_content`: a push, and the stream behind it.
unfoldable pub read_push : Bytes → Option (PushContent × Bytes)
read_push =
    read_frame push_header_len (λ head. push_content_size (read_push_header head))
      (λ head content_. make_push_content (read_push_header head) content_)
