-- ===== src/Wire/Request.antt =====
-- Requests on the wire: `client_base::async_write`, `write` and `get_buffer` of
-- czrpc/client/client_base.hpp lay one out, and `read_head`, `read_content` and `make_content` of
-- czrpc/server/connection.hpp read it back.
pub mod Bounds
pub mod RoundTrip
use czrpc.Prelude.{ℕ, ◌+◌, Bytes, ◌++◌, length, drop, Option, none, some, List, [], ◌∷◌}
use czrpc.Prelude.Slices.{slice}
use czrpc.Base.Protocol.{RequestHeader, RequestContent, RequestData, ClientFlag, request_header_len}
use czrpc.Wire.Word.{put_u32, get_u32, to_u32}
use czrpc.Wire.Reads.{read_frame}

unfoldable pub request_header_of : RequestContent → RequestHeader
request_header_of content = record {
  protocol_len = to_u32 (length content.protocol);
  message_name_len = to_u32 (length content.message_name);
  body_len = to_u32 (length content.body);
}

abbrev pub header_bytes : RequestHeader → Bytes
header_bytes h = put_u32 h.protocol_len ++ put_u32 h.message_name_len ++ put_u32 h.body_len

abbrev pub flag_bytes : ClientFlag → Bytes
flag_bytes f = put_u32 f.mode ++ put_u32 f.type

unfoldable pub get_buffer : RequestData → Bytes
get_buffer data' =
    header_bytes data'.header
    ++ (put_u32 data'.content.call_id
        ++ (flag_bytes data'.content.flag
            ++ (data'.content.protocol ++ (data'.content.message_name ++ data'.content.body))))

-- What `async_write` hands to the send queue, and `write` to the socket.
unfoldable pub request_buffer : RequestContent → Bytes
unfolding request_header_of get_buffer
request_buffer content =
    get_buffer (record { header = request_header_of content; content = content })

-- `memcpy(&req_head_, req_head_buf_, sizeof(req_head_buf_))`
unfoldable pub read_header : Bytes → RequestHeader
read_header buf = record {
  protocol_len = get_u32 buf;
  message_name_len = get_u32 (drop 4 buf);
  body_len = get_u32 (drop 8 buf);
}

-- The size of `content_`: the sum is one of `size_t`, and three words cannot overflow it.
unfoldable pub content_size : RequestHeader → ℕ
content_size h = 4 + 8 + h.protocol_len + h.message_name_len + h.body_len

unfoldable pub make_content : RequestHeader → Bytes → RequestContent
make_content h content_ = record {
  call_id = get_u32 content_;
  flag = record { mode = get_u32 (drop 4 content_); type = get_u32 (drop 8 content_) };
  protocol = slice (4 + 8) h.protocol_len content_;
  message_name = slice (4 + 8 + h.protocol_len) h.message_name_len content_;
  body = slice (4 + 8 + h.protocol_len + h.message_name_len) h.body_len content_;
}

-- One round of `read_head` and `read_content`: a request, and the stream behind it.
unfoldable pub read_request : Bytes → Option (RequestContent × Bytes)
read_request =
    read_frame request_header_len (λ head. content_size (read_header head))
      (λ head content_. make_content (read_header head) content_)
