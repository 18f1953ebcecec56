-- ===== src/Wire/Response.antt =====
-- Responses on the wire: `async_write` and `get_buffer` of czrpc/server/connection.hpp lay one out,
-- and `read`, `read_content` and `make_response_content` of czrpc/client/client_base.hpp (for the
-- asynchronous client `async_read_head` and `async_read_content`) read it back.
pub mod RoundTrip
use czrpc.Prelude.{ℕ, ◌+◌, Bytes, ◌++◌, length, drop, Option, none, some, List, [], ◌∷◌}
use czrpc.Prelude.Slices.{slice}
use czrpc.Base.Protocol.{ResponseHeader, ResponseContent, ResponseData, response_header_len}
use czrpc.Wire.Word.{put_u32, get_u32, to_u32}
use czrpc.Wire.Reads.{read_frame}

unfoldable pub response_header_of : ResponseContent → ResponseHeader
response_header_of content = record {
  message_name_len = to_u32 (length content.message_name);
  body_len = to_u32 (length content.body);
}

abbrev pub header_bytes : ResponseHeader → Bytes
header_bytes h = put_u32 h.message_name_len ++ put_u32 h.body_len

unfoldable pub response_get_buffer : ResponseData → Bytes
response_get_buffer data' =
    header_bytes data'.header
    ++ (put_u32 data'.content.call_id
        ++ (put_u32 data'.content.code ++ (data'.content.message_name ++ data'.content.body)))

-- What `async_write(const response_content&)` hands to the send queue.
unfoldable pub response_buffer : ResponseContent → Bytes
unfolding response_header_of response_get_buffer
response_buffer content =
    response_get_buffer (record { header = response_header_of content; content = content })

-- `memcpy(&rsp_head_, rsp_head_buf_, sizeof(rsp_head_buf_))`
unfoldable pub read_response_header : Bytes → ResponseHeader
read_response_header buf = record {
  message_name_len = get_u32 buf;
  body_len = get_u32 (drop 4 buf);
}

unfoldable pub response_content_size : ResponseHeader → ℕ
response_content_size h = 4 + 4 + h.message_name_len + h.body_len

unfoldable pub make_response_content : ResponseHeader → Bytes → ResponseContent
make_response_content h rsp_content_ = record {
  call_id = get_u32 rsp_content_;
  code = get_u32 (drop 4 rsp_content_);
  message_name = slice (4 + 4) h.message_name_len rsp_content_;
  body = slice (4 + 4 + h.message_name_len) h.body_len rsp_content_;
}

-- `client_base::read`: a response, and the stream behind it.
unfoldable pub read_response : Bytes → Option (ResponseContent × Bytes)
read_response =
    read_frame response_header_len (λ head. response_content_size (read_response_header head))
      (λ head content_. make_response_content (read_response_header head) content_)
