-- ===== src/Wire/Request/RoundTrip.antt =====
-- What a client writes is what the server reads.
use czrpc.Prelude.{
  ℕ, ◌+◌, ◌<◌, Bytes, ◌++◌, length, take, none, some, ◌≡◌, refl, sym, ap, ◌∙◌, arith, length-append,
}
use czrpc.Prelude.Slices.{drop-add, slice_first, slice_second, slice_third}
use czrpc.Base.Protocol.{RequestContent}
use czrpc.Wire.Word.{IsWord, put_u32, get_u32, to_u32_word}
use czrpc.Wire.Reads.{read_frame_whole, read_frame_cut}
use czrpc.Wire.Request.{
  request_header_of, request_buffer, read_header, content_size, make_content, read_request,
  header_bytes, flag_bytes,
}

-- The numbers are 32-bit words, and each text has a length that fits a word.
pub record IsSendable (c : RequestContent) : Type 0 where
  pub call_id : IsWord c.call_id
  pub mode : IsWord c.flag.mode
  pub type : IsWord c.flag.type
  pub protocol : IsWord (length c.protocol)
  pub message_name : IsWord (length c.message_name)
  pub body : IsWord (length c.body)

abbrev pub texts : RequestContent → Bytes
texts c = c.protocol ++ (c.message_name ++ c.body)

abbrev pub content_bytes : RequestContent → Bytes
content_bytes c = put_u32 c.call_id ++ (flag_bytes c.flag ++ texts c)

pub header-read :
    (c : RequestContent) → read_header (header_bytes (request_header_of c)) ≡ request_header_of c
unfolding read_header request_header_of put_u32 get_u32
header-read c = ground arith

module _ (c : RequestContent) (s : IsSendable c) where
  lengths : request_header_of c ≡ record {
    protocol_len = length c.protocol;
    message_name_len = length c.message_name;
    body_len = length c.body;
  }
  unfolding request_header_of
  lengths = ground (arith, to_u32_word (length c.protocol) s.protocol)

  pub content-size : content_size (request_header_of c) ≡ length (content_bytes c)
  unfolding content_size put_u32
  content-size = rw lengths (
      omega (
        arith,
        length-append c.protocol (c.message_name ++ c.body),
        length-append c.message_name c.body,
      ))

  pub content-made : make_content (request_header_of c) (content_bytes c) ≡ c
  unfolding make_content put_u32 get_u32
  content-made = rw lengths (
      ground (
        arith,
        drop-add 12 (length c.protocol) (content_bytes c),
        drop-add 12 (length c.protocol + length c.message_name) (content_bytes c),
        slice_first c.protocol c.message_name c.body,
        slice_second c.protocol c.message_name c.body,
        slice_third c.protocol c.message_name c.body,
      ))

abbrev pub head : RequestContent → Bytes
head c = header_bytes (request_header_of c)

module _ (c : RequestContent) (s : IsSendable c) where
  pub size-head : length (content_bytes c) ≡ content_size (read_header (head c))
  size-head = rw (header-read c) (sym (content-size c s))

  pub content-head : make_content (read_header (head c)) (content_bytes c) ≡ c
  content-head = rw (header-read c) (content-made c s)

-- A request whose numbers and lengths are 32-bit words is read back from the stream as it was
-- written, and what follows it is left in the stream.
pub read_request-request_buffer :
    (c : RequestContent) (rest : Bytes)
    → IsSendable c
    → read_request (request_buffer c ++ rest) ≡ some (c, rest)
unfolding read_request request_buffer put_u32
read_request-request_buffer c rest s =
    read_frame_whole _ _ _ (head c) (content_bytes c) refl (size-head c s) rest
    ∙ ap (λ d. some (d, rest)) (content-head c s)

-- Of a request that has not come whole, nothing is read.
pub read_request_incomplete :
    (c : RequestContent) (n : ℕ)
    → IsSendable c
    → n < length (request_buffer c)
    → read_request (take n (request_buffer c)) ≡ none
unfolding read_request request_buffer put_u32
read_request_incomplete c n s h =
    read_frame_cut _ _ _ (head c) (content_bytes c) refl (size-head c s) n (omega arith)
