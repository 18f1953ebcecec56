-- ===== src/Wire/Response/RoundTrip.antt =====
-- What a server answers is what the client reads.
use czrpc.Prelude.{
  ◌<◌, Bytes, ◌++◌, length, take, none, some, ◌≡◌, refl, ap, ◌∙◌, arith, length-append, ℕ, [],
  append-nil,
}
use czrpc.Prelude.Slices.{drop-add, slice_first, slice_second}
use czrpc.Base.Protocol.{ResponseContent}
use czrpc.Wire.Word.{IsWord, put_u32, get_u32, to_u32_word}
use czrpc.Wire.Reads.{read_frame_whole, read_frame_cut}
use czrpc.Wire.Response.{
  response_header_of, response_buffer, read_response_header, response_content_size,
  make_response_content, read_response, header_bytes,
}

-- The numbers are 32-bit words, and each text has a length that fits a word.
pub record IsSendable (c : ResponseContent) : Type 0 where
  pub call_id : IsWord c.call_id
  pub code : IsWord c.code
  pub message_name : IsWord (length c.message_name)
  pub body : IsWord (length c.body)

abbrev content_bytes : ResponseContent → Bytes
content_bytes c = put_u32 c.call_id ++ (put_u32 c.code ++ (c.message_name ++ c.body))

abbrev head : ResponseContent → Bytes
head c = header_bytes (response_header_of c)

header-read : (c : ResponseContent) → read_response_header (head c) ≡ response_header_of c
unfolding read_response_header response_header_of put_u32 get_u32
header-read c = ground arith

module _ (c : ResponseContent) (s : IsSendable c) where
  lengths :
      response_header_of c
      ≡ record { message_name_len = length c.message_name; body_len = length c.body }
  unfolding response_header_of
  lengths = ground (arith, to_u32_word (length c.message_name) s.message_name)

  content-size : length (content_bytes c) ≡ response_content_size (response_header_of c)
  unfolding response_content_size put_u32
  content-size = rw lengths (omega (arith, length-append c.message_name c.body))

  content-made : make_response_content (response_header_of c) (content_bytes c) ≡ c
  unfolding make_response_content put_u32 get_u32
  content-made = rw lengths (
      ground (
        arith,
        drop-add 8 (length c.message_name) (content_bytes c),
        slice_first c.message_name c.body [],
        slice_second c.message_name c.body [],
        append-nil c.body,
      ))

  size-head : length (content_bytes c) ≡ response_content_size (read_response_header (head c))
  size-head = rw (header-read c) content-size

  content-head : make_response_content (read_response_header (head c)) (content_bytes c) ≡ c
  content-head = rw (header-read c) content-made

-- A response whose numbers and lengths are 32-bit words is read back from the stream as it was
-- written, and what follows it is left in the stream.
pub read_response-response_buffer :
    (c : ResponseContent) (rest : Bytes)
    → IsSendable c
    → read_response (response_buffer c ++ rest) ≡ some (c, rest)
unfolding read_response response_buffer put_u32
read_response-response_buffer c rest s =
    read_frame_whole _ _ _ (head c) (content_bytes c) refl (size-head c s) rest
    ∙ ap (λ d. some (d, rest)) (content-head c s)

-- Of a response that has not come whole, nothing is read.
pub read_response_incomplete :
    (c : ResponseContent) (n : ℕ)
    → IsSendable c
    → n < length (response_buffer c)
    → read_response (take n (response_buffer c)) ≡ none
unfolding read_response response_buffer put_u32
read_response_incomplete c n s h =
    read_frame_cut _ _ _ (head c) (content_bytes c) refl (size-head c s) n (omega arith)
