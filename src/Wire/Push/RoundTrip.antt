-- ===== src/Wire/Push/RoundTrip.antt =====
-- What a server pushes is what the subscriber reads.
use czrpc.Prelude.{
  ◌+◌, ◌<◌, Bytes, ◌++◌, length, take, none, some, ◌≡◌, refl, ap, ◌∙◌, arith, length-append, ℕ,
}
use czrpc.Prelude.Slices.{drop-add, slice_first, slice_second, slice_third}
use czrpc.Base.Protocol.{PushContent}
use czrpc.Wire.Word.{IsWord, put_u32, get_u32, to_u32_word}
use czrpc.Wire.Reads.{read_frame_whole, read_frame_cut}
use czrpc.Wire.Push.{
  push_header_of, push_buffer, read_push_header, push_content_size, make_push_content, read_push,
  header_bytes,
}

-- The mode is a 32-bit word, and each text has a length that fits a word.
pub record IsSendable (c : PushContent) : Type 0 where
  pub mode : IsWord c.mode
  pub protocol : IsWord (length c.protocol)
  pub message_name : IsWord (length c.message_name)
  pub body : IsWord (length c.body)

abbrev content_bytes : PushContent → Bytes
content_bytes c = put_u32 c.mode ++ (c.protocol ++ (c.message_name ++ c.body))

abbrev head : PushContent → Bytes
head c = header_bytes (push_header_of c)

header-read : (c : PushContent) → read_push_header (head c) ≡ push_header_of c
unfolding read_push_header push_header_of put_u32 get_u32
header-read c = ground arith

module _ (c : PushContent) (s : IsSendable c) where
  lengths : push_header_of c ≡ record {
    protocol_len = length c.protocol;
    message_name_len = length c.message_name;
    body_len = length c.body;
  }
  unfolding push_header_of
  lengths = ground (arith, to_u32_word (length c.protocol) s.protocol)

  content-size : length (content_bytes c) ≡ push_content_size (push_header_of c)
  unfolding push_content_size put_u32
  content-size = rw lengths (
      omega (
        arith,
        length-append c.protocol (c.message_name ++ c.body),
        length-append c.message_name c.body,
      ))

  content-made : make_push_content (push_header_of c) (content_bytes c) ≡ c
  unfolding make_push_content put_u32 get_u32
  content-made = rw lengths (
      ground (
        arith,
        drop-add 4 (length c.protocol) (content_bytes c),
        drop-add 4 (length c.protocol + length c.message_name) (content_bytes c),
        slice_first c.protocol c.message_name c.body,
        slice_second c.protocol c.message_name c.body,
        slice_third c.protocol c.message_name c.body,
      ))

  size-head : length (content_bytes c) ≡ push_content_size (read_push_header (head c))
  size-head = rw (header-read c) content-size

  content-head : make_push_content (read_push_header (head c)) (content_bytes c) ≡ c
  content-head = rw (header-read c) content-made

-- A push whose mode and lengths are 32-bit words is read back from the stream as it was written,
-- and what follows it is left in the stream.
pub read_push-push_buffer :
    (c : PushContent) (rest : Bytes)
    → IsSendable c
    → read_push (push_buffer c ++ rest) ≡ some (c, rest)
unfolding read_push push_buffer put_u32
read_push-push_buffer c rest s =
    read_frame_whole _ _ _ (head c) (content_bytes c) refl (size-head c s) rest
    ∙ ap (λ d. some (d, rest)) (content-head c s)

-- Of a push that has not come whole, nothing is read.
pub read_push_incomplete :
    (c : PushContent) (n : ℕ)
    → IsSendable c
    → n < length (push_buffer c)
    → read_push (take n (push_buffer c)) ≡ none
unfolding read_push push_buffer put_u32
read_push_incomplete c n s h =
    read_frame_cut _ _ _ (head c) (content_bytes c) refl (size-head c s) n (omega arith)
