-- ===== src/Wire/Request/Bounds.antt =====
-- Requests whose body may be longer than its field in the header can tell.
use czrpc.Prelude.{
  ◌%◌, Bytes, ◌++◌, length, take, drop, some, ◌≡◌, sym, ap, ◌∙◌, arith, append_assoc,
}
use czrpc.Prelude.Slices.{take-drop, length-take}
use czrpc.Base.Protocol.{RequestHeader, RequestContent}
use czrpc.Wire.Word.{IsWord, u32_mod, to_u32}
use czrpc.Wire.Request.{request_header_of, get_buffer, request_buffer, read_request}
use czrpc.Wire.Request.RoundTrip.{IsSendable, read_request-request_buffer}

-- What the length field tells of the body.
abbrev pub cut : RequestContent → RequestContent
cut c = record c { body = take (to_u32 (length c.body)) c.body }

cut-length : (c : RequestContent) → length (cut c).body ≡ to_u32 (length c.body)
cut-length c = omega (arith, length-take (to_u32 (length c.body)) c.body)

cut-IsWord : (c : RequestContent) → IsWord (length (cut c).body)
cut-IsWord c = omega (arith, cut-length c)

-- All but the body fits.
pub record IsSendableButBody (c : RequestContent) : Type 0 where
  pub call_id : IsWord c.call_id
  pub mode : IsWord c.flag.mode
  pub type : IsWord c.flag.type
  pub protocol : IsWord (length c.protocol)
  pub message_name : IsWord (length c.message_name)

header-cut : (c : RequestContent) → request_header_of (cut c) ≡ request_header_of c
unfolding request_header_of
header-cut c = ap (λ n. record (request_header_of c) { body_len = n }) (omega (arith, cut-length c))

get_buffer-append :
    (h : RequestHeader) (c : RequestContent) (xs ys : Bytes)
    → get_buffer (record { header = h; content = record c { body = xs ++ ys } })
      ≡ get_buffer (record { header = h; content = record c { body = xs } }) ++ ys
unfolding get_buffer
get_buffer-append h c xs ys = simp append_assoc

buffer-cut :
    (c : RequestContent)
    → request_buffer c ≡ request_buffer (cut c) ++ drop (to_u32 (length c.body)) c.body
unfolding request_buffer
buffer-cut c =
    let n = to_u32 (length c.body) in
    let h = request_header_of c in
    ap (λ (b : Bytes). get_buffer (record { header = h; content = record c { body = b } }))
      (sym (take-drop n c.body))
    ∙ get_buffer-append h c (take n c.body) (drop n c.body)
    ∙ ap (λ g. get_buffer (record { header = g; content = cut c }) ++ drop n c.body)
        (sym (header-cut c))

-- The length of a body is written as a 32-bit word, so of a request all of whose numbers and other
-- lengths are words the server reads the first bytes of the body, as many as the length has left over
-- modulo 2 ^ 32, whatever the length is; the other bytes of the body stand in the stream where the
-- server reads the header of the next request.
pub read_request_wraps :
    (c : RequestContent) (rest : Bytes)
    → IsSendableButBody c
    → (read_request (request_buffer c ++ rest)
        ≡ some (cut c, drop (to_u32 (length c.body)) c.body ++ rest))
      × (length (cut c).body ≡ length c.body % u32_mod)
read_request_wraps c rest s =
    let small : IsSendable (cut c) = record {
      call_id = s.call_id;
      mode = s.mode;
      type = s.type;
      protocol = s.protocol;
      message_name = s.message_name;
      body = cut-IsWord c;
    } in
    let others = drop (to_u32 (length c.body)) c.body in
    (
      ap (λ b. read_request (b ++ rest)) (buffer-cut c)
          ∙ ap read_request (append_assoc (request_buffer (cut c)) others rest)
          ∙ read_request-request_buffer (cut c) (others ++ rest) small,
      cut-length c,
    )
