-- ===== src/Tests/WireTests.antt =====
-- The wire at concrete messages.
use czrpc.Prelude.{codes, none, some, ◌∷◌, ◌++◌, ◌≡◌, refl, arith, take}
use czrpc.Wire.Word.{put_u32}
use czrpc.Wire.Request.{request_buffer, read_request}
use czrpc.Wire.Request.RoundTrip.{read_request-request_buffer, read_request_incomplete}
use czrpc.Wire.Response.{response_buffer, read_response}
use czrpc.Wire.Response.RoundTrip.{read_response-response_buffer}
use czrpc.Tests.Sample.{echo_request, echo_response}

request_bytes :
    request_buffer echo_request
    ≡ 4
      ∷ 0
      ∷ 0
      ∷ 0
      ∷ 0
      ∷ 0
      ∷ 0
      ∷ 0
      ∷ 5
      ∷ 0
      ∷ 0
      ∷ 0
      ∷ 7
      ∷ 0
      ∷ 0
      ∷ 0
      ∷ 1
      ∷ 0
      ∷ 0
      ∷ 0
      ∷ 1
      ∷ 0
      ∷ 0
      ∷ 0
      ∷ codes "echohello"
unfolding request_buffer put_u32
request_bytes = refl

read_request-request_buffer_example :
    read_request (request_buffer echo_request ++ codes "rest") ≡ some (echo_request, codes "rest")
read_request-request_buffer_example =
    read_request-request_buffer echo_request (codes "rest") (omega arith)

read_request_incomplete_example : read_request (take 20 (request_buffer echo_request)) ≡ none
unfolding request_buffer put_u32
read_request_incomplete_example =
    read_request_incomplete echo_request 20 (omega arith) (omega arith)

read_response-response_buffer_example :
    read_response (response_buffer echo_response ++ codes "rest")
    ≡ some (echo_response, codes "rest")
read_response-response_buffer_example =
    read_response-response_buffer echo_response (codes "rest") (omega arith)
