-- ===== src/Tests/LoopTests.antt =====
-- The client's read loop at concrete inputs.
use czrpc.Prelude.{true, false, [], ◌∷◌, ◌++◌, ◌≡◌, refl}
use czrpc.Client.ReadLoop.{
  ReadLoop, reading, head, connecting, succeeds, started, on_head, on_content, on_connect,
  on_connects,
}
use czrpc.Client.ReadLoop.Reconnects.{
  eventually, head_error_reconnects, content_error_reconnects_twice,
}
use czrpc.Client.AsyncRpcClient.Responses.{response_size, response_made}

abbrev handling : ReadLoop
handling = record reading { pending = [] }

abbrev after_error : ReadLoop
after_error = (on_head response_size response_made true [] handling).0

head_error_reconnects_example :
    (after_error.pending ≡ connecting ∷ [])
    × ((on_head response_size response_made true [] handling).1
          ++ (on_connects response_size response_made
              (eventually (false ∷ true ∷ []))
              after_error).1
        ≡ started ∷ [])
    × ((on_connects response_size response_made (eventually (false ∷ true ∷ [])) after_error).0
        ≡ record reading { is_connected = false })
head_error_reconnects_example =
    head_error_reconnects response_size response_made [] (false ∷ true ∷ []) handling refl refl

content_error_reconnects_twice_example :
    let (c1, e1) = on_content response_size response_made true [] handling in
    let (c2, e2) =
      on_head response_size response_made true [] (record c1 { pending = connecting ∷ [] }) in
    let (c3, e3) =
      on_connect response_size response_made succeeds (record c2 { pending = connecting ∷ [] }) in
    let (c4, e4) =
      on_connect response_size response_made succeeds (record c3 { pending = head ∷ [] }) in
    (c1.pending ≡ head ∷ connecting ∷ [])
    × (c2.pending ≡ connecting ∷ connecting ∷ [])
    × (c4.pending ≡ head ∷ head ∷ [])
    × (e1 ++ (e2 ++ (e3 ++ e4)) ≡ started ∷ started ∷ [])
content_error_reconnects_twice_example =
    content_error_reconnects_twice response_size response_made [] [] handling refl refl refl
