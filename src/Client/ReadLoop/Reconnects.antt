-- ===== src/Client/ReadLoop/Reconnects.antt =====
-- Errors of the read loop of the clients: `handle_error` and `reconnect`.
use czrpc.Prelude.{ℕ, Bytes, Bool, true, false, List, [], ◌∷◌, ◌++◌, ◌≡◌, refl, arith}
use czrpc.Client.ReadLoop.{
  ReadLoop, head, connecting, ConnectEnd, succeeds, fails, started, on_head, on_content, on_connect,
  on_connects,
}

-- Attempts that fail, and then one that succeeds.
abbrev pub eventually : List Bool → List ConnectEnd
eventually [] = succeeds ∷ []
eventually (is_open ∷ rest) = fails is_open ∷ eventually rest

module _ {A : Type 0} (size : Bytes → ℕ) (make : Bytes → Bytes → A) where
  connects_anew :
      (failures : List Bool) (c : ReadLoop)
      → (on_connects size make (eventually failures) c)
        ≡ (record c { is_open = true; pending = head ∷ [] }, started ∷ [])
  unfolding on_connects on_connect
  connects_anew [] c = refl
  connects_anew (o ∷ os) c =
      ground (arith, connects_anew os (record c { is_open = o; pending = connecting ∷ [] }))

  -- When the read of a header fails, a client that has not been stopped closes the socket and
  -- connects anew, however many attempts fail before one succeeds; then it starts once, and reads one
  -- header.
  pub head_error_reconnects :
      (buf : Bytes) (failures : List Bool) (c : ReadLoop)
      → c.is_stoped ≡ false
      → c.pending ≡ []
      → let (c', effects) = on_head size make true buf c in
        let (end, later) = on_connects size make (eventually failures) c' in
        (c'.pending ≡ connecting ∷ [])
        × (effects ++ later ≡ started ∷ [])
        × (end ≡ record c { is_connected = false; is_open = true; pending = head ∷ [] })
  unfolding on_head
  head_error_reconnects buf failures c n p =
      ground (arith, connects_anew failures (on_head size make true buf c).0)

  -- When the read of a content fails, the client has started a read of the next header before it
  -- closes the socket. That read fails too, so two attempts to connect are outstanding; and when both
  -- succeed, the client has started twice, and two reads of a header are outstanding.
  pub content_error_reconnects_twice :
      (buf later : Bytes) (c : ReadLoop)
      → c.is_stoped ≡ false
      → c.is_open ≡ true
      → c.pending ≡ []
      → let (c1, e1) = on_content size make true buf c in
        let (c2, e2) = on_head size make true later (record c1 { pending = connecting ∷ [] }) in
        let (c3, e3) = on_connect size make succeeds (record c2 { pending = connecting ∷ [] }) in
        let (c4, e4) = on_connect size make succeeds (record c3 { pending = head ∷ [] }) in
        (c1.pending ≡ head ∷ connecting ∷ [])
        × (c2.pending ≡ connecting ∷ connecting ∷ [])
        × (c4.pending ≡ head ∷ head ∷ [])
        × (e1 ++ (e2 ++ (e3 ++ e4)) ≡ started ∷ started ∷ [])
  unfolding on_content on_head on_connect
  content_error_reconnects_twice buf later c s o p = ground arith

  -- A client that has been stopped starts nothing when a read ends, well or not.
  pub stopped_loop_ends :
      (ec : Bool) (buf : Bytes) (c : ReadLoop)
      → c.is_stoped ≡ true
      → (on_head size make ec buf c ≡ (c, [])) × (on_content size make ec buf c ≡ (c, []))
  unfolding on_head on_content
  stopped_loop_ends ec buf c s = ground arith
