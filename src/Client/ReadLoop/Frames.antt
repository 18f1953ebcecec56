-- ===== src/Client/ReadLoop/Frames.antt =====
-- The read loop of the clients over a stream of frames.
use czrpc.Prelude.{
  ℕ, suc, Bytes, true, false, List, [], ◌∷◌, map, some, Option-cases, inl, inr, ◌≡◌, refl, ap,
  arith, ◌∙◌,
}
use czrpc.Wire.Reads.{read_exact, read_frame, read_rest}
use czrpc.Client.ReadLoop.{
  ReadLoop, Operation, head, content, Effect, received, on_head, on_content, complete,
  complete_first, on_read, read_size, receive,
}

module _ {A : Type 0} (size : Bytes → ℕ) (make : Bytes → Bytes → A) (header_len : ℕ) where
  -- The stream begins with the frames of the list, and `rest` follows them.
  abbrev pub Frames : List A → Bytes → Bytes → Type 0
  Frames [] stream rest = stream ≡ rest
  Frames (a ∷ rs) stream rest =
      (mid : Bytes) × (read_frame header_len size make stream ≡ some (a, mid)) × Frames rs mid rest

  abbrev pub rounds_of : List A → ℕ
  rounds_of [] = 0
  rounds_of (a ∷ rs) = suc (suc (rounds_of rs))

  -- The client waits for a frame.
  pub record IsReading (c : ReadLoop) : Type 0 where
    pub going : c.is_stoped ≡ false
    pub opened : c.is_open ≡ true
    pub waits : c.pending ≡ head ∷ []

  frame_inverted :
      (stream mid : Bytes) (a : A)
      → read_frame header_len size make stream ≡ some (a, mid)
      → (h : Bytes) × (r : Bytes) × (b : Bytes) × (read_exact header_len stream ≡ some (h, r))
        × (read_exact (size h) r ≡ some (b, mid))
        × (make h b ≡ a)
  unfolding read_frame read_rest
  frame_inverted stream mid a e = elim (Option-cases (read_exact header_len stream)) [
    | inl n ↦ absurd (ground arith)
    | inr ((h, r), f) ↦ elim (Option-cases (read_exact (size h) r)) [
      | inl n ↦ absurd (ground arith)
      | inr ((b, m), g) ↦ (h, r, b, f, ground arith, ground arith)
    ]
  ]

  complete_reads :
      (op : Operation) (stream buf rest : Bytes) (c c' : ReadLoop)
      (effects : List (Effect size make))
      → c.pending ≡ op ∷ []
      → read_exact (read_size size make header_len op) stream ≡ some (buf, rest)
      → on_read size make header_len op buf (record c { pending = [] }) ≡ (c', effects)
      → complete size make header_len stream c ≡ some (rest, (c', effects))
  unfolding complete complete_first
  complete_reads op stream buf rest c c' effects p r h = ground arith

  receive_two :
      (n : ℕ) (stream mid rest : Bytes) (c c' c'' : ReadLoop) (a : A)
      → complete size make header_len stream c ≡ some (mid, (c', []))
      → complete size make header_len mid c' ≡ some (rest, (c'', received a ∷ []))
      → receive size make header_len (suc (suc n)) stream c ≡ (
          let (rest', (end, later)) = receive size make header_len n rest c'' in
          (rest', (end, received a ∷ later)))
  unfolding receive
  receive_two n stream mid rest c c' c'' a e f = ground arith

  -- A client that waits for a frame hands on the frames of its stream, each whole, once and in order,
  -- in two reads for each; what follows them stays in the stream, and the client waits for the next.
  pub receive-Frames :
      (rs : List A) (stream rest : Bytes) (c : ReadLoop)
      → Frames rs stream rest
      → IsReading c
      → (end : ReadLoop) × (receive size make header_len (rounds_of rs) stream c
          ≡ (rest, (end, map received rs)))
        × IsReading end
  unfolding receive on_read on_head on_content read_size
  receive-Frames [] stream rest c e r = (c, ap (λ (b : Bytes). (b, (c, []))) e, r)
  receive-Frames (a ∷ rs) stream rest c (mid, frame, frames) r =
      let (h, after, b, header, body, made) = frame_inverted stream mid a frame in
      let c' : ReadLoop = record c { head_buf = h; pending = content (size h) ∷ [] } in
      let c'' : ReadLoop = record c { head_buf = h; pending = head ∷ [] } in
      let first : complete size make header_len stream c ≡ some (after, (c', [])) =
        complete_reads head stream h after c c' [] r.waits header
          (ground (arith, r.going, r.opened)) in
      let second : complete size make header_len after c' ≡ some (mid, (c'', received a ∷ [])) =
        complete_reads (content (size h)) after b mid c' c'' (received a ∷ []) refl body
          (ground (arith, r.going, r.opened, made)) in
      let (end, rest_received, ready) =
        receive-Frames rs mid rest c'' frames
          (record { going = r.going; opened = r.opened; waits = refl }) in
      (
        end,
        receive_two (rounds_of rs) stream after mid c c' c'' a first second
            ∙ ap
                (λ (o : Bytes × (ReadLoop × List (Effect size make))).
                  (o.0, (o.1.0, received a ∷ o.1.1)))
                rest_received,
        ready,
      )
