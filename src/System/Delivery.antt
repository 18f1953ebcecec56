-- ===== src/System/Delivery.antt =====
-- From the send queue of a connection over the bytes of the network to the read loop of a client: the
-- buffers that have been written whole lie one behind another in the client's stream.
use czrpc.Prelude.{
  ℕ, Bytes, List, [], ◌∷◌, ◌++◌, append-nil, append_assoc, map, some, length, take, All, All-take,
  concat, ◌≡◌, refl, ap, sym, ◌∙◌, arith,
}
use mathlib.Core.Path.{subst}
use czrpc.Wire.Reads.{read_frame}
use czrpc.Base.Queue as Queue
use czrpc.Server.SendQueue as SendQueue
use czrpc.Server.SendQueue.{SendQueue, no_writes, Event, posts, written, fails}
use czrpc.Server.SendQueue.Order.{Outbox, outbox, outbox_step, outbox_run, run-outbox}
use czrpc.Client.ReadLoop.{ReadLoop, received, receive}
use czrpc.Client.ReadLoop.Frames.{Frames, rounds_of, IsReading, receive-Frames}

-- The buffers that a history posts, in order.
abbrev pub posted : List Event → List Bytes
posted [] = []
posted (posts buffer ∷ es) = buffer ∷ posted es
posted (e ∷ es) = posted es

-- No write fails.
abbrev pub NoFails : List Event → Type 0
NoFails [] = Unit {0}
NoFails (fails ∷ es) = ⊥
NoFails (e ∷ es) = NoFails es

abbrev all_of : Outbox → List Bytes
all_of o = o.sent ++ o.waiting

written-all_of :
    (waiting : List Bytes) (o : Outbox)
    → o.waiting ≡ waiting
    → all_of (outbox_step written o) ≡ all_of o
written-all_of [] o e = ground arith
written-all_of (b ∷ bs) o e = ground (arith, append_assoc o.sent (b ∷ []) bs)

outbox_total :
    (es : List Event) (o : Outbox) → NoFails es → all_of (outbox_run es o) ≡ all_of o ++ posted es
outbox_total [] o n = sym (append-nil (all_of o))
outbox_total (posts b ∷ es) o n =
    outbox_total es (outbox_step (posts b) o) n
    ∙ ap (λ l. l ++ posted es) (sym (append_assoc o.sent o.waiting (b ∷ [])))
    ∙ append_assoc (all_of o) (b ∷ []) (posted es)
outbox_total (written ∷ es) o n =
    outbox_total es (outbox_step written o) n
    ∙ ap (λ l. l ++ posted es) (written-all_of o.waiting o refl)
outbox_total (fails ∷ es) o n = absurd n

-- Nothing that has been posted is lost, and nothing is sent twice.
pub sent_or_waiting :
    (es : List Event)
    → NoFails es
    → (SendQueue.run es no_writes).sent ++ (SendQueue.run es no_writes).send_queue ≡ posted es
unfolding Queue.front
sent_or_waiting es n =
    ap all_of (run-outbox es no_writes refl).0 ∙ outbox_total es (outbox no_writes) n

-- What stands first among the values of a function on a list are those on its first entries.
pub map-prefix {ℓ κ} :
    {A : Type ℓ} {B : Type κ} (f : A → B) (xs ys : List B) (as' : List A)
    → xs ++ ys ≡ map f as'
    → xs ≡ map f (take (length xs) as')
map-prefix f [] ys as' e = refl
map-prefix f (x ∷ xs) ys [] e = absurd (cc)
map-prefix f (x ∷ xs) ys (a ∷ as') e = ground (arith, map-prefix f xs ys as')

module _ {A : Type 0} (size : Bytes → ℕ) (make : Bytes → Bytes → A) (header_len : ℕ)
    (buffer : A → Bytes) (IsSendable : A → Type 0)
    (whole : (a : A) (rest : Bytes)
      → IsSendable a
      → read_frame header_len size make (buffer a ++ rest) ≡ some (a, rest)) where
  buffers-Frames :
      (as' : List A) (rest : Bytes)
      → All IsSendable as'
      → Frames size make header_len as' (concat (map buffer as') ++ rest) rest
  buffers-Frames [] rest s = refl
  buffers-Frames (a ∷ as') rest s = (
    concat (map buffer as') ++ rest,
    ap (read_frame header_len size make) (append_assoc (buffer a) (concat (map buffer as')) rest)
        ∙ whole a (concat (map buffer as') ++ rest) s.0,
    buffers-Frames as' rest s.1,
  )

  -- What has been written whole of the frames that a history posts is what the client hands on, each
  -- once and in order; the bytes behind it stay in the stream, and the client waits for the next frame.
  pub frames_delivered :
      (as' : List A) (es : List Event) (rest : Bytes) (c : ReadLoop)
      → All IsSendable as'
      → NoFails es
      → posted es ≡ map buffer as'
      → IsReading size make header_len c
      → let s = SendQueue.run es no_writes in
        let sent = take (length s.sent) as' in
        (end : ReadLoop) × (receive size make header_len
            (rounds_of size make header_len sent)
            (concat s.sent ++ rest)
            c
          ≡ (rest, (end, map received sent)))
        × IsReading size make header_len end
  frames_delivered as' es rest c s n p r =
      let q = SendQueue.run es no_writes in
      let sent = take (length q.sent) as' in
      let same : q.sent ≡ map buffer sent =
        map-prefix buffer q.sent q.send_queue as' (sent_or_waiting es n ∙ p) in
      receive-Frames size make header_len sent (concat q.sent ++ rest) rest c
        (subst (λ bs. Frames size make header_len sent (concat bs ++ rest) rest) (sym same)
          (buffers-Frames sent rest (All-take IsSendable (length q.sent) as' s)))
        r
