-- ===== src/Client/ReadLoop.antt =====
-- The read loop and the reconnecting of czrpc/client/async_rpc_client.hpp and
-- czrpc/client/sub_client.hpp, which are the same but for the frames that they read. The
-- asynchronous operations that are outstanding stand in `pending`; what a handler asks of the rest of
-- the client is an effect.
pub mod Frames
pub mod Reconnects
use czrpc.Prelude.{
  ℕ, zero, suc, Bytes, Bool, true, false, not, List, [], ◌∷◌, ◌++◌, Option, none, some,
  if◌then◌else◌,
}
use czrpc.Wire.Reads.{read_exact}

pub data Operation : Type 0 where
  -- the `async_read` of a header, and of a content
  head : Operation
  content : ℕ → Operation
  -- the `async_connect` of `reconnect`, which comes behind a sleep of one second
  connecting : Operation

pub record ReadLoop : Type 0 where
  pub is_stoped : Bool
  pub is_connected : Bool
  pub is_open : Bool
  -- the bytes of the last header
  pub head_buf : Bytes
  pub pending : List Operation

-- A client that has connected, when `start` has begun to read.
abbrev pub reading : ReadLoop
reading = record {
  is_stoped = false;
  is_connected = true;
  is_open = true;
  head_buf = [];
  pending = head ∷ [];
}

-- How an `async_connect` ends; an attempt that fails leaves the socket open or closed.
pub data ConnectEnd : Type 0 where
  succeeds : ConnectEnd
  already_connected : ConnectEnd
  fails : Bool → ConnectEnd

unfoldable pub async_read_head : ReadLoop → ReadLoop
async_read_head c = record c { pending = c.pending ++ head ∷ [] }

unfoldable pub reconnect : ReadLoop → ReadLoop
reconnect c = record c { pending = c.pending ++ connecting ∷ [] }

-- `disconnect` closes the socket; then `reconnect`.
unfoldable pub handle_error : ReadLoop → ReadLoop
unfolding reconnect
handle_error c = reconnect (record c { is_connected = false; is_open = false })

module _ {A : Type 0} (size : Bytes → ℕ) (make : Bytes → Bytes → A) where
  pub data Effect : Type 0 where
    -- a response that is routed, or a push that is given to the thread pool
    received : A → Effect
    -- the rest of `start`: tasks are forgotten or subscriptions renewed, and the program is notified
    started : Effect

  unfoldable pub async_read_content : ReadLoop → ReadLoop
  async_read_content c = record c { pending = c.pending ++ content (size c.head_buf) ∷ [] }

  -- The handler of `async_read_head`; `ec` tells whether the read failed.
  unfoldable pub on_head : Bool → Bytes → ReadLoop → ReadLoop × List Effect
  unfolding handle_error async_read_content
  on_head ec buf c =
      if c.is_stoped
      then (c, [])
      else if not c.is_open
      then (handle_error c, [])
      else if ec
      then (handle_error c, [])
      else (async_read_content (record c { head_buf = buf }), [])

  -- The handler of `async_read_content`, which starts the next read before it looks at its own.
  unfoldable pub on_content : Bool → Bytes → ReadLoop → ReadLoop × List Effect
  unfolding handle_error async_read_head
  on_content ec buf c =
      let next = async_read_head c in
      if c.is_stoped
      then (c, [])
      else if not c.is_open
      then (handle_error next, [])
      else if ec
      then (handle_error next, [])
      else (next, received (make c.head_buf buf) ∷ [])

  unfoldable pub start : ReadLoop → ReadLoop × List Effect
  unfolding async_read_head
  start c = (async_read_head c, started ∷ [])

  -- The handler of `async_connect`. It does not look at `is_stoped`, and sets no `is_connected`.
  unfoldable pub on_connect : ConnectEnd → ReadLoop → ReadLoop × List Effect
  unfolding start reconnect
  on_connect succeeds c = start (record c { is_open = true })
  on_connect already_connected c = (c, [])
  on_connect (fails is_open) c = (reconnect (record c { is_open = is_open }), [])

  unfoldable pub on_connects : List ConnectEnd → ReadLoop → ReadLoop × List Effect
  on_connects [] c = (c, [])
  on_connects (end ∷ ends) c =
      let (c', effects) = on_connect end (record c { pending = [] }) in
      let (c'', later) = on_connects ends c' in (c'', effects ++ later)

  module _ (header_len : ℕ) where
    on_read : Operation → Bytes → ReadLoop → ReadLoop × List Effect
    unfolding on_head on_content
    on_read head buf c = on_head false buf c
    on_read (content n) buf c = on_content false buf c
    on_read connecting buf c = (c, [])

    read_size : Operation → ℕ
    read_size head = header_len
    read_size (content n) = n
    read_size connecting = 0

    -- The read that was started first ends well, if its bytes have come.
    complete_first :
        Operation → List Operation → Bytes → ReadLoop → Option (Bytes × (ReadLoop × List Effect))
    unfolding on_read read_size
    complete_first op later stream c = elim (read_exact (read_size op) stream) [
      | none ↦ none
      | some (buf, rest) ↦ some (rest, on_read op buf (record c { pending = later }))
    ]

    unfoldable pub complete : Bytes → ReadLoop → Option (Bytes × (ReadLoop × List Effect))
    unfolding complete_first
    complete stream c = elim c.pending [ [] ↦ none | op ∷ later ↦ complete_first op later stream c ]

    -- `rounds` completions at most.
    unfoldable pub receive : ℕ → Bytes → ReadLoop → Bytes × (ReadLoop × List Effect)
    receive zero stream c = (stream, (c, []))
    receive (suc rounds) stream c = elim (complete stream c) [
      | none ↦ (stream, (c, []))
      | some (rest, (c', effects)) ↦
          let (rest', (end, later)) = receive rounds rest c' in (rest', (end, effects ++ later))
    ]
