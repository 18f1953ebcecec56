-- ===== src/Client/ClientBase/Connect.antt =====
-- `try_connect` and `read` of czrpc/client/client_base.hpp.
use czrpc.Prelude.{
  ℕ, ◌+◌, ◌≤◌, ◌<◌, Bytes, Bool, true, false, List, [], ◌∷◌, Option, none, some, Result, ok, throw,
  Exception, ◌≡◌, ◌≢◌, ◌⊎◌, inl, inr, Bool-cases, Option-cases, ◌∙◌, refl, arith, ap, if◌then◌else◌,
  ◌++◌, length, take,
}
use czrpc.Base.Protocol.{ResponseContent}
use czrpc.Wire.Reads.{read_frame}
use czrpc.Wire.Response.{read_response, response_buffer}
use czrpc.Wire.Response.RoundTrip.{
  IsSendable, read_response-response_buffer, read_response_incomplete,
}
use czrpc.Client.ClientBase.{
  ClientBase, Attempt, succeeds, fails, connect_loop, try_connect, read, read_buffer, disconnect,
}

-- Some attempt succeeds, or fails when the time is over.
abbrev pub IsDecisive : ℕ → ℕ → List Attempt → Type 0
IsDecisive begin_time connect_timeout [] = ⊥
IsDecisive begin_time connect_timeout (succeeds ∷ rest) = Unit {0}
IsDecisive begin_time connect_timeout (fails e now ∷ rest) =
    (begin_time + connect_timeout ≤ now) ⊎ IsDecisive begin_time connect_timeout rest

connect_loop_ends :
    (begin_time connect_timeout : ℕ) (attempts : List Attempt)
    → IsDecisive begin_time connect_timeout attempts
    → connect_loop begin_time connect_timeout attempts ≢ none
unfolding connect_loop
connect_loop_ends b t [] d = absurd d
connect_loop_ends b t (succeeds ∷ rest) d = λ e. cc
connect_loop_ends b t (fails x now ∷ rest) (inl late) = ground arith
connect_loop_ends b t (fails x now ∷ rest) (inr d) = ground (arith, connect_loop_ends b t rest d)

-- What `try_connect` may come to.
abbrev pub Connects : ClientBase → ClientBase × Result Bool → Type 0
Connects c (c', throw e) = c' ≡ c
Connects c (c', ok b) = (c'.is_connected ≡ true) × (b ≡ (if c.is_connected then false else true))

try_unconnected :
    (begin_time : ℕ) (attempts : List Attempt) (c : ClientBase) (o : Option (Result (Unit {0})))
    → c.is_connected ≡ false
    → connect_loop begin_time c.connect_timeout attempts ≡ o
    → o ≢ none
    → (r : ClientBase × Result Bool) × (try_connect begin_time attempts c ≡ some r) × Connects c r
unfolding try_connect
try_unconnected b attempts c none n e some_end = absurd (some_end refl)
try_unconnected b attempts c (some (throw x)) n e some_end = ((c, throw x), ground arith, refl)
try_unconnected b attempts c (some (ok done)) n e some_end =
    ((record c { is_connected = true; is_open = true }, ok true), ground arith, (refl, rw n))

-- The loop of `connect` ends as soon as an attempt succeeds or fails after the time is over. Then
-- either `try_connect` throws and leaves the client as it was, or the client is connected, and the
-- answer is whether it was not so before.
pub try_connect_ends :
    (begin_time : ℕ) (attempts : List Attempt) (c : ClientBase)
    → IsDecisive begin_time c.connect_timeout attempts
    → (r : ClientBase × Result Bool) × (try_connect begin_time attempts c ≡ some r) × Connects c r
unfolding try_connect
try_connect_ends begin_time attempts c d = elim (Bool-cases c.is_connected) [
  | inl y ↦ ((c, ok false), ground arith, (y, rw y))
  | inr n ↦
      try_unconnected begin_time attempts c _ n refl
        (connect_loop_ends begin_time c.connect_timeout attempts d)
]

abbrev pub read_outcome :
    Exception → ClientBase → Option (ResponseContent × Bytes) → ClientBase × Result ResponseContent
read_outcome e c none = (disconnect c, throw e)
read_outcome e c (some r) = (c, ok r.0)

-- The client reads what the frame reader reads; if that reads nothing, it throws and disconnects.
pub read-read_response :
    (e : Exception) (stream : Bytes) (c : ClientBase)
    → read e stream c ≡ read_outcome e c (read_response stream)
unfolding read read_buffer read_response read_frame
read-read_response e stream c = ground arith

pub read-timeouts :
    (e : Exception) (stream : Bytes) (c : ClientBase)
    → ((read e stream c).0.connect_timeout ≡ c.connect_timeout)
      × ((read e stream c).0.request_timeout ≡ c.request_timeout)
unfolding disconnect
read-timeouts e stream c =
    rw (read-read_response e stream c) (elim (Option-cases (read_response stream)) [
      | inl n ↦ rw n (refl, refl)
      | inr (r, n) ↦ rw n (refl, refl)
    ])

-- A client that reads a response that has come whole returns it, whatever follows it; if the stream
-- ends before, it throws the error of the read, and is not connected and its socket is closed.
pub read-response_buffer :
    (e : Exception) (rsp : ResponseContent) (rest : Bytes) (n : ℕ) (c : ClientBase)
    → IsSendable rsp
    → n < length (response_buffer rsp)
    → (read e (response_buffer rsp ++ rest) c ≡ (c, ok rsp))
      × (read e (take n (response_buffer rsp)) c ≡ (disconnect c, throw e))
read-response_buffer e rsp rest n c s h = (
  read-read_response e (response_buffer rsp ++ rest) c
      ∙ ap (read_outcome e c) (read_response-response_buffer rsp rest s),
  read-read_response e (take n (response_buffer rsp)) c
      ∙ ap (read_outcome e c) (read_response_incomplete rsp n s h),
)
