-- ===== src/Client/RpcClient/Timed/Ends.antt =====
-- One call of a client of czrpc/client/rpc_client.hpp, from `sync_connect` to the end of the guard.
use czrpc.Prelude.{
  ◌≢◌, Option-cases, inl, inr, ℕ, ◌+◌, Bytes, Bool, List, Option, none, some, if◌then◌else◌, Result,
  ok, throw, Exception, ◌≡◌, refl, ap, sym, ◌∙◌, arith,
}
use mathlib.Core.Path.{subst}
use czrpc.Base.Timer as Timer
use czrpc.Base.Timer.{Timer}
use czrpc.Base.Protocol.{RequestContent, ResponseContent}
use czrpc.Client.ClientBase.{ClientBase, Attempt, disconnect, try_connect, write, read}
use czrpc.Client.ClientBase.Connect.{IsDecisive, try_connect_ends, read-timeouts}
use czrpc.Base.Protobuf.{Protobuf}
use czrpc.Base.SerializeUtil.{MessagePtr, check_message, serialize}
use czrpc.Client.RpcClient.{raw_content, message_content}
use czrpc.Client.RpcClient.Timed.{
  RpcClient, Link, in_time, guarded, after_write, write_and_read, checked, after_connect, raw_body,
  call_raw, message_of, call_serialized, call_checked, null_call, call,
}
use czrpc.Client.RpcClient.Timed.Guard.{
  IsReady, rested, started-deadline, guarded-ok, guarded-throw,
}

-- What a call leaves as it is.
pub record Keeps (b b' : ClientBase) : Type 0 where
  pub connect : b'.connect_timeout ≡ b.connect_timeout
  pub request : b'.request_timeout ≡ b.request_timeout

-- A client that is ready, with the timeouts of `b`.
pub record Follows (b : ClientBase) (c : RpcClient) : Type 0 where
  pub ready : IsReady c
  pub keeps : Keeps b c.base

try_connect-Keeps :
    (begin : ℕ) (attempts : List Attempt) (b b' : ClientBase) (r : Result Bool)
    → try_connect begin attempts b ≡ some (b', r)
    → Keeps b b'
unfolding try_connect
try_connect-Keeps begin attempts b b' r e = record {
  connect = ground arith;
  request = ground arith;
}

write-Keeps :
    (o : Option Exception) (content : RequestContent) (b : ClientBase)
    → Keeps b (write o content b).0
unfolding write
write-Keeps none content b = record { connect = refl; request = refl }
write-Keeps (some e) content b = record { connect = refl; request = refl }

read-Keeps : (e : Exception) (stream : Bytes) (b : ClientBase) → Keeps b (read e stream b).0
read-Keeps e stream b = record {
  connect = (read-timeouts e stream b).0;
  request = (read-timeouts e stream b).1;
}

rested-Follows :
    (b base : ClientBase) (t : Timer) (closed : Bool) (d : ClientBase)
    → Follows b (record { base = base; timer = t })
    → Keeps base d
    → Follows b (record {
      base = if closed then disconnect d else d;
      timer = rested base.request_timeout t;
    })
unfolding disconnect
rested-Follows b base t closed d f k = record {
  ready = record {
    limited = ground (arith, f.ready.limited, k.request);
    alive = f.ready.alive;
    single_shot = f.ready.single_shot;
    bound = f.ready.bound;
    resting = refl;
  };
  keeps = record {
    connect = ground (arith, f.keeps.connect, k.connect);
    request = ground (arith, f.keeps.request, k.request);
  };
}

-- A call returns something, and leaves the client ready.
abbrev pub Ends : {A : Type 0} → ClientBase → Option (RpcClient × Result A) → Type 0
Ends {A = A} b o = (c : RpcClient) × (r : Result A) × (o ≡ some (c, r)) × Follows b c

written-Follows :
    (b base : ClientBase) (t : Timer) (d : ClientBase)
    → Follows b (record { base = base; timer = t })
    → Keeps base d
    → Follows b (record { base = d; timer = t })
written-Follows b base t d f k = record {
  ready = record {
    limited = ground (arith, f.ready.limited, k.request);
    alive = f.ready.alive;
    single_shot = f.ready.single_shot;
    bound = f.ready.bound;
    resting = f.ready.resting;
  };
  keeps = record {
    connect = ground (arith, f.keeps.connect, k.connect);
    request = ground (arith, f.keeps.request, k.request);
  };
}

guarded-Ends :
    (net : Link) (b base : ClientBase) (t : Timer) (o : ClientBase × Result ResponseContent)
    → Follows b (record { base = base; timer = t })
    → Keeps base o.0
    → (now : ℕ) → Ends b (guarded net (some now) (Timer.start base.request_timeout t) o)
guarded-Ends net b base t (d, ok rsp) f k now =
    (_, _, guarded-ok base t f.ready net (some now) d rsp, rested-Follows b base t net.late d f k)
guarded-Ends net b base t (d, throw e) f k now =
    let (closed, ended) = guarded-throw base t f.ready net now d e in
    (_, _, ended, rested-Follows b base t closed d f k)

after_write-Ends :
    (net : Link) (now : ℕ) (b base : ClientBase) (t : Timer) (o : ClientBase × Result Bytes)
    → Follows b (record { base = base; timer = t })
    → Keeps base o.0
    → Ends b (after_write net now t o)
unfolding after_write
after_write-Ends net now b base t (d, throw e) f k = (_, _, refl, written-Follows b base t d f k)
after_write-Ends net now b base t (d, ok sent) f k =
    let g = written-Follows b base t d f k in
    let (c, r, e, h) =
      guarded-Ends net b d t
        (read net.read_error (in_time (some (now + d.request_timeout)) net.arrivals) d) g
        (read-Keeps net.read_error (in_time (some (now + d.request_timeout)) net.arrivals) d)
        (now + d.request_timeout) in
    (c, r, ground (arith, started-deadline d t g.ready now, e), h)

checked-Ends :
    {A : Type 0} (out : ResponseContent → Result A) (b : ClientBase)
    (o : Option (RpcClient × Result ResponseContent))
    → Ends b o
    → Ends b (checked out o)
unfolding checked
checked-Ends out b o (c, throw e, same, f) = (c, _, ap (checked out) same, f)
checked-Ends out b o (c, ok rsp, same, f) = (c, _, ap (checked out) same, f)

write_and_read-Ends :
    (net : Link) (content : RequestContent) (b : ClientBase) (c : RpcClient)
    → net.written_at ≢ none
    → Follows b c
    → Ends b (write_and_read net content c)
unfolding write_and_read
write_and_read-Ends net content b c w f = elim (Option-cases net.written_at) [
  | inl n ↦ absurd (w n)
  | inr (now, n) ↦ rw n (
      after_write-Ends net now b c.base c.timer (write net.write_error content c.base) f
        (write-Keeps net.write_error content c.base))
]

after_connect-Ends :
    {A : Type 0} (next : RpcClient → Option (RpcClient × Result A)) (b base : ClientBase)
    (t : Timer) (r : Result Bool)
    → ((c : RpcClient) → Follows b c → Ends b (next c))
    → Follows b (record { base = base; timer = t })
    → Ends b (after_connect t next (some (base, r)))
unfolding after_connect
after_connect-Ends next b base t (throw e) ends f = (_, _, refl, f)
after_connect-Ends next b base t (ok connected) ends f = ends (record { base = base; timer = t }) f

-- A call that connects first.
connected-Ends :
    {A : Type 0} (net : Link) (next : RpcClient → Option (RpcClient × Result A)) (b : ClientBase)
    (c : RpcClient)
    → ((d : RpcClient) → Follows b d → Ends b (next d))
    → Follows b c
    → IsDecisive net.begin_time b.connect_timeout net.attempts
    → Ends b (after_connect c.timer next (try_connect net.begin_time net.attempts c.base))
connected-Ends net next b c ends f d =
    let decisive = subst (λ n. IsDecisive net.begin_time n net.attempts) (sym f.keeps.connect) d in
    let ((base, r), connected, ways) =
      try_connect_ends net.begin_time net.attempts c.base decisive in
    let g =
      written-Follows b c.base c.timer base f
        (try_connect-Keeps net.begin_time net.attempts c.base base r connected) in
    let (end, result, same, h) = after_connect-Ends next b base c.timer r ends g in
    (end, result, ap (after_connect c.timer next) connected ∙ same, h)

pub call_raw-Ends :
    (net : Link) (func_name body : Bytes) (b : ClientBase) (c : RpcClient)
    → net.written_at ≢ none
    → Follows b c
    → IsDecisive net.begin_time b.connect_timeout net.attempts
    → Ends b (call_raw net func_name body c)
unfolding call_raw
call_raw-Ends net func_name body b c w f d =
    connected-Ends net _ b c
      (λ c' g.
        checked-Ends raw_body b _ (write_and_read-Ends net (raw_content func_name body) b c' w g))
      f d

module _ (pb : Protobuf) where
  call_serialized-Ends :
      (net : Link) (func_name : Bytes) (message : pb.Message) (body : Result Bytes) (b : ClientBase)
      (c : RpcClient)
      → net.written_at ≢ none
      → Follows b c
      → Ends b (call_serialized pb net func_name message body c)
  unfolding call_serialized
  call_serialized-Ends net func_name message (throw e) b c w f = (_, _, refl, f)
  call_serialized-Ends net func_name message (ok body) b c w f =
      checked-Ends (message_of pb) b _
        (write_and_read-Ends net (message_content pb func_name message body) b c w f)

  call_checked-Ends :
      (net : Link) (func_name : Bytes) (message : pb.Message) (done : Result (Unit {0}))
      (b : ClientBase) (c : RpcClient)
      → net.written_at ≢ none
      → Follows b c
      → IsDecisive net.begin_time b.connect_timeout net.attempts
      → Ends b (call_checked pb net func_name message done c)
  unfolding call_checked
  call_checked-Ends net func_name message (throw e) b c w f d = (_, _, refl, f)
  call_checked-Ends net func_name message (ok done) b c w f d =
      connected-Ends net _ b c
        (λ c' g. call_serialized-Ends net func_name message (serialize pb (some message)) b c' w g)
        f d

  pub call-Ends :
      (net : Link) (func_name : Bytes) (message : MessagePtr pb) (b : ClientBase) (c : RpcClient)
      → net.written_at ≢ none
      → Follows b c
      → IsDecisive net.begin_time b.connect_timeout net.attempts
      → Ends b (call pb net func_name message c)
  unfolding call null_call check_message
  call-Ends net func_name none b c w f d = (_, _, refl, f)
  call-Ends net func_name (some message) b c w f d =
      call_checked-Ends net func_name message (check_message pb (some message)) b c w f d
