-- ===== src/Client/RpcClient/Timed/Guard.antt =====
-- `read()` under the timer and its guard, `write_and_read` of czrpc/client/rpc_client.hpp.
use czrpc.Prelude.{
  ℕ, ◌+◌, Bool, true, false, [], ◌∷◌, Option, some, if◌then◌else◌, ok, throw, Exception, Bool-cases,
  Option-cases, inl, inr, ◌≡◌, ◌≢◌, refl, arith,
}
use czrpc.Base.Timer as Timer
use czrpc.Base.Timer.{
  Timer, Wait, armed, cancelled, over, cancel, cancel_wait, restart, on_wait, expire_wait,
  take_ended, handle, expires, handles, stops,
}
use czrpc.Base.Protocol.{ResponseContent}
use czrpc.Client.ClientBase.{ClientBase, disconnect}
use czrpc.Client.RpcClient.Timed.{
  RpcClient, Link, deadline, disconnects, timed, read_fails, is_before, guarded, has_armed,
}

-- No call is going on, and the timer can be started.
pub record IsReady (c : RpcClient) : Type 0 where
  pub limited : c.base.request_timeout ≢ 0
  pub alive : c.timer.ios_stopped ≡ false
  pub single_shot : c.timer.is_single_shot ≡ true
  pub bound : c.timer.func_vec ≡ 0 ∷ []
  pub resting : c.timer.waits ≡ []

-- The timer of a ready client behind a call that has started it.
abbrev pub rested : ℕ → Timer → Timer
rested duration t = record t { duration = duration; has_thread = true; waits = [] }

module _ (base : ClientBase) (t : Timer) (r : IsReady (record { base = base; timer = t })) where
  abbrev started : Timer
  started = Timer.start base.request_timeout t

  started_waits :
      started ≡ record t { duration = base.request_timeout; has_thread = true; waits = armed ∷ [] }
  unfolding Timer.start restart cancel
  started_waits = ground (arith, r.limited, r.alive, r.resting)

  pub started-deadline : (now : ℕ) → deadline now started ≡ some (now + base.request_timeout)
  unfolding deadline has_armed
  started-deadline now = rw started_waits refl

  after_stop :
      (b : ClientBase)
      → timed (stops ∷ handles ∷ []) (record { base = b; timer = started })
        ≡ record { base = b; timer = rested base.request_timeout t }
  unfolding timed Timer.run Timer.step Timer.stop cancel cancel_wait take_ended handle on_wait
      disconnects
  after_stop b = rw started_waits (ground (arith, r.alive))

  after_late :
      (b : ClientBase)
      → timed (expires ∷ stops ∷ handles ∷ []) (record { base = b; timer = started })
        ≡ record { base = disconnect b; timer = rested base.request_timeout t }
  unfolding timed Timer.run Timer.step Timer.stop cancel cancel_wait expire_wait take_ended handle
      on_wait disconnects
  after_late b = rw started_waits (ground (arith, r.alive, r.single_shot, r.bound))

  after_timeout :
      (b : ClientBase)
      → timed (expires ∷ handles ∷ stops ∷ []) (record { base = b; timer = started })
        ≡ record { base = disconnect b; timer = rested base.request_timeout t }
  unfolding timed Timer.run Timer.step Timer.stop cancel cancel_wait expire_wait take_ended handle
      on_wait disconnects
  after_timeout b = rw started_waits (ground (arith, r.alive, r.single_shot, r.bound))

  pub guarded-ok :
      (net : Link) (limit : Option ℕ) (b : ClientBase) (rsp : ResponseContent)
      → guarded net limit started (b, ok rsp)
        ≡ some (
          record {
            base = if net.late then disconnect b else b;
            timer = rested base.request_timeout t;
          },
          ok rsp,
        )
  unfolding guarded
  guarded-ok net limit b rsp = elim (Bool-cases net.late) [
    | inl e ↦ ground (arith, e, after_late b)
    | inr e ↦ ground (arith, e, after_stop b)
  ]

  pub guarded-throw :
      (net : Link) (now : ℕ) (b : ClientBase) (e : Exception)
      → (closed : Bool) × (guarded net (some now) started (b, throw e)
          ≡ some (
            record {
              base = if closed then disconnect b else b;
              timer = rested base.request_timeout t;
            },
            throw e,
          ))
  unfolding guarded read_fails
  guarded-throw net now b e = elim (Option-cases net.ends_at) [
    | inl n ↦ (true, ground (arith, n, after_timeout b))
    | inr (ended, n) ↦ elim (Bool-cases (is_before ended (some now))) [
      | inl before ↦ (false, ground (arith, n, before, after_stop b))
      | inr late ↦ (true, ground (arith, n, late, after_timeout b))
    ]
  ]
