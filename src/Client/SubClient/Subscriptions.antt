-- ===== src/Client/SubClient/Subscriptions.antt =====
-- The subscriptions of czrpc/client/sub_client.hpp.
use czrpc.Prelude.{ℕ, Bytes, Bytes-discrete, Bool, true, false, not, ◌&&◌, ◌||◌, ite, ◌≡◌, arith}
use czrpc.Base.Map
use czrpc.Base.Map.{Map}
use czrpc.Base.Map.Laws.{find-replace, find-erase}
use czrpc.Client.SubRouter
use czrpc.Client.SubRouter.{SubRouter, Call, message_call, raw_call, get_all_topic}
use czrpc.Client.SubClient.{
  subscribe, subscribe_raw, cancel_subscribe, cancel_subscribe_raw, is_subscribe, is_subscribe_raw,
}

abbrev same : Bytes → Bytes → Bool
same p q = ite (Bytes-discrete p q) true false

-- Each of the four operations on a topic changes what the client says of that topic and of that kind
-- of subscription, and nothing else.
pub subscriptions_change :
    (p q : Bytes) (func : ℕ) (r : SubRouter)
    → ((is_subscribe q (subscribe p func r).0 ≡ (same p q || is_subscribe q r))
        × (is_subscribe_raw q (subscribe p func r).0 ≡ is_subscribe_raw q r))
      × ((is_subscribe_raw q (subscribe_raw p func r).0 ≡ (same p q || is_subscribe_raw q r))
          × (is_subscribe q (subscribe_raw p func r).0 ≡ is_subscribe q r))
      × ((is_subscribe q (cancel_subscribe p r).0 ≡ (not (same p q) && is_subscribe q r))
          × (is_subscribe_raw q (cancel_subscribe p r).0 ≡ is_subscribe_raw q r))
      × ((is_subscribe_raw q (cancel_subscribe_raw p r).0
            ≡ (not (same p q) && is_subscribe_raw q r))
          × (is_subscribe q (cancel_subscribe_raw p r).0 ≡ is_subscribe q r))
unfolding subscribe subscribe_raw cancel_subscribe cancel_subscribe_raw is_subscribe
    is_subscribe_raw SubRouter.bind SubRouter.bind_raw SubRouter.unbind SubRouter.unbind_raw
    SubRouter.is_bind SubRouter.is_bind_raw Map.exists
subscriptions_change p q func r = ground (
  arith,
  find-replace Bytes-discrete p q func r.route_map,
  find-replace Bytes-discrete p q func r.route_raw_map,
  find-erase Bytes-discrete p q r.route_map,
  find-erase Bytes-discrete p q r.route_raw_map,
)
