-- ===== src/Server/Router/Laws.antt =====
-- The routes of czrpc/server/router.hpp around each change of the tables.
use czrpc.Prelude.{Bytes, Bytes-discrete, false, none, some, ◌≡◌, ◌↔◌, arith, ite}
use czrpc.Base.Protobuf.{Protobuf}
use czrpc.Base.Map
use czrpc.Base.Map.Laws.{find-replace, find-erase}
use czrpc.Server.RpcMessage.{Request, Response}
use czrpc.Server.Invoker.{Handler, invoke}
use czrpc.Server.Router.{
  Router, bind, bind_raw, unbind, unbind_raw, is_bind, is_bind_raw, route, route_raw,
}

module _ (pb : Protobuf) (p q : Bytes) (func : Handler pb) (req : Request pb) (rsp : Response)
    (r : Router pb) where
  -- After `bind` a message for the protocol goes to the new handler and to no other, a message for
  -- another protocol where it went before, and raw data where it went before; so the other way round
  -- after `bind_raw`.
  pub route-bind :
      (route pb q req rsp (bind pb p func r)
        ≡ ite (Bytes-discrete p q) (some (invoke pb func req rsp)) (route pb q req rsp r))
      × (route_raw pb q req rsp (bind pb p func r) ≡ route_raw pb q req rsp r)
      × (route_raw pb q req rsp (bind_raw pb p func r)
          ≡ ite (Bytes-discrete p q) (some (invoke pb func req rsp)) (route_raw pb q req rsp r))
      × (route pb q req rsp (bind_raw pb p func r) ≡ route pb q req rsp r)
  unfolding route route_raw bind bind_raw
  route-bind = ground (
    arith,
    find-replace Bytes-discrete p q func r.route_map,
    find-replace Bytes-discrete p q func r.route_raw_map,
  )

  -- After `unbind` a message for the protocol finds no handler, and one for another protocol the
  -- handler that it found before; so raw data after `unbind_raw`.
  pub route-unbind :
      (route pb q req rsp (unbind pb p r) ≡ ite (Bytes-discrete p q) none (route pb q req rsp r))
      × (route_raw pb q req rsp (unbind_raw pb p r)
          ≡ ite (Bytes-discrete p q) none (route_raw pb q req rsp r))
  unfolding route route_raw unbind unbind_raw
  route-unbind = ground (
    arith,
    find-erase Bytes-discrete p q r.route_map,
    find-erase Bytes-discrete p q r.route_raw_map,
  )

module _ (pb : Protobuf) (p : Bytes) (req : Request pb) (rsp : Response) (r : Router pb) where
  -- A route fails exactly when the protocol is not bound.
  pub route-eq-none_iff :
      ((route pb p req rsp r ≡ none) ↔ (is_bind pb p r ≡ false))
      × ((route_raw pb p req rsp r ≡ none) ↔ (is_bind_raw pb p r ≡ false))
  unfolding route route_raw is_bind is_bind_raw Map.exists
  route-eq-none_iff = ground arith
