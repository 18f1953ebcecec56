-- ===== src/Server/Router.antt =====
-- `router` of czrpc/server/router.hpp: two tables of handlers, for messages and for raw data. The two
-- overloads of each `bind` differ in how the handler is called, which is the handler's own affair.
pub mod Laws
use czrpc.Prelude.{
  Bytes, Bytes-discrete, Bool, true, false, Option, none, some, List, [], ◌∷◌, ◌≡◌, refl, arith,
}
use czrpc.Base.Protobuf.{Protobuf}
use czrpc.Base.Map
use czrpc.Base.Map.{Map}
use czrpc.Server.RpcMessage.{Output, Request, Response}
use czrpc.Server.Invoker.{Handler, invoke}

module _ (pb : Protobuf) where
  pub record Router : Type 0 where
    pub route_map : Map Bytes (Handler pb)
    pub route_raw_map : Map Bytes (Handler pb)

  abbrev pub empty_router : Router
  empty_router = record { route_map = []; route_raw_map = [] }

  unfoldable pub bind : Bytes → Handler pb → Router → Router
  bind protocol func r = record r {
    route_map = (Map.replace Bytes-discrete protocol func r.route_map).0;
  }

  unfoldable pub bind_raw : Bytes → Handler pb → Router → Router
  bind_raw protocol func r = record r {
    route_raw_map = (Map.replace Bytes-discrete protocol func r.route_raw_map).0;
  }

  unfoldable pub unbind : Bytes → Router → Router
  unbind protocol r = record r { route_map = Map.erase Bytes-discrete protocol r.route_map }

  unfoldable pub unbind_raw : Bytes → Router → Router
  unbind_raw protocol r = record r {
    route_raw_map = Map.erase Bytes-discrete protocol r.route_raw_map;
  }

  unfoldable pub is_bind : Bytes → Router → Bool
  is_bind protocol r = Map.exists Bytes-discrete protocol r.route_map

  unfoldable pub is_bind_raw : Bytes → Router → Bool
  is_bind_raw protocol r = Map.exists Bytes-discrete protocol r.route_raw_map

  unfoldable pub call_found : Option (Handler pb) → Request pb → Response → Option (List Output)
  call_found none req rsp = none
  call_found (some func) req rsp = some (invoke pb func req rsp)

  -- `none` is the result false: no handler has been called.
  unfoldable pub route : Bytes → Request pb → Response → Router → Option (List Output)
  unfolding call_found
  route protocol req rsp r = call_found (Map.find Bytes-discrete protocol r.route_map) req rsp

  unfoldable pub route_raw : Bytes → Request pb → Response → Router → Option (List Output)
  unfolding call_found
  route_raw protocol req rsp r =
      call_found (Map.find Bytes-discrete protocol r.route_raw_map) req rsp
