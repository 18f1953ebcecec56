-- ===== src/Client/SubRouter.antt =====
-- `sub_router` of czrpc/client/sub_router.hpp and the invokers of czrpc/client/sub_invoker.hpp. A
-- function that a program subscribes with is known by a number: a call of it, with what it is called
-- with, is an output. What it throws is caught and logged, so it changes nothing here. The overloads
-- of each `bind` differ in how the function is called.
use czrpc.Prelude.{ℕ, Bytes, Bytes-discrete, Bool, Option, none, some, List, [], ◌++◌}
use czrpc.Base.Map
use czrpc.Base.Map.{Map}
use czrpc.Base.Protobuf.{Protobuf}

pub record SubRouter : Type 0 where
  pub route_map : Map Bytes ℕ
  pub route_raw_map : Map Bytes ℕ

abbrev pub empty_sub_router : SubRouter
empty_sub_router = record { route_map = []; route_raw_map = [] }

unfoldable pub bind : Bytes → ℕ → SubRouter → SubRouter
bind protocol func r = record r {
  route_map = (Map.replace Bytes-discrete protocol func r.route_map).0;
}

unfoldable pub bind_raw : Bytes → ℕ → SubRouter → SubRouter
bind_raw protocol func r = record r {
  route_raw_map = (Map.replace Bytes-discrete protocol func r.route_raw_map).0;
}

unfoldable pub unbind : Bytes → SubRouter → SubRouter
unbind protocol r = record r { route_map = Map.erase Bytes-discrete protocol r.route_map }

unfoldable pub is_bind : Bytes → SubRouter → Bool
is_bind protocol r = Map.exists Bytes-discrete protocol r.route_map

unfoldable pub unbind_raw : Bytes → SubRouter → SubRouter
unbind_raw protocol r = record r {
  route_raw_map = Map.erase Bytes-discrete protocol r.route_raw_map;
}

unfoldable pub is_bind_raw : Bytes → SubRouter → Bool
is_bind_raw protocol r = Map.exists Bytes-discrete protocol r.route_raw_map

unfoldable pub get_all_topic : SubRouter → List Bytes
get_all_topic r =
    Map.for_each_key (λ protocol. protocol) r.route_map
    ++ Map.for_each_key (λ protocol. protocol) r.route_raw_map

module _ (pb : Protobuf) where
  -- A call of a subscribed function.
  pub data Call : Type 0 where
    message_call : ℕ → pb.Message → Call
    raw_call : ℕ → Bytes → Call

  -- `none` is the result false: no function has been called.
  unfoldable pub route : Bytes → pb.Message → SubRouter → Option Call
  route protocol req r = elim (Map.find Bytes-discrete protocol r.route_map) [
    | none ↦ none
    | some func ↦ some (message_call func req)
  ]

  unfoldable pub route_raw : Bytes → Bytes → SubRouter → Option Call
  route_raw protocol req r = elim (Map.find Bytes-discrete protocol r.route_raw_map) [
    | none ↦ none
    | some func ↦ some (raw_call func req)
  ]
