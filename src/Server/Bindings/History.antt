-- ===== src/Server/Bindings/History.antt =====
-- Whole histories of binding and unbinding in czrpc/server/server.hpp.
use czrpc.Prelude.{
  Bytes, Bytes-discrete, Bool, true, false, List, [], ◌∷◌, Option, none, some, ite, ◌≡◌, refl,
  arith,
}
use czrpc.Base.Map
use czrpc.Base.Map.{Map}
use czrpc.Base.Map.Laws.{find-replace, find-erase}
use czrpc.Base.Protobuf.{Protobuf}
use czrpc.Server.RpcMessage.{Request, Response, Output}
use czrpc.Server.Invoker.{Handler, invoke, call, call_member, apply, apply_member}
use czrpc.Server.Router as Router
use czrpc.Server.Router.{Router, empty_router}
use czrpc.Server.Bindings.{
  bind, bind_member, unbind, is_bind, bind_raw, bind_raw_member, unbind_raw, is_bind_raw,
}

module _ (pb : Protobuf) (Self : Type 0) where
  -- What a program does to the handlers of a server; `Self` is the type of its objects.
  pub data Change : Type 0 where
    binds : Bytes → Handler pb → Change
    binds_member : Bytes → (Self → Handler pb) → Self → Change
    unbinds : Bytes → Change
    binds_raw : Bytes → Handler pb → Change
    binds_raw_member : Bytes → (Self → Handler pb) → Self → Change
    unbinds_raw : Bytes → Change

  abbrev pub change : Change → Router pb → Router pb
  change (binds p func) r = bind pb p func r
  change (binds_member p func self) r = bind_member pb p func self r
  change (unbinds p) r = unbind pb p r
  change (binds_raw p func) r = bind_raw pb p func r
  change (binds_raw_member p func self) r = bind_raw_member pb p func self r
  change (unbinds_raw p) r = unbind_raw pb p r

  -- The router after a history, the newest change first.
  abbrev pub after : List Change → Router pb
  after [] = empty_router pb
  after (c ∷ older) = change c (after older)

  -- The last word of a history on a protocol.
  abbrev pub handler : Bytes → List Change → Option (Handler pb)
  handler q [] = none
  handler q (binds p func ∷ older) = ite (Bytes-discrete p q) (some func) (handler q older)
  handler q (binds_member p func self ∷ older) =
      ite (Bytes-discrete p q) (some (func self)) (handler q older)
  handler q (unbinds p ∷ older) = ite (Bytes-discrete p q) none (handler q older)
  handler q (c ∷ older) = handler q older

  abbrev pub raw_handler : Bytes → List Change → Option (Handler pb)
  raw_handler q [] = none
  raw_handler q (binds_raw p func ∷ older) =
      ite (Bytes-discrete p q) (some func) (raw_handler q older)
  raw_handler q (binds_raw_member p func self ∷ older) =
      ite (Bytes-discrete p q) (some (func self)) (raw_handler q older)
  raw_handler q (unbinds_raw p ∷ older) = ite (Bytes-discrete p q) none (raw_handler q older)
  raw_handler q (c ∷ older) = raw_handler q older

  abbrev pub is_some : Option (Handler pb) → Bool
  is_some none = false
  is_some (some func) = true

  -- What a handler does with a request, if there is one.
  abbrev pub answered : Option (Handler pb) → Request pb → Response → Option (List Output)
  answered none req rsp = none
  answered (some func) req rsp = some (invoke pb func req rsp)

  find-after :
      (q : Bytes) (changes : List Change)
      → (Map.find Bytes-discrete q (after changes).route_map ≡ handler q changes)
        × (Map.find Bytes-discrete q (after changes).route_raw_map ≡ raw_handler q changes)
  unfolding Map.find bind bind_member unbind bind_raw bind_raw_member unbind_raw Router.bind
      Router.unbind Router.bind_raw Router.unbind_raw apply apply_member call call_member
  find-after q [] = (refl, refl)
  find-after q (binds p func ∷ older) =
      let r = after older in
      ground (arith, find-replace Bytes-discrete p q func r.route_map, find-after q older)
  find-after q (binds_member p func self ∷ older) =
      let r = after older in
      ground (arith, find-replace Bytes-discrete p q (func self) r.route_map, find-after q older)
  find-after q (unbinds p ∷ older) =
      let r = after older in
      ground (arith, find-erase Bytes-discrete p q r.route_map, find-after q older)
  find-after q (binds_raw p func ∷ older) =
      let r = after older in
      ground (arith, find-replace Bytes-discrete p q func r.route_raw_map, find-after q older)
  find-after q (binds_raw_member p func self ∷ older) =
      let r = after older in
      ground
        (arith, find-replace Bytes-discrete p q (func self) r.route_raw_map, find-after q older)
  find-after q (unbinds_raw p ∷ older) =
      let r = after older in
      ground (arith, find-erase Bytes-discrete p q r.route_raw_map, find-after q older)

  -- After any history of binding and unbinding, a message for a protocol goes to the handler that the
  -- last word on it has bound, and to none if there was no word or the last one was to unbind; so does
  -- raw data, by the words on raw data alone; and the server says that it is bound in exactly these
  -- cases. A member function is called on the object that it was bound with.
  pub last_binding_decides :
      (q : Bytes) (changes : List Change) (req : Request pb) (rsp : Response)
      → (Router.route pb q req rsp (after changes) ≡ answered (handler q changes) req rsp)
        × (Router.route_raw pb q req rsp (after changes) ≡ answered (raw_handler q changes) req rsp)
        × (is_bind pb q (after changes) ≡ is_some (handler q changes))
        × (is_bind_raw pb q (after changes) ≡ is_some (raw_handler q changes))
  unfolding Router.route Router.route_raw Router.call_found is_bind is_bind_raw Router.is_bind
      Router.is_bind_raw Map.exists
  last_binding_decides q changes req rsp = ground (arith, find-after q changes)
