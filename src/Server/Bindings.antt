-- ===== src/Server/Bindings.antt =====
-- The functions of czrpc/server/server.hpp that bind and unbind handlers, over the router, which is a
-- singleton there.
pub mod History
use czrpc.Prelude.{Bytes, Bool}
use czrpc.Base.Protobuf.{Protobuf}
use czrpc.Server.Invoker.{Handler, apply, apply_member}
use czrpc.Server.Router as Router
use czrpc.Server.Router.{Router}

module _ (pb : Protobuf) where
  unfoldable pub bind : Bytes → Handler pb → Router pb → Router pb
  bind protocol func r = Router.bind pb protocol (apply pb func) r

  -- The overload for a member function of an object.
  unfoldable pub bind_member :
      {Self : Type 0} → Bytes → (Self → Handler pb) → Self → Router pb → Router pb
  bind_member protocol func self r = Router.bind pb protocol (apply_member pb func self) r

  unfoldable pub unbind : Bytes → Router pb → Router pb
  unbind protocol r = Router.unbind pb protocol r

  unfoldable pub is_bind : Bytes → Router pb → Bool
  is_bind protocol r = Router.is_bind pb protocol r

  unfoldable pub bind_raw : Bytes → Handler pb → Router pb → Router pb
  bind_raw protocol func r = Router.bind_raw pb protocol (apply pb func) r

  unfoldable pub bind_raw_member :
      {Self : Type 0} → Bytes → (Self → Handler pb) → Self → Router pb → Router pb
  bind_raw_member protocol func self r = Router.bind_raw pb protocol (apply_member pb func self) r

  unfoldable pub unbind_raw : Bytes → Router pb → Router pb
  unbind_raw protocol r = Router.unbind_raw pb protocol r

  unfoldable pub is_bind_raw : Bytes → Router pb → Bool
  is_bind_raw protocol r = Router.is_bind_raw pb protocol r
