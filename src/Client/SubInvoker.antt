-- ===== src/Client/SubInvoker.antt =====
-- czrpc/client/sub_invoker.hpp: how a function that a program subscribes with is called. The program's
-- functions are not part of the library: one takes what it is called with and the program's state to
-- the state behind the call and to what it throws, if it does.
use czrpc.Prelude.{Bytes, Option, Exception}
use czrpc.Base.Protobuf.{Protobuf}

-- A function of the program that is called with `Req`.
abbrev pub Function : Type 0 → Type 0 → Type 0
Function State Req = Req → State → State × Option Exception

module _ {State : Type 0} where
  module _ (pb : Protobuf) where
    unfoldable pub call : Function State pb.Message → Function State pb.Message
    call func req s = func req s

    -- A member function of an object.
    unfoldable pub call_member :
        {Self : Type 0} → (Self → Function State pb.Message) → Self → Function State pb.Message
    call_member func self req s = func self req s

    -- `invoker<Function>`
    unfoldable pub apply : Function State pb.Message → Function State pb.Message
    unfolding call
    apply func req s = call func req s

    unfoldable pub apply_member :
        {Self : Type 0} → (Self → Function State pb.Message) → Self → Function State pb.Message
    unfolding call_member
    apply_member func self req s = call_member func self req s

    -- `sub_invoker_function::operator()`: what the function throws is caught and logged.
    unfoldable pub invoke : Function State pb.Message → pb.Message → State → State
    invoke func req s = (func req s).0

  unfoldable pub call_raw : Function State Bytes → Function State Bytes
  call_raw func req s = func req s

  unfoldable pub call_member_raw :
      {Self : Type 0} → (Self → Function State Bytes) → Self → Function State Bytes
  call_member_raw func self req s = func self req s

  -- `invoker_raw<Function>`
  unfoldable pub apply_raw : Function State Bytes → Function State Bytes
  unfolding call_raw
  apply_raw func req s = call_raw func req s

  unfoldable pub apply_member_raw :
      {Self : Type 0} → (Self → Function State Bytes) → Self → Function State Bytes
  unfolding call_member_raw
  apply_member_raw func self req s = call_member_raw func self req s

  -- `sub_invoker_function_raw::operator()`
  unfoldable pub invoke_raw : Function State Bytes → Bytes → State → State
  invoke_raw func req s = (func req s).0
