-- ===== src/Base/Protobuf.antt =====
-- What the program uses of Google's protobuf library, which is not part of it.
use czrpc.Prelude.{Bytes, Bool, true, Option, some, ◌≡◌, ◌≢◌, []}

pub record Protobuf : Type 1 where
  pub Message : Type 0
  pub Descriptor : Type 0
  -- `GetDescriptor()->full_name()`
  pub full_name : Message → Bytes
  -- `IsInitialized()`, `SerializeAsString()`
  pub is_initialized : Message → Bool
  pub serialize_as_string : Message → Bytes
  -- `DescriptorPool::generated_pool()->FindMessageTypeByName`, `none` for a null pointer
  pub find_message_type_by_name : Bytes → Option Descriptor
  -- `MessageFactory::generated_factory()->GetPrototype`, and `New()` of what that returns
  pub get_prototype : Descriptor → Option Message
  pub new : Message → Message
  -- `ParseFromString`: the message as parsed, or `none` for false
  pub parse_from_string : Message → Bytes → Option Message

-- What protobuf documents of the messages that are linked into a program: a message's type has a
-- name, under which the generated pool and factory have it, and a message of the type parses what
-- an initialised one serialises to.
pub record IsDocumented (pb : Protobuf) : Type 0 where
  pub named : (m : pb.Message) → pb.full_name m ≢ []
  pub generated :
      (m : pb.Message)
      → (d : pb.Descriptor) × (p : pb.Message) × (pb.find_message_type_by_name (pb.full_name m)
          ≡ some d)
        × (pb.get_prototype d ≡ some p)
        × (pb.is_initialized m ≡ true
            → pb.parse_from_string (pb.new p) (pb.serialize_as_string m) ≡ some m)
