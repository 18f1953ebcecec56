-- ===== src/Base/SerializeUtil.antt =====
-- `serialize_util` of czrpc/base/serialize_util.hpp over the protobuf library. A `message_ptr` may be
-- null, which is `none`.
use czrpc.Prelude.{
  Bytes, codes, true, Option, none, some, [], is_empty, if◌then◌else◌, Result, ok, throw,
  runtime_error, ◌>>◌, require, ◌≡◌, ◌≢◌, arith,
}
use czrpc.Base.Protobuf.{Protobuf, IsDocumented}

module _ (pb : Protobuf) where
  open pb use {
    Message, full_name, is_initialized, serialize_as_string, find_message_type_by_name,
    get_prototype, new, parse_from_string,
  }

  abbrev pub MessagePtr : Type 0
  MessagePtr = Option Message

  unfoldable pub check_message : MessagePtr → Result (Unit {0})
  check_message none = throw (runtime_error (codes "Message is nullptr"))
  check_message (some m) =
      require (is_initialized m) (runtime_error (codes "Message initialized failed"))

  unfoldable pub serialize : MessagePtr → Result Bytes
  unfolding check_message
  serialize none = do check_message none; ok []
  serialize (some m) = do check_message (some m); ok (serialize_as_string m)

  create_message : Bytes → MessagePtr
  create_message message_name = elim (find_message_type_by_name message_name) [
    | none ↦ none
    | some descriptor ↦ elim (get_prototype descriptor) [
      | none ↦ none
      | some prototype ↦ some (new prototype)
    ]
  ]

  parse : MessagePtr → Bytes → Result Message
  parse none body = throw (runtime_error (codes "Message is nullptr"))
  parse (some message) body = elim (parse_from_string message body) [
    | none ↦ throw (runtime_error (codes "Parse from string failed"))
    | some m ↦ do
      require (is_initialized m) (runtime_error (codes "Message initialized failed"))
      ok m
  ]

  unfoldable pub deserialize : Bytes → Bytes → Result Message
  unfolding create_message parse
  deserialize message_name body =
      if is_empty message_name
      then throw (runtime_error (codes "Message name is empty"))
      else parse (create_message message_name) body

  -- An initialised message is read back from its name and its serialised body.
  pub deserialize-serialize :
      IsDocumented pb
      → (m : Message) (body : Bytes) → serialize (some m) ≡ ok body
      → deserialize (full_name m) body ≡ ok m
  unfolding serialize deserialize
  deserialize-serialize doc m body h =
      let (d, p, found, made, parsed) = doc.generated m in
      ground (arith, found, made, parsed, doc.named m)

  -- What `deserialize` returns is initialised, and every other end is a throw.
  pub deserialize_initialized :
      (message_name body : Bytes) (m : Message)
      → deserialize message_name body ≡ ok m
      → (message_name ≢ []) × (is_initialized m ≡ true)
  unfolding deserialize
  deserialize_initialized message_name body m h = ground arith
