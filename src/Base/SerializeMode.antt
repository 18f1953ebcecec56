-- ===== src/Base/SerializeMode.antt =====
-- `serialize_mode` of czrpc/base/protocol_define.hpp. The enum has a fixed underlying type, and its
-- values are copied from the network: every 32-bit word is a value, and two of them have names.
use czrpc.Prelude.{ℕ}

abbrev pub SerializeMode : Type 0
SerializeMode = ℕ

abbrev pub serialize : SerializeMode
serialize = 0

abbrev pub non_serialize : SerializeMode
non_serialize = 1
