-- ===== src/Tests/Sample.antt =====
-- Inputs that the tests share, among them a small protobuf library with one message type, whose
-- messages are texts.
use czrpc.Prelude.{
  Bytes, Bytes-discrete, codes, true, none, some, ite, [], ◌∷◌, refl, ok, inr, runtime_error,
}
use czrpc.Base.ClientType
use czrpc.Base.SerializeMode
use czrpc.Base.Protocol.{RequestContent, ResponseContent, PushContent}
use czrpc.Base.Protobuf.{Protobuf, IsDocumented}
use czrpc.Server.Dispatch.{Connections}
use czrpc.Server.SendQueue.{no_writes}
use czrpc.Server.Connection.{Connection, Socket}
use czrpc.Server.Invoker.{Handler, raw_reply}
use czrpc.Server.Router.{Router}
use czrpc.Client.ClientBase.{new_client_base, succeeds}
use czrpc.Client.RpcClient.{Network}
use czrpc.Client.RpcClient.Calls.{IsReachable}

abbrev pub text_protobuf : Protobuf
text_protobuf = record {
  Message = Bytes;
  Descriptor = Unit {0};
  full_name = λ m. codes "text";
  is_initialized = λ m. true;
  serialize_as_string = λ m. m;
  find_message_type_by_name = λ name. ite (Bytes-discrete name (codes "text")) (some tt) none;
  get_prototype = λ d. some [];
  new = λ m. m;
  parse_from_string = λ m body. some body;
}

pub text_protobuf-IsDocumented : IsDocumented text_protobuf
unfolding Bytes-discrete
text_protobuf-IsDocumented = record {
  named = λ m h. cc;
  generated = λ m. (tt, [], refl, refl, λ h. refl);
}

abbrev pub echo_request : RequestContent
echo_request = record {
  call_id = 7;
  flag = record { mode = SerializeMode.non_serialize; type = ClientType.async_rpc_client };
  protocol = codes "echo";
  message_name = [];
  body = codes "hello";
}

abbrev pub echo_response : ResponseContent
echo_response = record { call_id = 7; code = 0; message_name = []; body = codes "hello" }

abbrev pub news_push : PushContent
news_push = record {
  mode = SerializeMode.non_serialize;
  protocol = codes "news";
  message_name = [];
  body = codes "today";
}

abbrev pub two_connections : Connections
two_connections = record { alive = λ c. true; session_id = λ c. ok (codes "a#b") }

abbrev pub echo_raw : Handler text_protobuf
echo_raw req = (raw_reply req.raw_data ∷ [], none)

abbrev pub subscribe_request : Bytes → Bytes → RequestContent
subscribe_request topic body = record {
  call_id = 0;
  flag = record { mode = SerializeMode.serialize; type = ClientType.sub_client };
  protocol = topic;
  message_name = [];
  body = body;
}

abbrev pub echo_router : Router text_protobuf
echo_router = record { route_map = []; route_raw_map = (codes "echo", echo_raw) ∷ [] }

-- The first attempt to connect succeeds, and nothing comes in.
abbrev pub reliable_network : Network
reliable_network = record {
  begin_time = 0;
  attempts = succeeds ∷ [];
  write_error = none;
  incoming = [];
  read_error = runtime_error (codes "End of file");
}

pub reliable_network-IsReachable : IsReachable reliable_network new_client_base
reliable_network-IsReachable = record { connects = inr ([], refl); writes = refl }

abbrev pub open_socket : Socket
open_socket = record {
  is_open = true;
  local_endpoint = ok (record { address = codes "a"; port = 1 });
  remote_endpoint = ok (record { address = codes "b"; port = 2 });
}

abbrev pub new_connection : Connection
new_connection = record {
  socket = open_socket;
  req_head = record { protocol_len = 0; message_name_len = 0; body_len = 0 };
  type = ClientType.rpc_client;
  send = no_writes;
  session_id = [];
  has_connect_notify = true;
  has_disconnect_notify = true;
  pending = [];
}
