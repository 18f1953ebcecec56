-- ===== src/Base/ErrorCode.antt =====
-- czrpc/base/error_code.hpp. A code that was copied from the network may be any 32-bit word.
use czrpc.Prelude.{
  ℕ, Bytes, codes, Bool, List, [], ◌∷◌, Option, none, some, if◌then◌else◌, ◌==◌, not, ◌≡◌, arith,
  ◌↔◌, ◌≢◌,
}

abbrev pub RpcErrorCode : Type 0
RpcErrorCode = ℕ

abbrev pub ok : RpcErrorCode
ok = 0

abbrev pub route_failed : RpcErrorCode
route_failed = 1

abbrev pub request_timeout : RpcErrorCode
request_timeout = 2

abbrev rpc_error_map : List (RpcErrorCode × Bytes)
rpc_error_map =
    (ok, codes "OK")
    ∷ (route_failed, codes "Route failed")
    ∷ (request_timeout, codes "Request timeout")
    ∷ []

-- `std::map::find` on the table of texts.
find_text : RpcErrorCode → List (RpcErrorCode × Bytes) → Option Bytes
find_text c [] = none
find_text c ((k, text) ∷ rest) = if k == c then some text else find_text c rest

unfoldable pub get_rpc_error_string : RpcErrorCode → Bytes
unfolding find_text
get_rpc_error_string c = elim (find_text c rpc_error_map) [ none ↦ [] | some text ↦ text ]

pub record ErrorCode : Type 0 where
  pub code_ : RpcErrorCode

unfoldable pub message : ErrorCode → Bytes
unfolding get_rpc_error_string
message ec = get_rpc_error_string ec.code_

-- `explicit operator bool`
unfoldable pub is_error : ErrorCode → Bool
is_error ec = not (ec.code_ == ok)

-- The three codes with a name have a text, and all others have none.
pub get_rpc_error_string-empty_iff :
    (c : RpcErrorCode)
    → (get_rpc_error_string c ≡ []) ↔ ((c ≢ ok) × (c ≢ route_failed) × (c ≢ request_timeout))
unfolding get_rpc_error_string
get_rpc_error_string-empty_iff c = ground arith
