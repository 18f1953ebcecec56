-- ===== src/Base/Util.antt =====
-- `split`, `contains` and `get_endpoint` of czrpc/base/util.hpp. `split` gives the text of its caller
-- to `strtok_r`, which writes a zero byte behind each token that a delimiter ends: a text comes back
-- as it has been left.
pub mod Endpoints
use czrpc.Prelude.{
  ℕ, Bytes, codes, Bool, true, false, ◌&&◌, ◌||◌, List, [], ◌∷◌, ◌++◌, Option, none, some, ◌==◌,
  if◌then◌else◌, Result, ok, throw, runtime_error,
}

pub record Endpoint : Type 0 where
  pub ip : Bytes
  pub port : Bytes

abbrev among : ℕ → Bytes → Bool
among c [] = false
among c (d ∷ ds) = c == d || among c ds

-- The calls of `strtok_r` until it returns null, with the token that has been begun. They stop at a
-- zero byte, which is the end of a C string.
split_from : Bytes → Option Bytes → Bytes → List Bytes × Bytes
split_from delimiter none [] = ([], [])
split_from delimiter (some token) [] = (token ∷ [], [])
split_from delimiter none (c ∷ cs) =
    let skipped = split_from delimiter none cs in
    let begun = split_from delimiter (some (c ∷ [])) cs in
    if c == 0
    then ([], c ∷ cs)
    else if among c delimiter
    then (skipped.0, c ∷ skipped.1)
    else (begun.0, c ∷ begun.1)
split_from delimiter (some token) (c ∷ cs) =
    let ended = split_from delimiter none cs in
    let longer = split_from delimiter (some (token ++ c ∷ [])) cs in
    if c == 0
    then (token ∷ [], c ∷ cs)
    else if among c delimiter
    then (token ∷ ended.0, 0 ∷ ended.1)
    else (longer.0, c ∷ longer.1)

-- The tokens, and what the text of the caller has become.
unfoldable pub split : Bytes → Bytes → List Bytes × Bytes
unfolding split_from
split str delimiter = split_from delimiter none str

is_prefix : Bytes → Bytes → Bool
is_prefix [] str = true
is_prefix (t ∷ ts) [] = false
is_prefix (t ∷ ts) (c ∷ cs) = t == c && is_prefix ts cs

-- `str.find(token) != npos`
unfoldable pub contains : Bytes → Bytes → Bool
unfolding is_prefix
contains [] token = is_prefix token []
contains (c ∷ cs) token = is_prefix token (c ∷ cs) || contains cs token

abbrev pub format_error : Result Endpoint
format_error = throw (runtime_error (codes "Remote address format error"))

endpoint_of : List Bytes → Result Endpoint
endpoint_of (ip ∷ port ∷ []) = ok (record { ip = ip; port = port })
endpoint_of _ = format_error

-- The endpoint, and what the text of the caller has become.
unfoldable pub get_endpoint : Bytes → Result Endpoint × Bytes
unfolding split contains endpoint_of
get_endpoint remote_address =
    if contains remote_address (codes ":")
    then (let (vec, left) = split remote_address (codes ":") in (endpoint_of vec, left))
    else (format_error, remote_address)
