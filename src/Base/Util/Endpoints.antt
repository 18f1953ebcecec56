-- ===== src/Base/Util/Endpoints.antt =====
-- Addresses of the form ip:port, in czrpc/base/util.hpp.
use czrpc.Prelude.{
  ℕ, Bytes, codes, true, false, [], ◌∷◌, ◌++◌, append-nil, append_assoc, none, some, All, ok, ◌≡◌,
  ◌≢◌, refl, arith,
}
use czrpc.Base.Util.{split_from, split, contains, format_error, endpoint_of, get_endpoint}

-- Neither the end of a C string nor a colon.
abbrev pub IsPlain : Bytes → Type 0
IsPlain = All (λ c. (c ≢ 0) × (c ≢ 58))

split_token :
    (token text rest : Bytes)
    → IsPlain text
    → split_from (codes ":") (some token) (text ++ 58 ∷ rest) ≡ (
      (token ++ text) ∷ (split_from (codes ":") none rest).0,
      text ++ 0 ∷ (split_from (codes ":") none rest).1,
    )
unfolding split_from
split_token token [] rest p = ground (arith, append-nil token)
split_token token (c ∷ cs) rest p =
    ground (arith, split_token (token ++ c ∷ []) cs rest p.1, append_assoc token (c ∷ []) cs)

split_last :
    (token text : Bytes)
    → IsPlain text
    → split_from (codes ":") (some token) text ≡ ((token ++ text) ∷ [], text)
unfolding split_from
split_last token [] p = ground (arith, append-nil token)
split_last token (c ∷ cs) p =
    ground (arith, split_last (token ++ c ∷ []) cs p.1, append_assoc token (c ∷ []) cs)

contains_colon : (text rest : Bytes) → contains (text ++ 58 ∷ rest) (codes ":") ≡ true
unfolding contains
contains_colon [] rest = refl
contains_colon (c ∷ cs) rest = ground (arith, contains_colon cs rest)

contains_none :
    (text rest : Bytes)
    → IsPlain text
    → IsPlain rest
    → contains (text ++ 0 ∷ rest) (codes ":") ≡ false
unfolding contains
contains_none [] [] p q = refl
contains_none [] (c ∷ cs) p q = ground (arith, contains_none [] cs p q.1)
contains_none (c ∷ cs) rest p q = ground (arith, contains_none cs rest p.1 q)

split_begin :
    (a : ℕ) (text : Bytes)
    → a ≢ 0
    → a ≢ 58
    → split_from (codes ":") none (a ∷ text) ≡ (
      (split_from (codes ":") (some (a ∷ [])) text).0,
      a ∷ (split_from (codes ":") (some (a ∷ [])) text).1,
    )
unfolding split_from
split_begin a text n m = ground arith

split_whole :
    (a b : ℕ) (ip port : Bytes)
    → IsPlain (a ∷ ip)
    → IsPlain (b ∷ port)
    → split ((a ∷ ip) ++ 58 ∷ (b ∷ port)) (codes ":")
      ≡ ((a ∷ ip) ∷ (b ∷ port) ∷ [], (a ∷ ip) ++ 0 ∷ (b ∷ port))
unfolding split
split_whole a b ip port p q =
    rw
      (
        split_begin a (ip ++ 58 ∷ b ∷ port) p.0.0 p.0.1,
        split_token (a ∷ []) ip (b ∷ port) p.1,
        split_begin b port q.0.0 q.0.1,
        split_last (b ∷ []) port q.1,
      )
      refl

get_endpoint_first :
    (a b : ℕ) (ip port : Bytes)
    → IsPlain (a ∷ ip)
    → IsPlain (b ∷ port)
    → get_endpoint ((a ∷ ip) ++ 58 ∷ (b ∷ port))
      ≡ (ok (record { ip = a ∷ ip; port = b ∷ port }), (a ∷ ip) ++ 0 ∷ (b ∷ port))
unfolding get_endpoint endpoint_of
get_endpoint_first a b ip port p q =
    rw (contains_colon (a ∷ ip) (b ∷ port), split_whole a b ip port p q) refl

get_endpoint_second :
    (text rest : Bytes)
    → IsPlain text
    → IsPlain rest
    → get_endpoint (text ++ 0 ∷ rest) ≡ (format_error, text ++ 0 ∷ rest)
unfolding get_endpoint
get_endpoint_second text rest p q = rw (contains_none text rest p q) refl

-- An address of two texts, neither empty, with one colon between them and no zero byte gives these
-- texts. But it is left with a zero byte in place of the colon; so the same text, given a second
-- time, is refused.
pub get_endpoint_once :
    (a b : ℕ) (ip port : Bytes)
    → IsPlain (a ∷ ip)
    → IsPlain (b ∷ port)
    → (get_endpoint ((a ∷ ip) ++ 58 ∷ (b ∷ port))
        ≡ (ok (record { ip = a ∷ ip; port = b ∷ port }), (a ∷ ip) ++ 0 ∷ (b ∷ port)))
      × (get_endpoint ((a ∷ ip) ++ 0 ∷ (b ∷ port)) ≡ (format_error, (a ∷ ip) ++ 0 ∷ (b ∷ port)))
get_endpoint_once a b ip port p q =
    (get_endpoint_first a b ip port p q, get_endpoint_second (a ∷ ip) (b ∷ port) p q)
