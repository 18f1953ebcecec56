-- ===== src/Wire/Reads.antt =====
-- `boost::asio::read` and `async_read` into a buffer of a given size: they succeed when that many
-- bytes have come, and leave what follows in the stream. A frame is a header of a fixed length and
-- the content whose size the header tells: every reader of the program reads one in these two steps.
use czrpc.Prelude.{
  ℕ, ◌+◌, ◌-◌, ◌<◌, Bytes, ◌++◌, ◌≡◌, arith, length, take, drop, Option, none, some, leb,
  if◌then◌else◌, length-append, dec_lt,
}
use czrpc.Prelude.Slices.{take-append, drop-append, take-append_le, length-take}

unfoldable pub read_exact : ℕ → Bytes → Option (Bytes × Bytes)
read_exact n stream = if leb n (length stream) then some (take n stream, drop n stream) else none

pub read_exact-append :
    (n : ℕ) (xs rest : Bytes) → length xs ≡ n → read_exact n (xs ++ rest) ≡ some (xs, rest)
unfolding read_exact
read_exact-append n xs rest e =
    rw (← e, take-append xs rest, drop-append xs rest) (ground (arith, length-append xs rest))

pub read_exact_short : (n : ℕ) (xs : Bytes) → length xs < n → read_exact n xs ≡ none
unfolding read_exact
read_exact_short n xs h = ground arith

module _ {ℓ} {A : Type ℓ} (header_len : ℕ) (size : Bytes → ℕ) (make : Bytes → Bytes → A) where
  unfoldable pub read_rest : Bytes → Bytes → Option (A × Bytes)
  read_rest head rest = elim (read_exact (size head) rest) [
    | none ↦ none
    | some (content, after) ↦ some (make head content, after)
  ]

  unfoldable pub read_frame : Bytes → Option (A × Bytes)
  unfolding read_rest
  read_frame stream = elim (read_exact header_len stream) [
    | none ↦ none
    | some (head, rest) ↦ read_rest head rest
  ]

  module _ (head content : Bytes) (fits : length head ≡ header_len)
      (sized : length content ≡ size head) where
    -- A whole frame is read, and what follows it stays in the stream.
    pub read_frame_whole :
        (rest : Bytes) → read_frame (head ++ (content ++ rest)) ≡ some (make head content, rest)
    unfolding read_frame
    read_frame_whole rest = ground (
      arith,
      read_exact-append header_len head (content ++ rest) fits,
      read_exact-append (size head) content rest sized,
    )

    -- Of a frame that is cut short nothing is read.
    pub read_frame_cut :
        (n : ℕ) → n < length head + length content → read_frame (take n (head ++ content)) ≡ none
    unfolding read_frame
    read_frame_cut n h = elim (dec_lt n (length head)) [
      | yes p ↦ ground (
        arith,
        read_exact_short header_len (take n (head ++ content)),
        length-take n (head ++ content),
      )
      | no p ↦ ground (
        arith,
        take-append_le n head content,
        read_exact-append header_len head (take (n - length head) content) fits,
        read_exact_short (size head) (take (n - length head) content),
        length-take (n - length head) content,
      )
    ]
