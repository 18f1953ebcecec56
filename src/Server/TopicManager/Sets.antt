-- ===== src/Server/TopicManager/Sets.antt =====
-- The topic manager as a set of pairs of a topic and a connection.
use czrpc.Prelude.{
  ℕ, Bytes, Bytes-discrete, Bool, true, false, not, ◌&&◌, ◌||◌, [], ◌∷◌, ◌++◌, ite, ◌==◌, ◌≡◌, refl,
  arith,
}
use czrpc.Server.TopicManager.{Topics, has_topic, add_topic, remove_topic, remove_all_topic}

module _ (alive : ℕ → Bool) where
  -- Whether `conn` is the live connection `c`, and `topic` is `t`.
  abbrev pub is_topic : Bytes → Bytes → Bool
  is_topic t topic = ite (Bytes-discrete t topic) true false

  has_topic-append :
      (t : Bytes) (c : ℕ) (m n : Topics)
      → has_topic alive t c (m ++ n) ≡ (has_topic alive t c m || has_topic alive t c n)
  unfolding has_topic
  has_topic-append t c [] n = refl
  has_topic-append t c ((u, w) ∷ m) n = ground (arith, has_topic-append t c m n)

  -- After `add_topic` the set has the pair, and is otherwise what it was.
  pub has_topic-add_topic :
      (topic t : Bytes) (conn c : ℕ) (m : Topics)
      → alive conn ≡ true
      → has_topic alive t c (add_topic alive topic conn m)
        ≡ (has_topic alive t c m || (is_topic topic t && conn == c))
  unfolding add_topic has_topic
  has_topic-add_topic topic t conn c m l =
      ground (arith, has_topic-append t c m ((topic, conn) ∷ []))

  -- After `remove_topic` the set lacks the pair, and is otherwise what it was.
  pub has_topic-remove_topic :
      (topic t : Bytes) (conn c : ℕ) (m : Topics)
      → has_topic alive t c (remove_topic alive topic conn m)
        ≡ (has_topic alive t c m && not (is_topic topic t && conn == c))
  unfolding remove_topic has_topic
  has_topic-remove_topic topic t conn c [] = refl
  has_topic-remove_topic topic t conn c ((u, w) ∷ m) =
      ground (arith, has_topic-remove_topic topic t conn c m)

  -- After `remove_all_topic` the set has no pair of the connection, and is otherwise what it was.
  pub has_topic-remove_all_topic :
      (t : Bytes) (conn c : ℕ) (m : Topics)
      → has_topic alive t c (remove_all_topic alive conn m)
        ≡ (has_topic alive t c m && not (conn == c))
  unfolding remove_all_topic has_topic
  has_topic-remove_all_topic t conn c [] = refl
  has_topic-remove_all_topic t conn c ((u, w) ∷ m) =
      ground (arith, has_topic-remove_all_topic t conn c m)
