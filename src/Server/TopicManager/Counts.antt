-- ===== src/Server/TopicManager/Counts.antt =====
-- How often a pair of a topic and a connection stands in czrpc/server/topic_manager.hpp.
use czrpc.Prelude.{
  ℕ, ◌+◌, ◌≤◌, Bytes, Bytes-discrete, Bool, true, false, List, [], ◌∷◌, ◌++◌, ite, ◌==◌,
  if◌then◌else◌, ◌≡◌, refl, arith,
}
use czrpc.Server.TopicManager.{
  Topics, has_topic, add_topic, remove_topic, remove_all_topic, get_connection_by_topic,
}

abbrev pub count_pair : Bytes → ℕ → Topics → ℕ
count_pair t c [] = 0
count_pair t c ((u, w) ∷ m) =
    (ite (Bytes-discrete u t) (if w == c then 1 else 0) 0) + count_pair t c m

abbrev pub count : ℕ → List ℕ → ℕ
count c [] = 0
count c (w ∷ ws) = (if w == c then 1 else 0) + count c ws

abbrev pub IsTopics : Topics → Type 0
IsTopics m = (t : Bytes) (c : ℕ) → count_pair t c m ≤ 1

count_pair-append :
    (t : Bytes) (c : ℕ) (m n : Topics)
    → count_pair t c (m ++ n) ≡ count_pair t c m + count_pair t c n
count_pair-append t c [] n = omega arith
count_pair-append t c ((u, w) ∷ m) n = ground (arith, count_pair-append t c m n)

pub count-get_connection_by_topic :
    (t : Bytes) (c : ℕ) (m : Topics) → count c (get_connection_by_topic t m) ≡ count_pair t c m
unfolding get_connection_by_topic
count-get_connection_by_topic t c [] = refl
count-get_connection_by_topic t c ((u, w) ∷ m) = ground (arith, count-get_connection_by_topic t c m)

module _ (alive : ℕ → Bool) where
  -- A live connection has the topic exactly when its pair stands in the map.
  pub has_topic-count :
      (t : Bytes) (c : ℕ) (m : Topics)
      → has_topic alive t c m ≡ (if count_pair t c m == 0 then false else alive c)
  unfolding has_topic
  has_topic-count t c [] = refl
  has_topic-count t c ((u, w) ∷ m) = ground (arith, has_topic-count t c m)

  -- `add_topic` keeps the pairs distinct, and so do the two removals.
  pub add_topic-IsTopics :
      (topic : Bytes) (conn : ℕ) (m : Topics)
      → alive conn ≡ true
      → IsTopics m
      → IsTopics (add_topic alive topic conn m)
  unfolding add_topic
  add_topic-IsTopics topic conn m l h t c =
      ground
        (arith, h t c, has_topic-count topic conn m, count_pair-append t c m ((topic, conn) ∷ []))

  count_pair-remove_topic :
      (topic : Bytes) (conn : ℕ) (m : Topics) (t : Bytes) (c : ℕ)
      → count_pair t c (remove_topic alive topic conn m) ≤ count_pair t c m
  unfolding remove_topic
  count_pair-remove_topic topic conn [] t c = omega arith
  count_pair-remove_topic topic conn ((u, w) ∷ m) t c =
      ground (arith, count_pair-remove_topic topic conn m t c)

  count_pair-remove_all_topic :
      (conn : ℕ) (m : Topics) (t : Bytes) (c : ℕ)
      → count_pair t c (remove_all_topic alive conn m) ≤ count_pair t c m
  unfolding remove_all_topic
  count_pair-remove_all_topic conn [] t c = omega arith
  count_pair-remove_all_topic conn ((u, w) ∷ m) t c =
      ground (arith, count_pair-remove_all_topic conn m t c)

  pub remove_topic-IsTopics :
      (topic : Bytes) (conn : ℕ) (m : Topics)
      → IsTopics m
      → IsTopics (remove_topic alive topic conn m)
  remove_topic-IsTopics topic conn m h t c =
      omega (arith, h t c, count_pair-remove_topic topic conn m t c)

  pub remove_all_topic-IsTopics :
      (conn : ℕ) (m : Topics) → IsTopics m → IsTopics (remove_all_topic alive conn m)
  remove_all_topic-IsTopics conn m h t c =
      omega (arith, h t c, count_pair-remove_all_topic conn m t c)

  -- What the operations make of the number of a pair.
  pub count_pair-add_topic :
      (topic : Bytes) (conn : ℕ) (m : Topics) (t : Bytes) (c : ℕ)
      → alive conn ≡ true
      → count_pair t c (add_topic alive topic conn m)
        ≡ ite
            (Bytes-discrete topic t)
            (if conn == c
              then (if count_pair t c m == 0 then 1 else count_pair t c m)
              else count_pair t c m)
            (count_pair t c m)
  unfolding add_topic
  count_pair-add_topic topic conn m t c l =
      ground (arith, has_topic-count topic conn m, count_pair-append t c m ((topic, conn) ∷ []))

  pub count_pair_removed :
      (topic : Bytes) (conn : ℕ) (m : Topics) (t : Bytes) (c : ℕ)
      → alive conn ≡ true
      → count_pair t c (remove_topic alive topic conn m)
        ≡ ite
            (Bytes-discrete topic t)
            (if conn == c then 0 else count_pair t c m)
            (count_pair t c m)
  unfolding remove_topic
  count_pair_removed topic conn [] t c l = ground arith
  count_pair_removed topic conn ((u, w) ∷ m) t c l =
      ground (arith, count_pair_removed topic conn m t c l)
