-- ===== src/Server/TopicManager.antt =====
-- `topic_manager` of czrpc/server/topic_manager.hpp: who has subscribed to what. The map holds weak
-- pointers: `alive` tells which connections still are, and a connection that is asked about is held
-- by the caller, so it is alive itself. Every method holds the mutex throughout. The order of the
-- multimap is not promised; a new entry stands at the end here.
pub mod Sets
pub mod Subscriptions
pub mod Counts
use czrpc.Prelude.{
  ℕ, Bytes, Bytes-discrete, Bool, true, false, ◌&&◌, ◌||◌, List, [], ◌∷◌, ◌++◌, Option, none, some,
  ite, ◌==◌, if◌then◌else◌,
}

-- `std::unordered_multimap<std::string, connection_weak_ptr>`
abbrev pub Topics : Type 0
Topics = List (Bytes × ℕ)

module _ (alive : ℕ → Bool) where
  -- `iter->second.lock() == conn`
  unfoldable pub points_to : ℕ → ℕ → Bool
  points_to weak conn = alive weak && weak == conn

  -- The walk of `add_topic` over the entries of the topic.
  unfoldable pub has_topic : Bytes → ℕ → Topics → Bool
  unfolding points_to
  has_topic topic conn [] = false
  has_topic topic conn ((t, w) ∷ m) =
      ite (Bytes-discrete t topic) (points_to w conn) false || has_topic topic conn m

  unfoldable pub add_topic : Bytes → ℕ → Topics → Topics
  add_topic topic conn m = if has_topic topic conn m then m else m ++ (topic, conn) ∷ []

  unfoldable pub remove_topic : Bytes → ℕ → Topics → Topics
  unfolding points_to
  remove_topic topic conn [] = []
  remove_topic topic conn ((t, w) ∷ m) =
      let rest = remove_topic topic conn m in
      ite (Bytes-discrete t topic) (if points_to w conn then rest else (t, w) ∷ rest)
        ((t, w) ∷ rest)

  unfoldable pub remove_all_topic : ℕ → Topics → Topics
  unfolding points_to
  remove_all_topic conn [] = []
  remove_all_topic conn ((t, w) ∷ m) =
      let rest = remove_all_topic conn m in if points_to w conn then rest else (t, w) ∷ rest

-- The weak pointers of a topic, the expired ones too.
unfoldable pub get_connection_by_topic : Bytes → Topics → List ℕ
get_connection_by_topic topic [] = []
get_connection_by_topic topic ((t, w) ∷ m) =
    let rest = get_connection_by_topic topic m in ite (Bytes-discrete t topic) (w ∷ rest) rest
