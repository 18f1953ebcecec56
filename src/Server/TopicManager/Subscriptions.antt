-- ===== src/Server/TopicManager/Subscriptions.antt =====
-- The subscriptions of czrpc/server/topic_manager.hpp without the order of the multimap and without
-- the entries of connections that are no more.
use mathlib.Core.Quot
use mathlib.Core.Quot.{Quot, Quot-set}
use czrpc.Prelude.{ℕ, Bytes, Bool, ◌≡◌, ap, if◌then◌else◌}
use czrpc.Server.TopicManager.{Topics}
use czrpc.Server.TopicManager.Counts.{count_pair}

module _ (alive : ℕ → Bool) where
  -- How often a live connection stands under a topic.
  abbrev pub live_count : Bytes → ℕ → Topics → ℕ
  live_count t c m = if alive c then count_pair t c m else 0

  -- The same live connections stand under the same topics, as often.
  abbrev pub SameTopics : Topics → Topics → Type 0
  SameTopics m n = (t : Bytes) (c : ℕ) → live_count t c m ≡ live_count t c n

  abbrev pub Subscriptions : Type 0
  Subscriptions = Quot SameTopics

  abbrev pub subscriptions : Topics → Subscriptions
  subscriptions = Quot.mk

  -- How often a connection has a topic.
  unfoldable pub times : Bytes → ℕ → Subscriptions → ℕ
  times t c = Quot.lift (hlevel) (live_count t c) (λ m n h. h t c)

  pub subscriptions_same : (m n : Topics) → SameTopics m n → subscriptions m ≡ subscriptions n
  subscriptions_same m n h = Quot.sound h

  pub same_subscriptions : (m n : Topics) → subscriptions m ≡ subscriptions n → SameTopics m n
  unfolding times
  same_subscriptions m n e t c = ap (times t c) e
