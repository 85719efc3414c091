-- ===== src/PubSub.antt =====
-- src/pubsub.rs: the channels and their subscribers. A HashSet of clients is a list without
-- repetitions.
pub mod Counts
pub mod Examples
use rust_redis.Prelude.{
  ℕ, suc, Bool, true, false, Option, none, some, List, [], ◌∷◌, ◌+◌, Bytes, length, if◌then◌else◌,
}
use rust_redis.Prelude.Keys.{Dict, bytes_keys, lookup, insert}
use rust_redis.ClientSets.{ClientId, has, add, without}

-- `PubSub`: the table of subscriptions.
abbrev pub PubSub : Type 0
PubSub = Dict Bytes (List ClientId)

unfoldable pub add_subscription : PubSub → ClientId → Bytes → PubSub
unfolding has
add_subscription self client_id channel = elim (lookup channel self) [
  | some subs ↦ insert channel (add client_id subs) self
  | none ↦ insert channel (client_id ∷ []) self
]

unfoldable pub get_client_subscriptions : PubSub → ClientId → ℕ
unfolding has
get_client_subscriptions [] client_id = 0
get_client_subscriptions ((channel, clients) ∷ self) client_id =
    let c = get_client_subscriptions self client_id in if has client_id clients then c + 1 else c

unfoldable pub subscribers_count : PubSub → Bytes → ℕ
subscribers_count self channel = elim (lookup channel self) [ some cs ↦ length cs | none ↦ 0 ]

-- The set stays, when it gets empty.
unfoldable pub unsubscribe : PubSub → ClientId → Bytes → PubSub
unfolding without
unsubscribe self client_id channel = elim (lookup channel self) [
  | some subs ↦ insert channel (without client_id subs) self
  | none ↦ self
]
