-- ===== src/Store/Channels.antt =====
-- src/main.rs: SUBSCRIBE, UNSUBSCRIBE and PUBLISH, around the subscriptions of src/pubsub.rs.
use rust_redis.Prelude.{Option, none, some, List, [], ◌∷◌, ◌++◌, Bytes, codes}
use rust_redis.Prelude.Int.{pos}
use rust_redis.Prelude.Keys.{bytes_keys, nat_eq, lookup}
use rust_redis.Parser.{Outcome, ok, panic}
use rust_redis.Resp.{integer, bulk_string, array, vec}
use rust_redis.ClientSets.{ClientId}
use rust_redis.PubSub.{
  PubSub, add_subscription, get_client_subscriptions, subscribers_count, unsubscribe,
}
use rust_redis.Store.{Store, StorePush, message, TryExecuteResult, done}

abbrev pub with_pubsub : Store → PubSub → Store
with_pubsub self pubsub = record self { pubsub = pubsub }

-- `for channel in channels { self.pubsub.add_subscription(client_id, channel); }`
unfoldable pub subscribe_loop : ClientId → List Bytes → PubSub → PubSub
subscribe_loop client_id [] pubsub = pubsub
subscribe_loop client_id (channel ∷ channels) pubsub =
    subscribe_loop client_id channels (add_subscription pubsub client_id channel)

unfoldable pub unsubscribe_loop : ClientId → List Bytes → PubSub → PubSub
unsubscribe_loop client_id [] pubsub = pubsub
unsubscribe_loop client_id (channel ∷ channels) pubsub =
    unsubscribe_loop client_id channels (unsubscribe pubsub client_id channel)

-- The reply names `channels[0]`, which panics without a channel.
abbrev channel_reply : Bytes → ClientId → List Bytes → Store → Outcome (Store × TryExecuteResult)
channel_reply kind client_id [] self = panic
channel_reply kind client_id (channel ∷ channels) self = ok (
  self,
  done (
      array (
        vec (
          bulk_string kind
          ∷ bulk_string channel
          ∷ integer (pos (get_client_subscriptions self.pubsub client_id))
          ∷ []))),
)

unfoldable pub command_subscribe :
    ClientId → List Bytes → Store → Outcome (Store × TryExecuteResult)
unfolding subscribe_loop
command_subscribe client_id channels self =
    channel_reply (codes "subscribe") client_id channels
      (with_pubsub self (subscribe_loop client_id channels self.pubsub))

unfoldable pub command_unsubscribe :
    ClientId → List Bytes → Store → Outcome (Store × TryExecuteResult)
unfolding unsubscribe_loop
command_unsubscribe client_id channels self =
    channel_reply (codes "unsubscribe") client_id channels
      (with_pubsub self (unsubscribe_loop client_id channels self.pubsub))

-- `for client_id in clients`: a push for each client that is registered.
unfoldable pub push_loop : StorePush → List ClientId → Store → List (ClientId × StorePush)
push_loop push [] self = []
push_loop push (client_id ∷ subscribers) self =
    let rest = push_loop push subscribers self in
    elim (lookup client_id self.clients) [
      | some is_replica ↦ (client_id, push) ∷ rest
      | none ↦ rest
    ]

abbrev pub with_pushed : Store → List (ClientId × StorePush) → Store
with_pushed self more = record self { pushed = self.pushed ++ more }

abbrev subscribers_of : Option (List ClientId) → List ClientId
subscribers_of none = []
subscribers_of (some subscribers) = subscribers

unfoldable pub command_publish : Bytes → Bytes → Store → Store × TryExecuteResult
unfolding push_loop
command_publish channel text self =
    let resp =
      array (vec (bulk_string (codes "message") ∷ bulk_string channel ∷ bulk_string text ∷ [])) in
    (
      with_pushed self
          (push_loop (message resp) (subscribers_of (lookup channel self.pubsub)) self),
      done (integer (pos (subscribers_count self.pubsub channel))),
    )
