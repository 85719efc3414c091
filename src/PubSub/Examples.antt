-- ===== src/PubSub/Examples.antt =====
-- The theorems on src/pubsub.rs at concrete tables.
use rust_redis.Prelude.{◌+◌, ◌≡◌, [], ◌∷◌, ◌||◌, ◌&&◌, not, ◌==◌, Bytes, codes, if◌then◌else◌}
use rust_redis.Prelude.Keys.{bytes_eq}
use rust_redis.PubSub.{PubSub, add_subscription, get_client_subscriptions, unsubscribe}
use rust_redis.PubSub.Counts.{subscribed, add_subscription_counts, unsubscribe_counts}

abbrev news : Bytes
news = codes "news"

abbrev two_readers : PubSub
two_readers = (news, 1 ∷ 2 ∷ []) ∷ []

add_subscription_counts_example :
    (subscribed (add_subscription two_readers 3 news) 2 news
      ≡ (subscribed two_readers 2 news || (bytes_eq news news && 3 == 2)))
    × (get_client_subscriptions (add_subscription two_readers 3 news) 3
        ≡ get_client_subscriptions two_readers 3 + (if subscribed two_readers 3 news then 0 else 1))
add_subscription_counts_example = add_subscription_counts two_readers 3 2 news news

unsubscribe_counts_example :
    (subscribed (unsubscribe two_readers 1 news) 1 news
      ≡ (subscribed two_readers 1 news && not (bytes_eq news news && 1 == 1)))
    × (get_client_subscriptions (unsubscribe two_readers 1 news) 1
          + (if subscribed two_readers 1 news then 1 else 0)
        ≡ get_client_subscriptions two_readers 1)
unsubscribe_counts_example = unsubscribe_counts two_readers 1 1 news news
