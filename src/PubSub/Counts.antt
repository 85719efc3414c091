-- ===== src/PubSub/Counts.antt =====
-- What SUBSCRIBE and UNSUBSCRIBE do to the subscriptions of src/pubsub.rs and to their number.
use rust_redis.Prelude.{
  ◌≡◌, refl, Bool, false, ◌||◌, ◌&&◌, not, Option, none, some, inl, inr, Bool-cases, List, [], ◌∷◌,
  ◌+◌, arith, Bytes, ◌==◌, ==_iff, if◌then◌else◌,
}
use rust_redis.Prelude.Keys.{bytes_eq, bytes_eq_iff, bytes_keys, lookup, insert, lookup-insert}
use rust_redis.ClientSets.{ClientId, has, add, without, has_in, has-add, has-same, has-removed}
use rust_redis.PubSub.{PubSub, add_subscription, get_client_subscriptions, unsubscribe}

-- Whether the client is subscribed to the channel.
abbrev pub subscribed : PubSub → ClientId → Bytes → Bool
subscribed self x channel = has_in x (lookup channel self)

-- One set of the table is replaced by another.
subscribed-insert :
    (x : ClientId) (channel k : Bytes) (clients : List ClientId) (m : PubSub)
    → subscribed (insert channel clients m) x k
      ≡ (if bytes_eq channel k then has x clients else subscribed m x k)
subscribed-insert x channel k clients m = rw lookup-insert (ground arith)

subscriptions-insert :
    (c : ClientId) (channel : Bytes) (clients : List ClientId) (m : PubSub)
    → get_client_subscriptions (insert channel clients m) c
        + (if subscribed m c channel then 1 else 0)
      ≡ get_client_subscriptions m c + (if has c clients then 1 else 0)
unfolding get_client_subscriptions insert lookup
subscriptions-insert c channel clients [] = ground arith
subscriptions-insert c channel clients ((k, old) ∷ m) =
    let step = subscriptions-insert c channel clients m in
    elim (Bool-cases (bytes_eq k channel)) [
      | inl same ↦ rw same (ground arith)
      | inr other ↦ rw other (ground (arith, step))
    ]

abbrev joined : ClientId → Option (List ClientId) → List ClientId
joined c none = c ∷ []
joined c (some clients) = add c clients

has-joined :
    (x c : ClientId) (o : Option (List ClientId)) → has x (joined c o) ≡ (has_in x o || c == x)
unfolding has
has-joined x c none = ground arith
has-joined x c (some clients) = has-add x c clients

add_subscription_lem :
    (self : PubSub) (c : ClientId) (channel : Bytes)
    → add_subscription self c channel ≡ insert channel (joined c (lookup channel self)) self
unfolding add_subscription
add_subscription_lem self c channel = go (lookup channel self) refl
  where
    go :
        (o : Option (List ClientId))
        → lookup channel self ≡ o
        → add_subscription self c channel ≡ insert channel (joined c (lookup channel self)) self
    go none e = rw (e, add_subscription)
    go (some clients) e = rw (e, add_subscription)

-- Subscribing adds the client to the channel and changes no other subscription; the client's number
-- of subscriptions grows by one, if it was not subscribed to the channel.
pub add_subscription_counts :
    (self : PubSub) (c x : ClientId) (channel k : Bytes)
    → (subscribed (add_subscription self c channel) x k
        ≡ (subscribed self x k || (bytes_eq channel k && c == x)))
      × (get_client_subscriptions (add_subscription self c channel) c
          ≡ get_client_subscriptions self c + (if subscribed self c channel then 0 else 1))
add_subscription_counts self c x channel k =
    let set = joined c (lookup channel self) in
    rw (add_subscription_lem self c channel) (
      ground (
        arith,
        subscribed-insert x channel k set self,
        has-joined x c (lookup channel self),
        bytes_eq_iff channel k,
      ),
      ground (
        arith,
        subscriptions-insert c channel set self,
        has-joined c c (lookup channel self),
        ==_iff c c,
      ),
    )

-- Unsubscribing removes the client from the channel and changes no other subscription; the client's
-- number of subscriptions drops by one, if it was subscribed to the channel.
pub unsubscribe_counts :
    (self : PubSub) (c x : ClientId) (channel k : Bytes)
    → (subscribed (unsubscribe self c channel) x k
        ≡ (subscribed self x k && not (bytes_eq channel k && c == x)))
      × (get_client_subscriptions (unsubscribe self c channel) c
            + (if subscribed self c channel then 1 else 0)
          ≡ get_client_subscriptions self c)
unfolding unsubscribe
unsubscribe_counts self c x channel k = go (lookup channel self) refl
  where
    go :
        (o : Option (List ClientId))
        → lookup channel self ≡ o
        → (subscribed (unsubscribe self c channel) x k
            ≡ (subscribed self x k && not (bytes_eq channel k && c == x)))
          × (get_client_subscriptions (unsubscribe self c channel) c
                + (if subscribed self c channel then 1 else 0)
              ≡ get_client_subscriptions self c)
    go none e =
        let nobody : subscribed self x channel ≡ false = rw e refl in
        rw (e, unsubscribe) (ground (arith, bytes_eq_iff channel k, nobody), omega arith)
    go (some clients) e =
        let left = without c clients in
        let there : subscribed self x channel ≡ has x clients = rw e refl in
        rw (e, unsubscribe)
          (
            ground (
              arith,
              subscribed-insert x channel k left self,
              has-removed x c clients,
              bytes_eq_iff channel k,
              there,
            ),
            ground (arith, subscriptions-insert c channel left self, has-same c clients, e),
          )
