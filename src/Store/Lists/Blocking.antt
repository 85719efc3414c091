-- ===== src/Store/Lists/Blocking.antt =====
-- src/main.rs: RPUSH and LPUSH and the clients that BLPOP has blocked on the key.
use rust_redis.Prelude.{
  ap, ◌≡◌, refl, inl, inr, Bool, true, false, ◌||◌, ◌==◌, Option, none, some, List, [], ◌∷◌, arith,
  Bytes, if◌then◌else◌, Bool-cases, ==_iff,
}
use rust_redis.Prelude.Keys.{Dict, bytes_keys, nat_eq, lookup, remove, lookup-insert, lookup-remove}
use rust_redis.Resp.{Resp}
use rust_redis.Command.{Key}
use rust_redis.Store.{Store, Channel, WaiterId, list_at}
use rust_redis.Store.Lists.{
  contains, fetch_blpop, interested, with_waiters, settle_waiter, notify_waiter, notify_loop,
  notify_blpop_waiters, rpush, rpushed, lpush, lpushed,
}
use rust_redis.Store.Lists.Fetches.{is_drained, fetch_blpop-Fetched}

unfoldable pub mem : WaiterId → List WaiterId → Bool
mem id [] = false
mem id (w ∷ ids) = w == id || mem id ids

is_drained-with_waiters :
    (key : Key) (self : Store) (m : Dict WaiterId (Channel × List Key))
    → is_drained key (with_waiters self m) ≡ is_drained key self
unfolding is_drained list_at
is_drained-with_waiters key self m = refl

-- Every waiter for the key is still to be tried, or the key is drained.
abbrev Pending : Key → List WaiterId → Store → Type 0
Pending key ids self =
    (id : WaiterId) (channel : Channel) (keys : List Key)
    → lookup id self.list_blpop_waiters ≡ some (channel, keys)
    → contains key keys ≡ true
    → (mem id ids || is_drained key self) ≡ true

settle_waiter-drained :
    (key : Key) (w : WaiterId) (channel : Channel) (keys : List Key) (r : Store × Resp × Bool)
    → is_drained key (settle_waiter w channel keys r) ≡ is_drained key r.0
unfolding is_drained list_at
settle_waiter-drained key w channel keys (s, rows, true) = refl
settle_waiter-drained key w channel keys (s, rows, false) = refl

-- What the table holds for the waiter of a round after it.
abbrev put_back : Channel → List Key → Bool → Option (Channel × List Key)
put_back channel keys true = some (channel, keys)
put_back channel keys false = none

settle_waiter-lookup :
    (w id : WaiterId) (channel : Channel) (keys : List Key) (r : Store × Resp × Bool)
    → lookup id (settle_waiter w channel keys r).list_blpop_waiters
      ≡ (if w == id then put_back channel keys r.2 else lookup id r.0.list_blpop_waiters)
settle_waiter-lookup w id channel keys (s, rows, true) = rw lookup-insert refl
settle_waiter-lookup w id channel keys (s, rows, false) = rw lookup-remove refl

pub notify_waiter-none :
    (w : WaiterId) (self : Store)
    → lookup w self.list_blpop_waiters ≡ none
    → notify_waiter w self ≡ self
unfolding notify_waiter
notify_waiter-none w self e = rw (e, notify_waiter)

pub notify_waiter-some :
    (w : WaiterId) (channel : Channel) (keys : List Key) (self : Store)
    → lookup w self.list_blpop_waiters ≡ some (channel, keys)
    → notify_waiter w self
      ≡ settle_waiter w channel keys
          (fetch_blpop keys (with_waiters self (remove w self.list_blpop_waiters)))
unfolding notify_waiter
notify_waiter-some w channel keys self e = rw (e, notify_waiter)

mem-cons : (id w : WaiterId) (ids : List WaiterId) → mem id (w ∷ ids) ≡ (w == id || mem id ids)
unfolding mem
mem-cons id w ids = refl

-- The waiters that are left after a round on `w`.
module _ (key : Key) (w : WaiterId) (ids : List WaiterId) (self : Store)
    (pending : Pending key (w ∷ ids) self) where
  module _ (channel : Channel) (keys : List Key) where
    abbrev without : Store
    without = with_waiters self (remove w self.list_blpop_waiters)

    abbrev fetched : Store × Resp × Bool
    fetched = fetch_blpop keys without

    -- the waiter of this round was put back: its keys are drained
    same_waiter :
        (keys' : List Key) (channel' : Channel)
        → put_back channel keys fetched.2 ≡ some (channel', keys')
        → contains key keys' ≡ true
        → is_drained key fetched.0 ≡ true
    same_waiter keys' channel' e c =
        let facts = fetch_blpop-Fetched key keys without in ground (arith, facts.1)

    other_waiter :
        (id : WaiterId) (keys' : List Key) (channel' : Channel)
        → (w == id) ≡ false
        → lookup id fetched.0.list_blpop_waiters ≡ some (channel', keys')
        → contains key keys' ≡ true
        → (mem id ids || is_drained key fetched.0) ≡ true
    other_waiter id keys' channel' ne e c =
        let facts = fetch_blpop-Fetched key keys without in
        ground (
          arith,
          facts.0,
          facts.2,
          lookup-remove w id self.list_blpop_waiters,
          ap (λ m. lookup id m) facts.2,
          pending id channel' keys',
          mem-cons id w ids,
          is_drained-with_waiters key self (remove w self.list_blpop_waiters),
        )

    Pending-settle : Pending key ids (settle_waiter w channel keys fetched)
    Pending-settle id channel' keys' e c =
        rw (settle_waiter-drained key w channel keys fetched) (elim (Bool-cases (w == id)) [
          | inl same ↦
              let kept =
                same_waiter keys' channel'
                  (rw (settle_waiter-lookup w id channel keys fetched, same) at e) c in
              ground arith
          | inr other ↦
              other_waiter id keys' channel' other
                (rw (settle_waiter-lookup w id channel keys fetched, other) at e) c
        ])

  Pending-missing : lookup w self.list_blpop_waiters ≡ none → Pending key ids self
  Pending-missing missing id channel keys e c =
      ground (arith, pending id channel keys, mem-cons id w ids, ==_iff w id)

  Pending-notify_waiter : Pending key ids (notify_waiter w self)
  Pending-notify_waiter = go (lookup w self.list_blpop_waiters) refl
    where
      go :
          (o : Option (Channel × List Key))
          → lookup w self.list_blpop_waiters ≡ o
          → Pending key ids (notify_waiter w self)
      go none e = rw (notify_waiter-none w self e) (Pending-missing e)
      go (some (channel, keys)) e =
          rw (notify_waiter-some w channel keys self e) (Pending-settle channel keys)

Pending-notify_loop :
    (key : Key) (ids : List WaiterId) (self : Store)
    → Pending key ids self
    → Pending key [] (notify_loop ids self)
unfolding notify_loop
Pending-notify_loop key [] self p = p
Pending-notify_loop key (w ∷ ids) self p =
    Pending-notify_loop key ids (notify_waiter w self) (Pending-notify_waiter key w ids self p)

-- The ids that the loop gets are those of all the waiters for the key.
mem-interested :
    (key : Key) (id : WaiterId) (channel : Channel) (keys : List Key)
    (m : Dict WaiterId (Channel × List Key))
    → lookup id m ≡ some (channel, keys)
    → contains key keys ≡ true
    → mem id (interested key m) ≡ true
unfolding interested lookup mem
mem-interested key id channel keys [] e c = cc
mem-interested key id channel keys ((j, (ch, ks)) ∷ m) e c =
    ground (arith, ==_iff j id, mem-interested key id channel keys m)

-- Whoever still waits for the key waits on a drained list.
abbrev pub IsServed : Key → Store → Type 0
IsServed key self =
    (id : WaiterId) (channel : Channel) (keys : List Key)
    → lookup id self.list_blpop_waiters ≡ some (channel, keys)
    → contains key keys ≡ true
    → is_drained key self ≡ true

notify-IsServed : (key : Key) (self : Store) → IsServed key (notify_blpop_waiters key self)
unfolding notify_blpop_waiters mem
notify-IsServed key self id channel keys e c =
    Pending-notify_loop key (interested key self.list_blpop_waiters) self
      (λ i ch ks f g. rw (mem-interested key i ch ks self.list_blpop_waiters f g)) id channel keys e
      c

-- After RPUSH and after LPUSH, whatever the elements and the waiters, no client is left waiting for
-- the key while its list has an element.
pub push-IsServed :
    (key : Key) (elements : List Bytes) (self : Store)
    → IsServed key (rpush key elements self).0 × IsServed key (lpush key elements self).0
push-IsServed key elements self = (
  unfold rpush in notify-IsServed key (rpushed key elements self).0,
  unfold lpush in notify-IsServed key (lpushed key elements self).0,
)
