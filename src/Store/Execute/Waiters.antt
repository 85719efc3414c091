-- ===== src/Store/Execute/Waiters.antt =====
-- src/main.rs: the tables of blocked clients, under the notifications that `try_execute` makes.
use rust_redis.Prelude.{
  ℕ, ◌≡◌, refl, ap, ◌∙◌, Bool, true, false, Option, none, some, List, [], ◌∷◌, ==_iff, arith,
}
use rust_redis.Prelude.Keys.{Dict, nat_eq, lookup, insert, remove, lookup-insert, lookup-remove}
use rust_redis.Parser.{Outcome, ok, err, panic, out_of_fuel, ◌>>=◌}
use rust_redis.Resp.{Resp}
use rust_redis.Command.{Key}
use rust_redis.Store.{Store, Channel, WaiterId, StreamKey, put}
use rust_redis.Store.Lists.{
  fetch_blpop, with_waiters, settle_waiter, notify_waiter, notify_loop, notify_blpop_waiters,
  interested,
}
use rust_redis.Store.Streams.{
  fetch_xread, answered, with_readers, notify_reader, readers_loop, notify_xread_waiters,
  interested_readers,
}
use rust_redis.Store.Replicas.{released, release, release_loop}

-- A key that is not in the first table is not in the second one.
abbrev pub Fewer {κ} : {V : Type κ} → Dict WaiterId V → Dict WaiterId V → Type κ
Fewer m m' = (i : WaiterId) → lookup i m ≡ none → lookup i m' ≡ none

pub remove-Fewer {κ} : {V : Type κ} (k : WaiterId) (m : Dict WaiterId V) → Fewer m (remove k m)
remove-Fewer k m i h = ground (arith, lookup-remove k i m)

-- No client is blocked in the second store that is not in the first one.
pub record NoNew (self self' : Store) : Type 0 where
  pub readers : Fewer self.stream_xread_waiters self'.stream_xread_waiters
  pub poppers : Fewer self.list_blpop_waiters self'.list_blpop_waiters
  pub waiters : Fewer self.wait_waiters self'.wait_waiters

pub NoNew-trans : (a b c : Store) → NoNew a b → NoNew b c → NoNew a c
NoNew-trans a b c f g = record {
  readers = λ i h. g.readers i (f.readers i h);
  poppers = λ i h. g.poppers i (f.poppers i h);
  waiters = λ i h. g.waiters i (f.waiters i h);
}

-- The tables are the same.
abbrev pub Same : Store → Store → Type 0
Same self self' =
    (self'.stream_xread_waiters ≡ self.stream_xread_waiters)
    × (self'.list_blpop_waiters ≡ self.list_blpop_waiters)
    × (self'.wait_waiters ≡ self.wait_waiters)

pub Same-NoNew : (self self' : Store) → Same self self' → NoNew self self'
Same-NoNew self self' (a, b, c) = record {
  readers = λ i h. ap (λ m. lookup i m) a ∙ h;
  poppers = λ i h. ap (λ m. lookup i m) b ∙ h;
  waiters = λ i h. ap (λ m. lookup i m) c ∙ h;
}

-- BLPOP's waiters: one that finds nothing goes back into the table that it was taken from.
pub fetch_blpop-Same : (keys : List Key) (self : Store) → Same self (fetch_blpop keys self).0
unfolding fetch_blpop put
fetch_blpop-Same [] self = (refl, refl, refl)
fetch_blpop-Same (k ∷ keys) self =
    let (a, b, c) = fetch_blpop-Same keys self in (ground arith, ground arith, ground arith)

notify_waiter-NoNew :
    (waiter_id : WaiterId) (self : Store) → NoNew self (notify_waiter waiter_id self)
unfolding notify_waiter
notify_waiter-NoNew waiter_id self = go (lookup waiter_id self.list_blpop_waiters) refl
  where
    back :
        (w : Channel × List Key)
        → lookup waiter_id self.list_blpop_waiters ≡ some w
        → Fewer self.list_blpop_waiters
            (insert waiter_id w (remove waiter_id self.list_blpop_waiters))
    back w e i h = ground (
      arith,
      ==_iff waiter_id i,
      lookup-insert waiter_id i w (remove waiter_id self.list_blpop_waiters),
      lookup-remove waiter_id i self.list_blpop_waiters,
    )

    settled :
        (channel : Channel) (keys : List Key) (fetched : Store × Resp × Bool)
        → Same (with_waiters self (remove waiter_id self.list_blpop_waiters)) fetched.0
        → lookup waiter_id self.list_blpop_waiters ≡ some (channel, keys)
        → NoNew self (settle_waiter waiter_id channel keys fetched)
    settled channel keys (self', rows, true) (a, b, c) e = record {
      readers = λ i h. ap (λ m. lookup i m) a ∙ h;
      poppers = λ i h. rw b (back (channel, keys) e i h);
      waiters = λ i h. ap (λ m. lookup i m) c ∙ h;
    }
    settled channel keys (self', rows, false) (a, b, c) e = record {
      readers = λ i h. ap (λ m. lookup i m) a ∙ h;
      poppers = λ i h. rw b (
          remove-Fewer waiter_id (remove waiter_id self.list_blpop_waiters) i
            (remove-Fewer waiter_id self.list_blpop_waiters i h));
      waiters = λ i h. ap (λ m. lookup i m) c ∙ h;
    }

    go :
        (o : Option (Channel × List Key))
        → lookup waiter_id self.list_blpop_waiters ≡ o
        → NoNew self (elim o [
          | some (channel, keys) ↦
              settle_waiter waiter_id channel keys
                (fetch_blpop keys (with_waiters self (remove waiter_id self.list_blpop_waiters)))
          | none ↦ self
        ])
    go none e = Same-NoNew self self (refl, refl, refl)
    go (some (channel, keys)) e =
        let removed = with_waiters self (remove waiter_id self.list_blpop_waiters) in
        settled channel keys (fetch_blpop keys removed) (fetch_blpop-Same keys removed) e

pub notify_blpop_waiters-NoNew :
    (key : Key) (self : Store) → NoNew self (notify_blpop_waiters key self)
unfolding notify_blpop_waiters
notify_blpop_waiters-NoNew key self = loop (interested key self.list_blpop_waiters) self
  where
    loop : (waiters : List WaiterId) (self : Store) → NoNew self (notify_loop waiters self)
    loop [] self = Same-NoNew self self (refl, refl, refl)
    loop (waiter_id ∷ waiters) self =
        NoNew-trans self (notify_waiter waiter_id self) _ (notify_waiter-NoNew waiter_id self)
          (loop waiters (notify_waiter waiter_id self))

-- WAIT's waiters: those that are met leave the table.
release-NoNew : (waiter_id : WaiterId) (self : Store) → NoNew self (release waiter_id self)
unfolding release
release-NoNew waiter_id self = go (lookup waiter_id self.wait_waiters)
  where
    go : (o : Option (Channel × ℕ × ℕ)) → NoNew self (released waiter_id self o)
    go none = Same-NoNew self self (refl, refl, refl)
    go (some (channel, numreplicas, target)) = record {
      readers = λ i h. h;
      poppers = λ i h. h;
      waiters = remove-Fewer waiter_id self.wait_waiters;
    }

pub release_loop-NoNew :
    (waiters : List WaiterId) (self : Store) → NoNew self (release_loop waiters self)
unfolding release_loop
release_loop-NoNew [] self = Same-NoNew self self (refl, refl, refl)
release_loop-NoNew (waiter_id ∷ waiters) self =
    NoNew-trans self (release waiter_id self) _ (release-NoNew waiter_id self)
      (release_loop-NoNew waiters (release waiter_id self))

-- Whatever comes of a computation, a store that it leaves has no new waiters.
abbrev pub Safe {κ} : {A : Type κ} → (A → Store) → Store → Outcome A → Type 0
Safe store_of self (ok a) = NoNew self (store_of a)
Safe store_of self (err e) = Unit
Safe store_of self panic = Unit
Safe store_of self out_of_fuel = Unit

-- What is computed from the store and leaves it alone.
pub Safe-pure {κ μ} :
    {A : Type κ} {B : Type μ} (store_of : B → Store) (self : Store) (o : Outcome A)
    (f : A → Outcome B)
    → ((a : A) → Safe store_of self (f a))
    → Safe store_of self (o >>= f)
Safe-pure store_of self (ok a) f h = h a
Safe-pure store_of self (err e) f h = tt
Safe-pure store_of self panic f h = tt
Safe-pure store_of self out_of_fuel f h = tt

pub Safe-trans {κ} :
    {B : Type κ} (store_of : B → Store) (a b : Store) (o : Outcome B)
    → NoNew a b
    → Safe store_of b o
    → Safe store_of a o
Safe-trans store_of a b (ok c) f g = NoNew-trans a b (store_of c) f g
Safe-trans store_of a b (err e) f g = tt
Safe-trans store_of a b panic f g = tt
Safe-trans store_of a b out_of_fuel f g = tt

-- One computation after the other.
pub Safe-bind {κ μ} :
    {A : Type κ} {B : Type μ} (first : A → Store) (store_of : B → Store) (self : Store)
    (o : Outcome A) (f : A → Outcome B)
    → Safe first self o
    → ((a : A) → Safe store_of (first a) (f a))
    → Safe store_of self (o >>= f)
Safe-bind first store_of self (ok a) f s h = Safe-trans store_of self (first a) (f a) s (h a)
Safe-bind first store_of self (err e) f s h = tt
Safe-bind first store_of self panic f s h = tt
Safe-bind first store_of self out_of_fuel f s h = tt

-- XREAD's waiters: all that wait for the key leave the table.
notify_reader-Safe :
    (waiter_id : WaiterId) (self : Store) → Safe (λ s. s) self (notify_reader waiter_id self)
unfolding notify_reader
notify_reader-Safe waiter_id self = go (lookup waiter_id self.stream_xread_waiters)
  where
    go :
        (o : Option (Channel × List Key × List StreamKey))
        → Safe
            (λ s. s)
            self
            (elim o as (λ x. Outcome Store) [
              | none ↦ ok self
              | some (channel, keys, ids) ↦
                  let removed = with_readers self (remove waiter_id self.stream_xread_waiters) in
                  do found ← fetch_xread keys ids removed; ok (answered channel removed found)
            ])
    go none = Same-NoNew self self (refl, refl, refl)
    go (some (channel, keys, ids)) =
        Safe-pure (λ s. s) self
          (fetch_xread keys ids (with_readers self (remove waiter_id self.stream_xread_waiters))) _
          (λ (rows, is_empty). record {
            readers = remove-Fewer waiter_id self.stream_xread_waiters;
            poppers = λ i h. h;
            waiters = λ i h. h;
          })

pub notify_xread_waiters-Safe :
    (key : Key) (self : Store) → Safe (λ s. s) self (notify_xread_waiters key self)
unfolding notify_xread_waiters
notify_xread_waiters-Safe key self = loop (interested_readers key self.stream_xread_waiters) self
  where
    loop : (waiters : List WaiterId) (self : Store) → Safe (λ s. s) self (readers_loop waiters self)
    loop [] self = Same-NoNew self self (refl, refl, refl)
    loop (waiter_id ∷ waiters) self =
        Safe-bind (λ s. s) (λ s. s) self (notify_reader waiter_id self) (readers_loop waiters)
          (notify_reader-Safe waiter_id self) (loop waiters)
