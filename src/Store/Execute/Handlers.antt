-- ===== src/Store/Execute/Handlers.antt =====
-- src/main.rs: the handlers of `try_execute` and the tables of blocked clients.
use rust_redis.Prelude.{
  ℕ, refl, Bool, true, false, not, ◌&&◌, Option, none, some, List, [], ◌∷◌, ◌++◌, Bytes, codes,
  if◌then◌else◌, arith,
}
use rust_redis.Prelude.Keys.{nat_eq, bytes_eq, bytes_keys, lookup, insert}
use rust_redis.Prelude.Int.{ℤ}
use rust_redis.Parser.{Outcome, ok, panic, ◌>>=◌}
use rust_redis.Resp
use rust_redis.Resp.{Resp, null_array, array, vec, simple_error}
use rust_redis.Command.{Key, F64, XaddStreamIdInput, XreadStreamIdInput}
use rust_redis.Platform.{Platform}
use rust_redis.ClientSets.{ClientId}
use rust_redis.Store.{
  Store, TryExecuteResult, put, StreamKey, Value, stream, expire_at, RedisStream, done, list_at,
  stream_at,
}
use rust_redis.Store.Strings.{incremented, incr}
use rust_redis.Store.Lists.{
  rpushed, lpushed, rpush, lpush, lpop, lrange, blpop, lrange_of, fetch_blpop, blpop_result,
}
use rust_redis.Store.Streams.{
  ensured, xadd, xrange, xread, checked, refusal, xadd_to, inserted, or_stream,
  notify_xread_waiters, too_small_id, real_ids, fetch_xread, xread_result, is_nil, rows,
}
use rust_redis.Store.Streams.Entries.{stream_insert, next_stream_id, key_ltb, between}
use rust_redis.Store.Zsets.{command_zadd, command_zrem, command_geoadd, command_geosearch}
use rust_redis.Store.Channels.{command_subscribe, command_unsubscribe}
use rust_redis.Store.Users.{command_auth}
use rust_redis.Store.Replicas.{command_replconf_ack, met, wait}
use rust_redis.Store.Execute.Waiters.{
  NoNew, NoNew-trans, Safe-trans, fetch_blpop-Same, Same, Same-NoNew, notify_blpop_waiters-NoNew,
  release_loop-NoNew, Safe, Safe-pure, Safe-bind, notify_xread_waiters-Safe,
}

-- What a handler leaves.
abbrev pub store_of : Store × TryExecuteResult → Store
store_of (self, r) = self

pub same : (self : Store) → Same self self
same self = (refl, refl, refl)

pub incr-Same : (key : Key) (self : Store) → Same self (incr key self).0
unfolding incr incremented put
incr-Same key self = (ground arith, ground arith, ground arith)

pub rpushed-Same :
    (key : Key) (elements : List Bytes) (self : Store) → Same self (rpushed key elements self).0
unfolding rpushed put
rpushed-Same key elements self = (ground arith, ground arith, ground arith)

pub lpushed-Same :
    (key : Key) (elements : List Bytes) (self : Store) → Same self (lpushed key elements self).0
unfolding lpushed put
lpushed-Same key elements self = (ground arith, ground arith, ground arith)

pub lpop-Same : (key : Key) (count : Option ℕ) (self : Store) → Same self (lpop key count self).0
unfolding lpop put
lpop-Same key count self = (ground arith, ground arith, ground arith)

pub lrange-Safe :
    (key : Key) (start stop : ℤ) (self : Store) → Safe store_of self (lrange key start stop self)
unfolding lrange
lrange-Safe key start stop self = go (list_at key self)
  where
    go :
        (o : Option (List Bytes))
        → Safe store_of self (elim o as (λ x. Outcome (Store × TryExecuteResult)) [
          | none ↦ ok (self, done (array Resp.nil))
          | some l ↦ (do els ← lrange_of start stop l; ok (self, done (array (vec els))))
        ])
    go none = Same-NoNew self self (same self)
    go (some l) =
        Safe-pure store_of self (lrange_of start stop l) _ (λ els. Same-NoNew self self (same self))

pub blpop-Same : (keys : List Key) (self : Store) → Same self (blpop keys self).0
unfolding blpop
blpop-Same keys self = go (fetch_blpop keys self) (fetch_blpop-Same keys self)
  where
    go :
        (fetched : Store × Resp × Bool)
        → Same self fetched.0
        → Same self (blpop_result keys fetched).0
    go (self', rows, false) h = h
    go (self', rows, true) h = h

pub xread-Safe :
    (keys : List Key) (ms : Option ℕ) (ids : List XreadStreamIdInput) (self : Store)
    → Safe store_of self (xread keys ms ids self)
unfolding xread
xread-Safe keys ms ids self = Safe-pure store_of self (real_ids ids keys self) _ (λ real.
    Safe-pure store_of self (fetch_xread keys real self) _
      (λ found. Same-NoNew self _ (result real ms found)))
  where
    result :
        (real : List StreamKey) (ms : Option ℕ) (found : List Resp × Bool)
        → Same self (xread_result keys ms real self found).0
    result real ms (rows, false) = same self
    result real none (rows, true) = same self
    result real (some n) (rows, true) = same self

pub xrange-Safe :
    (debug : Key → Bytes) (key : Key) (start end : StreamKey) (self : Store)
    → Safe store_of self (xrange debug key start end self)
unfolding xrange
xrange-Safe debug key start end self = go (stream_at key self) (key_ltb end start)
  where
    go :
        (o : Option RedisStream) (b : Bool)
        → Safe store_of self (elim o as (λ x. Outcome (Store × TryExecuteResult)) [
          | none ↦ ok (self, done (simple_error (codes "Stream not found, XRANGE: " ++ debug key)))
          | some s ↦
              if b && not (is_nil s)
              then panic
              else ok (self, done (array (vec (rows (between start end s)))))
        ])
    go none b = Same-NoNew self self (same self)
    go (some []) true = Same-NoNew self self (same self)
    go (some (x ∷ s)) true = tt
    go (some s) false = Same-NoNew self self (same self)

pub zadd-Same :
    (key : Bytes) (sc : F64) (member : Bytes) (self : Store)
    → Same self (command_zadd key sc member self).0
unfolding command_zadd
zadd-Same key sc member self = same self

pub zrem-Same : (key member : Bytes) (self : Store) → Same self (command_zrem key member self).0
unfolding command_zrem
zrem-Same key member self = same self

pub geoadd-Same :
    (p : Platform) (key : Bytes) (longitude latitude : F64) (member : Bytes) (self : Store)
    → Same self (command_geoadd p key longitude latitude member self).0
unfolding command_geoadd command_zadd
geoadd-Same p key longitude latitude member self = (ground arith, ground arith, ground arith)

pub geosearch-Safe :
    (p : Platform) (key : Bytes) (longitude latitude radius : F64) (unit : Bytes) (self : Store)
    → Safe store_of self (command_geosearch p key longitude latitude radius unit self)
unfolding command_geosearch
geosearch-Safe p key longitude latitude radius unit self =
    go (bytes_eq (p.to_uppercase unit) (codes "M")) _
  where
    go : (b : Bool) (r : TryExecuteResult) → Safe store_of self (if b then ok (self, r) else panic)
    go true r = Same-NoNew self self (same self)
    go false r = tt

pub subscribe-Safe :
    (c : ClientId) (channels : List Bytes) (self : Store)
    → Safe store_of self (command_subscribe c channels self)
unfolding command_subscribe
subscribe-Safe c [] self = tt
subscribe-Safe c (channel ∷ channels) self = Same-NoNew self _ (refl, refl, refl)

pub unsubscribe-Safe :
    (c : ClientId) (channels : List Bytes) (self : Store)
    → Safe store_of self (command_unsubscribe c channels self)
unfolding command_unsubscribe
unsubscribe-Safe c [] self = tt
unsubscribe-Safe c (channel ∷ channels) self = Same-NoNew self _ (refl, refl, refl)

pub auth-Same : (p : Platform) (u w : Bytes) (self : Store) → Same self (command_auth p u w self).0
unfolding command_auth
auth-Same p u w self = (ground arith, ground arith, ground arith)

pub wait-Same :
    (numreplicas timeout : ℕ) (self : Store) → Same self (wait numreplicas timeout self).0
unfolding wait
wait-Same numreplicas timeout self = (ground arith, ground arith, ground arith)

pub replconf_ack-NoNew :
    (c : ClientId) (ack_bytes : ℕ) (self : Store)
    → NoNew self (command_replconf_ack c ack_bytes self).0
unfolding command_replconf_ack
replconf_ack-NoNew c ack_bytes self =
    let acked = record self { replica_acks = insert c ack_bytes self.replica_acks } in
    NoNew-trans self acked _ (Same-NoNew self acked (refl, refl, refl))
      (release_loop-NoNew (met acked acked.wait_waiters) acked)

pub rpush-NoNew :
    (key : Key) (elements : List Bytes) (self : Store) → NoNew self (rpush key elements self).0
unfolding rpush
rpush-NoNew key elements self =
    let pushed = (rpushed key elements self).0 in
    NoNew-trans self pushed _ (Same-NoNew self pushed (rpushed-Same key elements self))
      (notify_blpop_waiters-NoNew key pushed)

pub lpush-NoNew :
    (key : Key) (elements : List Bytes) (self : Store) → NoNew self (lpush key elements self).0
unfolding lpush
lpush-NoNew key elements self =
    let pushed = (lpushed key elements self).0 in
    NoNew-trans self pushed _ (Same-NoNew self pushed (lpushed-Same key elements self))
      (notify_blpop_waiters-NoNew key pushed)

pub or_stream-Same :
    (key : Key) (self : Store) (o : Option Value) → Same self (or_stream key self o)
unfolding put
or_stream-Same key self none = same self
or_stream-Same key self (some v) = same self

pub inserted-Safe :
    (key : Key) (k : StreamKey) (field_values : List Bytes) (s : RedisStream) (self : Store)
    → Safe store_of self (inserted key k field_values s self)
unfolding inserted put
inserted-Safe key k field_values s self =
    let added = put key (stream (stream_insert k field_values s)) (expire_at key self) self in
    Safe-bind (λ s. s) store_of self (notify_xread_waiters key added) _
      (Safe-trans (λ s. s) self added (notify_xread_waiters key added)
        (Same-NoNew self added (same self)) (notify_xread_waiters-Safe key added))
      (λ self'. Same-NoNew self' self' (same self'))

pub xadd_to-Safe :
    (now : ℕ) (key : Key) (id : XaddStreamIdInput) (field_values : List Bytes) (self : Store)
    (o : Option RedisStream)
    → Safe store_of self (xadd_to now key id field_values self o)
unfolding xadd_to
xadd_to-Safe now key id field_values self none = Same-NoNew self self (same self)
xadd_to-Safe now key id field_values self (some s) = go (next_stream_id now id s)
  where
    refused :
        (k : StreamKey) (o : Option TryExecuteResult)
        → Safe store_of self (checked key k field_values s self o)
    refused k (some r) = Same-NoNew self self (same self)
    refused k none = inserted-Safe key k field_values s self

    go :
        (o : Option StreamKey)
        → Safe store_of self (elim o as (λ x. Outcome (Store × TryExecuteResult)) [
          | none ↦ ok (self, too_small_id)
          | some k ↦ checked key k field_values s self (refusal k s)
        ])
    go none = Same-NoNew self self (same self)
    go (some k) = refused k (refusal k s)

pub xadd-Safe :
    (now : ℕ) (key : Key) (id : XaddStreamIdInput) (field_values : List Bytes) (self : Store)
    → Safe store_of self (xadd now key id field_values self)
unfolding xadd ensured
xadd-Safe now key id field_values self =
    let self' = or_stream key self (lookup key self.entries) in
    Safe-trans store_of self self' _
      (Same-NoNew self self' (or_stream-Same key self (lookup key self.entries)))
      (xadd_to-Safe now key id field_values self' (stream_at key self'))
