-- ===== src/Store/Execute/Unblocking.antt =====
-- src/main.rs: `try_execute` as a whole and the tables of blocked clients.
use rust_redis.Prelude.{ℕ, refl, Bool, true, false, List, arith}
use rust_redis.Prelude.Keys.{nat_eq, bytes_keys}
use rust_redis.Parser.{Outcome, ok, ◌>>=◌}
use rust_redis.Resp.{Resp, null_array, array, vec}
use rust_redis.Command.{Command, Commands, nil, cons, modified_keys}
use rust_redis.Platform.{Platform}
use rust_redis.ClientSets.{ClientId}
use rust_redis.Store.{Store, TryExecuteResult, put, done}
use rust_redis.Store.Strings.{command_set, command_get, type_of, command_keys}
use rust_redis.Store.Lists.{llen}
use rust_redis.Store.Watches.{watch, unwatch, discard, track, cleaned, lock_failed}
use rust_redis.Store.Zsets.{
  command_zrank, command_zrange, command_zcard, command_zscore, command_geopos, command_geodist,
}
use rust_redis.Store.Channels.{command_publish}
use rust_redis.Store.Users.{command_acl_whoami, command_acl_getuser, command_acl_setuser}
use rust_redis.Store.Replicas.{info}
use rust_redis.Store.Settings.{command_config_get}
use rust_redis.Store.Execute.{handle, execute_plain, try_execute, execute_all}
use rust_redis.Store.Execute.Waiters.{Safe-trans, Same-NoNew, Safe, Safe-bind}
use rust_redis.Store.Execute.Handlers.{
  incr-Same, lpop-Same, lrange-Safe, blpop-Same, xread-Safe, xrange-Safe, zadd-Same, zrem-Same,
  geoadd-Same, geosearch-Safe, subscribe-Safe, unsubscribe-Safe, auth-Same, wait-Same,
  replconf_ack-NoNew, rpush-NoNew, lpush-NoNew, xadd-Safe, same, store_of,
}

handle-Safe :
    (p : Platform) (now : ℕ) (c : ClientId) (cmd : Command) (self : Store)
    → Safe store_of self (handle p now c cmd self)
unfolding handle command_set put command_get watch unwatch discard type_of llen info
    command_config_get command_keys command_publish command_zrank command_zrange command_zcard
    command_zscore command_geopos command_geodist command_acl_whoami command_acl_getuser
    command_acl_setuser
handle-Safe p now c (Command.incr key) self = Same-NoNew self _ (incr-Same key self)
handle-Safe p now c (Command.xadd key id field_values) self = xadd-Safe now key id field_values self
handle-Safe p now c (Command.xread keys milliseconds ids) self =
    xread-Safe keys milliseconds ids self
handle-Safe p now c (Command.xrange key start end) self = xrange-Safe p.debug_key key start end self
handle-Safe p now c (Command.rpush key elements) self = rpush-NoNew key elements self
handle-Safe p now c (Command.lpush key elements) self = lpush-NoNew key elements self
handle-Safe p now c (Command.lpop key count) self = Same-NoNew self _ (lpop-Same key count self)
handle-Safe p now c (Command.lrange key start end) self = lrange-Safe key start end self
handle-Safe p now c (Command.llen key) self =
    Same-NoNew self _ (ground arith, ground arith, ground arith)
handle-Safe p now c (Command.blpop keys timeout) self = Same-NoNew self _ (blpop-Same keys self)
handle-Safe p now c (Command.wait numreplicas timeout) self =
    Same-NoNew self _ (wait-Same numreplicas timeout self)
handle-Safe p now c (Command.subscribe channels) self = subscribe-Safe c channels self
handle-Safe p now c (Command.replconf_ack ack_bytes) self = replconf_ack-NoNew c ack_bytes self
handle-Safe p now c (Command.unsubscribe channels) self = unsubscribe-Safe c channels self
handle-Safe p now c (Command.zadd key score member) self =
    Same-NoNew self _ (zadd-Same key score member self)
handle-Safe p now c (Command.zrem key member) self = Same-NoNew self _ (zrem-Same key member self)
handle-Safe p now c (Command.geoadd key longitude latitude member) self =
    Same-NoNew self _ (geoadd-Same p key longitude latitude member self)
handle-Safe p now c (Command.geosearch key longitude latitude radius unit) self =
    geosearch-Safe p key longitude latitude radius unit self
handle-Safe p now c (Command.auth username password) self =
    Same-NoNew self _ (auth-Same p username password self)
handle-Safe p now c _ self = Same-NoNew self _ (refl, refl, refl)

abbrev replied_of : List Resp × Store → Store
replied_of (replies, self) = self

transaction-Safe :
    (c : ClientId) (self : Store) (b : Bool) (run : Outcome (List Resp × Store))
    → Safe replied_of self run
    → Safe store_of self (elim b as (λ x. Outcome (Store × TryExecuteResult)) [
      | true ↦ ok (cleaned c self, done null_array)
      | false ↦ (do (replies, self') ← run; ok (cleaned c self', done (array (vec replies))))
    ])
transaction-Safe c self true run h = Same-NoNew self _ (refl, refl, refl)
transaction-Safe c self false run h =
    Safe-bind replied_of store_of self run _ h
      (λ (replies, self'). Same-NoNew self' (cleaned c self') (refl, refl, refl))

plain-Safe :
    (p : Platform) (now : ℕ) (c : ClientId) (cmd : Command) (self : Store)
    → Safe store_of self (execute_plain p now c cmd self)
plain-Safe p now c cmd self =
    let tracked = track c (modified_keys cmd) self in
    Safe-trans store_of self tracked (handle p now c cmd tracked)
      (Same-NoNew self tracked (refl, refl, refl)) (handle-Safe p now c cmd tracked)

mutual
  unfolding try_execute

  -- A command, a transaction too, blocks no client by itself.
  pub try_execute-Safe :
      (p : Platform) (now : ℕ) (c : ClientId) (cmd : Command) (self : Store)
      → Safe store_of self (try_execute p now c cmd self)
  try_execute-Safe p now c (Command.internal_execute_tx commands) self =
      transaction-Safe c self (lock_failed c self.watched_keys) (execute_all p now c commands self)
        (execute_all-Safe p now c commands self)
  try_execute-Safe p now c cmd self = plain-Safe p now c cmd self

  execute_all-Safe :
      (p : Platform) (now : ℕ) (c : ClientId) (commands : Commands) (self : Store)
      → Safe replied_of self (execute_all p now c commands self)
  execute_all-Safe p now c nil self = Same-NoNew self self (same self)
  execute_all-Safe p now c (cons cmd commands) self =
      Safe-bind store_of replied_of self (try_execute p now c cmd self) _
        (try_execute-Safe p now c cmd self)
        (λ (self', resp).
          Safe-bind replied_of replied_of self' (execute_all p now c commands self') _
            (execute_all-Safe p now c commands self')
            (λ (replies, self''). Same-NoNew self'' self'' (same self'')))
