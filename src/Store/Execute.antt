-- ===== src/Store/Execute.antt =====
-- src/main.rs: `try_execute`. The clock is read once for a command, and once for a transaction.
pub mod Transactions
pub mod Waiters
pub mod Handlers
pub mod Unblocking
pub mod Examples
use rust_redis.Prelude.{ℕ, true, false, Option, none, some, List, [], ◌∷◌, Bytes, codes}
use rust_redis.Parser.{Outcome, ok, ◌>>=◌}
use rust_redis.Resp.{Resp, simple_string, bulk_string, null_bulk_string, null_array, array, vec}
use rust_redis.Command.{Command, Commands, nil, cons, modified_keys}
use rust_redis.Platform.{Platform}
use rust_redis.ClientSets.{ClientId}
use rust_redis.Store.{Store, TryExecuteResult, done}
use rust_redis.Store.Strings.{command_set, command_get, incr, type_of, command_keys}
use rust_redis.Store.Lists.{rpush, lpush, lpop, lrange, llen, blpop}
use rust_redis.Store.Streams.{xadd, xrange, xread}
use rust_redis.Store.Watches.{watch, unwatch, discard, track, lock_failed, cleaned, reply_of}
use rust_redis.Store.Zsets.{
  command_zadd, command_zrank, command_zrange, command_zcard, command_zscore, command_zrem,
  command_geoadd, command_geopos, command_geodist, command_geosearch,
}
use rust_redis.Store.Channels.{command_subscribe, command_unsubscribe, command_publish}
use rust_redis.Store.Users.{
  command_acl_whoami, command_acl_getuser, command_acl_setuser, command_auth,
}
use rust_redis.Store.Replicas.{command_replconf_ack, wait, info}
use rust_redis.Store.Settings.{command_config_get}

abbrev ping_reply : Option Bytes → Resp
ping_reply (some m) = bulk_string m
ping_reply none = simple_string (codes "PONG")

-- `match cmd`, without the recursive case.
unfoldable pub handle :
    Platform → ℕ → ClientId → Command → Store → Outcome (Store × TryExecuteResult)
handle p now client_id (Command.set key value ex px) self =
    ok (command_set now key value ex px self)
handle p now client_id (Command.get key) self = ok (command_get now key self)
handle p now client_id (Command.watch keys) self = ok (watch client_id keys self)
handle p now client_id Command.unwatch self = ok (unwatch client_id self)
handle p now client_id Command.discard self = ok (discard client_id self)
handle p now client_id (Command.incr key) self = ok (incr key self)
handle p now client_id (Command.xadd key id field_values) self = xadd now key id field_values self
handle p now client_id (Command.xread keys milliseconds ids) self = xread keys milliseconds ids self
handle p now client_id (Command.xrange key start end) self = xrange p.debug_key key start end self
handle p now client_id (Command.type_of key) self = ok (type_of key self)
handle p now client_id (Command.rpush key elements) self = ok (rpush key elements self)
handle p now client_id (Command.lpush key elements) self = ok (lpush key elements self)
handle p now client_id (Command.lpop key count) self = ok (lpop key count self)
handle p now client_id (Command.lrange key start end) self = lrange key start end self
handle p now client_id (Command.llen key) self = ok (llen key self)
handle p now client_id (Command.blpop keys timeout) self = ok (blpop keys self)
handle p now client_id (Command.info section) self = ok (info self)
handle p now client_id (Command.ping message) self = ok (self, done (ping_reply message))
handle p now client_id (Command.wait numreplicas timeout) self = ok (wait numreplicas timeout self)
handle p now client_id (Command.config_get parameter) self = ok (command_config_get parameter self)
handle p now client_id (Command.keys pattern) self = ok (command_keys self)
handle p now client_id (Command.subscribe channels) self = command_subscribe client_id channels self
handle p now client_id (Command.replconf_ack ack_bytes) self =
    ok (command_replconf_ack client_id ack_bytes self)
handle p now client_id (Command.publish channel message) self =
    ok (command_publish channel message self)
handle p now client_id (Command.unsubscribe channels) self =
    command_unsubscribe client_id channels self
handle p now client_id (Command.zadd key score member) self =
    ok (command_zadd key score member self)
handle p now client_id (Command.zrank key member) self = ok (command_zrank key member self)
handle p now client_id (Command.zrange key start stop) self =
    ok (command_zrange key start stop self)
handle p now client_id (Command.zcard key) self = ok (command_zcard key self)
handle p now client_id (Command.zscore key member) self = ok (command_zscore p key member self)
handle p now client_id (Command.zrem key member) self = ok (command_zrem key member self)
handle p now client_id (Command.geoadd key longitude latitude member) self =
    ok (command_geoadd p key longitude latitude member self)
handle p now client_id (Command.geopos key members) self = ok (command_geopos p key members self)
handle p now client_id (Command.geodist key member1 member2) self =
    ok (command_geodist p key member1 member2 self)
handle p now client_id (Command.geosearch key longitude latitude radius unit) self =
    command_geosearch p key longitude latitude radius unit self
handle p now client_id Command.acl_whoami self = ok (command_acl_whoami self)
handle p now client_id (Command.acl_getuser username) self = ok (command_acl_getuser username self)
handle p now client_id (Command.acl_setuser username password) self =
    ok (command_acl_setuser p username password self)
handle p now client_id (Command.auth username password) self =
    ok (command_auth p username password self)
handle p now client_id _ self = ok (self, done null_bulk_string)

-- A command that is not a transaction: the keys that it modifies are marked, and it is handled.
abbrev pub execute_plain :
    Platform → ℕ → ClientId → Command → Store → Outcome (Store × TryExecuteResult)
execute_plain p now client_id cmd self =
    handle p now client_id cmd (track client_id (modified_keys cmd) self)

unfoldable mutual
  pub try_execute : Platform → ℕ → ClientId → Command → Store → Outcome (Store × TryExecuteResult)
  try_execute p now client_id (Command.internal_execute_tx commands) self =
      let run = execute_all p now client_id commands self in
      elim (lock_failed client_id self.watched_keys) [
        | true ↦ ok (cleaned client_id self, done null_array)
        | false ↦ (do
          (replies, self') ← run
          ok (cleaned client_id self', done (array (vec replies))))
      ]
  try_execute p now client_id cmd self = execute_plain p now client_id cmd self

  pub execute_all : Platform → ℕ → ClientId → Commands → Store → Outcome (List Resp × Store)
  execute_all p now client_id nil self = ok ([], self)
  execute_all p now client_id (cons cmd commands) self = do
    (self', resp) ← try_execute p now client_id cmd self
    (replies, self'') ← execute_all p now client_id commands self'
    ok (reply_of resp ∷ replies, self'')
