-- ===== src/Server.antt =====
-- src/main.rs: `run_store`, the loop that owns the store. A step takes one envelope from the queue.
-- A task that sleeps and then sends an envelope is an entry of `timers`, with its milliseconds, and
-- stays there; when it wakes up, its envelope is one of those that come. The channel that a client
-- is registered with is named by the client's id.
pub mod Durable
pub mod Waiting
pub mod Timers
pub mod Replies
pub mod Expiry
pub mod Examples
use rust_redis.Prelude.{
  ℕ, ◌+◌, ◌%◌, Bool, true, false, Option, none, some, List, [], ◌∷◌, ◌++◌, Bytes, u64_mod,
}
use rust_redis.Prelude.Keys.{Dict, nat_eq, lookup, insert, remove}
use rust_redis.Prelude.Int.{pos}
use rust_redis.Parser.{Outcome, ok, panic, ◌>>=◌}
use rust_redis.Resp.{Resp, integer, null_array, file, len}
use rust_redis.Command.{F64, Command, replconf_get_ack, block_timeout, is_replicatable}
use rust_redis.Command.Wire.{to_resp}
use rust_redis.Platform.{Platform}
use rust_redis.ClientSets.{ClientId}
use rust_redis.Rdb.{serialize}
use rust_redis.Aof.{Aof, append_some, get_initial_commands}
use rust_redis.Store.{
  Store, Channel, WaiterId, StorePush, TryExecuteResult, done, blocking_xread, blocking_blpop,
  wait_command, nothing,
}
use rust_redis.Store.Execute.{try_execute}
use rust_redis.Store.Replicas.{count_acked}
use rust_redis.Store.Saved.{to_rdb}
use rust_redis.Store.Users.{need_auth}

pub data Envelope : Type 0 where
  with_reply : ClientId → Command → Channel → Envelope
  timeout_xread : WaiterId → Envelope
  timeout_blpop : WaiterId → Envelope
  add_replica : ClientId → Channel → Envelope
  replicate : Command → Envelope
  wait_command_timeout : WaiterId → Envelope
  register_client : ClientId → Channel → Envelope
  unregister_client : ClientId → Envelope

pub record Server : Type 0 where
  pub store : Store
  pub aof : Aof
  pub timers : List (ℕ × Envelope)
  -- What was sent to connections on the channels of `RegisterClient`.
  pub welcomed : List (Channel × Bool)

abbrev pub with_store : Server → Store → Server
with_store self store = record self { store = store }

abbrev pub reply : Channel → Resp → Store → Store
reply channel r self = record self { sent = self.sent ++ (channel, r) ∷ [] }

-- 1000.0
abbrev thousand : F64
thousand = 0x408f400000000000

abbrev pub to_millis : Platform → F64 → ℕ
to_millis p timeout = p.floats.as_u64 (p.floats.mul timeout thousand)

-- `for (is_replica, tx) in store.clients.values() { if *is_replica { tx.send(push).await; } }`
unfoldable pub push_replicas : StorePush → Dict ClientId Bool → List (ClientId × StorePush)
push_replicas push [] = []
push_replicas push ((client_id, is_replica) ∷ clients) =
    let rest = push_replicas push clients in
    elim is_replica [ true ↦ (client_id, push) ∷ rest | false ↦ rest ]

unfoldable pub push_all : StorePush → Store → Store
unfolding push_replicas
push_all push self = record self { pushed = self.pushed ++ push_replicas push self.clients }

-- `if let Some(replication_command) = replication_command { … }`
abbrev pub replicated : Bool → Command → Store → Store
replicated true command self = push_all (StorePush.replicate command) self
replicated false command self = self

-- A write is counted before it is executed.
abbrev counted : Resp → Store → Store
counted r self = record self {
  pending_write_commands_for_wait = true;
  master_ack = (self.master_ack + len r) % u64_mod;
}

unfoldable pub count_write : Bool → Option Resp → Store → Outcome Store
count_write false r self = ok self
count_write true none self = panic
count_write true (some r) self = ok (counted r self)

-- A client that WAIT blocks: the replicas are asked for their offsets if there were writes.
abbrev pub ask_replicas : Bool → Store → Store
ask_replicas true self = record (push_all (StorePush.replicate replconf_get_ack) self) {
  pending_write_commands_for_wait = false;
}
ask_replicas false self = self

abbrev pub spawn : Option ℕ → Envelope → Server → Outcome Server
spawn none envelope self = panic
spawn (some ms) envelope self = ok (record self { timers = self.timers ++ (ms, envelope) ∷ [] })

-- `match store.try_execute(client_id, command)`
unfoldable pub finish :
    Bool → Command → Channel → Option ℕ → Server → Store → TryExecuteResult → Outcome Server
finish is_write command channel timeout self store (done r) =
    ok (with_store self (replicated is_write command (reply channel r store)))
finish is_write command channel timeout self store (blocking_xread waiter_id keys ids) =
    spawn timeout (timeout_xread waiter_id) (
      with_store self (record store {
        stream_xread_waiters = insert waiter_id (channel, keys, ids) store.stream_xread_waiters;
      }))
finish is_write command channel timeout self store (blocking_blpop waiter_id keys) =
    spawn timeout (timeout_blpop waiter_id) (
      with_store self (record store {
        list_blpop_waiters = insert waiter_id (channel, keys) store.list_blpop_waiters;
      }))
finish is_write command channel timeout self store (wait_command waiter_id numreplicas ms) =
    let asked = ask_replicas store.pending_write_commands_for_wait store in
    spawn (some ms) (wait_command_timeout waiter_id) (
      with_store self (record asked {
        wait_waiters = insert waiter_id (channel, numreplicas, asked.master_ack) asked.wait_waiters;
      }))
finish is_write command channel timeout self store nothing = ok (with_store self store)

-- `Envelope::WithReply`
unfoldable pub execute : Platform → ℕ → ClientId → Command → Channel → Server → Outcome Server
unfolding count_write finish block_timeout is_replicatable append_some
execute p now client_id command channel self = do
  r ← to_resp command
  store ← count_write (is_replicatable command) r self.store
  (store', result) ← try_execute p now client_id command store
  finish (is_replicatable command) command channel (block_timeout (to_millis p) command)
      (record self { aof = append_some r self.aof }) store' result

-- The arms of the three timeouts: the waiter leaves the table, if it is still in it.
unfoldable pub expire_xread : WaiterId → Store → Store
expire_xread waiter_id self = elim (lookup waiter_id self.stream_xread_waiters) [
  | none ↦ self
  | some (channel, keys, ids) ↦
      reply channel null_array
        (record self { stream_xread_waiters = remove waiter_id self.stream_xread_waiters })
]

unfoldable pub expire_blpop : WaiterId → Store → Store
expire_blpop waiter_id self = elim (lookup waiter_id self.list_blpop_waiters) [
  | none ↦ self
  | some (channel, keys) ↦
      reply channel null_array
        (record self { list_blpop_waiters = remove waiter_id self.list_blpop_waiters })
]

unfoldable pub expire_wait : WaiterId → Store → Store
expire_wait waiter_id self = elim (lookup waiter_id self.wait_waiters) [
  | none ↦ self
  | some (channel, numreplicas, target) ↦
      reply channel (integer (pos (count_acked self target)))
        (record self { wait_waiters = remove waiter_id self.wait_waiters })
]

-- `entry(client_id).and_modify(|(is_replica, _)| *is_replica = true)`
abbrev marked : ClientId → Option Bool → Dict ClientId Bool → Dict ClientId Bool
marked client_id none clients = clients
marked client_id (some is_replica) clients = insert client_id true clients

-- `Envelope::AddReplica`
unfoldable pub attach : ClientId → Channel → Store → Store
attach client_id channel self =
    let self' = record self {
      clients = marked client_id (lookup client_id self.clients) self.clients;
    } in
    reply channel (file (serialize (to_rdb self'))) self'

-- `Envelope::RegisterClient`
unfoldable pub register : ClientId → Channel → Server → Server
unfolding need_auth
register client_id channel self =
    let store = self.store in
    record self {
      store = record store { clients = insert client_id false store.clients };
      welcomed = self.welcomed ++ (channel, need_auth store) ∷ [];
    }

-- `Envelope::UnregisterClient`
unfoldable pub unregister : ClientId → Store → Store
unregister client_id self = record self {
  clients = remove client_id self.clients;
  replica_acks = remove client_id self.replica_acks;
}

-- One round of the loop: `match e`.
unfoldable pub step : Platform → ℕ → Envelope → Server → Outcome Server
unfolding execute expire_xread expire_blpop expire_wait attach register unregister
step p now (with_reply client_id command channel) self =
    execute p now client_id command channel self
step p now (timeout_xread waiter_id) self = ok (with_store self (expire_xread waiter_id self.store))
step p now (timeout_blpop waiter_id) self = ok (with_store self (expire_blpop waiter_id self.store))
step p now (add_replica client_id channel) self =
    ok (with_store self (attach client_id channel self.store))
step p now (Envelope.replicate command) self = do
  (store, _) ← try_execute p now 0 command self.store
  ok (with_store self store)
step p now (wait_command_timeout waiter_id) self =
    ok (with_store self (expire_wait waiter_id self.store))
step p now (register_client client_id channel) self = ok (register client_id channel self)
step p now (unregister_client client_id) self =
    ok (with_store self (unregister client_id self.store))

-- `while let Some(e) = rx.recv().await`, over the envelopes that come, each with its time.
unfoldable pub run_store : Platform → List (ℕ × Envelope) → Server → Outcome Server
unfolding step
run_store p [] self = ok self
run_store p ((now, e) ∷ envelopes) self = do self' ← step p now e self; run_store p envelopes self'

-- What the store does on start-up with the commands of the append-only file.
unfoldable pub replay : Platform → ℕ → List Command → Store → Outcome Store
replay p now [] self = ok self
replay p now (command ∷ commands) self = do
  (self', _) ← try_execute p now 0 command self
  replay p now commands self'
